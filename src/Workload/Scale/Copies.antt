-- ===== src/Workload/Scale/Copies.antt =====
-- What `Read` of internal/workload/scale.go returns.
use kube_workload_lm.Base.{ok, err, ◌≡◌, refl, subst, ok_injective, arith}
use kube_workload_lm.Workload.{Workload}
use kube_workload_lm.Workload.Scale.{ScaleClient, get, read, read_with, Answer}

module _ (C : ScaleClient) where
  read_with_copy :
      (current live : Workload) (answer : Answer C C.Scale)
      → (read_with C current answer).0 ≡ ok live
      → live ≡ record current { current_replicas = live.current_replicas }
  unfolding read_with
  read_with_copy current live (err e, s) h = grind arith
  read_with_copy current live (ok scale, s) h =
      subst (λ l. l ≡ record current { current_replicas = l.current_replicas })
        (ok_injective (record current { current_replicas = C.replicas scale }) live h) refl

  -- If `Read` succeeds, it returns the workload that it was given, except for the replicas.
  pub read_copies :
      (current live : Workload) (s : C.State)
      → (read C current s).0 ≡ ok live
      → live ≡ record current { current_replicas = live.current_replicas }
  unfolding read
  read_copies current live s h = read_with_copy current live (get C current s) h
