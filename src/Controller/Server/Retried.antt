-- ===== src/Controller/Server/Retried.antt =====
-- A retried status update that succeeds has written what its function sets, from an object that
-- differs from the first one only where the function writes.
use agent_runtime_operator.Base.{String, ◌≡◌, refl, sym, ap, ap₂, ◌∙◌}
use agent_runtime_operator.Cluster.{Outcome, ok, err}
use agent_runtime_operator.Controller.Server.{Call, ApiServer, wrapped, write_status}
use agent_runtime_operator.Controller.Server.Laws.{IsApiServer, Runs-ok}

pub wrapped-ok : (prefix : String) (o : Outcome) → wrapped prefix o ≡ ok tt → o ≡ ok tt
wrapped-ok prefix (ok tt) h = refl
wrapped-ok prefix (err e) h = cc

module _ (api : ApiServer) (laws : IsApiServer api) {O : Type 0} (prefix : String)
    (update : O → Call api.State) (set : O → O) where
  abbrev pub write : Call (O × api.State)
  write x = write_status prefix update (set x.0) x.1

  write-ok :
      (o o' : O) (s s' : api.State)
      → write (o, s) ≡ (ok tt, (o', s'))
      → update (set o) s ≡ (ok tt, s')
  write-ok o o' s s' h =
      let result = update (set o) s in
      ap₂ (λ (x : Outcome) (t : api.State). (x, t)) (wrapped-ok prefix result.0 (ap (λ x. x.0) h))
        (ap (λ x. x.1.1) h)

  pub retried :
      (IsSame : O → O → Type 0)
      → ((o a : O) → IsSame o a → IsSame o (set a))
      → (o o' : O) (s s' : api.State) → IsSame o o
      → api.retry_on_conflict (O × api.State) write (o, s) ≡ (ok tt, (o', s'))
      → (a : O) × IsSame o a × ((t : api.State) × (update (set a) t ≡ (ok tt, s')))
  retried IsSame keeps o o' s s' same h =
      let ((a, t), same', out) =
        Runs-ok (λ x. IsSame o x.0) write (λ x q. keeps o x.0 q) (o, s)
          (api.retry_on_conflict (O × api.State) write (o, s)) (laws.retries write (o, s)) same in
      (a, same', (t, write-ok a o' t s' (sym out ∙ h)))
