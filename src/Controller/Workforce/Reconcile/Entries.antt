-- ===== src/Controller/Workforce/Reconcile/Entries.antt =====
-- The check of the entry points: ready if and only if each can be read, and the missing ones are
-- those that cannot.
use mathlib.Core.List.{Memᴰ, append_assoc, append-nil}
use mathlib.Core.List.Memᴰ
use agent_runtime_operator.Base.{
  String, ◌≡◌, refl, sym, ap, ap₂, ◌∙◌, ◌↔◌, Bool, true, false, ◌&&◌, Option, none, some, List, [],
  ◌∷◌, ◌++◌, inl, inr, some-injective, is_nil, arith, Bool-cases, if◌then◌else◌,
}
use agent_runtime_operator.Api.Meta.{ObjectReference}
use agent_runtime_operator.Api.Workforce.{AgenticWorkforce}
use agent_runtime_operator.Cluster.{Result, ok, err, Reader, Result-cases}
use agent_runtime_operator.Controller.SubAgents.{agent_key}
use agent_runtime_operator.Controller.Workforce.Traverse.{text_of}
use agent_runtime_operator.Controller.Workforce.Reconcile.{
  Validation, note_entry, validate_each, validate_entry_point_agents,
}

abbrev pub is_ok {ℓ} : {A : Type ℓ} → Result A → Bool
is_ok (ok a) = true
is_ok (err e) = false

module _ (r : Reader) (namespace : String) where
  -- every entry point can be read
  abbrev pub AllThere : List (Option ObjectReference) → Type 0
  AllThere refs =
      (ref : ObjectReference)
      → Memᴰ (some ref) refs
      → is_ok (r.get_agent (agent_key ref namespace)) ≡ true

  abbrev unless_there : Bool → String → List String → List String
  unless_there there key rest = if there then rest else key ∷ rest

  -- the texts of the keys that cannot be read, in order
  abbrev pub missing_keys : List (Option ObjectReference) → List String
  missing_keys [] = []
  missing_keys (none ∷ refs) = missing_keys refs
  missing_keys (some ref ∷ refs) =
      let key = agent_key ref namespace in
      unless_there (is_ok (r.get_agent key)) (text_of key) (missing_keys refs)

  -- the loop over `refs` adds to `v` what it has found missing
  abbrev after : List (Option ObjectReference) → Validation → Validation
  after refs v = record {
    all_ready = v.all_ready && is_nil (missing_keys refs);
    missing_agents = v.missing_agents ++ missing_keys refs;
  }

  validate_each-after :
      (refs : List (Option ObjectReference)) (v : Validation)
      → validate_each r namespace refs v ≡ after refs v
  unfolding validate_each
  validate_each-after [] v =
      ap₂ {C = Validation} (λ b l. record { all_ready = b; missing_agents = l }) (ground arith)
        (sym (append-nil v.missing_agents))
  validate_each-after (none ∷ refs) v = validate_each-after refs v
  validate_each-after (some ref ∷ refs) v =
      let key = agent_key ref namespace in
      elim (Result-cases (r.get_agent key)) [
        | inl (a, e) ↦ rw (e, validate_each, missing_keys) (validate_each-after refs v)
        | inr (f, e) ↦
            rw (e, validate_each, missing_keys)
              (validate_each-after refs (note_entry key (err f) v)
                ∙ ap₂ {C = Validation} (λ b l. record { all_ready = b; missing_agents = l })
                    (ground arith)
                    (append_assoc v.missing_agents (text_of key ∷ []) (missing_keys refs)))
      ]

  missing_keys-nil :
      (refs : List (Option ObjectReference)) → (is_nil (missing_keys refs) ≡ true) ↔ AllThere refs
  missing_keys-nil [] = (λ h ref m. absurd (Memᴰ.not-nil m), λ h. refl)
  missing_keys-nil (none ∷ refs) = (
    λ h ref m. elim (Memᴰ.cases_cons m) [
      | inl here ↦ absurd (cc here)
      | inr later ↦ (missing_keys-nil refs).0 h ref later
    ],
    λ h. (missing_keys-nil refs).1 (λ ref m. h ref (Memᴰ.tail m)),
  )
  missing_keys-nil (some ref ∷ refs) =
      let key = agent_key ref namespace in
      elim (Bool-cases (is_ok (r.get_agent key))) [
        | inl there ↦
            rw (there, missing_keys)
              (
                λ h x m. elim (Memᴰ.cases_cons m) [
                  | inl here ↦
                      let same : x ≡ ref = some-injective here in
                      ap (λ k. is_ok (r.get_agent (agent_key k namespace))) same ∙ there
                  | inr later ↦ (missing_keys-nil refs).0 h x later
                ],
                λ h. (missing_keys-nil refs).1 (λ x m. h x (Memᴰ.tail m)),
              )
        | inr absent ↦
            rw (absent, missing_keys)
              (λ h. absurd (cc h), λ h. absurd (cc (sym absent ∙ h ref (Memᴰ.head refl))))
      ]

-- The validation of the entry points reports ready if and only if each entry point that is not nil
-- can be read from the API server. The missing agents are then none, and otherwise those that cannot
-- be read, in the order of the entry points.
pub validate_entry_point_agents_outcome :
    (r : Reader) (workforce : AgenticWorkforce)
    → let v = validate_entry_point_agents r workforce in
      let refs = workforce.spec.entry_point_agents in
      ((v.all_ready ≡ true) ↔ AllThere r workforce.namespace refs)
      × (v.all_ready ≡ is_nil v.missing_agents)
      × (v.missing_agents ≡ missing_keys r workforce.namespace refs)
unfolding validate_entry_point_agents
validate_entry_point_agents_outcome r workforce =
    let refs = workforce.spec.entry_point_agents in
    let v : Validation = record { all_ready = true; missing_agents = [] } in
    rw (validate_each-after r workforce.namespace refs v)
      (missing_keys-nil r workforce.namespace refs, refl, refl)
