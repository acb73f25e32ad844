-- ===== src/Controller/Workforce/Traverse/Correct.antt =====
-- The whole traversal of a workforce: it returns, and it lists exactly the agents that the entry
-- points lead to.
use mathlib.Core.List.{Memᴰ}
use mathlib.Core.List.Memᴰ
use mathlib.Core.Logic.{∥∥₁_elim}
use mathlib.Core.Bool.{So-prop}
use agent_runtime_operator.Base.{
  ℕ, ◌≤◌, ◌<◌, String, ◌≡◌, refl, sym, ◌∙◌, ◌↔◌, true, Option, none, some, List, [], ◌∷◌, arith,
  eq_iff, Option-cases, some-injective, inl, inr, length,
}
use agent_runtime_operator.Base.Maps
use agent_runtime_operator.Api.Meta.{ObjectReference, NamespacedName}
use agent_runtime_operator.Api.Workforce.{TransitiveAgent}
use agent_runtime_operator.Cluster.{Reader}
use agent_runtime_operator.Controller.SubAgents.{agent_key}
use agent_runtime_operator.Controller.Workforce.Traverse.{
  Traversal, empty_traversal, text_of, is_visited, maps_of, traverse_agent, traverse_entries,
}
use agent_runtime_operator.Controller.Workforce.Traverse.Steps.{
  IsUniverse, Extends, Extends-refl, Extends-trans,
}
use agent_runtime_operator.Controller.Workforce.Traverse.Visits.{
  maps_of-some, text_of-injective, traverse_agent-Extends,
}
use agent_runtime_operator.Controller.Workforce.Traverse.Reach.{
  Reach, entry, step, cluster_agent, IsSound, mark-IsSound, record_remote-IsSound,
}
use agent_runtime_operator.Controller.Workforce.Traverse.Invariant.{traverse_entries-keeps}
use agent_runtime_operator.Controller.Workforce.Traverse.Bound.{
  unvisited, unvisited-le, traverse_agent_ends,
}

unvisited_at_most : (ks : List NamespacedName) (s : Traversal) → unvisited ks s ≤ length ks
unvisited_at_most [] s = omega arith
unvisited_at_most (k ∷ ks) s = ground (arith, unvisited_at_most ks s)

module _ (r : Reader) (universe : List NamespacedName) (uni : IsUniverse r universe)
    (namespace : String) where
  -- the entry points are in the universe
  abbrev pub HasEntries : List (Option ObjectReference) → Type 0
  HasEntries entries =
      (ref : ObjectReference) → Memᴰ (some ref) entries → Memᴰ (agent_key ref namespace) universe

  traverse_entries-Extends :
      (fuel : ℕ) (refs : List (Option ObjectReference)) (s s' : Traversal)
      → HasEntries refs
      → traverse_entries r fuel namespace refs s ≡ some s'
      → Extends r universe s s'
        × ((ref : ObjectReference)
            → Memᴰ (some ref) refs
            → is_visited (text_of (agent_key ref namespace)) s' ≡ true)
  unfolding traverse_entries
  traverse_entries-Extends fuel [] s s' inside h =
      let same : s ≡ s' = some-injective h in
      (rw (← same) (Extends-refl r universe s), λ ref n. absurd (Memᴰ.not-nil n))
  traverse_entries-Extends fuel (none ∷ refs) s s' inside h =
      let (rest, there) =
        traverse_entries-Extends fuel refs s s' (λ ref n. inside ref (Memᴰ.tail n)) h in
      (rest, λ ref n. elim (Memᴰ.cases_cons n) [ inl here ↦ cc | inr later ↦ there ref later ])
  traverse_entries-Extends fuel (some ref ∷ refs) s s' inside h =
      elim (Option-cases (maps_of (traverse_agent r fuel (agent_key ref namespace) s))) [
        | inl out ↦ absurd (ground (arith, out))
        | inr (t, e) ↦
            let (error, e') =
              maps_of-some (traverse_agent r fuel (agent_key ref namespace) s) t e in
            let (first, now) =
              traverse_agent-Extends r universe uni fuel (agent_key ref namespace) s t error
                (inside ref (Memᴰ.head refl)) e' in
            let (rest, there) =
              traverse_entries-Extends fuel refs t s' (λ x n. inside x (Memᴰ.tail n))
                (rw (e, traverse_entries) at h) in
            (
              Extends-trans r universe s t s' first rest,
              λ x n. elim (Memᴰ.cases_cons n) [
                | inl here ↦ let same : x ≡ ref = some-injective here in rw same (rest.kept _ now)
                | inr later ↦ there x later
              ],
            )
      ]

  traverse_entries_end :
      (fuel : ℕ) (refs : List (Option ObjectReference)) (s : Traversal)
      → HasEntries refs
      → unvisited universe s < fuel
      → (s' : Traversal) × (traverse_entries r fuel namespace refs s ≡ some s')
  unfolding traverse_entries
  traverse_entries_end fuel [] s inside enough = (s, refl)
  traverse_entries_end fuel (none ∷ refs) s inside enough =
      traverse_entries_end fuel refs s (λ ref n. inside ref (Memᴰ.tail n)) enough
  traverse_entries_end fuel (some ref ∷ refs) s inside enough =
      let key = agent_key ref namespace in
      let m = inside ref (Memᴰ.head refl) in
      let (t, error, e) = traverse_agent_ends r universe uni fuel key s m enough in
      let (first, _) = traverse_agent-Extends r universe uni fuel key s t error m e in
      let (s', e') =
        traverse_entries_end fuel refs t (λ x n. inside x (Memᴰ.tail n))
          (omega (arith, unvisited-le universe s t first.kept)) in
      (s', rw (e, traverse_entries) e')

  module _ (entries : List (Option ObjectReference)) (inside : HasEntries entries) where
    Reach-mem : (k : NamespacedName) → Reach r namespace entries k → Memᴰ k universe
    Reach-mem k (entry ref m) = inside ref m
    Reach-mem k (step j a sub ref p got m has) =
        uni.references j a sub ref (Reach-mem j p) got m has

    Reach-visited :
        (s : Traversal) (k : NamespacedName)
        → Extends r universe empty_traversal s
        → ((ref : ObjectReference)
            → Memᴰ (some ref) entries
            → is_visited (text_of (agent_key ref namespace)) s ≡ true)
        → Reach r namespace entries k
        → is_visited (text_of k) s ≡ true
    Reach-visited s k all first (entry ref m) = first ref m
    Reach-visited s k all first (step j a sub ref p got m has) =
        all.finished j (Reach-mem j p) (unfold Maps.lookup in refl) (Reach-visited s j all first p)
          a sub ref got m has

    -- what stands under the text of a key of the universe
    pub entry_of_key :
        (s : Traversal) (k : NamespacedName) (t : TransitiveAgent)
        → Memᴰ k universe
        → IsSound r namespace entries s
        → Maps.lookup (text_of k) s.visited ≡ some t
        → Reach r namespace entries k × (t ≡ cluster_agent k)
    entry_of_key s k t m sound e = elim (sound (text_of k) t e) [
      | inl c ↦
          let same : k ≡ c.agent =
            text_of-injective r universe uni k c.agent m (Reach-mem c.agent c.reached) c.keyed in
          rw same (c.reached, c.value)
      | inr c ↦ absurd (
          cc (
            sym (uni.urls k c.parent c.found c.sub m (Reach-mem c.parent c.reached) c.got c.member)
            ∙ (eq_iff c.sub.url (text_of k)).1 (sym c.keyed)))
    ]

    visited-Reach :
        (s : Traversal) (k : NamespacedName)
        → Memᴰ k universe
        → IsSound r namespace entries s
        → is_visited (text_of k) s ≡ true
        → Reach r namespace entries k
    visited-Reach s k m sound h = elim (Option-cases (Maps.lookup (text_of k) s.visited)) [
      | inl missing ↦ absurd (ground (arith, missing))
      | inr (t, e) ↦ (entry_of_key s k t m sound e).0
    ]

    -- Let the universe have the entry points and all references of its agents, with no slash in a
    -- namespace and no URL that is the text of a key. With more fuel than the universe has keys
    -- the traversal returns. Then an agent of the universe is in the map if and only if the entry
    -- points lead to it, and every entry of the map is such an agent or a remote agent of one.
    pub traverse_entries_correct :
        (fuel : ℕ)
        → length universe < fuel
        → (s : Traversal) × (traverse_entries r fuel namespace entries empty_traversal ≡ some s)
          × ((k : NamespacedName)
              → Memᴰ k universe
              → (is_visited (text_of k) s ≡ true) ↔ ∥ Reach r namespace entries k ∥₁)
          × IsSound r namespace entries s
    traverse_entries_correct fuel enough =
        let (s, e) =
          traverse_entries_end fuel entries empty_traversal inside
            (omega (arith, unvisited_at_most universe empty_traversal)) in
        let (all, first) = traverse_entries-Extends fuel entries empty_traversal s inside e in
        let sound =
          traverse_entries-keeps r namespace entries (IsSound r namespace entries)
            (mark-IsSound r namespace entries) (record_remote-IsSound r namespace entries)
            (λ t tools h. h) fuel entries empty_traversal s (λ ref n. n) e
            (unfold Maps.lookup in λ key t h. cc) in
        (
          s,
          e,
          (λ k m. (
            λ h. ∣ visited-Reach s k m sound h ∣₁,
            λ p. ∥∥₁_elim p (So-prop _) (Reach-visited s k all first),
          )),
          sound,
        )
