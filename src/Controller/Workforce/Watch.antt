-- ===== src/Controller/Workforce/Watch.antt =====
-- The watch on agents enqueues each workforce that mentions the agent, and none twice.
use mathlib.Core.List.{Memᴰ}
use mathlib.Core.List.Memᴰ
use mathlib.Core.Logic.{⊎_elim}
use agent_runtime_operator.Base.{
  String, ◌≡◌, ◌≢◌, ◌⊎◌, inl, inr, refl, sym, ap, ◌∙◌, Bool, true, false, ◌||◌, some, List, [], ◌∷◌,
  any, eq_iff, eq_refl, arith,
}
use agent_runtime_operator.Api.Meta.{ObjectReference, NamespacedName, key_of, same_key}
use agent_runtime_operator.Api.Keys.{same_key-eq, same_key_refl}
use agent_runtime_operator.Api.Agent.{Agent}
use agent_runtime_operator.Api.Workforce.{AgenticWorkforce, TransitiveAgent}
use agent_runtime_operator.Cluster.{ok, Reader}
use agent_runtime_operator.Controller.Util.{get_namespace_with_default}
use agent_runtime_operator.Controller.Workforce.{
  text_key, is_entry, is_transitive, mentions, contains, enqueue_each,
  find_workforces_referencing_agent,
}

-- no key stands twice
abbrev pub IsDistinct : List NamespacedName → Type 0
IsDistinct [] = Unit
IsDistinct (k ∷ ks) = (contains k ks ≡ false) × IsDistinct ks

contains-same :
    (j k : NamespacedName) (ks : List NamespacedName)
    → same_key j k ≡ true
    → contains j ks ≡ contains k ks
contains-same j k ks h = ap (λ i. contains i ks) (same_key-eq j k h)

module _ (agent : Agent) where
  enqueue_each-fresh :
      (ws : List AgenticWorkforce) (enqueued : List NamespacedName) (k : NamespacedName)
      → contains k enqueued ≡ true
      → contains k (enqueue_each agent ws enqueued) ≡ false
  unfolding enqueue_each
  enqueue_each-fresh [] enqueued k h = refl
  enqueue_each-fresh (w ∷ ws) enqueued k h =
      let key = key_of w.metadata in
      ground (
        arith,
        contains-same k key enqueued,
        enqueue_each-fresh ws enqueued k,
        enqueue_each-fresh ws (key ∷ enqueued) k,
      )

  enqueue_each-IsDistinct :
      (ws : List AgenticWorkforce) (enqueued : List NamespacedName)
      → IsDistinct (enqueue_each agent ws enqueued)
  unfolding enqueue_each
  enqueue_each-IsDistinct [] enqueued = tt
  enqueue_each-IsDistinct (w ∷ ws) enqueued =
      let key = key_of w.metadata in
      ground (
        arith,
        same_key_refl key,
        enqueue_each-fresh ws (key ∷ enqueued) key,
        enqueue_each-IsDistinct ws enqueued,
        enqueue_each-IsDistinct ws (key ∷ enqueued),
      )

  enqueue_each_complete :
      (ws : List AgenticWorkforce) (enqueued : List NamespacedName) (w : AgenticWorkforce)
      → Memᴰ w ws
      → mentions agent w ≡ true
      → (contains (key_of w.metadata) (enqueue_each agent ws enqueued)
          || contains (key_of w.metadata) enqueued)
        ≡ true
  unfolding enqueue_each
  enqueue_each_complete [] enqueued w m h = absurd (Memᴰ.not-nil m)
  enqueue_each_complete (v ∷ ws) enqueued w m h =
      ⊎_elim
        (λ here.
          let first : mentions agent v ≡ true = ap (mentions agent) (sym here) ∙ h in
          let same : key_of w.metadata ≡ key_of v.metadata = ap (λ x. key_of x.metadata) here in
          rw same (ground (arith, same_key_refl (key_of v.metadata))))
        (λ later. ground (
          arith,
          enqueue_each_complete ws enqueued w later h,
          enqueue_each_complete ws (key_of v.metadata ∷ enqueued) w later h,
        ))
        (Memᴰ.cases_cons m)

any_mem : {A : Type 0} (p : A → Bool) (a : A) (l : List A) → Memᴰ a l → p a ≡ true → any p l ≡ true
any_mem p a [] m h = absurd (Memᴰ.not-nil m)
any_mem p a (b ∷ l) m h = elim (Memᴰ.cases_cons m) [
  | inl same ↦ let here : p b ≡ true = ap p (sym same) ∙ h in ground arith
  | inr later ↦ let there = any_mem p a l later h in ground arith
]

-- The namespace of a reference of an object in `own` is `namespace`, that of the object where the
-- reference has none.
abbrev pub RefersInto : ObjectReference → String → String → Type 0
RefersInto ref own namespace =
    ((ref.namespace ≢ "") × (ref.namespace ≡ namespace))
    ⊎ ((ref.namespace ≡ "") × (own ≡ namespace))

-- An entry point of the workforce refers to the agent, or its status lists the agent.
abbrev pub Mentions : Agent → AgenticWorkforce → Type 0
Mentions agent w =
    ((ref : ObjectReference) × Memᴰ (some ref) w.spec.entry_point_agents
      × (ref.name ≡ agent.name)
      × RefersInto ref w.namespace agent.namespace)
    ⊎ ((t : TransitiveAgent) × Memᴰ t w.status.transitive_agents
        × (t.name ≡ agent.name)
        × (t.namespace ≡ agent.namespace))

RefersInto-namespace :
    (ref : ObjectReference) (own namespace : String)
    → RefersInto ref own namespace
    → get_namespace_with_default ref own ≡ namespace
unfolding get_namespace_with_default
RefersInto-namespace ref own namespace h = elim h [
  | inl (set, same) ↦ ground (arith, eq_iff ref.namespace "")
  | inr (unset, same) ↦ ground (arith, eq_iff ref.namespace "")
]

entry_lem :
    (agent : Agent) (namespace : String) (ref : ObjectReference)
    → ref.name ≡ agent.name
    → RefersInto ref namespace agent.namespace
    → is_entry agent namespace (some ref) ≡ true
unfolding is_entry
entry_lem agent namespace ref name into =
    rw (RefersInto-namespace ref namespace agent.namespace into, name)
      (eq_refl (text_key agent.namespace agent.name))

transitive_lem :
    (agent : Agent) (t : TransitiveAgent)
    → t.name ≡ agent.name
    → t.namespace ≡ agent.namespace
    → is_transitive agent t ≡ true
unfolding is_transitive
transitive_lem agent t name namespace =
    rw (name, namespace) (ground (arith, eq_refl agent.name, eq_refl agent.namespace))

mentions_lem : (agent : Agent) (w : AgenticWorkforce) → Mentions agent w → mentions agent w ≡ true
unfolding mentions
mentions_lem agent w h = elim h [
  | inl (ref, m, name, into) ↦
      let found =
        any_mem (is_entry agent w.namespace) (some ref) w.spec.entry_point_agents m
          (entry_lem agent w.namespace ref name into) in
      ground arith
  | inr (t, m, name, namespace) ↦
      let found =
        any_mem (is_transitive agent) t w.status.transitive_agents m
          (transitive_lem agent t name namespace) in
      ground arith
]

-- If the list of workforces is read, no workforce is enqueued twice, and each workforce of the list
-- is enqueued that has an entry point with the agent's name and namespace, where the workforce's
-- namespace stands for an empty one, or that has a transitive agent with this name and namespace in
-- its status.
pub find_workforces_referencing_agent_complete :
    (r : Reader) (agent : Agent) (workforces : List AgenticWorkforce)
    → r.list_workforces ≡ ok workforces
    → IsDistinct (find_workforces_referencing_agent r agent)
      × ((w : AgenticWorkforce)
          → Memᴰ w workforces
          → Mentions agent w
          → contains (key_of w.metadata) (find_workforces_referencing_agent r agent) ≡ true)
unfolding find_workforces_referencing_agent
find_workforces_referencing_agent_complete r agent workforces listed = rw listed (
  enqueue_each-IsDistinct agent workforces [],
  λ w m h.
      let mentioned = mentions_lem agent w h in
      ground (arith, enqueue_each_complete agent workforces [] w m mentioned),
)
