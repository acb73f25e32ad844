-- ===== src/Controller/Workload/Again.antt =====
-- A second run of the function that `CreateOrUpdate` is given finds nothing to change, if its
-- assignments find nothing to change when only the owner references differ.
use agent_runtime_operator.Base.{
  String, ◌≡◌, refl, sym, ap, ◌∙◌, Bool, true, false, Option, none, some, List, [], Map,
  if◌then◌else◌, or_else,
}
use agent_runtime_operator.Base.Maps.{HasDistinctKeys}
use agent_runtime_operator.Api.Meta.{ObjectMeta, EmbeddedMetadata}
use agent_runtime_operator.Cluster.{Result, ok, ◌>>=◌, bind-ok, ok-injective}
use agent_runtime_operator.Controller.Util.{apply_common_metadata, labels_of, annotations_of}
use agent_runtime_operator.Controller.Workload.{Deployment, apply_labels}
use agent_runtime_operator.Controller.Workload.Laws.{apply_labels_idempotent}

-- What `ctrl.SetControllerReference` documents: it writes the owner references and nothing else, and
-- a second call finds its reference in place.
pub record SetsOwner (set : ObjectMeta → ObjectMeta → Result ObjectMeta) : Type 0 where
  pub only_owner :
      (owner object object' : ObjectMeta)
      → set owner object ≡ ok object'
      → object' ≡ record object { owner_references = object'.owner_references }
  pub again :
      (owner object object' : ObjectMeta)
      → set owner object ≡ ok object'
      → set owner object' ≡ ok object'

abbrev pub owned : List String → ObjectMeta → ObjectMeta
owned owners m = record m { owner_references = owners }

module _ (set : ObjectMeta → ObjectMeta → Result ObjectMeta) (laws : SetsOwner set)
    (owner : ObjectMeta) {X : Type 0} (meta : X → ObjectMeta) (put : X → ObjectMeta → X)
    (put-meta : (x : X) → put x (meta x) ≡ x)
    (meta-put : (x : X) (m : ObjectMeta) → meta (put x m) ≡ m) (update : X → X) where
  -- the assignments and then the owner
  abbrev pub mutate : X → Result X
  mutate x = set owner (meta (update x)) >>= λ m. ok (put (update x) m)

  pub mutate_again :
      (x x' : X)
      → ((owners : List String)
          → let once = put (update x) (owned owners (meta (update x))) in update once ≡ once)
      → mutate x ≡ ok x'
      → mutate x' ≡ ok x'
  mutate_again x x' again h =
      let (m, e, h') = bind-ok (set owner (meta (update x))) (λ m. ok (put (update x) m)) h in
      let is_put : put (update x) m ≡ x' = ok-injective h' in
      let form : put (update x) (owned m.owner_references (meta (update x))) ≡ x' =
        ap (put (update x)) (sym (laws.only_owner owner (meta (update x)) m e)) ∙ is_put in
      let same : update x' ≡ x' = ap update (sym form) ∙ again m.owner_references ∙ form in
      let is_meta : meta x' ≡ m = ap meta (sym is_put) ∙ meta-put (update x) m in
      let kept : set owner (meta x') ≡ ok (meta x') =
        ap (set owner) is_meta ∙ laws.again owner (meta (update x)) m e ∙ ap ok (sym is_meta) in
      ap (λ y. set owner (meta y) >>= λ m. ok (put y m)) same
      ∙ ap (λ r. r >>= λ m. ok (put x' m)) kept
      ∙ ap ok (put-meta x')

apply_labels-owned :
    (owners : List String) (m : ObjectMeta) (common : Option EmbeddedMetadata)
    (managed : Map String)
    → apply_labels (owned owners m) common managed ≡ owned owners (apply_labels m common managed)
unfolding apply_labels apply_common_metadata
apply_labels-owned owners m none managed = refl
apply_labels-owned owners m (some c) managed = refl

apply_labels-created :
    (m : ObjectMeta) (common : Option EmbeddedMetadata) (managed : Map String)
    → (apply_labels m common managed).created ≡ m.created
unfolding apply_labels apply_common_metadata
apply_labels-created m none managed = refl
apply_labels-created m (some c) managed = refl

pub apply_labels_again :
    (owners : List String) (m : ObjectMeta) (common : Option EmbeddedMetadata)
    (managed : Map String)
    → HasDistinctKeys (or_else m.labels [])
    → HasDistinctKeys (labels_of common)
    → HasDistinctKeys (annotations_of common)
    → HasDistinctKeys managed
    → apply_labels (owned owners (apply_labels m common managed)) common managed
      ≡ owned owners (apply_labels m common managed)
apply_labels_again owners m common managed dl dc da dm =
    apply_labels-owned owners (apply_labels m common managed) common managed
    ∙ ap (owned owners) (apply_labels_idempotent m common managed dl dc da dm)

-- the selector, which is set on creation only
pub selector_again :
    (owners : List String) (m : ObjectMeta) (common : Option EmbeddedMetadata)
    (managed selector : Map String) (old : Option (Map String))
    → (if (owned owners (apply_labels m common managed)).created
        then (if m.created then old else some selector)
        else some selector)
      ≡ (if m.created then old else some selector)
selector_again owners m common managed selector old =
    rw (apply_labels-created m common managed) (chosen m.created)
  where
    chosen :
        (b : Bool)
        → (if b then (if b then old else some selector) else some selector)
          ≡ (if b then old else some selector)
    chosen true = refl
    chosen false = refl

pub deployment-eq :
    (d e : Deployment)
    → d.metadata ≡ e.metadata
    → d.selector ≡ e.selector
    → d.replicas ≡ e.replicas
    → d.template_labels ≡ e.template_labels
    → d.template_annotations ≡ e.template_annotations
    → d.pod ≡ e.pod
    → d ≡ e
deployment-eq d e m s r l a p = cc
