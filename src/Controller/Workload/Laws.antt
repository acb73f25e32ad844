-- ===== src/Controller/Workload/Laws.antt =====
-- What the shared steps on Deployments and Services guarantee: other containers are left alone, the
-- managed labels win, and a second application changes nothing.
use agent_runtime_operator.Base.{
  String, ◌≡◌, refl, ap, ap₂, Option, none, some, List, [], ◌∷◌, ◌==◌, eq_refl, arith, Map,
  if◌then◌else◌, or_else, find_first,
}
use agent_runtime_operator.Base.Maps
use agent_runtime_operator.Base.Maps.{HasDistinctKeys, over, lookup-copy, copy_present, copy-Holds}
use agent_runtime_operator.Base.Maps.Idempotent.{copy-copy_idempotent}
use agent_runtime_operator.Api.Meta.{ObjectMeta, EmbeddedMetadata}
use agent_runtime_operator.Controller.Util.{
  apply_common_metadata, labels_of, annotations_of, copy_into,
}
use agent_runtime_operator.Controller.Util.Metadata.{copy_into-copy}
use agent_runtime_operator.Controller.Workload.{
  Container, blank_container, update_container, apply_labels,
}

-- the containers with another name
abbrev pub others : String → List Container → List Container
others name [] = []
others name (c ∷ cs) = let rest = others name cs in if c.name == name then rest else c ∷ rest

abbrev pub find_container : String → List Container → Option Container
find_container name = find_first (λ c. c.name == name)

module _ (name : String) (update : Container → Container)
    (keeps_name : (c : Container) → (update c).name ≡ c.name) where
  -- The containers with another name stay, in their order.
  pub update_container-others :
      (cs : List Container) → others name (update_container name update cs) ≡ others name cs
  unfolding update_container
  update_container-others [] = ground (arith, keeps_name (blank_container name), eq_refl name)
  update_container-others (c ∷ cs) = ground (arith, keeps_name c, update_container-others cs)

  -- The first container of the name is the update of the one that was there, or of a blank one.
  pub update_container-find :
      (cs : List Container)
      → find_container name (update_container name update cs)
        ≡ some (update (or_else (find_container name cs) (blank_container name)))
  unfolding update_container
  update_container-find [] = ground (arith, keeps_name (blank_container name), eq_refl name)
  update_container-find (c ∷ cs) = ground (arith, keeps_name c, update_container-find cs)

  pub update_container_idempotent :
      ((c : Container) → update (update c) ≡ update c)
      → (cs : List Container)
      → update_container name update (update_container name update cs)
        ≡ update_container name update cs
  unfolding update_container
  update_container_idempotent twice [] =
      ground (arith, keeps_name (blank_container name), eq_refl name, twice (blank_container name))
  update_container_idempotent twice (c ∷ cs) =
      ground (arith, keeps_name c, twice c, update_container_idempotent twice cs)

-- If the user's and the managed labels have no key twice, then for every key the label is the
-- managed one, or else the user's, or else the one that was there.
pub apply_labels-lookup :
    (meta : ObjectMeta) (common : Option EmbeddedMetadata) (managed : Map String) (key : String)
    → HasDistinctKeys (labels_of common)
    → HasDistinctKeys managed
    → Maps.lookup key (or_else (apply_labels meta common managed).labels [])
      ≡ over
          (Maps.lookup key managed)
          (over (Maps.lookup key (labels_of common)) (Maps.lookup key (or_else meta.labels [])))
unfolding apply_labels apply_common_metadata Maps.lookup
apply_labels-lookup meta none managed key d d' = lookup-copy key (or_else meta.labels []) managed d'
apply_labels-lookup meta (some common) managed key d d' =
    rw
      (
        copy_into-copy (some (or_else meta.labels [])) common.labels,
        lookup-copy key (Maps.copy (or_else meta.labels []) common.labels) managed d',
        lookup-copy key (or_else meta.labels []) common.labels d,
      )
      refl

copy_into_twice :
    (dst : Option (Map String)) (src : Map String)
    → HasDistinctKeys src
    → copy_into (copy_into dst src) src ≡ copy_into dst src
copy_into_twice dst [] d = refl
copy_into_twice dst (e ∷ src) d = ap some (
    copy_present (Maps.copy (or_else dst []) (e ∷ src)) (e ∷ src)
      (copy-Holds (or_else dst []) (e ∷ src) d))

labels_twice :
    (labels : Option (Map String)) (src managed : Map String)
    → HasDistinctKeys (or_else labels [])
    → HasDistinctKeys src
    → HasDistinctKeys managed
    → Maps.copy
        (or_else
          (copy_into
            (some (Maps.copy (or_else (copy_into (some (or_else labels [])) src) []) managed))
            src)
          [])
        managed
      ≡ Maps.copy (or_else (copy_into (some (or_else labels [])) src) []) managed
labels_twice labels src managed dl ds dm =
    rw
      (
        copy_into-copy (some (or_else labels [])) src,
        copy_into-copy (some (Maps.copy (Maps.copy (or_else labels []) src) managed)) src,
      )
      (copy-copy_idempotent (or_else labels []) src managed dl ds dm)

-- If no map of labels or annotations has a key twice, to apply the labels a second time changes
-- nothing.
pub apply_labels_idempotent :
    (meta : ObjectMeta) (common : Option EmbeddedMetadata) (managed : Map String)
    → HasDistinctKeys (or_else meta.labels [])
    → HasDistinctKeys (labels_of common)
    → HasDistinctKeys (annotations_of common)
    → HasDistinctKeys managed
    → apply_labels (apply_labels meta common managed) common managed
      ≡ apply_labels meta common managed
unfolding apply_labels apply_common_metadata
apply_labels_idempotent meta none managed dl dc da dm =
    ap (λ l. record meta { labels = some l })
      (copy_present (Maps.copy (or_else meta.labels []) managed) managed
        (copy-Holds (or_else meta.labels []) managed dm))
apply_labels_idempotent meta (some common) managed dl dc da dm =
    ap₂ (λ l a. record meta { labels = some l; annotations = a })
      (labels_twice meta.labels common.labels managed dl dc dm)
      (copy_into_twice meta.annotations common.annotations da)
