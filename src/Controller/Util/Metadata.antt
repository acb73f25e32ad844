-- ===== src/Controller/Util/Metadata.antt =====
-- Which labels and annotations win in `applyCommonMetadataToObjectMeta` and
-- `buildPodTemplateMetadata` of internal/controller/util.go.
use agent_runtime_operator.Base.{String, ◌≡◌, refl, Option, [], ◌∷◌, Map, or_else}
use agent_runtime_operator.Base.Maps
use agent_runtime_operator.Base.Maps.{HasDistinctKeys, over, lookup-copy, over-none}
use agent_runtime_operator.Api.Meta.{EmbeddedMetadata}
use agent_runtime_operator.Controller.Util.{
  copy_into, labels_of, annotations_of, nil_if_empty, build_pod_template_metadata,
}

pub copy_into-copy :
    (dst : Option (Map String)) (src : Map String)
    → or_else (copy_into dst src) [] ≡ Maps.copy (or_else dst []) src
unfolding Maps.copy
copy_into-copy dst [] = refl
copy_into-copy dst (e ∷ src) = refl

or_else-nil_if_empty : (m : Map String) → or_else (nil_if_empty m) [] ≡ m
or_else-nil_if_empty [] = refl
or_else-nil_if_empty (e ∷ m) = refl

lookup-copy_from_empty :
    (k : String) (a b : Map String)
    → HasDistinctKeys a
    → HasDistinctKeys b
    → Maps.lookup k (Maps.copy (Maps.copy [] a) b) ≡ over (Maps.lookup k b) (Maps.lookup k a)
unfolding Maps.lookup
lookup-copy_from_empty k a b da db =
    rw (lookup-copy k (Maps.copy [] a) b db, lookup-copy k [] a da, over-none (Maps.lookup k a))
      refl

-- If no map has a key twice, then for every key the pod template's label is the selector's, or else
-- podMetadata's, or else commonMetadata's, and its annotation is podMetadata's, or else
-- commonMetadata's.
pub build_pod_template_metadata-precedence :
    (selector : Map String) (common pod : Option EmbeddedMetadata) (key : String)
    → HasDistinctKeys selector
    → HasDistinctKeys (labels_of common)
    → HasDistinctKeys (labels_of pod)
    → HasDistinctKeys (annotations_of common)
    → HasDistinctKeys (annotations_of pod)
    → (Maps.lookup key (build_pod_template_metadata selector common pod).0
        ≡ over
            (Maps.lookup key selector)
            (over (Maps.lookup key (labels_of pod)) (Maps.lookup key (labels_of common))))
      × (Maps.lookup key (or_else (build_pod_template_metadata selector common pod).1 [])
          ≡ over (Maps.lookup key (annotations_of pod)) (Maps.lookup key (annotations_of common)))
unfolding build_pod_template_metadata
build_pod_template_metadata-precedence selector common pod key ds dc dp dc' dp' = (
  rw
      (
        lookup-copy key (Maps.copy (Maps.copy [] (labels_of common)) (labels_of pod)) selector ds,
        lookup-copy_from_empty key (labels_of common) (labels_of pod) dc dp,
      )
      refl,
  rw
      (
        or_else-nil_if_empty
            (Maps.copy (Maps.copy [] (annotations_of common)) (annotations_of pod)),
        lookup-copy_from_empty key (annotations_of common) (annotations_of pod) dc' dp',
      )
      refl,
)
