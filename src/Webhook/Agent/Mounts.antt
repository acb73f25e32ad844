-- ===== src/Webhook/Agent/Mounts.antt =====
-- What the check of the volume mounts lets through.
use text.Mathlib.TextBridge.{IsPrefix}
use text.Mathlib.TextEquality.{starts_with_iff}
use agent_runtime_operator.Base.{
  ℕ, suc, String, ◌<>◌, ◌≡◌, refl, ◌≢◌, ◌⊎◌, ◌↔◌, inl, inr, true, List, [], ◌∷◌, ◌++◌, ◌==◌, eq_iff,
  arith, Bool-cases, All,
}
use agent_runtime_operator.Api.Meta.{Volume, VolumeMount}
use agent_runtime_operator.Api.Agent.{Agent}
use agent_runtime_operator.Webhook.Fields.{FieldError}
use agent_runtime_operator.Webhook.Agent.{
  is_volume, is_below, check_overlap, check_later, check_mounts, validate_volume_mounts,
}

pub append-nil_iff : (xs ys : List FieldError) → (xs ++ ys ≡ []) ↔ ((xs ≡ []) × (ys ≡ []))
append-nil_iff [] ys = (λ h. (refl, h), λ h. h.1)
append-nil_iff (x ∷ xs) ys = (λ h. absurd (cc h), λ h. absurd (cc h.0))

module _ (clean : String → String) where
  -- the first path is below the second one
  abbrev pub IsBelow : String → String → Type 0
  IsBelow inner outer = IsPrefix (outer <> "/") (inner <> "/")

  -- The second mount has no path, or the cleaned paths are equal, or none is below the other.
  abbrev pub IsApart : VolumeMount → VolumeMount → Type 0
  IsApart m n =
      (n.mount_path ≡ "")
      ⊎ (clean m.mount_path ≡ clean n.mount_path)
      ⊎ ((IsBelow (clean n.mount_path) (clean m.mount_path) → ⊥)
          × (IsBelow (clean m.mount_path) (clean n.mount_path) → ⊥))

  -- each mount is apart from those that follow it
  abbrev pub AreApart : List VolumeMount → Type 0
  AreApart [] = Unit
  AreApart (m ∷ ms) = All (IsApart m) ms × AreApart ms

  is_below-IsBelow :
      (inner outer : String) → (is_below clean inner outer ≡ true) ↔ IsBelow inner outer
  is_below-IsBelow inner outer = starts_with_iff (inner <> "/") (outer <> "/")

  check_overlap-nil_iff :
      (i : ℕ) (m : VolumeMount) (j : ℕ) (n : VolumeMount)
      → (check_overlap clean i m j n ≡ []) ↔ IsApart m n
  unfolding check_overlap
  check_overlap-nil_iff i m j n =
      let first = clean m.mount_path in
      let second = clean n.mount_path in
      let (below, below_of) = is_below-IsBelow second first in
      let (above, above_of) = is_below-IsBelow first second in
      (
        λ h. elim (Bool-cases (n.mount_path == "")) [
          | inl unset ↦ inl ((eq_iff n.mount_path "").0 unset)
          | inr set ↦ elim (Bool-cases (first == second)) [
            | inl same ↦ inr (inl ((eq_iff first second).0 same))
            | inr other ↦ inr (
                inr (
                  λ b. let t = below_of b in ground arith,
                  λ a. let t = above_of a in ground arith,
                ))
          ]
        ],
        λ apart. elim apart [
          | inl unset ↦ let e = (eq_iff n.mount_path "").1 unset in ground arith
          | inr (inl same) ↦ let e = (eq_iff first second).1 same in ground arith
          | inr (inr (a, b)) ↦
              let not_below : is_below clean second first ≢ true = λ t. a (below t) in
              let not_above : is_below clean first second ≢ true = λ t. b (above t) in ground arith
        ],
      )

  check_later-nil_iff :
      (i : ℕ) (m : VolumeMount) (j : ℕ) (ms : List VolumeMount)
      → (check_later clean i m j ms ≡ []) ↔ All (IsApart m) ms
  unfolding check_later
  check_later-nil_iff i m j [] = (λ h. tt, λ h. refl)
  check_later-nil_iff i m j (n ∷ ms) =
      let (split, join) =
        append-nil_iff (check_overlap clean i m j n) (check_later clean i m (suc j) ms) in
      let (apart, apart_of) = check_overlap-nil_iff i m j n in
      let (rest, rest_of) = check_later-nil_iff i m (suc j) ms in
      (λ h. let (a, b) = split h in (apart a, rest b), λ h. join (apart_of h.0, rest_of h.1))

  module _ (volumes : List Volume) where
    -- the mount's name is that of a volume
    abbrev pub IsNamed : VolumeMount → Type 0
    IsNamed m = is_volume m.name volumes ≡ true

    check_mounts-nil_iff :
        (i : ℕ) (ms : List VolumeMount)
        → (check_mounts clean volumes i ms ≡ []) ↔ (All IsNamed ms × AreApart ms)
    unfolding check_mounts
    check_mounts-nil_iff i [] = (λ h. (tt, tt), λ h. refl)
    check_mounts-nil_iff i (m ∷ ms) =
        let later = check_later clean i m (suc i) ms in
        let (split, join) = append-nil_iff later (check_mounts clean volumes (suc i) ms) in
        let (apart, apart_of) = check_later-nil_iff i m (suc i) ms in
        let (rest, rest_of) = check_mounts-nil_iff (suc i) ms in
        elim (Bool-cases (is_volume m.name volumes)) [
          | inl named ↦
              rw (named, check_mounts)
                (
                  λ h.
                      let (a, b) = split h in
                      let (names, aparts) = rest b in ((refl, names), (apart a, aparts)),
                  λ h. join (apart_of h.1.0, rest_of (h.0.1, h.1.1)),
                )
          | inr missing ↦ rw (missing, check_mounts) (λ h. absurd (cc h), λ h. absurd (cc h.0.0))
        ]

  -- The check of the volume mounts finds nothing if and only if each mount has the name of a volume,
  -- and of any two mounts the later one has no path, or their cleaned paths are equal, or neither
  -- path, with a slash added, begins with the other one with a slash added.
  pub validate_volume_mounts-nil_iff :
      (agent : Agent)
      → (validate_volume_mounts clean agent ≡ []) ↔ (
          All (IsNamed agent.spec.volumes) agent.spec.volume_mounts
          × AreApart agent.spec.volume_mounts)
  unfolding validate_volume_mounts
  validate_volume_mounts-nil_iff agent =
      check_mounts-nil_iff agent.spec.volumes 0 agent.spec.volume_mounts
