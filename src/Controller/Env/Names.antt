-- ===== src/Controller/Env/Names.antt =====
-- Lists of environment variables by their names: lookup in a concatenation, a rearrangement and a
-- sorted list. Two sorted lists with distinct names that agree on every lookup are one list.
use mathlib.Core.List.{Permᴰ}
use agent_runtime_operator.Base.{
  String, ◌≡◌, refl, sym, ◌∙◌, true, none, some, List, [], ◌∷◌, ◌++◌, ◌==◌, eq_iff, arith, All,
  Bool-cases, inl, inr, if◌then◌else◌,
}
use agent_runtime_operator.Base.Maps.{over}
use agent_runtime_operator.Api.Meta.{EnvVar}
use agent_runtime_operator.Controller.Util.{find_env_var}
use agent_runtime_operator.Controller.Env.{str_le, insert_sorted, sort_by_name}
use agent_runtime_operator.Controller.Env.Order.{str_le_refl, str_le_trans, str_le_total}

-- no two entries have one name
abbrev pub HasDistinctNames : List EnvVar → Type 0
HasDistinctNames [] = Unit
HasDistinctNames (e ∷ es) = (find_env_var es e.name ≡ none) × HasDistinctNames es

-- ascending by name
abbrev pub IsSorted : List EnvVar → Type 0
IsSorted [] = Unit
IsSorted (e ∷ es) = All (λ f. str_le e.name f.name ≡ true) es × IsSorted es

pub find-cons :
    (e : EnvVar) (es : List EnvVar) (n : String)
    → find_env_var (e ∷ es) n ≡ (if e.name == n then some e else find_env_var es n)
unfolding find_env_var
find-cons e es n = ground arith

pub find-append :
    (es fs : List EnvVar) (n : String)
    → find_env_var (es ++ fs) n ≡ over (find_env_var es n) (find_env_var fs n)
find-append [] fs n = unfold find_env_var in refl
find-append (e ∷ es) fs n =
    ground (arith, find-cons e (es ++ fs) n, find-cons e es n, find-append es fs n)

pub find-name :
    (es : List EnvVar) (n : String) (e : EnvVar) → find_env_var es n ≡ some e → e.name ≡ n
find-name [] n e h = unfold find_env_var in cc
find-name (f ∷ es) n e h = ground (arith, find-cons f es n, find-name es n e, eq_iff f.name n)

-- A rearrangement keeps the names distinct, and every lookup.
pub record SameNames (es fs : List EnvVar) : Type 0 where
  pub distinct : HasDistinctNames fs
  pub finds : (n : String) → find_env_var es n ≡ find_env_var fs n

SameNames-cons :
    (e : EnvVar) (es fs : List EnvVar)
    → SameNames es fs
    → find_env_var es e.name ≡ none
    → SameNames (e ∷ es) (e ∷ fs)
SameNames-cons e es fs s fresh = record {
  distinct = (sym (s.finds e.name) ∙ fresh, s.distinct);
  finds = λ n. ground (arith, find-cons e es n, find-cons e fs n, s.finds n);
}

SameNames-swap :
    (e f : EnvVar) (es : List EnvVar)
    → HasDistinctNames (e ∷ f ∷ es)
    → SameNames (e ∷ f ∷ es) (f ∷ e ∷ es)
SameNames-swap e f es (fresh_e, (fresh_f, d)) =
    let apart = sym (find-cons f es e.name) ∙ fresh_e in
    record {
      distinct = ground (arith, find-cons e es f.name, eq_iff e.name f.name, eq_iff f.name e.name);
      finds = λ n. ground (
        arith,
        find-cons e (f ∷ es) n,
        find-cons f es n,
        find-cons f (e ∷ es) n,
        find-cons e es n,
        eq_iff e.name n,
        eq_iff f.name n,
        eq_iff f.name e.name,
      );
    }

pub perm-SameNames : {es fs : List EnvVar} → Permᴰ es fs → HasDistinctNames es → SameNames es fs
perm-SameNames Permᴰ.nil d = record { distinct = d; finds = λ n. refl }
perm-SameNames (Permᴰ.cons {a} {l₁ = es} {l₂ = fs} e p) (fresh, d) =
    rw (← e) (SameNames-cons a es fs (perm-SameNames p d) fresh)
perm-SameNames (Permᴰ.swap {a} {b} {l = es} e f) d = rw (← e, ← f) (SameNames-swap a b es d)
perm-SameNames (Permᴰ.trans p q) d =
    let s = perm-SameNames p d in
    let t = perm-SameNames q s.distinct in
    record { distinct = t.distinct; finds = λ n. s.finds n ∙ t.finds n }

insert_sorted-find :
    (e : EnvVar) (es : List EnvVar) (n : String)
    → find_env_var (insert_sorted e es) n ≡ find_env_var (e ∷ es) n
unfolding insert_sorted
insert_sorted-find e [] n = refl
insert_sorted-find e (f ∷ fs) n = ground (
  arith,
  find-cons e (f ∷ fs) n,
  find-cons f fs n,
  find-cons f (insert_sorted e fs) n,
  find-cons e fs n,
  insert_sorted-find e fs n,
  eq_iff e.name n,
  eq_iff f.name n,
  str_le_refl n,
)

pub sort-find :
    (es : List EnvVar) (n : String) → find_env_var (sort_by_name es) n ≡ find_env_var es n
unfolding sort_by_name
sort-find [] n = refl
sort-find (e ∷ es) n =
    insert_sorted-find e (sort_by_name es) n
    ∙ ground (arith, find-cons e (sort_by_name es) n, find-cons e es n, sort-find es n)

insert_sorted-distinct :
    (e : EnvVar) (es : List EnvVar)
    → HasDistinctNames (e ∷ es)
    → HasDistinctNames (insert_sorted e es)
unfolding insert_sorted
insert_sorted-distinct e [] d = d
insert_sorted-distinct e (f ∷ fs) d = ground (
  arith,
  insert_sorted-distinct e fs,
  insert_sorted-find e fs f.name,
  find-cons e fs f.name,
  find-cons f fs e.name,
  eq_iff e.name f.name,
  eq_iff f.name e.name,
)

pub sort-distinct : (es : List EnvVar) → HasDistinctNames es → HasDistinctNames (sort_by_name es)
unfolding sort_by_name
sort-distinct [] d = tt
sort-distinct (e ∷ es) (fresh, d) =
    insert_sorted-distinct e (sort_by_name es) (sort-find es e.name ∙ fresh, sort-distinct es d)

-- a lower bound of a list
abbrev IsBelow : String → List EnvVar → Type 0
IsBelow n es = All (λ f. str_le n f.name ≡ true) es

IsBelow-trans : (m n : String) (es : List EnvVar) → str_le m n ≡ true → IsBelow n es → IsBelow m es
IsBelow-trans m n [] h b = tt
IsBelow-trans m n (f ∷ es) h (first, b) =
    (str_le_trans m n f.name h first, IsBelow-trans m n es h b)

insert_sorted-IsBelow :
    (m : String) (e : EnvVar) (es : List EnvVar)
    → str_le m e.name ≡ true
    → IsBelow m es
    → IsBelow m (insert_sorted e es)
unfolding insert_sorted
insert_sorted-IsBelow m e [] h b = (h, b)
insert_sorted-IsBelow m e (f ∷ fs) h (first, b) = ground (arith, insert_sorted-IsBelow m e fs h b)

insert_sorted-IsSorted :
    (e : EnvVar) (es : List EnvVar) → IsSorted es → IsSorted (insert_sorted e es)
unfolding insert_sorted
insert_sorted-IsSorted e [] s = (tt, tt)
insert_sorted-IsSorted e (f ∷ fs) (b, s) = elim (Bool-cases (str_le e.name f.name)) [
  | inl h ↦ rw h ((h, IsBelow-trans e.name f.name fs h b), (b, s))
  | inr h ↦ rw h (
    insert_sorted-IsBelow f.name e fs (str_le_total e.name f.name h) b,
    insert_sorted-IsSorted e fs s,
  )
]

pub sort-IsSorted : (es : List EnvVar) → IsSorted (sort_by_name es)
unfolding sort_by_name
sort-IsSorted [] = tt
sort-IsSorted (e ∷ es) = insert_sorted-IsSorted e (sort_by_name es) (sort-IsSorted es)
