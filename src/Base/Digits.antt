-- ===== src/Base/Digits.antt =====
-- Decimal numbers read back from a text, and their lengths.
use Prim.Native.Nat.{ℕ, zero, suc, ◌+◌, ◌*◌, ◌-◌, ◌/◌, ◌%◌, ◌≤◌, ◌<◌, ◌^◌}
use Prim.Native.Char.{Char, code}
use Prim.Native.String.{String, [], ◌∷◌, ◌++◌}
use mathlib.Core.Path.{◌≡◌, refl, ap, ◌∙◌}
use mathlib.Core.Logic.{inl, inr}
use mathlib.Core.Bool.{Bool, true, ◌&&◌}
use native.Mathlib.Omega.{arith}
use text.Mathlib.TextLemmas.{nil-append, cons-append}
use agent_runtime_operator.Base.Trimmed.{EveryChar, EveryChar-append}
use agent_runtime_operator.Base.Tests.{leb, if◌then◌else◌, Bool-cases}
use agent_runtime_operator.Base.Text.{digit, decimal_from, decimal}

abbrev pub is_digit : Char → Bool
is_digit c = leb b'0' (code c) && leb (code c) b'9'

-- the number that the digits at the end of a text make up; another character starts anew
unfoldable pub read_number : String → ℕ → ℕ
read_number [] acc = acc
read_number (c ∷ s) acc = read_number s (if is_digit c then acc * 10 + (code c - b'0') else 0)

pub read_number-append :
    (s t : String) (acc : ℕ) → read_number (s ++ t) acc ≡ read_number t (read_number s acc)
unfolding read_number
read_number-append [] t acc = ap (λ u. read_number u acc) (nil-append t)
read_number-append (c ∷ s) t acc =
    ap (λ u. read_number u acc) (cons-append c s t)
    ∙ read_number-append s t (if is_digit c then acc * 10 + (code c - b'0') else 0)

read_number-digit : (acc n : ℕ) → n ≤ 9 → read_number (digit n) acc ≡ acc * 10 + n
unfolding read_number
read_number-digit acc zero h = refl
read_number-digit acc (suc zero) h = refl
read_number-digit acc (suc (suc zero)) h = refl
read_number-digit acc (suc (suc (suc zero))) h = refl
read_number-digit acc (suc (suc (suc (suc zero)))) h = refl
read_number-digit acc (suc (suc (suc (suc (suc zero))))) h = refl
read_number-digit acc (suc (suc (suc (suc (suc (suc zero)))))) h = refl
read_number-digit acc (suc (suc (suc (suc (suc (suc (suc zero))))))) h = refl
read_number-digit acc (suc (suc (suc (suc (suc (suc (suc (suc zero)))))))) h = refl
read_number-digit acc (suc (suc (suc (suc (suc (suc (suc (suc (suc zero))))))))) h = refl
read_number-digit acc (suc (suc (suc (suc (suc (suc (suc (suc (suc (suc n)))))))))) h = omega arith

append-digit :
    (n acc : ℕ) (rest : String)
    → n ≤ 9
    → read_number (digit n ++ rest) acc ≡ read_number rest (acc * 10 + n)
append-digit n acc rest h =
    read_number-append (digit n) rest acc ∙ ap (read_number rest) (read_number-digit acc n h)

read_number-decimal_from :
    (fuel n : ℕ) (rest : String)
    → n < fuel
    → read_number (decimal_from fuel n rest) 0 ≡ read_number rest n
unfolding decimal_from
read_number-decimal_from zero n rest h = omega arith
read_number-decimal_from (suc fuel) n rest h = elim (Bool-cases (leb n 9)) [
  | inl short ↦
      rw short (append-digit n 0 rest (ground (arith, short)) ∙ ap (read_number rest) (omega arith))
  | inr long ↦
      let large : 9 < n = ground (arith, long) in
      rw long (
        read_number-decimal_from fuel (n / 10) (digit (n % 10) ++ rest) (omega arith)
        ∙ append-digit (n % 10) (n / 10) rest (omega arith)
        ∙ ap (read_number rest) (omega arith))
]

-- A number is read back from its digits.
pub read_number-decimal : (n : ℕ) → read_number (decimal n) 0 ≡ n
unfolding decimal read_number
read_number-decimal n = read_number-decimal_from (suc n) n "" (omega arith)

-- the number of characters
abbrev pub size : String → ℕ
size [] = 0
size (c ∷ s) = suc (size s)

pub size-append : (s t : String) → size (s ++ t) ≡ size s + size t
size-append [] t = ap size (nil-append t) ∙ omega arith
size-append (c ∷ s) t = ap size (cons-append c s t) ∙ omega (arith, size-append s t)

size-digit : (n : ℕ) → size (digit n) ≡ 1
size-digit zero = refl
size-digit (suc zero) = refl
size-digit (suc (suc zero)) = refl
size-digit (suc (suc (suc zero))) = refl
size-digit (suc (suc (suc (suc zero)))) = refl
size-digit (suc (suc (suc (suc (suc zero))))) = refl
size-digit (suc (suc (suc (suc (suc (suc zero)))))) = refl
size-digit (suc (suc (suc (suc (suc (suc (suc zero))))))) = refl
size-digit (suc (suc (suc (suc (suc (suc (suc (suc zero)))))))) = refl
size-digit (suc (suc (suc (suc (suc (suc (suc (suc (suc n))))))))) = refl

size-decimal_from :
    (fuel k n : ℕ) (rest : String)
    → n < 10 ^ suc k
    → size (decimal_from fuel n rest) ≤ suc k + size rest
unfolding decimal_from
size-decimal_from zero k n rest h = omega arith
size-decimal_from (suc fuel) zero n rest h =
    let short : leb n 9 ≡ true = ground (arith, h) in
    rw short (omega (arith, size-append (digit n) rest, size-digit n))
size-decimal_from (suc fuel) (suc k) n rest h = elim (Bool-cases (leb n 9)) [
  | inl short ↦ rw short (omega (arith, size-append (digit n) rest, size-digit n))
  | inr long ↦ rw long (
      omega (
        arith,
        size-decimal_from fuel k (n / 10) (digit (n % 10) ++ rest) (omega arith),
        size-append (digit (n % 10)) rest,
        size-digit (n % 10),
      ))
]

pub size-decimal : (k n : ℕ) → n < 10 ^ suc k → size (decimal n) ≤ suc k
unfolding decimal
size-decimal k n h = omega (arith, size-decimal_from (suc n) k n "" h)

EveryChar-digit : (n : ℕ) → EveryChar is_digit (digit n)
EveryChar-digit zero = (refl, tt)
EveryChar-digit (suc zero) = (refl, tt)
EveryChar-digit (suc (suc zero)) = (refl, tt)
EveryChar-digit (suc (suc (suc zero))) = (refl, tt)
EveryChar-digit (suc (suc (suc (suc zero)))) = (refl, tt)
EveryChar-digit (suc (suc (suc (suc (suc zero))))) = (refl, tt)
EveryChar-digit (suc (suc (suc (suc (suc (suc zero)))))) = (refl, tt)
EveryChar-digit (suc (suc (suc (suc (suc (suc (suc zero))))))) = (refl, tt)
EveryChar-digit (suc (suc (suc (suc (suc (suc (suc (suc zero)))))))) = (refl, tt)
EveryChar-digit (suc (suc (suc (suc (suc (suc (suc (suc (suc n))))))))) = (refl, tt)

EveryChar-decimal_from :
    (fuel n : ℕ) (rest : String)
    → EveryChar is_digit rest
    → EveryChar is_digit (decimal_from fuel n rest)
unfolding decimal_from
EveryChar-decimal_from zero n rest h = h
EveryChar-decimal_from (suc fuel) n rest h = elim (Bool-cases (leb n 9)) [
  | inl short ↦ rw short (EveryChar-append is_digit (digit n) rest (EveryChar-digit n) h)
  | inr long ↦ rw long (
      EveryChar-decimal_from fuel (n / 10) (digit (n % 10) ++ rest)
        (EveryChar-append is_digit (digit (n % 10)) rest (EveryChar-digit (n % 10)) h))
]

pub EveryChar-decimal : (n : ℕ) → EveryChar is_digit (decimal n)
unfolding decimal
EveryChar-decimal n = EveryChar-decimal_from (suc n) n "" tt

decimal_from_longer : (fuel n : ℕ) (rest : String) → size rest ≤ size (decimal_from fuel n rest)
unfolding decimal_from
decimal_from_longer zero n rest = omega arith
decimal_from_longer (suc fuel) n rest = elim (Bool-cases (leb n 9)) [
  | inl short ↦ rw short (omega (arith, size-append (digit n) rest))
  | inr long ↦ rw long (
      omega (
        arith,
        decimal_from_longer fuel (n / 10) (digit (n % 10) ++ rest),
        size-append (digit (n % 10)) rest,
      ))
]

decimal_positive : (n : ℕ) → 0 < size (decimal n)
unfolding decimal decimal_from
decimal_positive n = elim (Bool-cases (leb n 9)) [
  | inl short ↦ rw short (omega (arith, size-append (digit n) "", size-digit n))
  | inr long ↦ rw long (
      omega (
        arith,
        decimal_from_longer n (n / 10) (digit (n % 10) ++ ""),
        size-append (digit (n % 10)) "",
        size-digit (n % 10),
      ))
]

size-cons : (t : String) → 0 < size t → (c : Char) × (s : String) × (t ≡ c ∷ s)
size-cons [] long = absurd (omega arith)
size-cons (c ∷ s) long = (c, s, refl)

-- The decimals of a number have a first digit.
pub decimal-cons : (n : ℕ) → (c : Char) × (s : String) × (decimal n ≡ c ∷ s)
decimal-cons n = size-cons (decimal n) (decimal_positive n)
