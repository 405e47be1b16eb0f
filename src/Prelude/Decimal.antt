-- ===== src/Prelude/Decimal.antt =====
-- Unsigned decimal numbers: Rust's `to_string` and `parse::<u64>`, and the checked operations.
use Prim.Native.Nat.{ℕ, zero, suc, ◌+◌, ◌-◌, ◌*◌, ◌/◌, ◌%◌, ◌^◌, ◌<◌}
use mathlib.Core.Path.{◌≡◌, refl}
use mathlib.Core.Logic.{inl, inr}
use mathlib.Core.Bool.{Bool, true, false, ◌&&◌}
use mathlib.Core.Option.{Option, none, some}
use mathlib.Core.List.{[], ◌∷◌, ◌++◌}
use native.Mathlib.Omega.{arith}
use bpm.Prelude.Tests.{ltb, leb, ◌==◌, if◌then◌else◌, Bool-cases}
use bpm.Prelude.Lists.{all, all-append}
use bpm.Prelude.Text.{Text, is_empty}

abbrev pub u64_mod : ℕ
u64_mod = 2 ^ 64

-- `checked_mul` and `checked_add` of `u64`
unfoldable pub checked_mul : ℕ → ℕ → Option ℕ
checked_mul a b = if ltb (a * b) u64_mod then some (a * b) else none

unfoldable pub checked_add : ℕ → ℕ → Option ℕ
checked_add a b = if ltb (a + b) u64_mod then some (a + b) else none

unfoldable pub is_ascii_digit : ℕ → Bool
is_ascii_digit c = leb b'0' c && leb c b'9'

-- the value of the digits behind those whose value is `acc`
unfoldable pub digits_value : ℕ → Text → ℕ
digits_value acc [] = acc
digits_value acc (c ∷ s) = digits_value (acc * 10 + (c - b'0')) s

-- `parse::<u64>`: digits behind an optional `+`, at least one, with a value that fits
unfoldable pub parse_digits : Text → Option ℕ
parse_digits [] = none
parse_digits (c ∷ s) =
    if all is_ascii_digit (c ∷ s) && ltb (digits_value 0 (c ∷ s)) u64_mod
    then some (digits_value 0 (c ∷ s))
    else none

unfoldable pub parse_u64 : Text → Option ℕ
parse_u64 [] = none
parse_u64 (c ∷ s) = if c == b'+' then parse_digits s else parse_digits (c ∷ s)

-- `to_string`; a number below the fuel is printed whole
digits_of : ℕ → ℕ → Text
digits_of zero n = []
digits_of (suc fuel) n =
    let before = digits_of fuel (n / 10) in
    if ltb n 10 then (b'0' + n) ∷ [] else before ++ (b'0' + n % 10) ∷ []

unfoldable pub decimal : ℕ → Text
unfolding digits_of
decimal n = digits_of (suc n) n

digits_value-append :
    (acc : ℕ) (s t : Text) → digits_value acc (s ++ t) ≡ digits_value (digits_value acc s) t
unfolding digits_value
digits_value-append acc [] t = refl
digits_value-append acc (c ∷ s) t = digits_value-append (acc * 10 + (c - b'0')) s t

value-digits_of : (fuel n : ℕ) → n < fuel → digits_value 0 (digits_of fuel n) ≡ n
unfolding digits_of digits_value
value-digits_of zero n h = absurd (omega arith)
value-digits_of (suc fuel) n h = elim (Bool-cases (ltb n 10)) [
  | inl small ↦ rw small (omega arith)
  | inr large ↦
      rw (large, digits_value-append)
        (rw (value-digits_of fuel (n / 10) (ground arith)) (omega arith))
]

-- The printed digits have the value that was printed.
pub value-decimal : (n : ℕ) → digits_value 0 (decimal n) ≡ n
unfolding decimal
value-decimal n = value-digits_of (suc n) n (omega arith)

digits_of-digits : (fuel n : ℕ) → all is_ascii_digit (digits_of fuel n) ≡ true
unfolding digits_of is_ascii_digit
digits_of-digits zero n = refl
digits_of-digits (suc fuel) n = elim (Bool-cases (ltb n 10)) [
  | inl small ↦ rw small (ground arith)
  | inr large ↦ rw (large, all-append) (ground (arith, digits_of-digits fuel (n / 10)))
]

pub decimal-digits : (n : ℕ) → all is_ascii_digit (decimal n) ≡ true
unfolding decimal
decimal-digits n = digits_of-digits (suc n) n

snoc-not_empty : (s : Text) (c : ℕ) → is_empty (s ++ c ∷ []) ≡ false
snoc-not_empty [] c = refl
snoc-not_empty (d ∷ s) c = refl

pub decimal-not_empty : (n : ℕ) → is_empty (decimal n) ≡ false
unfolding decimal digits_of
decimal-not_empty n = elim (Bool-cases (ltb n 10)) [
  | inl small ↦ rw small
  | inr large ↦ rw large (snoc-not_empty _ _)
]

-- What is printed is parsed, if it fits.
pub parse_digits-decimal : (n : ℕ) → n < u64_mod → parse_digits (decimal n) ≡ some n
parse_digits-decimal n h = go (decimal n) (value-decimal n) (decimal-digits n) (decimal-not_empty n)
  where
    go :
        (s : Text)
        → digits_value 0 s ≡ n
        → all is_ascii_digit s ≡ true
        → is_empty s ≡ false
        → parse_digits s ≡ some n
    go [] v d e = cc
    go (c ∷ s) v d e = unfold parse_digits in ground (arith, v, d)
