-- ===== src/Gc/Policy/Parsing.antt =====
-- The ages and sizes that `parse_duration` and `parse_byte_size` of gc/policy.rs read.
use bpm.Prelude.{
  ℕ, ◌+◌, ◌*◌, ◌≤◌, ◌<◌, ◌≡◌, refl, Bool, true, false, not, ◌&&◌, none, some, [], ◌∷◌, ◌++◌, ltb,
  ◌==◌, if◌then◌else◌, all, all-append, ok, err, ok_steps, arith, inl, inr, Bool-cases,
  Option-cases, Option, zero, suc,
}
use native.Mathlib.Numerals.{unary_clauses}
use bpm.Prelude.Text.{Text, txt, text_eq, text_eq→eq, is_empty}
use bpm.Prelude.Decimal.{
  u64_mod, is_ascii_digit, parse_digits, checked_mul, decimal, decimal-digits, decimal-not_empty,
  parse_digits-decimal,
}
use bpm.Prelude.Time.{from_secs}
use bpm.Gc.Policy.{
  split_digits, split_number_and_suffix, parse_positive_integer, duration_unit, parse_duration,
  byte_unit, parse_byte_size, i64_max, PolicyError, or_error,
}

abbrev starts_with_digit : Text → Bool
starts_with_digit [] = false
starts_with_digit (c ∷ s) = is_ascii_digit c

-- What a unit's suffix is: ASCII, not empty, without a digit in front.
abbrev is_suffix : Text → Bool
is_suffix s = all (λ c. ltb c 128) s && not (is_empty s) && not (starts_with_digit s)

split_digits-append :
    (digits suffix : Text)
    → all is_ascii_digit digits ≡ true
    → starts_with_digit suffix ≡ false
    → split_digits (digits ++ suffix) ≡ (digits, suffix)
unfolding split_digits
split_digits-append [] [] d s = refl
split_digits-append [] (c ∷ suffix) d s = rw s
split_digits-append (c ∷ digits) suffix d s =
    let here : is_ascii_digit c ≡ true = ground (arith, d) in
    rw (here, split_digits-append digits suffix (ground (arith, d)) s)

digits_ascii : (s : Text) → all is_ascii_digit s ≡ true → all (λ c. ltb c 128) s ≡ true
unfolding is_ascii_digit
digits_ascii [] h = refl
digits_ascii (c ∷ s) h = ground (arith, h, digits_ascii s)

split_number :
    (n : ℕ) (suffix : Text)
    → is_suffix suffix ≡ true
    → split_number_and_suffix (decimal n ++ suffix) ≡ ok (decimal n, suffix)
unfolding split_number_and_suffix
split_number n suffix h =
    let parts = split_digits-append (decimal n) suffix (decimal-digits n) (ground (arith, h)) in
    let ascii : all (λ c. ltb c 128) (decimal n ++ suffix) ≡ true =
      rw all-append (ground (arith, h, digits_ascii (decimal n) (decimal-digits n))) in
    let some_suffix : is_empty suffix ≡ false = ground (arith, h) in
    rw (ascii, parts, decimal-not_empty n, some_suffix)

positive_decimal :
    (input : Text) (n : ℕ) → 0 < n → n < u64_mod → parse_positive_integer input (decimal n) ≡ ok n
unfolding parse_positive_integer
positive_decimal input n p f =
    let some_value : (n == 0) ≡ false = ground arith in rw (parse_digits-decimal n f, some_value)

record IsUnit (suffix : Text) (unit : ℕ) : Type 0 where
  named : is_suffix suffix ≡ true
  positive : 0 < unit

-- one entry of a table of units
named-IsUnit :
    (suffix name : Text) (u : ℕ) (rest : Option ℕ) {unit : ℕ}
    → is_suffix name ≡ true
    → 0 < u
    → (rest ≡ some unit → IsUnit suffix unit)
    → (if text_eq suffix name then some u else rest) ≡ some unit
    → IsUnit suffix unit
named-IsUnit suffix name u rest {unit = unit} n p others h =
    elim (Bool-cases (text_eq suffix name)) [
      | inl same ↦
          let at : suffix ≡ name = text_eq→eq suffix name same in
          let u_is : u ≡ unit = ground (arith, h, same) in
          record { named = rw at n; positive = rw (← u_is) p }
      | inr other ↦ others (ground (arith, h, other))
    ]

duration_unit-IsUnit :
    (suffix : Text) {unit : ℕ} → duration_unit suffix ≡ some unit → IsUnit suffix unit
unfolding duration_unit is_ascii_digit
duration_unit-IsUnit suffix = named-IsUnit suffix (txt "s") 1 _ refl (omega arith) (
    named-IsUnit suffix (txt "m") 60 _ refl (omega arith) (
      named-IsUnit suffix (txt "h") 3600 _ refl (omega arith) (
        named-IsUnit suffix (txt "d") 86400 _ refl (omega arith)
          (named-IsUnit suffix (txt "w") 604800 none refl (omega arith) (λ e. absurd cc)))))

byte_unit-IsUnit : (suffix : Text) {unit : ℕ} → byte_unit suffix ≡ some unit → IsUnit suffix unit
unfolding byte_unit is_ascii_digit
byte_unit-IsUnit suffix = named-IsUnit suffix (txt "B") 1 _ refl (omega arith) (
    named-IsUnit suffix (txt "KB") 1_000 _ refl (omega arith) (
      named-IsUnit suffix (txt "MB") 1_000_000 _ refl (omega arith) (
        named-IsUnit suffix (txt "GB") 1_000_000_000 _ refl (omega arith) (
          named-IsUnit suffix (txt "TB") 1_000_000_000_000 none refl (omega arith)
            (λ e. absurd cc)))))

le_product : (n unit : ℕ) → 0 < unit → n ≤ n * unit
le_product n zero p = absurd (omega arith)
le_product n (suc k) p =
    let split : n * suc k ≡ n * k + n = simp unary_clauses (omega arith) in omega (arith, split)

-- A positive number, printed, behind the suffix of a unit is read back as that many units, where
-- the seconds fit a `u64`.
pub parse_duration_roundtrip :
    (n : ℕ) (suffix : Text) (unit : ℕ)
    → duration_unit suffix ≡ some unit
    → 0 < n
    → n * unit < u64_mod
    → parse_duration (decimal n ++ suffix) ≡ ok (from_secs (n * unit))
unfolding parse_duration checked_mul
parse_duration_roundtrip n suffix unit u p f =
    let is_unit = duration_unit-IsUnit suffix u in
    let fits : n < u64_mod = omega (arith, le_product n unit is_unit.positive) in
    let checked : ltb (n * unit) u64_mod ≡ true = ground arith in
    rw (split_number n suffix is_unit.named, u)
      (rw (positive_decimal (decimal n ++ suffix) n p fits, checked))

-- A positive size, printed behind the suffix of its unit, is read back as that many bytes, where
-- the product fits the signed 64-bit integers.
pub parse_byte_size_roundtrip :
    (n : ℕ) (suffix : Text) (unit : ℕ)
    → byte_unit suffix ≡ some unit
    → 0 < n
    → n * unit ≤ i64_max
    → parse_byte_size (decimal n ++ suffix) ≡ ok (n * unit)
unfolding parse_byte_size checked_mul
parse_byte_size_roundtrip n suffix unit u p f =
    let is_unit = byte_unit-IsUnit suffix u in
    let fits : n < u64_mod = omega (arith, le_product n unit is_unit.positive) in
    let checked : ltb (n * unit) u64_mod ≡ true = ground arith in
    let in_range : ltb i64_max (n * unit) ≡ false = ground arith in
    rw (split_number n suffix is_unit.named, u)
      (rw (positive_decimal (decimal n ++ suffix) n p fits, checked, in_range))

read_positive : (input digits : Text) {n : ℕ} → parse_positive_integer input digits ≡ ok n → 0 < n
unfolding parse_positive_integer
read_positive input digits h = elim (Option-cases (parse_digits digits)) [
  | inl e ↦ absurd (ground (arith, e, h))
  | inr (m, e) ↦ ground (arith, e, h)
]

or_error-some :
    {A : Type 0} (o : Option A) (e : PolicyError) {a : A} → or_error o e ≡ ok a → o ≡ some a
or_error-some none e h = cc
or_error-some (some b) e h = cc

product_of : (n m p : ℕ) → checked_mul n m ≡ some p → p ≡ n * m
unfolding checked_mul
product_of n m p h = ground arith

in_range :
    (n bytes : ℕ) (e : PolicyError)
    → (if ltb i64_max n then err e else ok n) ≡ ok bytes
    → (n ≡ bytes) × (bytes ≤ i64_max)
in_range n bytes e h = elim (Bool-cases (ltb i64_max n)) [
  | inl over ↦ absurd (ground (arith, over, h))
  | inr fits ↦
      let same : n ≡ bytes = ground (arith, fits, h) in
      let small : n ≤ i64_max = ground (arith, fits) in (same, omega arith)
]

-- A size that is read is positive and fits the signed 64-bit integers of the database.
pub parse_byte_size_bounds :
    (input : Text) (bytes : ℕ) → parse_byte_size input ≡ ok bytes → (0 < bytes) × (bytes ≤ i64_max)
unfolding parse_byte_size checked_mul
parse_byte_size_bounds input bytes h =
    let (parts, p_ok, h1) = ok_steps _ (split_number_and_suffix input) h in
    let (unit, u_ok, h2) = ok_steps _ (or_error (byte_unit parts.1) _) h1 in
    let (n, n_ok, h3) = ok_steps _ (parse_positive_integer input parts.0) h2 in
    let (product, c_ok, h4) = ok_steps _ (or_error (checked_mul n unit) _) h3 in
    let is_unit = byte_unit-IsUnit parts.1 (or_error-some _ _ u_ok) in
    let is_product = product_of n unit product (or_error-some _ _ c_ok) in
    let n_small = le_product n unit is_unit.positive in
    let (e, b) = in_range product bytes _ h4 in
    let n_positive = read_positive input parts.0 n_ok in (omega arith, b)
