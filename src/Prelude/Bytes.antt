-- ===== src/Prelude/Bytes.antt =====
-- The bytes of texts and numbers, and writers. A writer takes what is written behind it, so a
-- buffer is built from its end.
use Prim.Native.Nat.{ℕ, zero, suc, ◌+◌, ◌/◌, ◌%◌}
use mathlib.Core.Path.{◌≡◌, refl}
use mathlib.Core.Bool.{Bool, true, false}
use mathlib.Core.List.{List, [], ◌∷◌, ◌++◌}
use native.Mathlib.Omega.{arith}
use bpm.Prelude.Tests.{ltb, if◌then◌else◌}
use bpm.Prelude.Lists.{length}
use bpm.Prelude.Text.{Text}

-- the UTF-8 encoding of a scalar value, in front of `rest`
unfoldable pub write_char : ℕ → List ℕ → List ℕ
write_char c rest =
    if ltb c 128
    then c ∷ rest
    else if ltb c 2048
    then (192 + c / 64) ∷ (128 + c % 64) ∷ rest
    else if ltb c 65_536
    then (224 + c / 4096) ∷ (128 + c / 64 % 64) ∷ (128 + c % 64) ∷ rest
    else (240 + c / 262_144) ∷ (128 + c / 4096 % 64) ∷ (128 + c / 64 % 64) ∷ (128 + c % 64) ∷ rest

-- `as_bytes`
unfoldable pub bytes : Text → List ℕ
bytes [] = []
bytes (c ∷ s) = write_char c (bytes s)

-- `to_le_bytes` of a number of `suc n` bytes; the last byte is what remains, below 256 for a number
-- in range
unfoldable pub write_le : ℕ → ℕ → List ℕ → List ℕ
write_le zero v rest = v ∷ rest
write_le (suc n) v rest = v % 256 ∷ write_le n (v / 256) rest

unfoldable pub write_u64 : ℕ → List ℕ → List ℕ
write_u64 v rest = write_le 7 v rest

unfoldable pub write_bool : Bool → List ℕ → List ℕ
write_bool b rest = (if b then 1 else 0) ∷ rest

-- a length and the bytes
unfoldable pub write_bytes : List ℕ → List ℕ → List ℕ
write_bytes b rest = write_u64 (length b) (b ++ rest)

unfoldable pub write_field : Text → List ℕ → List ℕ
write_field s rest = write_bytes (bytes s) rest

module _ {ℓ} {A : Type ℓ} (write : A → List ℕ → List ℕ) where
  -- a loop that writes each element
  unfoldable pub write_each : List A → List ℕ → List ℕ
  write_each [] rest = rest
  write_each (x ∷ xs) rest = write x (write_each xs rest)

  -- the number of the elements and the elements
  unfoldable pub write_counted : List A → List ℕ → List ℕ
  write_counted xs rest = write_u64 (length xs) (write_each xs rest)

-- Where two writers write the same, what `v` and `w` see of their values is the same, and so is
-- what stands behind.
abbrev pub Agree {ℓ κ} :
    {A : Type ℓ} {V : Type κ}
    → (A → List ℕ → List ℕ)
    → (A → V)
    → (A → List ℕ → List ℕ)
    → (A → V)
    → Type (ℓ ⊔ κ)
Agree {A} write v write' w =
    (a b : A) (s t : List ℕ) → write a s ≡ write' b t → (v a ≡ w b) × (s ≡ t)

-- What is written can be read back, with what stands behind.
abbrev pub IsReadable {ℓ} : {A : Type ℓ} → (A → List ℕ → List ℕ) → Type ℓ
IsReadable write = Agree write (λ a. a) write (λ a. a)

pub write_char-IsReadable : IsReadable write_char
unfolding write_char
write_char-IsReadable c d s t h = ground (arith, h)

pub write_le-IsReadable : (n : ℕ) → IsReadable (write_le n)
unfolding write_le
write_le-IsReadable zero v w s t h = (cc h, cc h)
write_le-IsReadable (suc n) v w s t h =
    let (high, rest) = write_le-IsReadable n (v / 256) (w / 256) s t (cc h) in
    let low : v % 256 ≡ w % 256 = cc h in (omega arith, rest)

pub write_u64-IsReadable : IsReadable write_u64
unfolding write_u64
write_u64-IsReadable = write_le-IsReadable 7

pub write_bool-IsReadable : IsReadable write_bool
unfolding write_bool
write_bool-IsReadable true true s t h = (refl, cc h)
write_bool-IsReadable true false s t h = ground (arith, h)
write_bool-IsReadable false true s t h = ground (arith, h)
write_bool-IsReadable false false s t h = (refl, cc h)

pub append-same_length :
    (a b s t : List ℕ) → length a ≡ length b → a ++ s ≡ b ++ t → (a ≡ b) × (s ≡ t)
append-same_length [] [] s t l h = (refl, h)
append-same_length [] (y ∷ b) s t l h = absurd (omega (arith, l))
append-same_length (x ∷ a) [] s t l h = absurd (omega (arith, l))
append-same_length (x ∷ a) (y ∷ b) s t l h =
    let (e, rest) = append-same_length a b s t (omega (arith, l)) (cc h) in
    let same : x ≡ y = cc h in (cc (e, same), rest)

pub write_bytes-IsReadable : IsReadable write_bytes
unfolding write_bytes
write_bytes-IsReadable a b s t h =
    let (l, rest) = write_u64-IsReadable (length a) (length b) (a ++ s) (b ++ t) h in
    append-same_length a b s t l rest

pub bytes-injective : (s t : Text) → bytes s ≡ bytes t → s ≡ t
unfolding bytes write_char
bytes-injective [] [] h = refl
bytes-injective [] (d ∷ t) h = ground (arith, h)
bytes-injective (c ∷ s) [] h = ground (arith, h)
bytes-injective (c ∷ s) (d ∷ t) h =
    let (e, rest) = write_char-IsReadable c d (bytes s) (bytes t) h in
    let more = bytes-injective s t rest in cc (e, more)

pub write_field-IsReadable : IsReadable write_field
unfolding write_field
write_field-IsReadable a b s t h =
    let (e, rest) = write_bytes-IsReadable (bytes a) (bytes b) s t h in
    (bytes-injective a b e, rest)
