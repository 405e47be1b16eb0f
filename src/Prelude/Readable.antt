-- ===== src/Prelude/Readable.antt =====
-- Writers of lists, pairs and optional sections: what they write can be read back.
use bpm.Prelude.Tests.{if◌then◌else◌}
use bpm.Prelude.Lists.{length}
use bpm.Prelude.Text.{Text}
use bpm.Prelude.Bytes.{
  Agree, IsReadable, write_each, write_counted, write_u64-IsReadable, write_field,
  write_field-IsReadable,
}
use Prim.Native.Nat.{ℕ}
use mathlib.Core.Path.{◌≡◌, refl, sym, ap, ◌∙◌}
use mathlib.Core.Logic.{◌≢◌}
use mathlib.Core.Bool.{Bool, true, false}
use mathlib.Core.List.{List, [], ◌∷◌, ◌++◌, map}
use native.Mathlib.Omega.{arith}

pub append-cancel : (p : List ℕ) {s t : List ℕ} → p ++ s ≡ p ++ t → s ≡ t
append-cancel [] h = h
append-cancel (c ∷ p) h = append-cancel p (cc h)

module _ {ℓ κ} {A : Type ℓ} {V : Type κ} (write write' : A → List ℕ → List ℕ) (v w : A → V)
    (agree : Agree write v write' w) where
  write_each-Agree :
      (xs ys : List A) (s t : List ℕ)
      → length xs ≡ length ys
      → write_each write xs s ≡ write_each write' ys t
      → (map v xs ≡ map w ys) × (s ≡ t)
  unfolding write_each
  write_each-Agree [] [] s t l h = (refl, h)
  write_each-Agree [] (y ∷ ys) s t l h = absurd (omega (arith, l))
  write_each-Agree (x ∷ xs) [] s t l h = absurd (omega (arith, l))
  write_each-Agree (x ∷ xs) (y ∷ ys) s t l h =
      let (e, rest) = agree x y (write_each write xs s) (write_each write' ys t) h in
      let (es, end) = write_each-Agree xs ys s t (omega (arith, l)) rest in (cc (e, es), end)

  pub write_counted-Agree : Agree (write_counted write) (map v) (write_counted write') (map w)
  unfolding write_counted
  write_counted-Agree xs ys s t h =
      let (l, rest) = write_u64-IsReadable (length xs) (length ys) _ _ h in
      write_each-Agree xs ys s t l rest

map-id {ℓ} : {A : Type ℓ} (xs : List A) → map (λ (x : A). x) xs ≡ xs
map-id [] = refl
map-id (x ∷ xs) = ap (λ r. x ∷ r) (map-id xs)

pub write_counted-IsReadable {ℓ} :
    {A : Type ℓ} (write : A → List ℕ → List ℕ) → IsReadable write → IsReadable (write_counted write)
write_counted-IsReadable write readable xs ys s t h =
    let (e, rest) = write_counted-Agree write write (λ a. a) (λ a. a) readable xs ys s t h in
    (sym (map-id xs) ∙ e ∙ map-id ys, rest)

-- the key and the value of a map's entry
unfoldable pub write_entry : Text × Text → List ℕ → List ℕ
write_entry (k, v) rest = write_field k (write_field v rest)

pub write_entry-IsReadable : IsReadable write_entry
unfolding write_entry
write_entry-IsReadable (k, v) (k', v') s t h =
    let (e, rest) = write_field-IsReadable k k' (write_field v s) (write_field v' t) h in
    let (f, end) = write_field-IsReadable v v' s t rest in (cc (e, f), end)

unfoldable pub first : List ℕ → ℕ
first [] = 0
first (b ∷ bs) = b

-- A section that stands there or not, and begins with a byte that nothing behind it begins with.
pub section-Agree {ℓ κ} :
    {A : Type ℓ} {V : Type κ} (write : A → List ℕ → List ℕ) (v : A → V) (byte : ℕ)
    → Agree write v write v
    → ((a : A) (s : List ℕ) → first (write a s) ≡ byte)
    → (p q : Bool) (a b : A) (s t : List ℕ) → first s ≢ byte
    → first t ≢ byte
    → (if p then write a s else s) ≡ (if q then write b t else t)
    → (p ≡ q) × (p ≡ true → v a ≡ v b) × (s ≡ t)
section-Agree write v byte agree begins true true a b s t n m h =
    let (e, rest) = agree a b s t h in (refl, λ _. e, rest)
section-Agree write v byte agree begins true false a b s t n m h =
    absurd (m (sym (ap first h) ∙ begins a s))
section-Agree write v byte agree begins false true a b s t n m h =
    absurd (n (ap first h ∙ begins b t))
section-Agree write v byte agree begins false false a b s t n m h = (refl, λ e. absurd (cc e), h)
