-- ===== src/Patch/Edit/Slices.antt =====
-- The slices of the lines of a file that patch.rs takes, and the line at a number.
use bpm.Prelude.{
  ℕ, zero, suc, ◌+◌, ◌-◌, ◌≤◌, ◌≡◌, refl, ap, ◌∙◌, true, List, [], ◌∷◌, ◌++◌, length, arith,
}
use native.Mathlib.Numerals.{unary_clauses}
use bpm.Prelude.Text.{Text, text_eq→eq, text_eq_refl}
use bpm.Patch.Edit.{get_line, take_lines, drop_lines, is_line}

pub take-drop : (n : ℕ) (ls : List Text) → ls ≡ take_lines n ls ++ drop_lines n ls
unfolding take_lines drop_lines
take-drop zero ls = refl
take-drop (suc n) [] = refl
take-drop (suc n) (l ∷ ls) = ap (λ x. l ∷ x) (take-drop n ls)

pub drop-drop : (n m : ℕ) (ls : List Text) → drop_lines n (drop_lines m ls) ≡ drop_lines (m + n) ls
unfolding drop_lines
drop-drop n zero ls = ap (λ k. drop_lines k ls) (omega arith)
drop-drop zero (suc m) [] = simp unary_clauses refl
drop-drop (suc n) (suc m) [] = simp unary_clauses refl
drop-drop n (suc m) (l ∷ ls) =
    let one : suc (m + n) ≡ suc m + n = omega arith in
    drop-drop n m ls ∙ ap (λ k. drop_lines k (l ∷ ls)) one

pub length-take : (n : ℕ) (ls : List Text) → n ≤ length ls → length (take_lines n ls) ≡ n
unfolding take_lines
length-take zero ls h = refl
length-take (suc n) [] h = absurd (omega arith)
length-take (suc n) (l ∷ ls) h = omega (arith, length-take n ls (omega arith))

pub length-drop : (n : ℕ) (ls : List Text) → length (drop_lines n ls) ≡ length ls - n
unfolding drop_lines
length-drop zero ls = omega arith
length-drop (suc n) [] = omega arith
length-drop (suc n) (l ∷ ls) = omega (arith, length-drop n ls)

pub drop-append : (a b : List Text) → drop_lines (length a) (a ++ b) ≡ b
unfolding drop_lines
drop-append [] b = refl
drop-append (x ∷ a) b = drop-append a b

pub take-append : (a b : List Text) → take_lines (length a) (a ++ b) ≡ a
unfolding take_lines
take-append [] b = refl
take-append (x ∷ a) b = ap (λ y. x ∷ y) (take-append a b)

-- the line at a number heads what is left from there
pub get-drop :
    (v : Text) (ls : List Text) (n : ℕ)
    → is_line v (get_line ls n) ≡ true
    → drop_lines n ls ≡ v ∷ drop_lines (suc n) ls
unfolding get_line drop_lines
get-drop v [] n h = cc
get-drop v (l ∷ ls) zero h = ap (λ x. x ∷ ls) (text_eq→eq l v h)
get-drop v (l ∷ ls) (suc n) h = get-drop v ls n h

pub drop-get :
    (v : Text) (ls : List Text) (n : ℕ) {rest : List Text}
    → drop_lines n ls ≡ v ∷ rest
    → (is_line v (get_line ls n) ≡ true) × (drop_lines (suc n) ls ≡ rest)
unfolding get_line drop_lines
drop-get v [] zero h = cc
drop-get v [] (suc n) h = cc
drop-get v (l ∷ ls) zero h = let same : l ≡ v = cc h in (rw same (text_eq_refl v), cc h)
drop-get v (l ∷ ls) (suc n) {rest} h = drop-get v ls n {rest = rest} h
