-- ===== src/Patch/Edit/Applied/Undo.antt =====
-- The inverse of a patch, and that it undoes what `apply_file_patch` of patch.rs does.
use bpm.Prelude.{
  ℕ, ◌+◌, ◌-◌, ◌≡◌, refl, sym, ap, ◌∙◌, false, List, [], ◌∷◌, ◌++◌, ◌==◌, length, All, All-append,
  All-of_append, ok, arith, inl, inr, Bool-cases,
}
use mathlib.Core.Path.{subst}
use bpm.Prelude.Text.{Text, contains}
use bpm.Patch.{HunkLine, context, remove, add, Hunk, FilePatch}
use bpm.Patch.Edit.{split_lines, put_char, concat, apply_file_patch}
use bpm.Patch.Edit.Applied.{old_side, new_side, IsApplied, apply_file_patch_iff}

abbrev pub flip : List HunkLine → List HunkLine
flip [] = []
flip (context v ∷ ls) = context v ∷ flip ls
flip (remove v ∷ ls) = add v ∷ flip ls
flip (add v ∷ ls) = remove v ∷ flip ls

-- the hunks backwards, from line `at` of the old file and line `to` of the new one
abbrev pub inverse_hunks : ℕ → ℕ → List Hunk → List Hunk
inverse_hunks at to [] = []
inverse_hunks at to (h ∷ hs) =
    record { old_start = to + (h.old_start - 1 - at) + 1; lines = flip h.lines }
    ∷ inverse_hunks (h.old_start - 1 + length (old_side h.lines))
        (to + (h.old_start - 1 - at) + length (new_side h.lines)) hs

abbrev pub inverse : FilePatch → FilePatch
inverse patch = record { target = patch.target; hunks = inverse_hunks 0 0 patch.hunks }

old_side-flip : (ls : List HunkLine) → old_side (flip ls) ≡ new_side ls
old_side-flip [] = refl
old_side-flip (context v ∷ ls) = ap (λ x. v ∷ x) (old_side-flip ls)
old_side-flip (remove v ∷ ls) = old_side-flip ls
old_side-flip (add v ∷ ls) = ap (λ x. v ∷ x) (old_side-flip ls)

new_side-flip : (ls : List HunkLine) → new_side (flip ls) ≡ old_side ls
new_side-flip [] = refl
new_side-flip (context v ∷ ls) = ap (λ x. v ∷ x) (new_side-flip ls)
new_side-flip (remove v ∷ ls) = ap (λ x. v ∷ x) (new_side-flip ls)
new_side-flip (add v ∷ ls) = new_side-flip ls

inverse-IsApplied :
    (hs : List Hunk) (at to : ℕ) (rest out : List Text)
    → IsApplied at rest hs out
    → IsApplied to out (inverse_hunks at to hs) rest
inverse-IsApplied [] at to rest out e = sym e
inverse-IsApplied (h ∷ hs) at to rest out (kept, behind, made, start, rest_is, out_is, applied) =
    let old = old_side h.lines in
    let new = new_side h.lines in
    let skip = h.old_start - 1 - at in
    let from : at + length kept + length old ≡ h.old_start - 1 + length old = omega arith in
    let onto : to + skip + length new ≡ to + length kept + length (old_side (flip h.lines)) =
      omega (arith, ap length (old_side-flip h.lines)) in
    (
      kept,
      made,
      behind,
      omega arith,
      out_is ∙ ap (λ x. kept ++ (x ++ made)) (sym (old_side-flip h.lines)),
      rest_is ∙ ap (λ x. kept ++ (x ++ behind)) (sym (new_side-flip h.lines)),
      subst
          (λ n.
            IsApplied n made
              (inverse_hunks (h.old_start - 1 + length old) (to + skip + length new) hs) behind)
          onto
          (inverse-IsApplied hs (h.old_start - 1 + length old) (to + skip + length new) behind made
            (subst (λ n. IsApplied n behind hs made) from applied)),
    )

-- a text that ends in its only newline
abbrev pub IsLine : Text → Type 0
IsLine l = (body : Text) × (contains b'\n' body ≡ false) × (l ≡ body ++ b'\n' ∷ [])

split_lines-line :
    (body s : Text)
    → contains b'\n' body ≡ false
    → split_lines ((body ++ b'\n' ∷ []) ++ s) ≡ (body ++ b'\n' ∷ []) ∷ split_lines s
unfolding split_lines contains
split_lines-line [] s h = refl
split_lines-line (c ∷ body) s h =
    let other : (c == b'\n') ≡ false = ground (arith, h) in
    rw other (ap (put_char c) (split_lines-line body s (ground (arith, h))))

split_lines-concat : (ls : List Text) → All IsLine ls → split_lines (concat ls) ≡ ls
unfolding concat split_lines
split_lines-concat [] h = refl
split_lines-concat (l ∷ ls) ((body, free, e), h) = rw e (
    split_lines-line body (concat ls) free
    ∙ ap (λ x. (body ++ b'\n' ∷ []) ∷ x) (split_lines-concat ls h))

concat-put_char : (c : ℕ) (ls : List Text) → concat (put_char c ls) ≡ c ∷ concat ls
unfolding concat
concat-put_char c [] = refl
concat-put_char c (l ∷ ls) = refl

concat-split_lines : (s : Text) → concat (split_lines s) ≡ s
unfolding concat split_lines
concat-split_lines [] = refl
concat-split_lines (c ∷ s) = elim (Bool-cases (c == b'\n')) [
  | inl e ↦ rw e (ap (λ x. c ∷ x) (concat-split_lines s))
  | inr e ↦ rw e (concat-put_char c (split_lines s) ∙ ap (λ x. c ∷ x) (concat-split_lines s))
]

made-lines :
    (hs : List Hunk) (at : ℕ) (rest out : List Text)
    → All IsLine rest
    → All (λ (h : Hunk). All IsLine (new_side h.lines)) hs
    → IsApplied at rest hs out
    → All IsLine out
made-lines [] at rest out r n e = subst (All IsLine) e r
made-lines (h ∷ hs) at rest out r (n, ns) (kept, behind, made, start, rest_is, out_is, applied) =
    let (k, ob) =
      All-of_append IsLine kept (old_side h.lines ++ behind) (subst (All IsLine) rest_is r) in
    let b = (All-of_append IsLine (old_side h.lines) behind ob).1 in
    let m = made-lines hs (at + length kept + length (old_side h.lines)) behind made b ns applied in
    subst (All IsLine) (sym out_is) (
      All-append IsLine kept (new_side h.lines ++ made) k
        (All-append IsLine (new_side h.lines) made n m))

-- Where the file is whole lines and so are the lines that the hunks leave, a patched file goes
-- back to the original by the inverse of the patch: the old and new sides swapped and the line
-- numbers moved by what the hunks before add and remove.
pub apply_file_patch_undo :
    (path original : Text) (patch : FilePatch) (patched : Text)
    → All IsLine (split_lines original)
    → All (λ (h : Hunk). All IsLine (new_side h.lines)) patch.hunks
    → apply_file_patch path original patch ≡ ok patched
    → apply_file_patch path patched (inverse patch) ≡ ok original
apply_file_patch_undo path original patch patched lines news run =
    let (made, applied, text) = (apply_file_patch_iff path original patch patched).0 run in
    let whole = made-lines patch.hunks 0 (split_lines original) made lines news applied in
    let back = inverse-IsApplied patch.hunks 0 0 (split_lines original) made applied in
    let parts : split_lines patched ≡ made = ap split_lines text ∙ split_lines-concat made whole in
    (apply_file_patch_iff path patched (inverse patch) original).1
      (split_lines original, rw parts back, sym (concat-split_lines original))
