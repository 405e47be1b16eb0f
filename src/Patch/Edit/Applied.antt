-- ===== src/Patch/Edit/Applied.antt =====
-- What it means that hunks were applied to lines, independently of cursors and slices, and that
-- `apply_file_patch` of patch.rs does just that.
pub mod Undo
use bpm.Prelude.{
  ℕ, zero, suc, ◌+◌, ◌-◌, ◌≤◌, ◌≡◌, refl, sym, ap, ◌∙◌, ◌↔◌, Bool, true, false, ◌||◌, Option, none,
  some, List, [], ◌∷◌, ◌++◌, ltb, if◌then◌else◌, length, length-append, Result, ok, err, ◌>>=◌,
  ok_steps, arith, inl, inr, Bool-cases,
}
use mathlib.Core.Path.{subst, ap₂}
use mathlib.Core.List.{append_assoc, append-nil}
use native.Mathlib.Numerals.{unary_clauses}
use bpm.Prelude.Text.{Text, text_eq, text_eq→eq, text_eq_refl}
use bpm.Patch.{PatchError, hunk_mismatch, HunkLine, context, remove, add, Hunk, FilePatch}
use bpm.Patch.Edit.{
  split_lines, concat, get_line, take_lines, drop_lines, is_line, expect_line, apply_lines,
  apply_hunks, apply_file_patch,
}
use bpm.Patch.Edit.Slices.{
  take-drop, drop-drop, length-take, length-drop, drop-append, take-append, get-drop, drop-get,
}

-- the lines that a hunk expects, and those that it leaves
abbrev pub old_side : List HunkLine → List Text
old_side [] = []
old_side (context v ∷ ls) = v ∷ old_side ls
old_side (remove v ∷ ls) = v ∷ old_side ls
old_side (add v ∷ ls) = old_side ls

abbrev pub new_side : List HunkLine → List Text
new_side [] = []
new_side (context v ∷ ls) = v ∷ new_side ls
new_side (remove v ∷ ls) = new_side ls
new_side (add v ∷ ls) = v ∷ new_side ls

-- From line `at` on, `rest` becomes `out`: each hunk stands at its own line number, behind lines
-- that are kept, and its old side is replaced by its new side.
abbrev pub IsApplied : ℕ → List Text → List Hunk → List Text → Type 0
IsApplied at rest [] out = rest ≡ out
IsApplied at rest (h ∷ hs) out =
    (kept : List Text) × (behind : List Text) × (made : List Text) × (h.old_start - 1
      ≡ at + length kept)
    × (rest ≡ kept ++ (old_side h.lines ++ behind))
    × (out ≡ kept ++ (new_side h.lines ++ made))
    × IsApplied (at + length kept + length (old_side h.lines)) behind hs made

-- the lines of a hunk, applied
record AreReplaced (original output : List Text) (cursor : ℕ) (ls : List HunkLine)
    (out : List Text × ℕ) : Type 0 where
  old : drop_lines cursor original ≡ old_side ls ++ drop_lines out.1 original
  new : out.0 ≡ output ++ new_side ls
  at : out.1 ≡ cursor + length (old_side ls)

found :
    (path : Text) (original : List Text) (cursor : ℕ) (v : Text) {u : Unit}
    → expect_line path original cursor v ≡ ok u
    → drop_lines cursor original ≡ v ∷ drop_lines (suc cursor) original
unfolding expect_line
found path original cursor v h =
    get-drop v original cursor (elim (Bool-cases (is_line v (get_line original cursor))) [
      | inl e ↦ e
      | inr e ↦ absurd (ground (arith, e, h))
    ])

lines_sound :
    (path : Text) (original : List Text) (ls : List HunkLine) (output : List Text) (cursor : ℕ)
    {out : List Text × ℕ}
    → apply_lines path original ls output cursor ≡ ok out
    → AreReplaced original output cursor ls out
unfolding apply_lines
lines_sound path original [] output cursor {out} h =
    let e : (output, cursor) ≡ out = cc h in
    subst (AreReplaced original output cursor []) e
      (record { old = refl; new = sym (append-nil output); at = omega arith })
lines_sound path original (context v ∷ ls) output cursor {out} h =
    let (u, f, rest) = ok_steps _ (expect_line path original cursor v) h in
    let r = lines_sound path original ls (output ++ v ∷ []) (suc cursor) {out = out} rest in
    record {
      old = found path original cursor v f ∙ ap (λ x. v ∷ x) r.old;
      new = r.new ∙ append_assoc output (v ∷ []) (new_side ls);
      at = omega (arith, r.at);
    }
lines_sound path original (remove v ∷ ls) output cursor {out} h =
    let (u, f, rest) = ok_steps _ (expect_line path original cursor v) h in
    let r = lines_sound path original ls output (suc cursor) {out = out} rest in
    record {
      old = found path original cursor v f ∙ ap (λ x. v ∷ x) r.old;
      new = r.new;
      at = omega (arith, r.at);
    }
lines_sound path original (add v ∷ ls) output cursor {out} h =
    let r = lines_sound path original ls (output ++ v ∷ []) cursor {out = out} h in
    record { old = r.old; new = r.new ∙ append_assoc output (v ∷ []) (new_side ls); at = r.at }

result_eq :
    {a b : List Text} {n m : ℕ}
    → a ≡ b
    → n ≡ m
    → ◌≡◌ {A = Result (List Text × ℕ) PatchError} (ok (a, n)) (ok (b, m))
result_eq e f = cc (e, f)

lines_complete :
    (path : Text) (original : List Text) (ls : List HunkLine) (output : List Text) (cursor : ℕ)
    (rest : List Text)
    → drop_lines cursor original ≡ old_side ls ++ rest
    → apply_lines path original ls output cursor
      ≡ ok (output ++ new_side ls, cursor + length (old_side ls))
unfolding apply_lines expect_line
lines_complete path original [] output cursor rest h =
    result_eq (sym (append-nil output)) (omega arith)
lines_complete path original (context v ∷ ls) output cursor rest h =
    let (here, behind) = drop-get v original cursor h in
    rw here (
      lines_complete path original ls (output ++ v ∷ []) (suc cursor) rest behind
      ∙ result_eq (append_assoc output (v ∷ []) (new_side ls)) (omega arith))
lines_complete path original (remove v ∷ ls) output cursor rest h =
    let (here, behind) = drop-get v original cursor h in
    rw here (
      lines_complete path original ls output (suc cursor) rest behind
      ∙ result_eq refl (omega arith))
lines_complete path original (add v ∷ ls) output cursor rest h =
    lines_complete path original ls (output ++ v ∷ []) cursor rest h
    ∙ result_eq (append_assoc output (v ∷ []) (new_side ls)) refl

module _ (path : Text) (original : List Text) where
  -- `start` is behind the cursor, inside the file
  kept_lines :
      (cursor start : ℕ)
      → cursor ≤ start
      → start ≤ length original
      → (start ≡ cursor + length (take_lines (start - cursor) (drop_lines cursor original)))
        × (drop_lines cursor original
            ≡ take_lines (start - cursor) (drop_lines cursor original) ++ drop_lines start original)
  kept_lines cursor start low high =
      let left = drop_lines cursor original in
      let few : start - cursor ≤ length left = omega (arith, length-drop cursor original) in
      let from : drop_lines (start - cursor) left ≡ drop_lines start original =
        drop-drop (start - cursor) cursor original
        ∙ ap (λ k. drop_lines k original) (omega arith) in
      (
        omega (arith, length-take (start - cursor) left few),
        take-drop (start - cursor) left ∙ ap (λ x. take_lines (start - cursor) left ++ x) from,
      )

  hunks_sound :
      (hs : List Hunk) (output : List Text) (cursor : ℕ) {out : List Text × ℕ}
      → apply_hunks path original hs output cursor ≡ ok out
      → (made : List Text) × IsApplied cursor (drop_lines cursor original) hs made
        × (out.0 ++ drop_lines out.1 original ≡ output ++ made)
  unfolding apply_hunks
  hunks_sound [] output cursor {out} h =
      let e : (output, cursor) ≡ out = cc h in (drop_lines cursor original, refl, rw (← e) refl)
  hunks_sound (h ∷ hs) output cursor {out} run =
      elim (Bool-cases (ltb (h.old_start - 1) cursor || ltb (length original) (h.old_start - 1))) [
        | inl bad ↦ absurd (ground (arith, bad, run))
        | inr good ↦
            let start = h.old_start - 1 in
            let kept = take_lines (start - cursor) (drop_lines cursor original) in
            let (at, split) =
              kept_lines cursor start (ground (arith, good)) (ground (arith, good)) in
            let first = apply_lines path original h.lines (output ++ kept) start in
            let go_on : (first >>= λ (done, at'). apply_hunks path original hs done at') ≡ ok out =
              ground (arith, good, run) in
            let (mid, a_ok, rest) = ok_steps _ first go_on in
            let r = lines_sound path original h.lines _ start {out = mid} a_ok in
            let (made, applied, e) = hunks_sound hs mid.0 mid.1 {out = out} rest in
            let next : mid.1 ≡ cursor + length kept + length (old_side h.lines) =
              omega (arith, r.at, at) in
            (
              kept ++ (new_side h.lines ++ made),
              (
                kept,
                drop_lines mid.1 original,
                made,
                at,
                split ∙ ap (λ x. kept ++ x) r.old,
                refl,
                subst (λ n. IsApplied n (drop_lines mid.1 original) hs made) next applied,
              ),
              e
                  ∙ ap (λ x. x ++ made) r.new
                  ∙ append_assoc (output ++ kept) (new_side h.lines) made
                  ∙ append_assoc output kept (new_side h.lines ++ made),
            )
      ]

  hunks_complete :
      (hs : List Hunk) (output : List Text) (cursor : ℕ) (made : List Text)
      → cursor ≤ length original
      → IsApplied cursor (drop_lines cursor original) hs made
      → (out : List Text × ℕ) × (apply_hunks path original hs output cursor ≡ ok out)
        × (out.0 ++ drop_lines out.1 original ≡ output ++ made)
  unfolding apply_hunks
  hunks_complete [] output cursor made c applied =
      ((output, cursor), refl, ap (λ x. output ++ x) applied)
  hunks_complete (h ∷ hs) output cursor made c
        (kept, behind, made_behind, at, split, made_is, applied) =
      let start = h.old_start - 1 in
      let old = old_side h.lines in
      let lengths : length original - cursor ≡ length kept + (length old + length behind) = omega (
        arith,
        length-drop cursor original,
        ap length split,
        length-append kept (old ++ behind),
        length-append old behind,
      ) in
      let few : start - cursor ≡ length kept = omega arith in
      let taken : take_lines (start - cursor) (drop_lines cursor original) ≡ kept =
        rw (few, split) (take-append kept (old ++ behind)) in
      let left : drop_lines start original ≡ old ++ behind =
        ap (λ k. drop_lines k original) (omega arith)
        ∙ sym (drop-drop (length kept) cursor original)
        ∙ rw split (drop-append kept (old ++ behind)) in
      let next : drop_lines (start + length old) original ≡ behind =
        sym (drop-drop (length old) start original) ∙ rw left (drop-append old behind) in
      let step = lines_complete path original h.lines (output ++ kept) start behind left in
      let inside : start + length old ≤ length original = omega arith in
      let applied' : IsApplied (start + length old) (drop_lines (start + length old) original) hs
          made_behind =
        rw next (subst (λ n. IsApplied n behind hs made_behind) (omega arith) applied) in
      let (out, o_ok, e) =
        hunks_complete hs ((output ++ kept) ++ new_side h.lines) (start + length old) made_behind
          inside applied' in
      let good : (ltb start cursor || ltb (length original) start) ≡ false = ground arith in
      (
        out,
        rw (good, taken, step) o_ok,
        e
            ∙ append_assoc (output ++ kept) (new_side h.lines) made_behind
            ∙ append_assoc output kept (new_side h.lines ++ made_behind)
            ∙ ap (λ x. output ++ x) (sym made_is),
      )

-- A patched file is returned exactly where the hunks can be applied to its lines one behind the
-- other, each at its own line number with its context and removed lines found there, and it is
-- the lines that this gives.
pub apply_file_patch_iff :
    (path original : Text) (patch : FilePatch) (patched : Text)
    → (apply_file_patch path original patch ≡ ok patched) ↔ (
        (made : List Text) × IsApplied 0 (split_lines original) patch.hunks made
        × (patched ≡ concat made))
unfolding apply_file_patch drop_lines
apply_file_patch_iff path original patch patched = (sound, complete)
  where
    sound :
        apply_file_patch path original patch ≡ ok patched
        → (made : List Text) × IsApplied 0 (split_lines original) patch.hunks made
          × (patched ≡ concat made)
    sound h =
        let (out, run, rest) =
          ok_steps _ (apply_hunks path (split_lines original) patch.hunks [] 0) h in
        let (made, applied, e) =
          hunks_sound path (split_lines original) patch.hunks [] 0 {out = out} run in
        let text : concat (out.0 ++ drop_lines out.1 (split_lines original)) ≡ patched = cc rest in
        (made, applied, sym text ∙ ap concat e)

    complete :
        (made : List Text) × IsApplied 0 (split_lines original) patch.hunks made
          × (patched ≡ concat made)
        → apply_file_patch path original patch ≡ ok patched
    complete (made, applied, text) =
        let (out, run, e) =
          hunks_complete path (split_lines original) patch.hunks [] 0 made (omega arith) applied in
        rw run (cc (ap concat e, text))
