-- ===== src/Patch/Whole.antt =====
-- What `parse_patch` of patch.rs returns.
use bpm.Prelude.{
  ℕ, ◌≡◌, ◌≢◌, refl, ap, false, List, [], ◌∷◌, ◌++◌, All, All-append, Result, ok, err, ◌>>=◌,
  ok_steps, arith, inl, inr, ◌⊎◌, Bool-cases,
}
use mathlib.Core.Path.{subst}
use bpm.Prelude.Text.{Text, txt, is_empty, contains, split, starts_with}
use bpm.Prelude.TextLaws.{split-Free}
use bpm.Patch.{
  Stop, failed, empty, HunkLine, context, remove, add, Hunk, FilePatch, Loop, outside,
  target_of_file, in_file, in_hunk, Parsed, LineKind, file_header, hunk_header, other, line_kind,
  strip_cr, complete_lines, str_lines, contains_dots, normalize_patch_path, hunk_line, target_line,
  parse_old_start, parse_loop, some_patches, parse_patch, open_file, open_hunk, more_lines,
}
use bpm.Patch.Edit.Applied.{new_side}
use bpm.Patch.Edit.Applied.Undo.{IsLine}

abbrev pub HasWholeLines : Hunk → Type 0
HasWholeLines h = All IsLine (new_side h.lines)

-- a target without `..`, and hunks of whole lines
pub record IsUsable (p : FilePatch) : Type 0 where
  pub named : is_empty p.target ≡ false
  pub inside : contains_dots p.target ≡ false
  pub whole : All HasWholeLines p.hunks

abbrev NoNewline : Text → Type 0
NoNewline l = contains b'\n' l ≡ false

strip_cr-NoNewline : (l : Text) → NoNewline l → NoNewline (strip_cr l)
unfolding strip_cr contains
strip_cr-NoNewline [] h = refl
strip_cr-NoNewline (c ∷ []) h = ground arith
strip_cr-NoNewline (c ∷ d ∷ l) h = ground (arith, strip_cr-NoNewline (d ∷ l))

normalize-named :
    (value : Text) {path : Text}
    → normalize_patch_path value ≡ ok path
    → (is_empty path ≡ false) × (contains_dots path ≡ false)
unfolding normalize_patch_path
normalize-named value h = ground (arith, h)

line_kinds :
    (l : Text) → (line_kind l ≡ file_header) ⊎ ((line_kind l ≡ hunk_header) ⊎ (line_kind l ≡ other))
line_kinds l = kinds (line_kind l)
  where
    kinds : (k : LineKind) → (k ≡ file_header) ⊎ ((k ≡ hunk_header) ⊎ (k ≡ other))
    kinds file_header = inl refl
    kinds hunk_header = inr (inl refl)
    kinds other = inr (inr refl)

complete_lines-NoNewline : (ls : List Text) → All NoNewline ls → All NoNewline (complete_lines ls)
unfolding complete_lines
complete_lines-NoNewline [] h = tt
complete_lines-NoNewline ([] ∷ []) h = tt
complete_lines-NoNewline ((c ∷ l) ∷ []) h = h
complete_lines-NoNewline (l ∷ m ∷ ls) h =
    (strip_cr-NoNewline l h.0, complete_lines-NoNewline (m ∷ ls) h.1)

str_lines-NoNewline : (s : Text) → All NoNewline (str_lines s)
unfolding str_lines
str_lines-NoNewline s = complete_lines-NoNewline (split b'\n' s) (split-Free b'\n' s)

hunk_line_forms :
    (c : ℕ) (v : Text) {found : List HunkLine}
    → hunk_line (c ∷ v) ≡ ok found
    → (found ≡ [])
      ⊎ ((found ≡ context (v ++ txt "\n") ∷ [])
          ⊎ ((found ≡ remove (v ++ txt "\n") ∷ []) ⊎ (found ≡ add (v ++ txt "\n") ∷ [])))
unfolding hunk_line
hunk_line_forms c v h = ground (arith, h)

hunk_line-AreLines :
    (l : Text) {found : List HunkLine}
    → NoNewline l
    → hunk_line l ≡ ok found
    → All IsLine (new_side found)
unfolding contains
hunk_line-AreLines [] n h = unfold hunk_line in cc
hunk_line-AreLines (c ∷ v) {found} n h =
    let line : IsLine (v ++ b'\n' ∷ []) = (v, ground (arith, n), refl) in
    elim (hunk_line_forms c v {found = found} h) [
      | inl e ↦ rw e tt
      | inr (inl e) ↦ rw e (line, tt)
      | inr (inr (inl e)) ↦ rw e tt
      | inr (inr (inr e)) ↦ rw e (line, tt)
    ]

new_side-append : (a b : List HunkLine) → new_side (a ++ b) ≡ new_side a ++ new_side b
new_side-append [] b = refl
new_side-append (context v ∷ a) b = ap (λ x. v ∷ x) (new_side-append a b)
new_side-append (remove v ∷ a) b = new_side-append a b
new_side-append (add v ∷ a) b = ap (λ x. v ∷ x) (new_side-append a b)

-- what the loops give from a line on, from lines that were split
abbrev IsGood : Parsed → Type 0
IsGood p =
    All IsLine (new_side p.hunk_lines)
    × All HasWholeLines p.hunks_behind
    × All IsUsable p.patches_behind

target_line-named :
    (l : Text) {path : Text}
    → target_line l ≡ ok path
    → (is_empty path ≡ false) × (contains_dots path ≡ false)
unfolding target_line
target_line-named l {path} h = elim (Bool-cases (starts_with (txt "+++ ") l)) [
  | inl e ↦ normalize-named _ {path = path} (rw e at h)
  | inr e ↦ absurd (ground (arith, e, h))
]

module _ (l : Text) (ls : List Text) {p : Parsed} where
  file-IsGood :
      ((q : Parsed) → parse_loop in_file ls ≡ ok q → IsGood q)
      → (target_line l >>= λ path. parse_loop in_file ls >>= λ q. ok (open_file path q)) ≡ ok p
      → IsGood p
  file-IsGood good h =
      let (path, t_ok, h1) = ok_steps _ (target_line l) h in
      let (q, q_ok, h2) = ok_steps _ (parse_loop in_file ls) h1 in
      let (lines, hunks, patches) = good q q_ok in
      let (named, inside) = target_line-named l {path = path} t_ok in
      let e : open_file path q ≡ p = cc h2 in
      subst IsGood e (tt, tt, (record { named = named; inside = inside; whole = hunks }, patches))

  hunk-IsGood :
      ((q : Parsed) → parse_loop in_hunk ls ≡ ok q → IsGood q)
      → (parse_old_start l >>= λ start. parse_loop in_hunk ls >>= λ q. ok (open_hunk start q))
        ≡ ok p
      → IsGood p
  hunk-IsGood good h =
      let (start, s_ok, h1) = ok_steps _ (parse_old_start l) h in
      let (q, q_ok, h2) = ok_steps _ (parse_loop in_hunk ls) h1 in
      let (lines, hunks, patches) = good q q_ok in
      let e : open_hunk start q ≡ p = cc h2 in subst IsGood e (tt, (lines, hunks), patches)

  line-IsGood :
      NoNewline l
      → ((q : Parsed) → parse_loop in_hunk ls ≡ ok q → IsGood q)
      → (hunk_line l >>= λ found. parse_loop in_hunk ls >>= λ q. ok (more_lines found q)) ≡ ok p
      → IsGood p
  line-IsGood n good h =
      let (found, f_ok, h1) = ok_steps _ (hunk_line l) h in
      let (q, q_ok, h2) = ok_steps _ (parse_loop in_hunk ls) h1 in
      let (lines, hunks, patches) = good q q_ok in
      let e : more_lines found q ≡ p = cc h2 in
      let here = hunk_line-AreLines l {found = found} n f_ok in
      let both : All IsLine (new_side (found ++ q.hunk_lines)) =
        rw (new_side-append found q.hunk_lines)
          (All-append IsLine (new_side found) (new_side q.hunk_lines) here lines) in
      subst IsGood e (both, hunks, patches)

nothing-IsGood :
    (p : Parsed)
    → ◌≡◌ {A = Result Parsed Stop}
        (ok (record { hunk_lines = []; hunks_behind = []; patches_behind = [] }))
        (ok p)
    → IsGood p
nothing-IsGood p h =
    let e : record { hunk_lines = []; hunks_behind = []; patches_behind = [] } ≡ p = cc h in
    subst IsGood e (tt, tt, tt)

loop-IsGood :
    (m : Loop) (ls : List Text) (p : Parsed) → All NoNewline ls → parse_loop m ls ≡ ok p → IsGood p
unfolding parse_loop line_kind starts_with
loop-IsGood target_of_file [] p n h = cc
loop-IsGood outside [] p n h = nothing-IsGood p h
loop-IsGood in_file [] p n h = nothing-IsGood p h
loop-IsGood in_hunk [] p n h = nothing-IsGood p h
loop-IsGood target_of_file (l ∷ ls) p n h =
    file-IsGood l ls {p = p} (λ q e. loop-IsGood in_file ls q n.1 e) h
loop-IsGood outside (l ∷ ls) p n h = elim (line_kinds l) [
  | inl e ↦ loop-IsGood target_of_file ls p n.1 (rw e at h)
  | inr (inl e) ↦ loop-IsGood outside ls p n.1 (rw e at h)
  | inr (inr e) ↦ loop-IsGood outside ls p n.1 (rw e at h)
]
loop-IsGood in_file (l ∷ ls) p n h = elim (line_kinds l) [
  | inl e ↦ loop-IsGood target_of_file ls p n.1 (rw e at h)
  | inr (inl e) ↦ hunk-IsGood l ls {p = p} (λ q e'. loop-IsGood in_hunk ls q n.1 e') (rw e at h)
  | inr (inr e) ↦ loop-IsGood in_file ls p n.1 (rw e at h)
]
loop-IsGood in_hunk (l ∷ ls) p n h = elim (line_kinds l) [
  | inl e ↦ loop-IsGood target_of_file ls p n.1 (rw e at h)
  | inr (inl e) ↦ hunk-IsGood l ls {p = p} (λ q e'. loop-IsGood in_hunk ls q n.1 e') (rw e at h)
  | inr (inr e) ↦ line-IsGood l ls {p = p} n.0 (λ q e'. loop-IsGood in_hunk ls q n.1 e') (rw e at h)
]

-- Every patch that is parsed names a file, without `..` in its path, and leaves whole lines only;
-- and there is at least one.
pub parse_patch-AreUsable :
    (text : Text) (patches : List FilePatch)
    → parse_patch text ≡ ok patches
    → (patches ≢ []) × All IsUsable patches
unfolding parse_patch
parse_patch-AreUsable text patches h =
    let (p, l_ok, rest) = ok_steps some_patches (parse_loop outside (str_lines text)) h in
    last p.patches_behind rest
      (loop-IsGood outside (str_lines text) p (str_lines-NoNewline text) l_ok).2
  where
    last :
        (qs : List FilePatch)
        → (elim qs [ [] ↦ err (failed empty) | r ∷ rs ↦ ok (r ∷ rs) ]) ≡ ok patches
        → All IsUsable qs
        → (patches ≢ []) × All IsUsable patches
    last [] e us = cc
    last (q ∷ qs) e us =
        let same : (q ∷ qs) ≡ patches = cc e in (rw (← same) cc, subst (All IsUsable) same us)
