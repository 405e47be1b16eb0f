-- ===== src/Patch/Edit.antt =====
-- src/patch.rs: the file of a patch, and its hunks applied to the lines of that file.
pub mod Applied
pub mod Found
pub mod Slices
use bpm.Prelude.{
  ℕ, zero, suc, ◌+◌, ◌-◌, Bool, false, ◌||◌, Option, none, some, List, [], ◌∷◌, ◌++◌, ltb, ◌==◌,
  if◌then◌else◌, length, Result, ok, err, ◌>>=◌,
}
use bpm.Prelude.Text.{Text, txt, text_eq, split_once}
use bpm.Patch.{PatchError, hunk_mismatch, TarEntry, HunkLine, context, remove, add, Hunk, FilePatch}

-- The map of paths holds the last entry of each.
unfoldable pub last_position : Text → ℕ → List TarEntry → Option ℕ
last_position path at [] = none
last_position path at (e ∷ es) =
    let rest = last_position path (suc at) es in
    elim rest [ some i ↦ some i | none ↦ if text_eq e.path path then some at else none ]

abbrev below_any : Text → Option (Text × Text) → Bool
below_any target none = false
below_any target (some (first, rest)) = text_eq rest target

-- the path behind its first directory
unfoldable pub is_below_root : Text → Text → Bool
is_below_root target path = below_any target (split_once b'/' path)

unfoldable pub position : (Text → Bool) → ℕ → List TarEntry → Option ℕ
position p at [] = none
position p at (e ∷ es) = let rest = position p (suc at) es in if p e.path then some at else rest

unfoldable pub find_target : List TarEntry → Text → Option ℕ
find_target entries target = elim (last_position target 0 entries) [
  | some i ↦ some i
  | none ↦ elim (last_position (txt "package/" ++ target) 0 entries) [
    | some i ↦ some i
    | none ↦ position (is_below_root target) 0 entries
  ]
]

-- `split_inclusive`: the lines with their ends
abbrev pub put_char : ℕ → List Text → List Text
put_char c [] = (c ∷ []) ∷ []
put_char c (l ∷ ls) = (c ∷ l) ∷ ls

unfoldable pub split_lines : Text → List Text
split_lines [] = []
split_lines (c ∷ s) =
    let rest = split_lines s in if c == b'\n' then (c ∷ []) ∷ rest else put_char c rest

unfoldable pub concat : List Text → Text
concat [] = []
concat (l ∷ ls) = l ++ concat ls

-- `original.get(cursor)`, and the slices `original[..n]` and `original[n..]`
unfoldable pub get_line : List Text → ℕ → Option Text
get_line [] n = none
get_line (l ∷ ls) zero = some l
get_line (l ∷ ls) (suc n) = get_line ls n

unfoldable pub take_lines : ℕ → List Text → List Text
take_lines zero ls = []
take_lines (suc n) [] = []
take_lines (suc n) (l ∷ ls) = l ∷ take_lines n ls

unfoldable pub drop_lines : ℕ → List Text → List Text
drop_lines zero ls = ls
drop_lines (suc n) [] = []
drop_lines (suc n) (l ∷ ls) = drop_lines n ls

abbrev pub is_line : Text → Option Text → Bool
is_line expected none = false
is_line expected (some l) = text_eq l expected

unfoldable pub expect_line : Text → List Text → ℕ → Text → Result {0, 0} Unit PatchError
expect_line path original cursor expected =
    if is_line expected (get_line original cursor)
    then ok tt
    else err (hunk_mismatch path (cursor + 1))

-- the lines of a hunk: what was put out and the cursor, before and after
unfoldable pub apply_lines :
    Text → List Text → List HunkLine → List Text → ℕ → Result (List Text × ℕ) PatchError
apply_lines path original [] output cursor = ok (output, cursor)
apply_lines path original (context value ∷ ls) output cursor =
    expect_line path original cursor value >>= λ found.
    apply_lines path original ls (output ++ value ∷ []) (suc cursor)
apply_lines path original (remove value ∷ ls) output cursor =
    expect_line path original cursor value >>= λ found.
    apply_lines path original ls output (suc cursor)
apply_lines path original (add value ∷ ls) output cursor =
    apply_lines path original ls (output ++ value ∷ []) cursor

unfoldable pub apply_hunks :
    Text → List Text → List Hunk → List Text → ℕ → Result (List Text × ℕ) PatchError
apply_hunks path original [] output cursor = ok (output, cursor)
apply_hunks path original (h ∷ hs) output cursor =
    let start = h.old_start - 1 in
    let go_on =
      apply_lines path original h.lines
        (output ++ take_lines (start - cursor) (drop_lines cursor original)) start
      >>= λ (done, at). apply_hunks path original hs done at in
    if ltb start cursor || ltb (length original) start
    then err (hunk_mismatch path h.old_start)
    else go_on

unfoldable pub apply_file_patch : Text → Text → FilePatch → Result Text PatchError
apply_file_patch path original patch =
    apply_hunks path (split_lines original) patch.hunks [] 0 >>= λ (output, cursor).
    ok (concat (output ++ drop_lines cursor (split_lines original)))
