-- ===== src/Patch.antt =====
-- src/patch.rs: unified diffs. A `String` is its scalar values. Reading and writing the tarball is
-- not here.
pub mod Edit
pub mod Whole
pub mod Reverted
mod Tests
use bpm.Prelude.{
  ℕ, zero, suc, ◌+◌, ◌-◌, ◌^◌, Bool, true, false, not, ◌&&◌, ◌||◌, Option, none, some, List, [],
  ◌∷◌, ◌++◌, ltb, leb, ◌==◌, if◌then◌else◌, length, Result, ok, err, ◌>>=◌,
}
use bpm.Prelude.Text.{
  Text, txt, text_eq, is_empty, contains, strip_prefix, starts_with, split, split_once,
}
use bpm.Prelude.Words.{split_whitespace, add_word}
use bpm.Prelude.Decimal.{parse_u64}

pub data PatchError : Type 0 where
  empty : PatchError
  malformed : Text → PatchError
  missing_target : Text → PatchError
  hunk_mismatch : Text → ℕ → PatchError
  read : Text → PatchError
  write : Text → PatchError
  utf8 : Text → PatchError

-- How the parser stops early: with an error, or in the panic of `split_at(1)` on a line that is
-- empty or begins with a character of several bytes.
pub data Stop : Type 0 where
  failed : PatchError → Stop
  panicked : Stop

pub record TarEntry : Type 0 where
  pub path : Text
  pub mode : ℕ
  pub data_bytes : List ℕ

pub data HunkLine : Type 0 where
  context remove add : Text → HunkLine

pub record Hunk : Type 0 where
  pub old_start : ℕ
  pub lines : List HunkLine

pub record FilePatch : Type 0 where
  pub target : Text
  pub hunks : List Hunk

-- `str::lines`
unfoldable pub strip_cr : Text → Text
strip_cr [] = []
strip_cr (c ∷ []) = if c == 13 then [] else c ∷ []
strip_cr (c ∷ d ∷ s) = c ∷ strip_cr (d ∷ s)

unfoldable pub complete_lines : List Text → List Text
complete_lines [] = []
complete_lines (l ∷ []) = add_word l []
complete_lines (l ∷ m ∷ ls) = strip_cr l ∷ complete_lines (m ∷ ls)

unfoldable pub str_lines : Text → List Text
str_lines s = complete_lines (split b'\n' s)

-- `trim_start_matches`, on fuel: no more than the length of the text is needed
unfoldable pub trim_start_fuel : ℕ → Text → Text → Text
trim_start_fuel zero p s = s
trim_start_fuel (suc fuel) p s = elim (strip_prefix p s) [
  | none ↦ s
  | some r ↦ trim_start_fuel fuel p r
]

unfoldable pub trim_start_matches : Text → Text → Text
trim_start_matches p s = trim_start_fuel (length s) p s

abbrev pub first_or : Text → List Text → Text
first_or d [] = d
first_or d (x ∷ xs) = x

abbrev pub unwrap_or : Option Text → Text → Text
unwrap_or none d = d
unwrap_or (some a) d = a

abbrev pub or_else : Option Text → Option Text → Option Text
or_else none b = b
or_else (some a) b = some a

-- `contains("..")`
unfoldable pub contains_dots : Text → Bool
contains_dots [] = false
contains_dots (c ∷ s) = starts_with (txt "..") (c ∷ s) || contains_dots s

unfoldable pub normalize_patch_path : Text → Result Text Stop
normalize_patch_path value =
    let named = first_or value (split_whitespace value) in
    let bare =
      unwrap_or (or_else (strip_prefix (txt "a/") named) (strip_prefix (txt "b/") named)) named in
    let path = trim_start_matches (txt "./") bare in
    if text_eq named (txt "/dev/null")
    then err (failed (malformed (txt "creating or deleting files is not supported yet")))
    else if is_empty path || contains_dots path
    then err (failed (malformed (txt "unsafe patch path " ++ path)))
    else ok path

unfoldable pub find_minus : List Text → Option Text
find_minus [] = none
find_minus (p ∷ ps) = if starts_with (txt "-") p then some p else find_minus ps

-- the message of an error holds the line as it is; the source prints it quoted
abbrev pub bad_header : Text → Stop
bad_header header = failed (malformed (txt "bad hunk header " ++ header))

abbrev pub old_number : Text → Option Text → Result ℕ Stop
old_number header none = err (bad_header header)
old_number header (some old) =
    elim (parse_u64 (first_or (txt "1") (split b',' (trim_start_matches (txt "-") old)))) [
      | none ↦ err (bad_header header)
      | some n ↦ ok n
    ]

unfoldable pub parse_old_start : Text → Result ℕ Stop
parse_old_start header = old_number header (find_minus (split_whitespace header))

-- What the loops of `parse_patch` test a line for.
pub data LineKind : Type 0 where
  file_header hunk_header other : LineKind

unfoldable pub line_kind : Text → LineKind
line_kind l =
    if starts_with (txt "--- ") l
    then file_header
    else if starts_with (txt "@@ ") l
    then hunk_header
    else other

-- a line of a hunk: nothing for the note on a missing newline
unfoldable pub hunk_line : Text → Result (List HunkLine) Stop
hunk_line [] = err panicked
hunk_line (c ∷ value) =
    if text_eq (c ∷ value) (txt "\\ No newline at end of file")
    then ok []
    else if leb 128 c
    then err panicked
    else if c == 32
    then ok (context (value ++ txt "\n") ∷ [])
    else if c == b'-'
    then ok (remove (value ++ txt "\n") ∷ [])
    else if c == b'+'
    then ok (add (value ++ txt "\n") ∷ [])
    else err (failed (malformed (txt "bad hunk line " ++ c ∷ value)))

-- What reads the line: one of the three nested loops, or the step behind a line `--- `.
pub data Loop : Type 0 where
  outside target_of_file in_file in_hunk : Loop

-- What the loops give from a line on: the lines of the open hunk, the hunks of the open file that
-- follow, and the files that follow.
pub record Parsed : Type 0 where
  pub hunk_lines : List HunkLine
  pub hunks_behind : List Hunk
  pub patches_behind : List FilePatch

abbrev pub open_file : Text → Parsed → Parsed
open_file path rest = record {
  hunk_lines = [];
  hunks_behind = [];
  patches_behind = record { target = path; hunks = rest.hunks_behind } ∷ rest.patches_behind;
}

abbrev pub open_hunk : ℕ → Parsed → Parsed
open_hunk start rest = record {
  hunk_lines = [];
  hunks_behind = record { old_start = start; lines = rest.hunk_lines } ∷ rest.hunks_behind;
  patches_behind = rest.patches_behind;
}

abbrev pub more_lines : List HunkLine → Parsed → Parsed
more_lines ls rest = record {
  hunk_lines = ls ++ rest.hunk_lines;
  hunks_behind = rest.hunks_behind;
  patches_behind = rest.patches_behind;
}

abbrev pub expected_target : Stop
expected_target = failed (malformed (txt "expected +++ after ---"))

-- the path in the line behind `--- `
unfoldable pub target_line : Text → Result Text Stop
target_line l =
    if starts_with (txt "+++ ") l
    then normalize_patch_path (trim_start_matches (txt "+++ ") l)
    else err expected_target

unfoldable pub parse_loop : Loop → List Text → Result Parsed Stop
parse_loop target_of_file [] = err expected_target
parse_loop m [] = ok (record { hunk_lines = []; hunks_behind = []; patches_behind = [] })
parse_loop target_of_file (l ∷ ls) =
    target_line l >>= λ path. parse_loop in_file ls >>= λ p. ok (open_file path p)
parse_loop m (l ∷ ls) = elim (line_kind l) [
  | file_header ↦ parse_loop target_of_file ls
  | hunk_header ↦ elim m [
    | outside ↦ parse_loop outside ls
    | other_loop ↦
        parse_old_start l >>= λ start. parse_loop in_hunk ls >>= λ p. ok (open_hunk start p)
  ]
  | other ↦ elim m [
    | in_hunk ↦ hunk_line l >>= λ found. parse_loop in_hunk ls >>= λ p. ok (more_lines found p)
    | same ↦ parse_loop same ls
  ]
]

abbrev pub some_patches : Parsed → Result (List FilePatch) Stop
some_patches p = elim p.patches_behind [ [] ↦ err (failed empty) | q ∷ qs ↦ ok (q ∷ qs) ]

unfoldable pub parse_patch : Text → Result (List FilePatch) Stop
parse_patch text = parse_loop outside (str_lines text) >>= some_patches
