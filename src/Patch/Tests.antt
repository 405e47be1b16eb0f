-- ===== src/Patch/Tests.antt =====
-- A small patch through patch.rs, and the theorems at it.
use bpm.Prelude.{inl, ◌≡◌, ◌≢◌, ◌↔◌, ◌⊎◌, refl, none, some, List, [], ◌∷◌, All, ok, err, ℕ}
use bpm.Prelude.Text.{Text, txt, text_eq, strip_prefix, starts_with, split, split_once, contains}
use bpm.Prelude.Decimal.{parse_u64, parse_digits, digits_value, is_ascii_digit}
use bpm.Prelude.Words.{is_whitespace, words_from, split_whitespace}
use bpm.Patch.{
  malformed, failed, panicked, TarEntry, context, remove, add, FilePatch, strip_cr, complete_lines,
  str_lines, trim_start_fuel, trim_start_matches, contains_dots, normalize_patch_path, find_minus,
  parse_old_start, line_kind, hunk_line, target_line, parse_loop, parse_patch,
}
use bpm.Patch.Edit.{
  last_position, is_below_root, position, find_target, split_lines, concat, get_line, take_lines,
  drop_lines, expect_line, apply_lines, apply_hunks, apply_file_patch,
}
use bpm.Patch.Edit.Applied.{IsApplied, apply_file_patch_iff}
use bpm.Patch.Edit.Applied.Undo.{inverse, apply_file_patch_undo}
use bpm.Patch.Edit.Found.{entry_at, IsBelow, find_target_finds}
use bpm.Patch.Whole.{IsUsable, parse_patch-AreUsable}
use bpm.Patch.Reverted.{parsed_patch_undo}

abbrev diff : Text
diff = txt "--- a/x.js\n+++ b/x.js\n@@ -2 +2 @@\n b\n-c\n+d\n"

abbrev parsed : FilePatch
parsed = record {
  target = txt "x.js";
  hunks =
      record {
        old_start = 2;
        lines = context (txt "b\n") ∷ remove (txt "c\n") ∷ add (txt "d\n") ∷ [];
      }
      ∷ [];
}

parsed-diff : parse_patch diff ≡ ok (parsed ∷ [])
unfolding parse_patch parse_loop str_lines complete_lines strip_cr split line_kind starts_with
    hunk_line target_line trim_start_matches trim_start_fuel strip_prefix normalize_patch_path
    split_whitespace words_from is_whitespace contains_dots text_eq parse_old_start find_minus
    parse_u64 parse_digits digits_value is_ascii_digit
parsed-diff = refl

-- A removed line that begins with `-- ` is read as the header of a file.
removed_comment :
    parse_patch (txt "--- a/q.sql\n+++ b/q.sql\n@@ -1 +0 @@\n--- old\n")
    ≡ err (failed (malformed (txt "expected +++ after ---")))
unfolding parse_patch parse_loop str_lines complete_lines strip_cr split line_kind starts_with
    hunk_line target_line trim_start_matches trim_start_fuel strip_prefix normalize_patch_path
    split_whitespace words_from is_whitespace contains_dots text_eq parse_old_start find_minus
    parse_u64 parse_digits digits_value is_ascii_digit
removed_comment = refl

-- An empty line in a hunk is a panic.
empty_line : parse_patch (txt "--- a/x\n+++ b/x\n@@ -1 +1 @@\n\n") ≡ err panicked
unfolding parse_patch parse_loop str_lines complete_lines strip_cr split line_kind starts_with
    hunk_line target_line trim_start_matches trim_start_fuel strip_prefix normalize_patch_path
    split_whitespace words_from is_whitespace contains_dots text_eq parse_old_start find_minus
    parse_u64 parse_digits digits_value is_ascii_digit
empty_line = refl

patched : apply_file_patch (txt "p/x.js") (txt "a\nb\nc\n") parsed ≡ ok (txt "a\nb\nd\n")
unfolding apply_file_patch apply_hunks apply_lines expect_line get_line take_lines drop_lines
    split_lines concat text_eq
patched = refl

apply_file_patch_iff_example :
    (apply_file_patch (txt "p/x.js") (txt "a\nb\nc\n") parsed ≡ ok (txt "a\nb\nd\n")) ↔ (
      (made : List Text) × IsApplied 0 (split_lines (txt "a\nb\nc\n")) parsed.hunks made
      × (txt "a\nb\nd\n" ≡ concat made))
apply_file_patch_iff_example =
    apply_file_patch_iff (txt "p/x.js") (txt "a\nb\nc\n") parsed (txt "a\nb\nd\n")

apply_file_patch_undo_example :
    apply_file_patch (txt "p/x.js") (txt "a\nb\nd\n") (inverse parsed) ≡ ok (txt "a\nb\nc\n")
unfolding split_lines contains
apply_file_patch_undo_example =
    apply_file_patch_undo (txt "p/x.js") (txt "a\nb\nc\n") parsed (txt "a\nb\nd\n")
      ((txt "a", refl, refl), ((txt "b", refl, refl), ((txt "c", refl, refl), tt)))
      (((txt "b", refl, refl), ((txt "d", refl, refl), tt)), tt) patched

parse_patch-AreUsable_example : ((parsed ∷ []) ≢ []) × All IsUsable (parsed ∷ [])
parse_patch-AreUsable_example = parse_patch-AreUsable diff (parsed ∷ []) parsed-diff

abbrev files : List TarEntry
files =
    record { path = txt "p/y.js"; mode = 420; data_bytes = [] }
    ∷ record { path = txt "p/x.js"; mode = 420; data_bytes = [] }
    ∷ []

found_file : find_target files (txt "x.js") ≡ some 1
unfolding find_target last_position position is_below_root split_once text_eq
found_file = refl

find_target_finds_example :
    ((i : ℕ) × (e : TarEntry) × (find_target files (txt "x.js") ≡ some i)
      × (entry_at files i ≡ some e)
      × ((e.path ≡ txt "x.js")
          ⊎ (All (λ (o : TarEntry). o.path ≢ txt "x.js") files × IsBelow (txt "x.js") e.path)))
    ⊎ ((find_target files (txt "x.js") ≡ none)
        × All (λ (o : TarEntry). (o.path ≢ txt "x.js") × ¬ IsBelow (txt "x.js") o.path) files)
find_target_finds_example = find_target_finds files (txt "x.js")

parsed_patch_undo_example :
    apply_file_patch (txt "p/x.js") (txt "a\nb\nd\n") (inverse parsed) ≡ ok (txt "a\nb\nc\n")
unfolding split_lines contains
parsed_patch_undo_example =
    parsed_patch_undo diff (parsed ∷ []) parsed (txt "p/x.js") (txt "a\nb\nc\n") (txt "a\nb\nd\n")
      parsed-diff (inl refl)
      ((txt "a", refl, refl), ((txt "b", refl, refl), ((txt "c", refl, refl), tt))) patched

-- The note on a missing newline adds no line.
missing_newline : hunk_line (92 ∷ txt " No newline at end of file") ≡ ok []
unfolding hunk_line text_eq
missing_newline = refl
