-- ===== src/Prelude/Words.antt =====
-- The words of a text: Rust's `split_whitespace`.
use Prim.Native.Nat.{ℕ}
use mathlib.Core.Bool.{Bool, ◌&&◌, ◌||◌}
use mathlib.Core.List.{List, [], ◌∷◌}
use bpm.Prelude.Tests.{leb, ◌==◌, if◌then◌else◌}
use bpm.Prelude.Text.{Text, trim_end}

-- `char::is_whitespace`
unfoldable pub is_whitespace : ℕ → Bool
is_whitespace c =
    leb 9 c && leb c 13
    || c == 32
    || c == 133
    || c == 160
    || c == 5760
    || leb 8192 c && leb c 8202
    || c == 8232
    || c == 8233
    || c == 8239
    || c == 8287
    || c == 12288

-- `split_whitespace`
abbrev pub add_word : Text → List Text → List Text
add_word [] ws = ws
add_word (c ∷ w) ws = (c ∷ w) ∷ ws

abbrev step_word : ℕ → Text × List Text → Text × List Text
step_word c (word, words) = if is_whitespace c then ([], add_word word words) else (c ∷ word, words)

-- the word in front and those behind it
unfoldable pub words_from : Text → Text × List Text
words_from [] = ([], [])
words_from (c ∷ s) = step_word c (words_from s)

unfoldable pub split_whitespace : Text → List Text
split_whitespace s = add_word (words_from s).0 (words_from s).1

-- `trim_start_matches` with the set of characters that `p` tests, and `trim`
unfoldable pub trim_start : (ℕ → Bool) → Text → Text
trim_start p [] = []
trim_start p (c ∷ s) = let rest = trim_start p s in if p c then rest else c ∷ s

abbrev pub trim : Text → Text
trim s = trim_end is_whitespace (trim_start is_whitespace s)
