-- ===== src/PathSafety.antt =====
-- src/path_safety.rs: lexical validation of package paths, workspace targets, bin names and bin
-- targets. A `&str` is the list of its scalar values.
pub mod Normalized
pub mod Paths
pub mod Inside
pub mod BinName
mod Tests
mod Witnesses
use bpm.Prelude.{
  ℕ, ◌≤◌, ◌≡◌, Bool, true, false, not, ◌&&◌, ◌||◌, Option, none, some, List, [], ◌∷◌, ◌++◌, ltb,
  leb, ◌==◌, if◌then◌else◌, all, any, Result, ok, err,
}
use bpm.Prelude.Text.{
  Text, txt, text_eq, is_empty, contains, strip_prefix, starts_with, split, split_once, trim_end,
  to_ascii_lowercase,
}

pub data PathSafetyError : Type 0 where
  invalid_package_path : Text → Text → PathSafetyError
  invalid_workspace_target : Text → Text → PathSafetyError
  invalid_bin_name : Text → Text → PathSafetyError
  invalid_bin_target : Text → Text → PathSafetyError

abbrev pub windows_device_names : List Text
windows_device_names =
    txt "con"
    ∷ txt "prn"
    ∷ txt "aux"
    ∷ txt "nul"
    ∷ txt "com1"
    ∷ txt "com2"
    ∷ txt "com3"
    ∷ txt "com4"
    ∷ txt "com5"
    ∷ txt "com6"
    ∷ txt "com7"
    ∷ txt "com8"
    ∷ txt "com9"
    ∷ txt "lpt1"
    ∷ txt "lpt2"
    ∷ txt "lpt3"
    ∷ txt "lpt4"
    ∷ txt "lpt5"
    ∷ txt "lpt6"
    ∷ txt "lpt7"
    ∷ txt "lpt8"
    ∷ txt "lpt9"
    ∷ []

unfoldable pub is_valid_component : Text → Bool
is_valid_component part =
    not (is_empty part) && not (text_eq part (txt ".")) && not (text_eq part (txt ".."))

-- `path.as_bytes().get(1) == Some(&b':')`: byte 1 is the second scalar value exactly where the
-- first one is ASCII, and is no `:` inside a longer encoding.
unfoldable pub has_drive_prefix : Text → Bool
has_drive_prefix [] = false
has_drive_prefix (c ∷ []) = false
has_drive_prefix (c ∷ d ∷ rest) = ltb c 128 && d == b':'

unfoldable pub is_normalized_relative : Text → Bool
unfolding is_valid_component has_drive_prefix
is_normalized_relative path =
    if is_empty path || starts_with (txt "/") path || starts_with (txt "\\") path
    then false
    else if has_drive_prefix path
    then false
    else if contains b'\\' path
    then false
    else all is_valid_component (split b'/' path)

-- `segments.windows(2).any(...)`
unfoldable pub has_node_modules : List Text → Bool
has_node_modules [] = false
has_node_modules (w0 ∷ []) = false
has_node_modules (w0 ∷ w1 ∷ rest) =
    (text_eq w0 (txt "node_modules")
      && not (is_empty w1)
      && not (text_eq w1 (txt "."))
      && not (text_eq w1 (txt "..")))
    || has_node_modules (w1 ∷ rest)

unfoldable pub validate_package_path : Text → Result Text PathSafetyError
validate_package_path path =
    if is_empty path
    then err (invalid_package_path path (txt "package path cannot be empty"))
    else if not (is_normalized_relative path)
    then err (
        invalid_package_path path (
          txt
            "package path must be a normalized relative path without root, backslash, or traversal components"))
    else if not (has_node_modules (split b'/' path))
    then err
        (invalid_package_path path (txt "package path must contain a node_modules/<name> segment"))
    else ok path

unfoldable pub validate_workspace_target : Text → Result Text PathSafetyError
validate_workspace_target target =
    if not (is_normalized_relative target)
    then err (
        invalid_workspace_target target (
          txt
            "workspace target must be a normalized relative path without root, backslash, or traversal components"))
    else ok target

-- `char::is_control`: the general category Cc
unfoldable pub is_control : ℕ → Bool
is_control c = leb c 31 || leb 127 c && leb c 159

-- the set `['.', ' ']` of `trim_end_matches`
unfoldable pub is_dot_or_space : ℕ → Bool
is_dot_or_space c = c == b'.' || c == b' '

-- `WINDOWS_DEVICE_NAMES.contains` of the lower-cased name
unfoldable pub is_device_name : Text → Bool
is_device_name trimmed = any (text_eq (to_ascii_lowercase trimmed)) windows_device_names

unfoldable pub validate_bin_name : Text → Result Text PathSafetyError
validate_bin_name name =
    if is_empty name
    then err (invalid_bin_name name (txt "bin name cannot be empty"))
    else if contains b'/' name || contains b'\\' name
    then err (invalid_bin_name name (txt "bin name must not contain path separators"))
    else if text_eq name (txt ".") || text_eq name (txt "..")
    then err (invalid_bin_name name (txt "bin name must not be '.' or '..'"))
    else if contains b':' name
    then err (invalid_bin_name name (txt "bin name must not contain colon"))
    else if any is_control name
    then err (invalid_bin_name name (txt "bin name must not contain control characters"))
    else let trimmed = trim_end is_dot_or_space name in
      if is_empty trimmed
      then err (invalid_bin_name name (txt "bin name is empty after trimming trailing dot/space"))
      else if is_device_name trimmed
      then err
          (invalid_bin_name name (txt "bin name is a reserved Windows device name: " ++ trimmed))
      else ok trimmed

-- `target.strip_prefix("./")`, or the target itself
unfoldable pub without_dot_slash : Text → Text
without_dot_slash target = elim (strip_prefix (txt "./") target) [
  | some stripped ↦ stripped
  | none ↦ target
]

unfoldable pub validate_bin_target : Text → Result Text PathSafetyError
validate_bin_target target =
    let normalized = without_dot_slash target in
    if is_empty normalized
    then err (invalid_bin_target target (txt "bin target is empty after normalization"))
    else if not (is_normalized_relative normalized)
    then err (
        invalid_bin_target target (
          txt
            "bin target must be a normalized relative path without root, backslash, or traversal components"))
    else ok normalized

-- `rsplit('/').next()`: the piece behind the last separator
unfoldable pub last_piece : List Text → Option Text
last_piece [] = none
last_piece (p ∷ []) = some p
last_piece (p ∷ q ∷ ps) = last_piece (q ∷ ps)

unfoldable pub scoped_string_bin_name : Text → Option Text
unfolding last_piece
scoped_string_bin_name scoped_name = elim (split_once b'/' scoped_name) [
  | none ↦ none
  | some (scope, tail) ↦ elim (last_piece (split b'/' tail)) [
    | none ↦ none
    | some basename ↦ if is_empty basename then none else some basename
  ]
]
