-- ===== src/Registry.antt =====
-- src/registry/mod.rs: the validation of npm package names.
pub mod Names
pub mod Spec
pub mod Resolve
pub mod Select
pub mod Digits
mod Tests
use bpm.Prelude.{
  ℕ, Bool, true, false, not, ◌&&◌, ◌||◌, none, some, [], ◌∷◌, ltb, leb, ◌==◌, if◌then◌else◌, length,
  all,
}
use bpm.Prelude.Text.{Text, txt, is_empty, strip_prefix, split_once}

abbrev pub is_ascii : Text → Bool
is_ascii = all (λ c. ltb c 128)

-- the closure `valid_alphanumeric`
unfoldable pub valid_alphanumeric : Bool → ℕ → Bool
valid_alphanumeric allow_uppercase byte =
    (leb b'a' byte && leb byte b'z')
    || (leb b'0' byte && leb byte b'9')
    || (allow_uppercase && leb b'A' byte && leb byte b'Z')

unfoldable pub valid_segment_byte : Bool → ℕ → Bool
unfolding valid_alphanumeric
valid_segment_byte allow_uppercase byte =
    valid_alphanumeric allow_uppercase byte || byte == b'.' || byte == b'-' || byte == b'_'

unfoldable pub valid_name_segment : Text → Bool → Bool
valid_name_segment [] allow_uppercase = false
valid_name_segment (first ∷ rest) allow_uppercase =
    valid_alphanumeric allow_uppercase first
    && all (valid_segment_byte allow_uppercase) (first ∷ rest)

unfoldable pub valid_npm_name : Text → Bool → Bool
valid_npm_name name allow_uppercase =
    if is_empty name || ltb 214 (length name) || not (is_ascii name)
    then false
    else elim (strip_prefix (txt "@") name) [
      | none ↦ valid_name_segment name allow_uppercase
      | some rest ↦ elim (split_once b'/' rest) [
        | none ↦ false
        | some (scope, pkg) ↦
            valid_name_segment scope allow_uppercase && valid_name_segment pkg allow_uppercase
      ]
    ]

unfoldable pub is_valid_npm_name : Text → Bool
is_valid_npm_name name = valid_npm_name name false

unfoldable pub is_valid_npm_read_name : Text → Bool
is_valid_npm_read_name name = valid_npm_name name true
