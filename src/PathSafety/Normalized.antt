-- ===== src/PathSafety/Normalized.antt =====
-- What `is_normalized_relative` of path_safety.rs accepts, against the way an operating system
-- walks a path lexically.
use bpm.Prelude.{
  ℕ, ◌≡◌, refl, true, false, ◌||◌, ◌↔◌, Option, none, some, List, [], ◌∷◌, ◌==◌, if◌then◌else◌, all,
  All, all→All, All→all, arith,
}
use bpm.Prelude.Text.{Text, txt, text_eq, is_empty, contains, starts_with, split}
use bpm.PathSafety.{is_valid_component, has_drive_prefix, is_normalized_relative}

-- One component after another, on the stack of the directories entered. `..` leaves the last one,
-- and fails where there is none.
unfoldable pub walk : List Text → List Text → Option (List Text)
walk stack [] = some stack
walk stack (c ∷ cs) =
    let skip = walk stack cs in
    let enter = walk (c ∷ stack) cs in
    let leave : Option (List Text) = elim stack [ [] ↦ none | d ∷ ds ↦ walk ds cs ] in
    if is_empty c || text_eq c (txt ".")
    then skip
    else if text_eq c (txt "..")
    then leave
    else enter

-- The components as they are entered, the last one on top.
abbrev pub entered : List Text → List Text → List Text
entered stack [] = stack
entered stack (c ∷ cs) = entered (c ∷ stack) cs

pub walk-of_valid :
    (stack cs : List Text)
    → All (λ c. is_valid_component c ≡ true) cs
    → walk stack cs ≡ some (entered stack cs)
unfolding walk is_valid_component
walk-of_valid stack [] h = refl
walk-of_valid stack (c ∷ cs) h = ground (arith, h.0, walk-of_valid (c ∷ stack) cs h.1)

pub record IsNormalized (path : Text) : Type 0 where
  pub components : All (λ c. is_valid_component c ≡ true) (split b'/' path)
  pub portable : contains b'\\' path ≡ false
  pub no_drive : has_drive_prefix path ≡ false

leading_slash : (s : Text) → all is_valid_component (split b'/' (b'/' ∷ s)) ≡ false
unfolding split is_valid_component
leading_slash s = refl

starts-with_one : (c d : ℕ) (s : Text) → starts_with (c ∷ []) (d ∷ s) ≡ (d == c)
unfolding starts_with
starts-with_one c d s = ground arith

pub accepts : (path : Text) → is_normalized_relative path ≡ true → IsNormalized path
unfolding is_normalized_relative
accepts path h = record {
  components = all→All is_valid_component (split b'/' path) (ground arith);
  portable = ground arith;
  no_drive = ground arith;
}

pub accepted : (path : Text) → IsNormalized path → is_normalized_relative path ≡ true
unfolding is_normalized_relative starts_with contains split
accepted [] n = ground (arith, n.components.0)
accepted (c ∷ s) n = ground (
  arith,
  All→all is_valid_component (split b'/' (c ∷ s)) n.components,
  n.portable,
  n.no_drive,
  leading_slash s,
)

-- `is_normalized_relative` accepts exactly the paths whose components, split at `/`, are all
-- non-empty and neither `.` nor `..`, that hold no backslash and begin with no drive prefix.
pub is_normalized_relative_iff :
    (path : Text) → (is_normalized_relative path ≡ true) ↔ IsNormalized path
is_normalized_relative_iff path = (accepts path, accepted path)
