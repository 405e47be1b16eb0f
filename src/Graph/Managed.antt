-- ===== src/Graph/Managed.antt =====
-- src/graph.rs: the paths of the entries that may be removed from a project. Whether a path is
-- absolute, which depends on the platform, is a function.
use bpm.Prelude.{
  Bool, true, false, not, ◌==◌, ◌⊎◌, inl, inr, Bool-cases, ◌&&◌, ◌||◌, List, [], ◌∷◌, ◌≡◌, refl, ap,
  arith, if◌then◌else◌, all, All,
}
use bpm.Prelude.Text.{Text, txt, text_eq, text_eq→eq, is_empty, split, push_front, contains}
use bpm.PathSafety.{is_valid_component}
use bpm.PathSafety.Normalized.{walk-of_valid}
use bpm.PathSafety.Inside.{StaysInside}

-- the test of the loop over the components
unfoldable pub is_entry_component : Text → Bool
is_entry_component component =
    not (is_empty component || text_eq component (txt "..") || text_eq component (txt "."))

-- the components behind the first one: `count >= 1`, and all pass the test
abbrev entries_valid : List Text → Bool
entries_valid [] = false
entries_valid (c ∷ cs) = all is_entry_component (c ∷ cs)

abbrev components_valid : List Text → Bool
components_valid [] = false
components_valid (c ∷ cs) = text_eq c (txt "node_modules") && entries_valid cs

unfoldable pub path_is_valid : (Text → Bool) → Text → Bool
path_is_valid is_absolute path =
    if is_empty path || is_absolute path then false else components_valid (split b'/' path)

valid_component : (c : Text) → is_entry_component c ≡ true → is_valid_component c ≡ true
unfolding is_entry_component is_valid_component
valid_component c h = ground (arith, h)

valid_components :
    (cs : List Text) → all is_entry_component cs ≡ true → All (λ c. is_valid_component c ≡ true) cs
valid_components [] h = tt
valid_components (c ∷ cs) h =
    let both : (is_entry_component c ≡ true) × (all is_entry_component cs ≡ true) =
      ground (arith, h) in
    (valid_component c both.0, valid_components cs both.1)

-- Of the components, the first is `node_modules` and there are others, all valid.
abbrev pub IsEntry : List Text → Type 0
IsEntry components =
    (entry : Text) × (rest : List Text) × (components ≡ txt "node_modules" ∷ entry ∷ rest)
    × All (λ c. is_valid_component c ≡ true) (entry ∷ rest)

IsEntry-of : (cs : List Text) → components_valid cs ≡ true → IsEntry cs
IsEntry-of [] h = cc
IsEntry-of (c ∷ []) h = ground (arith, h)
IsEntry-of (c ∷ e ∷ cs) h =
    let both : (text_eq c (txt "node_modules") ≡ true) × (all is_entry_component (e ∷ cs) ≡ true) =
      ground (arith, h) in
    (
      e,
      cs,
      ap (λ x. x ∷ e ∷ cs) (text_eq→eq c (txt "node_modules") both.0),
      valid_components (e ∷ cs) both.1,
    )

entry-StaysInside : (path : Text) → IsEntry (split b'/' path) → StaysInside path
unfolding is_valid_component text_eq
entry-StaysInside path (entry, rest, e, valid) stack =
    rw e (walk-of_valid stack (txt "node_modules" ∷ entry ∷ rest) (refl, valid))

-- The components as Windows reads them: a backslash separates too.
unfoldable pub windows_components : Text → List Text
windows_components [] = [] ∷ []
windows_components (c ∷ s) =
    let rest = windows_components s in
    if c == b'/' || c == b'\\' then [] ∷ rest else push_front c rest

windows_components-split :
    (s : Text) → contains b'\\' s ≡ false → windows_components s ≡ split b'/' s
unfolding windows_components split contains
windows_components-split [] h = refl
windows_components-split (c ∷ s) h = ground (arith, h, windows_components-split s)

-- A path that may be removed is `node_modules` and further components, and a walk along what stands
-- between its slashes never climbs above its start. That is so on Windows too where the path has no
-- backslash, since the components are then the same.
pub managed_path-StaysInside :
    (is_absolute : Text → Bool) (path : Text)
    → path_is_valid is_absolute path ≡ true
    → IsEntry (split b'/' path)
      × StaysInside path
      × ((contains b'\\' path ≡ true) ⊎ (windows_components path ≡ split b'/' path))
unfolding path_is_valid
managed_path-StaysInside is_absolute path h =
    let entry = IsEntry-of (split b'/' path) (ground (arith, h)) in
    (
      entry,
      entry-StaysInside path entry,
      elim (Bool-cases (contains b'\\' path)) [
        | inl there ↦ inl there
        | inr free ↦ inr (windows_components-split path free)
      ],
    )
