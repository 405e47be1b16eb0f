-- ===== src/Hoist.antt =====
-- src/hoist.rs: where the lockfile importers of yarn and pnpm place each resolved package.
pub mod Chain
pub mod Slots
pub mod Order
mod Tests
use bpm.Prelude.{
  ℕ, zero, suc, Bool, true, false, Option, none, some, List, [], ◌∷◌, ◌++◌, if◌then◌else◌, length,
}
use bpm.Prelude.Text.{Text, txt, text_eq, is_empty, starts_with}
use bpm.Prelude.Map
use bpm.Prelude.Map.{Map}

-- `&path[..at]` for the `at` of `path.rfind(pattern)`: what stands before the last occurrence.
unfoldable pub before_last : Text → Text → Option Text
before_last pattern [] = if is_empty pattern then some [] else none
before_last pattern (c ∷ s) = elim (before_last pattern s) [
  | some b ↦ some (c ∷ b)
  | none ↦ if starts_with pattern (c ∷ s) then some [] else none
]

unfoldable pub parent_package : Text → Option Text
unfolding before_last
parent_package path =
    if starts_with (txt "node_modules/") path then before_last (txt "/node_modules/") path else none

-- node_modules-relative dir -> occupied (name -> version)
pub record Placer : Type 0 where
  pub occupied : Map (Map Text)

-- The `while let` loop: the dependent's own `node_modules`, then those of its ancestors. The fuel
-- bounds the rounds; a parent's path is shorter.
unfoldable pub ancestors : ℕ → Text → List Text
ancestors zero pkg = []
ancestors (suc fuel) pkg =
    (pkg ++ txt "/node_modules")
    ∷ elim (parent_package pkg) [ none ↦ [] | some p ↦ ancestors fuel p ]

-- `chain` of `place`, from the own directory up to the root
unfoldable pub chain_of : Text → List Text
unfolding ancestors
chain_of [] = txt "node_modules" ∷ []
chain_of (c ∷ s) = ancestors (suc (length (c ∷ s))) (c ∷ s) ++ txt "node_modules" ∷ []

-- `self.occupied.get(dir).and_then(|slot| slot.get(name))`
unfoldable pub slot : Placer → Text → Text → Option Text
slot placer dir name = elim (Map.get dir placer.occupied) [
  | none ↦ none
  | some names ↦ Map.get name names
]

-- What the `for dir in &chain` loop ends with.
pub data Scan : Type 0 where
  shared : Text → Scan
  blocked : Scan
  root_free : Scan

unfoldable pub scan : Placer → Text → Text → List Text → Scan
scan placer name version [] = root_free
scan placer name version (dir ∷ dirs) =
    let above = scan placer name version dirs in
    elim (slot placer dir name) [
      | none ↦ above
      | some occupied ↦ if text_eq occupied version then shared dir else blocked
    ]

-- `self.occupied.entry(target).or_default().insert(name, version)`
unfoldable pub claim : Placer → Text → Text → Text → Placer
claim placer target name version =
    let names : Map Text = elim (Map.get target placer.occupied) [ none ↦ [] | some m ↦ m ] in
    record placer { occupied = Map.insert target (Map.insert name version names) placer.occupied }

-- `chain[0]` and `chain.last()`; a chain always ends at the root
abbrev pub own_dir : List Text → Text
own_dir [] = txt "node_modules"
own_dir (dir ∷ dirs) = dir

abbrev pub root_dir : List Text → Text
root_dir [] = txt "node_modules"
root_dir (dir ∷ []) = dir
root_dir (dir ∷ dir' ∷ dirs) = root_dir (dir' ∷ dirs)

abbrev pub slot_path : Text → Text → Text
slot_path dir name = dir ++ txt "/" ++ name

-- Returns the placer and the package's lockfile path.
unfoldable pub place : Placer → Text → Text → Text → Placer × Text
place placer name version dependent_path =
    let chain = chain_of dependent_path in
    elim (scan placer name version chain) [
      | shared dir ↦ (placer, slot_path dir name)
      | blocked ↦ (claim placer (own_dir chain) name version, slot_path (own_dir chain) name)
      | root_free ↦ (claim placer (root_dir chain) name version, slot_path (root_dir chain) name)
    ]
