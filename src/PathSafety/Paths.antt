-- ===== src/PathSafety/Paths.antt =====
-- The validators of package paths, workspace targets and bin targets of path_safety.rs.
use bpm.Prelude.{◌≡◌, ap, ◌↔◌, true, List, [], ◌∷◌, ◌++◌, All, arith, inl, inr, ok, Bool-cases}
use bpm.Prelude.Text.{Text, txt, text_eq_refl, text_eq→eq, is_empty, split}
use bpm.PathSafety.{is_valid_component, has_node_modules, validate_package_path}
use bpm.PathSafety.Normalized.{IsNormalized, accepts, accepted}

pub no_empty : (path : Text) → IsNormalized path → is_empty path ≡ true → ⊥
unfolding split is_valid_component
no_empty [] n h = cc (n.components.0)
no_empty (c ∷ path) n h = cc

-- Somewhere along the path there is a `node_modules` with a component behind it.
abbrev pub HasPackage : List Text → Type 0
HasPackage cs =
    (before : List Text) × (name : Text) × (after : List Text) × (cs
      ≡ before ++ txt "node_modules" ∷ name ∷ after)

abbrev pub AllValid : List Text → Type 0
AllValid cs = All (λ c. is_valid_component c ≡ true) cs

has_node_modules→HasPackage : (cs : List Text) → has_node_modules cs ≡ true → HasPackage cs
unfolding has_node_modules
has_node_modules→HasPackage [] h = absurd (ground arith)
has_node_modules→HasPackage (a ∷ []) h = absurd (ground arith)
has_node_modules→HasPackage (a ∷ b ∷ cs) h = elim (Bool-cases (has_node_modules (b ∷ cs))) [
  | inl later ↦
      let (before, name, after, e) = has_node_modules→HasPackage (b ∷ cs) later in
      (a ∷ before, name, after, ap (λ r. a ∷ r) e)
  | inr none_later ↦
      ([], b, cs, ap (λ x. x ∷ b ∷ cs) (text_eq→eq a (txt "node_modules") (ground arith)))
]

HasPackage→has_node_modules :
    (before : List Text) (name : Text) (after : List Text)
    → AllValid (before ++ txt "node_modules" ∷ name ∷ after)
    → has_node_modules (before ++ txt "node_modules" ∷ name ∷ after) ≡ true
unfolding has_node_modules is_valid_component
HasPackage→has_node_modules [] name after v =
    ground (arith, v.1.0, text_eq_refl (txt "node_modules"))
HasPackage→has_node_modules (a ∷ []) name after v =
    ground (arith, HasPackage→has_node_modules [] name after v.1)
HasPackage→has_node_modules (a ∷ b ∷ before) name after v =
    ground (arith, HasPackage→has_node_modules (b ∷ before) name after v.1)

module _ (path : Text) where
  package_sound :
      {q : Text}
      → validate_package_path path ≡ ok q
      → (q ≡ path) × IsNormalized path × HasPackage (split b'/' path)
  unfolding validate_package_path
  package_sound h = (
    ground arith,
    accepts path (ground arith),
    has_node_modules→HasPackage (split b'/' path) (ground arith),
  )

  package_complete :
      IsNormalized path → HasPackage (split b'/' path) → validate_package_path path ≡ ok path
  unfolding validate_package_path
  package_complete n (before, name, after, e) =
      let there : has_node_modules (split b'/' path) ≡ true =
        rw e (HasPackage→has_node_modules before name after (rw e at n.components)) in
      elim (Bool-cases (is_empty path)) [
        | inl empty ↦ absurd (no_empty path n empty)
        | inr full ↦ rw (full, accepted path n, there)
      ]

  -- `validate_package_path` accepts a path exactly when it is normalized and has a component
  -- `node_modules` with another one behind it, and then returns it unchanged.
  pub validate_package_path_iff :
      (q : Text)
      → (validate_package_path path ≡ ok q)
        ↔ ((q ≡ path) × IsNormalized path × HasPackage (split b'/' path))
  validate_package_path_iff q = (package_sound, λ h. rw h.0 (package_complete h.1 h.2))
