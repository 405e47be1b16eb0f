-- ===== src/Resolver/Placement/Steps.antt =====
-- src/resolver/placement.rs: changes of the nodes that keep each node and leave no link open.
use bpm.Prelude.{
  All, [], ◌∷◌, Bool, ◌&&◌, some, ◌≡◌, refl, sym, ap, ◌∙◌, inl, inr, ◌⊎◌, arith, Bool-cases,
  Option-cases,
}
use mathlib.Core.Path.{subst}
use bpm.Prelude.Text.{Text, text_eq, text_eq→eq}
use bpm.Prelude.Map.{get, insert, get-insert}
use bpm.Registry.Spec.{Semver}
use bpm.Resolver.Placement.{Node, Nodes, upgrade_reachability}

module _ (semver : Semver) where
  abbrev pub Has : Nodes semver → Text → Type 0
  Has nodes path = (node : Node semver) × (get path nodes ≡ some node)

  -- The same package at the same place, needed in at least the same ways.
  pub record IsKept (node later : Node semver) : Type 0 where
    pub same_path : later.path ≡ node.path
    pub same_metadata : later.metadata ≡ node.metadata
    pub same_source : later.source ≡ node.source
    pub optional_only_if : (later.optional && node.optional) ≡ later.optional
    pub dev_only_if : (later.dev && node.dev) ≡ later.dev

  -- Each node is kept.
  abbrev pub Extends : Nodes semver → Nodes semver → Type 0
  Extends m n =
      (path : Text) (node : Node semver)
      → get path m ≡ some node
      → (later : Node semver) × (get path n ≡ some later) × IsKept node later

  -- Every target that a node records is the path of a node.
  abbrev pub IsClosed : Nodes semver → Type 0
  IsClosed nodes =
      (path name target : Text) (node : Node semver)
      → get path nodes ≡ some node
      → get name node.targets ≡ some target
      → Has nodes target

  pub record Step (m n : Nodes semver) : Type 0 where
    pub extends : Extends m n
    pub closed : IsClosed m → IsClosed n

  IsKept-refl : (node : Node semver) → IsKept node node
  IsKept-refl node = record {
    same_path = refl;
    same_metadata = refl;
    same_source = refl;
    optional_only_if = ground arith;
    dev_only_if = ground arith;
  }

  IsKept-trans : (a b c : Node semver) → IsKept a b → IsKept b c → IsKept a c
  IsKept-trans a b c h k = record {
    same_path = k.same_path ∙ h.same_path;
    same_metadata = k.same_metadata ∙ h.same_metadata;
    same_source = k.same_source ∙ h.same_source;
    optional_only_if = ground (arith, h.optional_only_if, k.optional_only_if);
    dev_only_if = ground (arith, h.dev_only_if, k.dev_only_if);
  }

  pub Step-refl : (m : Nodes semver) → Step m m
  Step-refl m = record { extends = λ path node e. (node, e, IsKept-refl node); closed = λ c. c }

  pub Step-trans : (a b c : Nodes semver) → Step a b → Step b c → Step a c
  Step-trans a b c h k = record {
    extends = λ path node e.
        let (x, f, p) = h.extends path node e in
        let (y, g, q) = k.extends path x f in (y, g, IsKept-trans node x y p q);
    closed = λ d. k.closed (h.closed d);
  }

  pub Has-Step : (m n : Nodes semver) (path : Text) → Step m n → Has m path → Has n path
  Has-Step m n path s (node, e) = let (later, f, _) = s.extends path node e in (later, f)

  -- what an insertion leaves at a path
  get_put :
      (path j : Text) (node : Node semver) (m : Nodes semver)
      → ((path ≡ j) × (get j (insert path node m) ≡ some node))
        ⊎ (get j (insert path node m) ≡ get j m)
  get_put path j node m = elim (Bool-cases (text_eq path j)) [
    | inl same ↦ inl (text_eq→eq path j same, get-insert path j node m ∙ rw same refl)
    | inr other ↦ inr (get-insert path j node m ∙ rw other refl)
  ]

  -- a node that takes the place of none, or keeps the one that it replaces
  pub put-Step :
      (path : Text) (node : Node semver) (m : Nodes semver)
      → ((old : Node semver) → get path m ≡ some old → IsKept old node)
      → (IsClosed m → (name target : Text) → get name node.targets ≡ some target → Has m target)
      → Step m (insert path node m)
  put-Step path node m keeps targets =
      let grows : Extends m (insert path node m) = λ j old e. elim (get_put path j node m) [
        | inl (same, f) ↦ (node, f, keeps old (ap (λ p. get p m) same ∙ e))
        | inr f ↦ (old, f ∙ e, IsKept-refl old)
      ] in
      record {
        extends = grows;
        closed = λ c j name target old e f.
            let before : Has m target = elim (get_put path j node m) [
              | inl (same, g) ↦
                  let it : node ≡ old = cc (g, e) in
                  targets c name target (ap (λ (n : Node semver). get name n.targets) it ∙ f)
              | inr g ↦ c j name target old (sym g ∙ e) f
            ] in
            let (found, at) = before in let (later, k, _) = grows target found at in (later, k);
      }

  pub upgrade-Step :
      (m : Nodes semver) (path : Text) (optional dev : Bool)
      → Step m (upgrade_reachability semver m path optional dev)
  unfolding upgrade_reachability
  upgrade-Step m path optional dev = elim (Option-cases (get path m)) [
    | inl e ↦ rw (e, upgrade_reachability) (Step-refl m)
    | inr (node, e) ↦
        rw (e, upgrade_reachability)
          (put-Step path
            (record node { optional = node.optional && optional; dev = node.dev && dev }) m
            (λ old f.
              let same : node ≡ old = cc (e, f) in
              rw (sym same) (record {
                same_path = refl;
                same_metadata = refl;
                same_source = refl;
                optional_only_if = ground arith;
                dev_only_if = ground arith;
              }))
            (λ c name target f. c path name target node e f))
  ]

  get-All :
      (P : Node semver → Type 0) (path : Text) (node : Node semver) (m : Nodes semver)
      → All (λ e. P e.1) m
      → get path m ≡ some node
      → P node
  unfolding get
  get-All P path node [] h e = cc
  get-All P path node ((k, n) ∷ m) h e = elim (Bool-cases (text_eq k path)) [
    | inl same ↦ let it : some n ≡ some node = rw (same, get) at e in subst P (cc it) h.0
    | inr other ↦ get-All P path node m h.1 (rw (other, get) at e)
  ]

  -- nodes that record no target yet
  pub IsClosed-of_no_targets : (m : Nodes semver) → All (λ e. (e.1).targets ≡ []) m → IsClosed m
  unfolding get
  IsClosed-of_no_targets m h path name target node e f =
      absurd
        (ground (arith, sym (ap (get name) (get-All (λ n. n.targets ≡ []) path node m h e)) ∙ f))
