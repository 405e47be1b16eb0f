-- ===== src/Resolver/Placement/Entered.antt =====
-- src/resolver/placement.rs: the steps of the children of a node and of a new node.
use bpm.Prelude.{
  Bool, true, false, not, Option, none, some, [], ◌∷◌, ◌≡◌, refl, sym, ap, ◌∙◌, inl, inr, ◌⊎◌,
  arith, if◌then◌else◌, Bool-cases, Option-cases, Result, ok, err,
}
use mathlib.Core.Path.{subst}
use bpm.Prelude.Text.{Text, text_eq, text_eq_refl}
use bpm.Prelude.Map.{Map, get, insert, get-insert}
use bpm.Resolver.Platform.{PlatformDisposition, compatible, skip_optional, PlatformError}
use bpm.Registry.Spec.{Semver, VersionMetadata}
use bpm.Registry.Resolve.{Codecs}
use bpm.Resolver.Placement.{Node, Nodes}
use bpm.Resolver.Placement.Steps.{Has, Step, Step-refl, Step-trans, Has-Step, put-Step}
use bpm.Resolver.Placement.Resolve.{
  State, Stateful, ResolveError, Client, after, Outcome, Resolver, platform_allows, allowed,
  record_target, each_child, enter, optional_child,
}

-- what an insertion leaves at a name
get_target :
    (child name target other : Text) (targets : Map Text)
    → get name (insert child target targets) ≡ some other
    → (target ≡ other) ⊎ (get name targets ≡ some other)
get_target child name target other targets h = elim (Bool-cases (text_eq child name)) [
  | inl same ↦ inl (ground (arith, get-insert child name target targets, same, h))
  | inr differ ↦ inr (ground (arith, get-insert child name target targets, differ, h))
]

module _ (semver : Semver) (codecs : Codecs) (client : Client semver) where
  record_target-Step :
      (m : Nodes semver) (parent_path child target : Text)
      → Has semver m target
      → Step semver m (record_target semver codecs client m parent_path child (some target))
  unfolding record_target
  record_target-Step m parent_path child target has = elim (Option-cases (get parent_path m)) [
    | inl e ↦ rw (e, record_target) (Step-refl semver m)
    | inr (node, e) ↦
        rw (e, record_target)
          (put-Step semver parent_path (record node { targets = insert child target node.targets })
            m
            (λ old f.
              let same : node ≡ old = cc (e, f) in
              rw (sym same) (record {
                same_path = refl;
                same_metadata = refl;
                same_source = refl;
                optional_only_if = ground arith;
                dev_only_if = ground arith;
              }))
            (λ closed name other f. elim (get_target child name target other node.targets f) [
              | inl same ↦ rw (sym same) has
              | inr g ↦ closed parent_path name other node e g
            ]))
  ]

  -- the node of a path that is returned
  abbrev pub IsPlaced : Nodes semver → Result (Option Text) ResolveError → Type 0
  IsPlaced nodes (ok (some path)) = Has semver nodes path
  IsPlaced nodes (ok none) = Unit
  IsPlaced nodes (err e) = Unit

  -- what a dependency's resolution owes to the nodes that it finds
  abbrev pub IsGood : Nodes semver → Outcome semver codecs client → Type 0
  IsGood before outcome =
      Step semver before (outcome.0).nodes × IsPlaced (outcome.0).nodes outcome.1

  after-Step :
      {A B : Type 0} (m : Nodes semver) (first : Stateful semver A)
      (next : State semver → A → Stateful semver B)
      → Step semver m (first.0).nodes
      → ((a : A) → first.1 ≡ ok a → Step semver (first.0).nodes ((next first.0 a).0).nodes)
      → Step semver m ((after semver first next).0).nodes
  after-Step m (st, ok a) next h k = Step-trans semver m st.nodes _ h (k a refl)
  after-Step m (st, err e) next h k = h

  recorded :
      (m : Nodes semver) (parent_path child : Text) (target : Option Text)
      (result : Result (Option Text) ResolveError)
      → result ≡ ok target
      → IsPlaced m result
      → Step semver m (record_target semver codecs client m parent_path child target)
  unfolding record_target
  recorded m parent_path child none result e placed = Step-refl semver m
  recorded m parent_path child (some target) result e placed =
      record_target-Step m parent_path child target (subst (IsPlaced m) e placed)

  pub each_child-Step :
      (resolve_child : State semver → Text → Text → Bool → Outcome semver codecs client)
      → ((st : State semver) (child spec : Text) (optional : Bool)
          → IsGood st.nodes (resolve_child st child spec optional))
      → (st : State semver) (parent_path : Text) (children : Map Text) (optional : Bool)
      → Step semver st.nodes
          ((each_child semver codecs client resolve_child st parent_path children optional).0).nodes
  unfolding each_child
  each_child-Step resolve_child good st parent_path [] optional = Step-refl semver st.nodes
  each_child-Step resolve_child good st parent_path ((child, spec) ∷ children) optional =
      let child_optional =
        optional_child semver codecs client (get parent_path st.nodes) child optional in
      let outcome = resolve_child st child spec child_optional in
      let (step, placed) = good st child spec child_optional in
      after-Step st.nodes outcome _ step (λ target e.
        Step-trans semver (outcome.0).nodes
          (record_target semver codecs client (outcome.0).nodes parent_path child target) _
          (recorded (outcome.0).nodes parent_path child target outcome.1 e placed)
          (each_child-Step resolve_child good
            (record (outcome.0) {
              nodes = record_target semver codecs client (outcome.0).nodes parent_path child target;
            })
            parent_path children optional))

  allowed_nodes :
      (st : State semver) (name version : Text) (r : Result PlatformDisposition PlatformError)
      → ((allowed semver codecs client st name version r).0).nodes ≡ st.nodes
  allowed_nodes st name version (ok compatible) = refl
  allowed_nodes st name version (ok (skip_optional d)) = refl
  allowed_nodes st name version (err e) = refl

  platform_nodes :
      (st : State semver) (name : Text) (metadata : VersionMetadata semver) (optional : Bool)
      → ((platform_allows semver codecs client st name metadata optional).0).nodes ≡ st.nodes
  unfolding platform_allows
  platform_nodes st name metadata optional = allowed_nodes st name _ _

  no_node :
      (path : Text) (old : Node semver) (m : Nodes semver)
      → get path m ≡ none
      → get path m ≡ some old
      → ⊥
  no_node path old m h k = ground (arith, sym h ∙ k)

  no_targets :
      (name target : Text) (targets : Map Text) → targets ≡ [] → get name targets ≡ some target → ⊥
  unfolding get
  no_targets name target targets e f = ground (arith, sym (ap (get name) e) ∙ f)

  ended :
      (path : Text) (m : Nodes semver) (result : Stateful semver Bool)
      → Step semver m (result.0).nodes
      → Has semver (result.0).nodes path
      → IsGood m (after semver result (λ end done. (end, ok (some path))))
  ended path m (end, ok done) step has = (step, has)
  ended path m (end, err e) step has = (step, tt)

  module _ (resolve : Resolver semver codecs client)
      (good : (st : State semver) (parent name requested : Text) (optional dev : Bool)
        → IsGood st.nodes (resolve st parent name requested optional dev)) where
    -- the step of a new node and of its children
    entered :
        (children : State semver → Stateful semver Bool) (st : State semver) (node : Node semver)
        → ((s : State semver) → Step semver s.nodes ((children s).0).nodes)
        → get node.path st.nodes ≡ none
        → node.targets ≡ []
        → (result : Stateful semver Bool)
        → result ≡ children (record st { nodes = insert node.path node st.nodes })
        → IsGood st.nodes (after semver result (λ end done. (end, ok (some node.path))))
    entered children st node kids absent empty result e =
        let put : Step semver st.nodes (insert node.path node st.nodes) =
          put-Step semver node.path node st.nodes
            (λ old f. absurd (no_node node.path old st.nodes absent f))
            (λ closed name target f. absurd (no_targets name target node.targets empty f)) in
        let below : Step semver (insert node.path node st.nodes) (result.0).nodes =
          subst
            (λ (r : Stateful semver Bool). Step semver (insert node.path node st.nodes) (r.0).nodes)
            (sym e) (kids (record st { nodes = insert node.path node st.nodes })) in
        let here : Has semver (result.0).nodes node.path =
          Has-Step semver (insert node.path node st.nodes) (result.0).nodes node.path below (
            node,
            get-insert node.path node.path node st.nodes ∙ rw (text_eq_refl node.path) refl,
          ) in
        ended node.path st.nodes result
          (Step-trans semver st.nodes (insert node.path node st.nodes) (result.0).nodes put below)
          here

    -- the step of a node that the platform was asked about
    checked :
        (children : State semver → Stateful semver Bool) (st : State semver) (node : Node semver)
        → ((s : State semver) → Step semver s.nodes ((children s).0).nodes)
        → get node.path st.nodes ≡ none
        → node.targets ≡ []
        → (asked : Stateful semver Bool) → (asked.0).nodes ≡ st.nodes
        → IsGood st.nodes (
            after semver asked (λ next allowed_here.
              if not allowed_here
              then (next, ok none)
              else after semver
                  (children (record next { nodes = insert node.path node next.nodes }))
                  (λ end done. (end, ok (some node.path)))))
    checked children st node kids absent empty (next, err e) same =
        (subst (λ m. Step semver st.nodes m) (sym same) (Step-refl semver st.nodes), tt)
    checked children st node kids absent empty (next, ok false) same =
        (subst (λ m. Step semver st.nodes m) (sym same) (Step-refl semver st.nodes), tt)
    checked children st node kids absent empty (next, ok true) same =
        subst
          (λ m. IsGood m (
            after semver (children (record next { nodes = insert node.path node next.nodes }))
              (λ end done. (end, ok (some node.path)))))
          same
          (entered children next node kids (ap (λ m. get node.path m) same ∙ absent) empty
            (children (record next { nodes = insert node.path node next.nodes })) refl)

    pub enter-IsGood :
        (children : State semver → Stateful semver Bool) (st : State semver) (name : Text)
        (node : Node semver)
        → ((s : State semver) → Step semver s.nodes ((children s).0).nodes)
        → get node.path st.nodes ≡ none
        → node.targets ≡ []
        → IsGood st.nodes (enter semver codecs client resolve children st name node)
    unfolding enter
    enter-IsGood children st name node kids absent empty =
        checked children st node kids absent empty
          (platform_allows semver codecs client st name node.metadata node.optional)
          (platform_nodes st name node.metadata node.optional)
