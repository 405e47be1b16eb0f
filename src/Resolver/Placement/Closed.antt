-- ===== src/Resolver/Placement/Closed.antt =====
-- src/resolver/placement.rs: however a resolution ends, it kept the nodes, and what they are linked
-- to is placed.
use bpm.Prelude.{
  ℕ, zero, suc, Bool, Option, none, some, [], ◌≡◌, refl, inl, inr, Bool-cases, Result, ok, err,
}
use bpm.Prelude.Text.{Text}
use bpm.Prelude.Map.{Map, get}
use bpm.Registry.Spec.{Semver, RegistryError}
use bpm.Registry.Resolve.{Codecs, ResolvedArtifact}
use bpm.Resolver.Placement.{
  Node, Nodes, child_path, request_matches, registry_request, find_visible, fits,
}
use bpm.Resolver.Placement.Lookup.{find_iff, accepted_at}
use bpm.Resolver.Placement.Steps.{
  Extends, IsClosed, Has, Step, Step-refl, Step-trans, Has-Step, upgrade-Step,
}
use bpm.Resolver.Placement.Resolve.{
  State, ResolveError, Client, WorkspaceTarget, SourceResolution, Outcome, Resolver,
  resolve_children, or_below_member, resolve_children_hoisted, place_link,
  resolve_source_dependency, enter_source, enter_resolved, place_new, use_visible, resolve_unlinked,
  resolve_spec, resolve_dependency, reuse, unless_placed, placement_conflict, registry_error,
  peer_error, source_error, platform_error, out_of_fuel,
}
use bpm.Resolver.Placement.Entered.{IsGood, IsPlaced, each_child-Step, enter-IsGood}

module _ (semver : Semver) (codecs : Codecs) (client : Client semver) where
  module _ (resolve : Resolver semver codecs client)
      (good : (st : State semver) (parent name requested : Text) (optional dev : Bool)
        → IsGood semver codecs client st.nodes
            (resolve st parent name requested optional dev)) where
    children-Step :
        (parent_path : Text) (dependencies : Map Text) (optional dev : Bool) (st : State semver)
        → Step semver st.nodes
            ((resolve_children semver codecs client resolve st parent_path dependencies optional
                dev).0
              ).nodes
    unfolding resolve_children
    children-Step parent_path dependencies optional dev st =
        each_child-Step semver codecs client
          (λ s child spec child_optional. resolve s parent_path child spec child_optional dev)
          (λ s child spec child_optional. good s parent_path child spec child_optional dev) st
          parent_path dependencies optional

    below_member-IsGood :
        (m : Nodes semver) (member_path : Text) (dev : Bool) (child spec : Text) (optional : Bool)
        (outcome : Outcome semver codecs client)
        → IsGood semver codecs client m outcome
        → IsGood semver codecs client m (
            or_below_member semver codecs client resolve member_path dev child spec optional
              outcome)
    below_member-IsGood m member_path dev child spec optional (st, ok placed) h = h
    below_member-IsGood m member_path dev child spec optional (st, err (placement_conflict p n r s))
          h =
        let (step, placed) = good st member_path child spec optional dev in
        (Step-trans semver m st.nodes _ h.0 step, placed)
    below_member-IsGood m member_path dev child spec optional (st, err (registry_error p s e)) h = h
    below_member-IsGood m member_path dev child spec optional (st, err (peer_error e)) h = h
    below_member-IsGood m member_path dev child spec optional (st, err (source_error p s e)) h = h
    below_member-IsGood m member_path dev child spec optional (st, err (platform_error p v)) h = h
    below_member-IsGood m member_path dev child spec optional (st, err out_of_fuel) h = h

    hoisted-Step :
        (member_path : Text) (dependencies : Map Text) (optional dev : Bool) (st : State semver)
        → Step semver st.nodes
            ((resolve_children_hoisted semver codecs client resolve st member_path dependencies
                optional dev).0
              ).nodes
    unfolding resolve_children_hoisted
    hoisted-Step member_path dependencies optional dev st =
        each_child-Step semver codecs client
          (λ s child spec child_optional.
            or_below_member semver codecs client resolve member_path dev child spec child_optional
              (resolve s [] child spec child_optional dev))
          (λ s child spec child_optional.
            below_member-IsGood s.nodes member_path dev child spec child_optional
              (resolve s [] child spec child_optional dev)
              (good s [] child spec child_optional dev))
          st member_path dependencies optional

    reuse-IsGood :
        (st : State semver) (path : Text) (optional dev : Bool)
        → Has semver st.nodes path
        → IsGood semver codecs client st.nodes
            (reuse semver codecs client resolve st path optional dev)
    reuse-IsGood st path optional dev has =
        let step = upgrade-Step semver st.nodes path optional dev in
        (step, Has-Step semver st.nodes _ path step has)

    unless_placed-IsGood :
        (st : State semver) (path : Text) (optional dev : Bool) (there : Option (Node semver))
        (fresh : Outcome semver codecs client)
        → get path st.nodes ≡ there
        → (get path st.nodes ≡ none → IsGood semver codecs client st.nodes fresh)
        → IsGood semver codecs client st.nodes
            (unless_placed semver codecs client resolve st path optional dev there fresh)
    unless_placed-IsGood st path optional dev (some node) fresh e h =
        reuse-IsGood st path optional dev (node, e)
    unless_placed-IsGood st path optional dev none fresh e h = h e

    place_link-IsGood :
        (st : State semver) (name : Text) (edge : WorkspaceTarget semver) (optional dev : Bool)
        → IsGood semver codecs client st.nodes
            (place_link semver codecs client resolve st name edge optional dev)
    unfolding place_link
    place_link-IsGood st name edge optional dev =
        unless_placed-IsGood st (child_path [] name) optional dev _ _ refl (λ e.
          enter-IsGood semver codecs client resolve good _ st name _
            (hoisted-Step (child_path [] name) _ optional dev) e refl)

    enter_source-IsGood :
        (st : State semver) (path name : Text) (optional dev : Bool)
        (r : Result (SourceResolution semver) ResolveError)
        → get path st.nodes ≡ none
        → IsGood semver codecs client st.nodes
            (enter_source semver codecs client resolve st path name optional dev r)
    enter_source-IsGood st path name optional dev (err e) absent = (Step-refl semver st.nodes, tt)
    enter_source-IsGood st path name optional dev (ok r) absent =
        enter-IsGood semver codecs client resolve good _ st name _
          (children-Step path _ optional dev) absent refl

    source-IsGood :
        (st : State semver) (parent name spec : Text) (source : client.Source) (optional dev : Bool)
        → IsGood semver codecs client st.nodes (
            resolve_source_dependency semver codecs client resolve st parent name spec source
              optional dev)
    unfolding resolve_source_dependency
    source-IsGood st parent name spec source optional dev =
        unless_placed-IsGood st (child_path parent name) optional dev _ _ refl
          (λ e. enter_source-IsGood st (child_path parent name) name optional dev _ e)

    enter_resolved-IsGood :
        (st : State semver) (path name spec base : Text) (optional dev : Bool)
        (r : Result (ResolvedArtifact semver codecs) RegistryError)
        → get path st.nodes ≡ none
        → IsGood semver codecs client st.nodes
            (enter_resolved semver codecs client resolve st path name spec base optional dev r)
    enter_resolved-IsGood st path name spec base optional dev (err e) absent =
        (Step-refl semver st.nodes, tt)
    enter_resolved-IsGood st path name spec base optional dev (ok r) absent =
        enter-IsGood semver codecs client resolve good _ st name _
          (children-Step path _ optional dev) absent refl

    place_new-IsGood :
        (st : State semver) (parent name spec : Text) (optional dev : Bool)
        (there : Option (Node semver))
        → get (child_path parent name) st.nodes ≡ there
        → IsGood semver codecs client st.nodes
            (place_new semver codecs client resolve st parent name spec optional dev there)
    place_new-IsGood st parent name spec optional dev none e =
        enter_resolved-IsGood st (child_path parent name) name spec _ optional dev _ e
    place_new-IsGood st parent name spec optional dev (some node) e =
        elim (Bool-cases
          (request_matches semver (registry_request semver name spec).1 node.metadata.version)) [
            | inl fit ↦ rw fit (Step-refl semver st.nodes, (node, e))
            | inr misfit ↦ rw misfit (Step-refl semver st.nodes, tt)
          ]

    use_visible-IsGood :
        (st : State semver) (parent name spec : Text) (optional dev : Bool) (seen : Option Text)
        → find_visible semver st.nodes parent name (registry_request semver name spec).1 ≡ seen
        → IsGood semver codecs client st.nodes
            (use_visible semver codecs client resolve st parent name spec optional dev seen)
    use_visible-IsGood st parent name spec optional dev none e =
        place_new-IsGood st parent name spec optional dev (get (child_path parent name) st.nodes)
          refl
    use_visible-IsGood st parent name spec optional dev (some path) e =
        let accept = fits semver (registry_request semver name spec).1 in
        let (node, at, _) =
          accepted_at semver st.nodes name accept parent path
            ((find_iff semver st.nodes name accept parent path).0 e) in
        reuse-IsGood st path optional dev (node, at)

    unlinked-IsGood :
        (st : State semver) (parent name spec : Text) (optional dev : Bool)
        (source : Option client.Source)
        → IsGood semver codecs client st.nodes
            (resolve_unlinked semver codecs client resolve st parent name spec optional dev source)
    unlinked-IsGood st parent name spec optional dev (some source) =
        source-IsGood st parent name spec source optional dev
    unlinked-IsGood st parent name spec optional dev none =
        use_visible-IsGood st parent name spec optional dev _ refl

    spec-IsGood :
        (st : State semver) (parent name spec : Text) (optional dev : Bool)
        (link : Result (Option (WorkspaceTarget semver)) Text)
        → IsGood semver codecs client st.nodes
            (resolve_spec semver codecs client resolve st parent name spec optional dev link)
    spec-IsGood st parent name spec optional dev (err e) = (Step-refl semver st.nodes, tt)
    spec-IsGood st parent name spec optional dev (ok (some edge)) =
        place_link-IsGood st name edge optional dev
    spec-IsGood st parent name spec optional dev (ok none) =
        unlinked-IsGood st parent name spec optional dev (client.parse_source spec)

  -- However resolving a dependency ends, its step is good.
  resolve_dependency-IsGood :
      (fuel : ℕ) (st : State semver) (parent name requested : Text) (optional dev : Bool)
      → IsGood semver codecs client st.nodes
          (resolve_dependency semver codecs client fuel st parent name requested optional dev)
  unfolding resolve_dependency
  resolve_dependency-IsGood zero st parent name requested optional dev =
      (Step-refl semver st.nodes, tt)
  resolve_dependency-IsGood (suc fuel) st parent name requested optional dev =
      spec-IsGood (resolve_dependency semver codecs client fuel) (resolve_dependency-IsGood fuel) st
        parent name _ optional dev _

  -- Where every recorded target is the path of a node, it still is however resolving a dependency
  -- ends, each node that was placed is kept with its metadata and its source and becomes no more
  -- optional or dev, and a path that is returned is that of a node.
  pub resolve_dependency-IsClosed :
      (fuel : ℕ) (st : State semver) (parent name requested : Text) (optional dev : Bool)
      → IsClosed semver st.nodes
      → let outcome =
          resolve_dependency semver codecs client fuel st parent name requested optional dev in
        IsClosed semver (outcome.0).nodes
        × Extends semver st.nodes (outcome.0).nodes
        × IsPlaced semver codecs client (outcome.0).nodes outcome.1
  resolve_dependency-IsClosed fuel st parent name requested optional dev closed =
      let (step, placed) = resolve_dependency-IsGood fuel st parent name requested optional dev in
      (step.closed closed, step.extends, placed)
