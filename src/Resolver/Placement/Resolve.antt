-- ===== src/Resolver/Placement/Resolve.antt =====
-- src/resolver/placement.rs: placing a dependency and what it depends on. The packuments, the
-- overrides, the workspace and the sources that are no registry are functions of the client.
use bpm.Prelude.{
  ℕ, zero, suc, Bool, true, false, not, ◌||◌, Option, none, some, List, [], ◌∷◌, ◌++◌,
  if◌then◌else◌, Result, ok, err, ◌>>=◌,
}
use bpm.Prelude.Text.{Text, txt}
use bpm.Prelude.Map.{Map, get, insert, contains_key, text_set}
use bpm.Lockfile.Schema.{LockSource, workspace, registry}
use bpm.Workspace.{or_empty}
use bpm.Resolver.Model.{TargetPlatform}
use bpm.Resolver.Platform.{
  PackageReachability, optional_only, required, PlatformDisposition, compatible, skip_optional,
  PlatformError, check_package_platform,
}
use bpm.Registry.Spec.{Semver, RegistryError, VersionMetadata, PackageSpec, Packument, parse_spec}
use bpm.Registry.Resolve.{Codecs, ResolvedArtifact, resolve_packument}
use bpm.Resolver.Placement.{
  child_path, Node, Nodes, request_matches, registry_request, merged_dependencies, find_visible,
  ancestor_chain, upgrade_reachability, choose_version,
}

pub data ResolveError : Type 0 where
  registry_error : (package_name spec : Text) (source : RegistryError) → ResolveError
  peer_error : (message : Text) → ResolveError
  source_error : (package_name spec reason : Text) → ResolveError
  platform_error : (package_name version : Text) → ResolveError
  placement_conflict : (path package_name requested selected : Text) → ResolveError
  -- the fuel of the model is spent
  out_of_fuel : ResolveError

module _ (semver : Semver) where
  -- a workspace package that a spec links to
  pub record WorkspaceTarget : Type 0 where
    pub relative_path : Text
    pub metadata : VersionMetadata semver
    pub source_dir : Option Text

  pub record SourceResolution : Type 0 where
    pub metadata : VersionMetadata semver
    pub resolved : Text
    pub integrity : Option Text
    pub source : LockSource
    pub link : Bool
    pub workspace_target : Option Text
    pub source_dir : Option Text

-- what the resolver is given
pub record Client (semver : Semver) : Type 1 where
  pub Source : Type 0
  pub effective_spec_for : Text → Text → List (Text × semver.Version) → Text
  -- the link of a name and a spec; without a workspace there is none
  pub workspace_link : Text → Text → Result (Option (WorkspaceTarget semver)) Text
  pub parse_source : Text → Option Source
  -- in the base directory of the parent, for a name and a spec
  pub resolve_source :
      Option Text → Text → Text → Source → Result (SourceResolution semver) ResolveError
  pub registry_for_package : Text → Text
  pub packument_for : PackageSpec semver → Result (Packument semver) RegistryError
  pub target : TargetPlatform

pub record State (semver : Semver) : Type 0 where
  pub nodes : Nodes semver
  pub diagnostics : List Text

-- what a call leaves behind, also where it fails
abbrev pub Stateful : Semver → Type 0 → Type 0
Stateful semver A = State semver × Result A ResolveError

-- The `?` operator: the nodes that were placed before an error stay.
abbrev pub after :
    {A B : Type 0} (semver : Semver)
    → Stateful semver A
    → (State semver → A → Stateful semver B)
    → Stateful semver B
after semver (st, ok a) next = next st a
after semver (st, err e) next = (st, err e)

module _ (semver : Semver) (codecs : Codecs) (client : Client semver) where
  -- the outcome of one dependency: the path of its node, or none where it is skipped
  abbrev pub Outcome : Type 0
  Outcome = Stateful semver (Option Text)

  abbrev pub Resolver : Type 0
  Resolver = State semver → Text → Text → Text → Bool → Bool → Outcome

  abbrev reachability : Bool → PackageReachability
  reachability optional = if optional then optional_only else required

  abbrev pub allowed :
      State semver → Text → Text → Result PlatformDisposition PlatformError → Stateful semver Bool
  allowed st name version (ok compatible) = (st, ok true)
  allowed st name version (ok (skip_optional diagnostic)) =
      (record st { diagnostics = st.diagnostics ++ diagnostic.message ∷ [] }, ok false)
  allowed st name version (err e) = (st, err (platform_error name version))

  unfoldable pub platform_allows :
      State semver → Text → VersionMetadata semver → Bool → Stateful semver Bool
  platform_allows st name metadata optional =
      allowed st name (semver.version_to_string metadata.version) (
        check_package_platform (name ++ (txt "@" ++ semver.version_to_string metadata.version))
          (record {
            os = text_set metadata.os;
            cpu = text_set metadata.cpu;
            libc = text_set metadata.libc;
          })
          client.target (reachability optional))

  abbrev pub optional_child : Option (Node semver) → Text → Bool → Bool
  optional_child none child optional = false
  optional_child (some node) child optional =
      optional || contains_key child node.metadata.optional_dependencies

  abbrev with_target : Nodes semver → Text → Text → Text → Option (Node semver) → Nodes semver
  with_target nodes parent_path child target none = nodes
  with_target nodes parent_path child target (some node) =
      insert parent_path (record node { targets = insert child target node.targets }) nodes

  -- the target of a child, recorded in its parent's node
  unfoldable pub record_target : Nodes semver → Text → Text → Option Text → Nodes semver
  record_target nodes parent_path child none = nodes
  record_target nodes parent_path child (some target) =
      with_target nodes parent_path child target (get parent_path nodes)

  -- the loop over the children, each of which `resolve_child` resolves
  unfoldable pub each_child :
      (State semver → Text → Text → Bool → Outcome)
      → State semver
      → Text
      → Map Text
      → Bool
      → Stateful semver Bool
  each_child resolve_child st parent_path [] optional = (st, ok true)
  each_child resolve_child st parent_path ((child, spec) ∷ children) optional =
      after semver
        (resolve_child st child spec (optional_child (get parent_path st.nodes) child optional))
        (λ next placed.
          each_child resolve_child
            (record next { nodes = record_target next.nodes parent_path child placed }) parent_path
            children optional)

  module _ (resolve : Resolver) where
    unfoldable pub resolve_children :
        State semver → Text → Map Text → Bool → Bool → Stateful semver Bool
    resolve_children st parent_path dependencies optional dev =
        each_child
          (λ s child spec child_optional. resolve s parent_path child spec child_optional dev) st
          parent_path dependencies optional

    -- what stays of a failed try at the root is seen by the one below the member
    abbrev pub or_below_member : Text → Bool → Text → Text → Bool → Outcome → Outcome
    or_below_member member_path dev child spec optional (st, ok placed) = (st, ok placed)
    or_below_member member_path dev child spec optional
          (st, err (placement_conflict path package_name requested selected)) =
        resolve st member_path child spec optional dev
    or_below_member member_path dev child spec optional (st, err e) = (st, err e)

    unfoldable pub resolve_children_hoisted :
        State semver → Text → Map Text → Bool → Bool → Stateful semver Bool
    resolve_children_hoisted st member_path dependencies optional dev =
        each_child
          (λ s child spec child_optional.
            or_below_member member_path dev child spec child_optional
              (resolve s [] child spec child_optional dev))
          st member_path dependencies optional

    -- A node enters where the platform allows it, and then its children are resolved.
    unfoldable pub enter :
        (State semver → Stateful semver Bool) → State semver → Text → Node semver → Outcome
    enter children st name node =
        after semver (platform_allows st name node.metadata node.optional) (λ next allowed_here.
          if not allowed_here
          then (next, ok none)
          else after semver (children (record next { nodes = insert node.path node next.nodes }))
              (λ end done. (end, ok (some node.path))))

    -- a node that is there already is needed in one more way
    abbrev pub reuse : State semver → Text → Bool → Bool → Outcome
    reuse st path optional dev = (
      record st { nodes = upgrade_reachability semver st.nodes path optional dev },
      ok (some path),
    )

    -- `contains_key`: a node that is there is reused
    abbrev pub unless_placed :
        State semver → Text → Bool → Bool → Option (Node semver) → Outcome → Outcome
    unless_placed st path optional dev (some node) fresh = reuse st path optional dev
    unless_placed st path optional dev none fresh = fresh

    abbrev pub new_node :
        Text → Text → VersionMetadata semver → LockSource → Bool → Bool → Node semver
    new_node path name metadata source optional dev = record {
      path = path;
      placement_name = name;
      metadata = metadata;
      resolved = [];
      integrity = [];
      dependencies = merged_dependencies semver metadata;
      targets = [];
      optional = optional;
      dev = dev;
      peer_context = [];
      source = source;
      link = false;
      workspace_target = none;
      source_dir = none;
    }

    -- the branch of a workspace link
    unfoldable pub place_link : State semver → Text → WorkspaceTarget semver → Bool → Bool → Outcome
    place_link st name edge optional dev =
        let path = child_path [] name in
        let node : Node semver =
          record (new_node path name edge.metadata (workspace edge.relative_path) optional dev) {
            link = true;
            workspace_target = some edge.relative_path;
            source_dir = edge.source_dir;
          } in
        unless_placed st path optional dev (get path st.nodes)
          (enter (λ s. resolve_children_hoisted s path node.dependencies optional dev) st name node)

    -- `base_dir_for` without the root's directory
    abbrev pub base_dir_for : Option (Node semver) → Option Text
    base_dir_for none = none
    base_dir_for (some node) = node.source_dir

    abbrev pub enter_source :
        State semver
        → Text
        → Text
        → Bool
        → Bool
        → Result (SourceResolution semver) ResolveError
        → Outcome
    enter_source st path name optional dev (err e) = (st, err e)
    enter_source st path name optional dev (ok r) =
        let node : Node semver = record (new_node path name r.metadata r.source optional dev) {
          resolved = r.resolved;
          integrity = or_empty r.integrity;
          link = r.link;
          workspace_target = r.workspace_target;
          source_dir = r.source_dir;
        } in
        enter (λ s. resolve_children s path node.dependencies optional dev) st name node

    unfoldable pub resolve_source_dependency :
        State semver → Text → Text → Text → client.Source → Bool → Bool → Outcome
    resolve_source_dependency st parent name spec source optional dev =
        let path = child_path parent name in
        unless_placed st path optional dev (get path st.nodes) (
          enter_source st path name optional dev
            (client.resolve_source (base_dir_for (get parent st.nodes)) name spec source))

    -- the version that the request and the peers in sight choose
    unfoldable pub choose :
        State semver → Text → Text → Text → Result (ResolvedArtifact semver codecs) RegistryError
    choose st parent registry_name registry_spec =
        parse_spec semver (registry_name ++ (txt "@" ++ registry_spec)) >>= (λ parsed.
          client.packument_for parsed >>= (λ packument.
            resolve_packument semver codecs parsed packument
              (client.registry_for_package registry_name)
            >>= (λ resolved.
                choose_version semver codecs st.nodes parent registry_name
                  (client.registry_for_package registry_name) packument resolved)))

    abbrev pub enter_resolved :
        State semver
        → Text
        → Text
        → Text
        → Text
        → Bool
        → Bool
        → Result (ResolvedArtifact semver codecs) RegistryError
        → Outcome
    enter_resolved st path name spec base optional dev (err e) =
        (st, err (registry_error name spec e))
    enter_resolved st path name spec base optional dev (ok r) =
        let node : Node semver =
          record (new_node path name r.metadata (registry base) optional dev) {
            resolved = r.tarball_url;
            integrity = r.integrity;
          } in
        enter (λ s. resolve_children s path node.dependencies optional dev) st name node

    -- where no fitting node is in sight
    abbrev pub place_new :
        State semver → Text → Text → Text → Bool → Bool → Option (Node semver) → Outcome
    place_new st parent name spec optional dev (some selected) =
        if request_matches semver (registry_request semver name spec).1 selected.metadata.version
        then (st, ok (some (child_path parent name)))
        else (
          st,
          err (
              placement_conflict (child_path parent name) name spec
                (semver.version_to_string selected.metadata.version)),
        )
    place_new st parent name spec optional dev none =
        let request = registry_request semver name spec in
        enter_resolved st (child_path parent name) name spec (client.registry_for_package request.0)
          optional dev (choose st parent request.0 request.1)

    abbrev pub use_visible : State semver → Text → Text → Text → Bool → Bool → Option Text → Outcome
    use_visible st parent name spec optional dev (some path) = reuse st path optional dev
    use_visible st parent name spec optional dev none =
        place_new st parent name spec optional dev (get (child_path parent name) st.nodes)

    -- behind the workspace
    abbrev pub resolve_unlinked :
        State semver → Text → Text → Text → Bool → Bool → Option client.Source → Outcome
    resolve_unlinked st parent name spec optional dev (some source) =
        resolve_source_dependency st parent name spec source optional dev
    resolve_unlinked st parent name spec optional dev none =
        use_visible st parent name spec optional dev
          (find_visible semver st.nodes parent name (registry_request semver name spec).1)

    abbrev pub resolve_spec :
        State semver
        → Text
        → Text
        → Text
        → Bool
        → Bool
        → Result (Option (WorkspaceTarget semver)) Text
        → Outcome
    resolve_spec st parent name spec optional dev (err message) = (st, err (peer_error message))
    resolve_spec st parent name spec optional dev (ok (some edge)) =
        place_link st name edge optional dev
    resolve_spec st parent name spec optional dev (ok none) =
        resolve_unlinked st parent name spec optional dev (client.parse_source spec)

  -- The fuel bounds how deep the packages are nested.
  unfoldable pub resolve_dependency : ℕ → Resolver
  resolve_dependency zero st parent name requested optional dev = (st, err out_of_fuel)
  resolve_dependency (suc fuel) st parent name requested optional dev =
      let spec = client.effective_spec_for name requested (ancestor_chain semver st.nodes parent) in
      resolve_spec (resolve_dependency fuel) st parent name spec optional dev
        (client.workspace_link name spec)
