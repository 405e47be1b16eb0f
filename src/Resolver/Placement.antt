-- ===== src/Resolver/Placement.antt =====
-- src/resolver/placement.rs: the nodes that were placed, what a package sees of them, and the choice
-- of a version whose peers fit. `semver` and the codecs are parameters, as in the registry client.
pub mod Lookup
pub mod Choice
pub mod Resolve
pub mod Steps
pub mod Entered
pub mod Closed
mod Tests
use bpm.Prelude.{
  ℕ, zero, suc, Bool, true, false, not, ◌&&◌, ◌||◌, Option, none, some, List, [], ◌∷◌, ◌++◌,
  if◌then◌else◌, all, length, Result, ok, err, ◌>>=◌,
}
use bpm.Prelude.Text.{Text, txt, text_eq, is_empty, strip_prefix}
use bpm.Prelude.Map.{Map, get, insert, contains_key}
use bpm.Prelude.Sort.{sort_by}
use bpm.Hoist.{before_last}
use bpm.Lockfile.Schema.{PeerProvider, LockSource, workspace, registry, file, tarball, git, patch}
use bpm.Resolver.Model.{TargetPlatform, PlatformConstraints, ResolutionDiagnostic, ProviderIdentity}
use bpm.Resolver.Model
use bpm.Resolver.Peer.{VisibleProvider}
use bpm.Resolver.Platform.{
  PackageReachability, optional_only, required, PlatformDisposition, compatible, skip_optional,
  PlatformError, check_package_platform,
}
use bpm.Registry.Spec.{
  Semver, RegistryError, VersionMetadata, PackageSpec, Packument, VersionRequest, latest, exact,
  range, matches, parse_spec, range_to_string, published,
}
use bpm.Registry.Resolve.{Codecs, ResolvedArtifact, resolve_packument}

-- `rsplit_once("/node_modules/")`: the part in front, else nothing
abbrev or_root : Option Text → Text
or_root none = []
or_root (some parent) = parent

abbrev pub parent_path : Text → Text
parent_path path = or_root (before_last (txt "/node_modules/") path)

-- the path of a package in the `node_modules` of a directory, the root's being empty
unfoldable pub child_path : Text → Text → Text
child_path dir name =
    if is_empty dir then txt "node_modules/" ++ name else dir ++ (txt "/node_modules/" ++ name)

unfoldable pub reverse_onto {ℓ} : {A : Type ℓ} → List A → List A → List A
reverse_onto done [] = done
reverse_onto done (x ∷ xs) = reverse_onto (x ∷ done) xs

module _ (semver : Semver) where
  pub record Node : Type 0 where
    pub path : Text
    pub placement_name : Text
    pub metadata : VersionMetadata semver
    pub resolved : Text
    pub integrity : Text
    pub dependencies : Map Text
    pub targets : Map Text
    pub optional : Bool
    pub dev : Bool
    pub peer_context : Map PeerProvider
    pub source : LockSource
    pub link : Bool
    pub workspace_target : Option Text
    pub source_dir : Option Text

  abbrev pub Nodes : Type 0
  Nodes = Map Node

  abbrev pub request_fits : VersionRequest semver → semver.Version → Bool
  request_fits latest version = true
  request_fits (exact expected) version = semver.version_eq expected version
  request_fits (range ranges) version = matches semver ranges version

  abbrev spec_fits : Result (PackageSpec semver) RegistryError → semver.Version → Bool
  spec_fits (err e) version = false
  spec_fits (ok parsed) version = request_fits parsed.req version

  unfoldable pub request_matches : Text → semver.Version → Bool
  request_matches spec version = spec_fits (parse_spec semver (txt "pkg@" ++ spec)) version

  abbrev pub version_request_to_string : VersionRequest semver → Text
  version_request_to_string latest = txt "latest"
  version_request_to_string (exact v) = semver.version_to_string v
  version_request_to_string (range r) = range_to_string semver r

  abbrev alias_request : Text → Text → Result (PackageSpec semver) RegistryError → Text × Text
  alias_request name spec (err e) = (name, spec)
  alias_request name spec (ok parsed) = (parsed.name, version_request_to_string parsed.req)

  -- the registry's name and the request behind an alias `npm:name@request`
  unfoldable pub registry_request : Text → Text → Text × Text
  registry_request name spec = elim (strip_prefix (txt "npm:") spec) [
    | none ↦ (name, spec)
    | some alias ↦ alias_request name spec (parse_spec semver alias)
  ]

  -- dependencies, and the optional ones in their place
  unfoldable pub extend : Map Text → Map Text → Map Text
  extend m [] = m
  extend m ((name, spec) ∷ more) = extend (insert name spec m) more

  abbrev pub merged_dependencies : VersionMetadata semver → Map Text
  merged_dependencies metadata = extend metadata.dependencies metadata.optional_dependencies

  -- The loop of `find_visible` and of `find_visible_any`, which accept a node by its version or any.
  -- The fuel bounds the rounds; a parent's path is shorter.
  unfoldable pub find_from : ℕ → Nodes → Text → (Node → Bool) → Text → Option Text
  find_from zero nodes name accept candidate = none
  find_from (suc fuel) nodes name accept candidate =
      let further = find_from fuel nodes name accept (parent_path candidate) in
      let next : Option Text = if is_empty candidate then none else further in
      elim (get (child_path candidate name) nodes) [
        | none ↦ next
        | some node ↦ if accept node then some (child_path candidate name) else next
      ]

  unfoldable pub find : Nodes → Text → (Node → Bool) → Text → Option Text
  find nodes name accept parent = find_from (suc (length parent)) nodes name accept parent

  abbrev pub fits : Text → Node → Bool
  fits spec node = request_matches spec node.metadata.version

  abbrev pub find_visible : Nodes → Text → Text → Text → Option Text
  find_visible nodes parent name spec = find nodes name (fits spec) parent

  abbrev pub find_visible_any : Nodes → Text → Text → Option Text
  find_visible_any nodes parent name = find nodes name (λ node. true) parent

  -- the paths of the loop of `ancestor_chain`, from the parent up
  unfoldable pub paths_up : ℕ → Text → List Text
  paths_up zero current = []
  paths_up (suc fuel) current =
      let further = paths_up fuel (parent_path current) in
      if is_empty (parent_path current) then current ∷ [] else current ∷ further

  -- the name and the version of each path that is a node
  unfoldable pub names_of : Nodes → List Text → List (Text × semver.Version)
  names_of nodes [] = []
  names_of nodes (path ∷ paths) =
      let rest = names_of nodes paths in
      elim (get path nodes) [
        | none ↦ rest
        | some node ↦ (node.placement_name, node.metadata.version) ∷ rest
      ]

  unfoldable pub ancestor_chain : Nodes → Text → List (Text × semver.Version)
  ancestor_chain nodes parent =
      if is_empty parent
      then []
      else names_of nodes (reverse_onto [] (paths_up (suc (length parent)) parent))

  unfoldable pub upgrade_reachability : Nodes → Text → Bool → Bool → Nodes
  upgrade_reachability nodes path optional dev = elim (get path nodes) [
    | none ↦ nodes
    | some node ↦
        insert path (record node { optional = node.optional && optional; dev = node.dev && dev })
          nodes
  ]

  abbrev optional_peer : Option Bool → Bool
  optional_peer none = false
  optional_peer (some optional) = optional

  -- one peer of `peer_candidate_matches`
  unfoldable pub peer_fits : Nodes → Map Bool → Text → Text × Text → Bool
  peer_fits nodes meta parent (name, requested) = elim (find_visible_any nodes parent name) [
    | none ↦ optional_peer (get name meta)
    | some path ↦ elim (get path nodes) [
      | none ↦ false
      | some provider ↦ request_matches requested provider.metadata.version
    ]
  ]

  unfoldable pub peer_candidate_matches : Nodes → VersionMetadata semver → Text → Bool
  peer_candidate_matches nodes metadata parent =
      all (peer_fits nodes metadata.peer_dependencies_meta parent) metadata.peer_dependencies

  module _ (codecs : Codecs) (nodes : Nodes) (parent registry_name registry_base : Text)
      (packument : Packument semver) where
    -- the loop over the published versions
    unfoldable pub backtrack :
        List semver.Version
        → ResolvedArtifact semver codecs
        → Result (ResolvedArtifact semver codecs) RegistryError
    backtrack [] resolved = ok resolved
    backtrack (version ∷ versions) resolved =
        let rest = backtrack versions resolved in
        resolve_packument semver codecs (record { name = registry_name; req = exact version })
          packument registry_base
        >>= (λ candidate.
            if peer_candidate_matches nodes candidate.metadata parent then ok candidate else rest)

    -- the published versions, the greatest first
    abbrev pub descending : List semver.Version
    descending = reverse_onto [] (sort_by semver.version_le (published semver packument.versions))

    -- the version that is placed, for the one that the request resolved to
    unfoldable pub choose_version :
        ResolvedArtifact semver codecs → Result (ResolvedArtifact semver codecs) RegistryError
    choose_version resolved =
        if not (peer_candidate_matches nodes resolved.metadata parent)
        then backtrack descending resolved
        else ok resolved
