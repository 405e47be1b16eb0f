-- ===== src/Lockfile/Canonical.antt =====
-- `validate_v2` of lockfile.rs: the canonical order of the packages and the closed graph.
use bpm.Prelude.{
  ◌≡◌, refl, true, Option, none, some, List, [], ◌∷◌, All, All-imp, Elem, arith, inl, inr,
  Bool-cases, Option-cases,
}
use bpm.Prelude.Text.{Text, txt, text_eq, text_eq→eq}
use bpm.Prelude.Map.{Map, text_lt, text_lt_trans}
use bpm.PathSafety.Normalized.{IsNormalized, accepts}
use bpm.Lockfile.Schema.{LockDependency, PeerProvider, PackageResolution, PackageEntry, Lockfile}
use bpm.Lockfile.{
  passed, for_each, check_paths, find_entry, check_source, has_path, check_target, validate_targets,
  check_peer, check_resolution, check_registry_name, validate_v2,
}
use bpm.Lockfile.Valid.{both_passed, for_each-passed, legal_relative_path-eq}

-- the paths strictly increase
abbrev pub IsSortedEntries : List PackageEntry → Type 0
IsSortedEntries [] = Unit
IsSortedEntries (e ∷ es) = All (λ f. text_lt e.path f.path ≡ true) es × IsSortedEntries es

-- some package is placed at the path
abbrev pub HasEntry : List PackageEntry → Text → Type 0
HasEntry entries path = (entry : PackageEntry) × (entry.path ≡ path) × Elem entry entries

-- every edge of a package's resolution leads to a package of the lock
pub record IsClosedAt (entries : List PackageEntry) (item : Text × PackageResolution) : Type 0 where
  pub self : HasEntry entries item.0
  pub dependencies : All (λ d. HasEntry entries d.1.target) item.1.dependencies
  pub optional : All (λ d. HasEntry entries d.1.target) item.1.optional_dependencies
  pub peers : All (λ d. HasEntry entries d.1.target) item.1.peer_dependencies
  pub context : All (λ d. HasEntry entries d.1.path) item.1.peer_context

pub record IsCanonical (lockfile : Lockfile) : Type 0 where
  pub normalized : All (λ e. IsNormalized e.path) lockfile.packages
  pub sorted : IsSortedEntries lockfile.packages
  pub closed : All (IsClosedAt lockfile.packages) lockfile.resolution.packages

abbrev After : Option Text → List PackageEntry → Type 0
After none es = Unit
After (some p) es = All (λ e. text_lt p e.path ≡ true) es

later :
    (p : Text) (e : PackageEntry) (es : List PackageEntry)
    → text_lt p e.path ≡ true
    → After (some e.path) es
    → After (some p) (e ∷ es)
later p e es h k = (h, All-imp (λ f q. text_lt_trans p e.path f.path h q) es k)

paths_passed :
    (previous : Option Text) (es : List PackageEntry)
    → check_paths previous es ≡ passed
    → All (λ e. IsNormalized e.path) es × IsSortedEntries es × After previous es
unfolding check_paths
paths_passed none [] h = (tt, tt, tt)
paths_passed (some p) [] h = (tt, tt, tt)
paths_passed none (e ∷ es) h =
    let (ns, sorted, after) = paths_passed (some e.path) es (ground arith) in
    ((accepts e.path (rw (← legal_relative_path-eq) (ground arith)), ns), (after, sorted), tt)
paths_passed (some p) (e ∷ es) h =
    let (ns, sorted, after) = paths_passed (some e.path) es (ground arith) in
    (
      (accepts e.path (rw (← legal_relative_path-eq) (ground arith)), ns),
      (after, sorted),
      later p e es (ground arith) after,
    )

found_entry :
    (path : Text) (es : List PackageEntry) {entry : PackageEntry}
    → find_entry path es ≡ some entry
    → HasEntry es path
unfolding find_entry
found_entry path [] h = cc
found_entry path (e ∷ es) {entry} h = elim (Bool-cases (text_eq e.path path)) [
  | inl same ↦ (e, text_eq→eq e.path path same, inl refl)
  | inr other ↦
      let (f, at, m) = found_entry path es {entry = entry} (ground arith) in (f, at, inr m)
]

has_path→HasEntry :
    (es : List PackageEntry) (path : Text) → has_path es path ≡ true → HasEntry es path
unfolding has_path
has_path→HasEntry [] path h = cc
has_path→HasEntry (e ∷ es) path h = elim (Bool-cases (text_eq e.path path)) [
  | inl same ↦ (e, text_eq→eq e.path path same, inl refl)
  | inr other ↦ let (f, at, m) = has_path→HasEntry es path (ground arith) in (f, at, inr m)
]

module _ (es : List PackageEntry) where
  targets_found :
      (path group : Text) (ds : Map LockDependency)
      → validate_targets path group ds es ≡ passed
      → All (λ d. HasEntry es d.1.target) ds
  unfolding validate_targets check_target
  targets_found path group ds h =
      All-imp (λ d k. has_path→HasEntry es d.1.target (ground arith)) ds
        (for_each-passed (check_target es path group) ds h)

  peers_found :
      (path : Text) (ps : Map PeerProvider)
      → for_each (check_peer es path) ps ≡ passed
      → All (λ p. HasEntry es p.1.path) ps
  unfolding check_peer
  peers_found path ps h =
      All-imp (λ p k. has_path→HasEntry es p.1.path (ground arith)) ps
        (for_each-passed (check_peer es path) ps h)

  resolution_closed :
      (item : Text × PackageResolution) → check_resolution es item ≡ passed → IsClosedAt es item
  unfolding check_resolution
  resolution_closed (path, m) h = elim (Option-cases (find_entry path es)) [
    | inl missing ↦ absurd (ground (arith, missing))
    | inr (entry, e) ↦
        let (_, h1) =
          both_passed (check_source path entry m m.source) _ (rw (e, check_resolution) at h) in
        let (d, h2) =
          both_passed (validate_targets path (txt "dependencies") m.dependencies es) _ h1 in
        let (o, h3) =
          both_passed
            (validate_targets path (txt "optionalDependencies") m.optional_dependencies es) _ h2 in
        let (p, c) =
          both_passed (validate_targets path (txt "peerDependencies") m.peer_dependencies es) _
            h3 in
        record {
          self = found_entry path es {entry = entry} e;
          dependencies = targets_found path (txt "dependencies") m.dependencies d;
          optional = targets_found path (txt "optionalDependencies") m.optional_dependencies o;
          peers = targets_found path (txt "peerDependencies") m.peer_dependencies p;
          context = peers_found path m.peer_context c;
        }
  ]

pub validate_v2-IsCanonical :
    (lockfile : Lockfile) → validate_v2 lockfile ≡ passed → IsCanonical lockfile
unfolding validate_v2
validate_v2-IsCanonical l h =
    let (ordered, h1) = both_passed (check_paths none l.packages) _ h in
    let (_, h2) =
      both_passed (for_each (check_registry_name l.packages) l.resolution.registry_names) _ h1 in
    let (ns, sorted, _) = paths_passed none l.packages ordered in
    record {
      normalized = ns;
      sorted = sorted;
      closed =
          All-imp (resolution_closed l.packages) l.resolution.packages
            (for_each-passed (check_resolution l.packages) l.resolution.packages h2);
    }
