-- ===== src/Lockfile/Schema.antt =====
-- The data of src/lockfile.rs. A `BTreeMap` is a sorted association list and a `BTreeSet` a sorted
-- list.
use bpm.Prelude.{ℕ, Bool, List, [], Option, none}
use bpm.Prelude.Text.{Text}
use bpm.Prelude.Map.{Map}

abbrev pub bpm_lock_version : ℕ
bpm_lock_version = 2

abbrev pub legacy_lock_version : ℕ
legacy_lock_version = 1

pub record LockTarget : Type 0 where
  pub os : Text
  pub cpu : Text
  pub libc : Option Text

pub data PeerMode : Type 0 where
  strict legacy_ignore : PeerMode

pub data LockSource : Type 0 where
  registry : Text → LockSource
  workspace : Text → LockSource
  file : Text → LockSource
  tarball : Text → LockSource
  -- the URL, the reference and the resolved commit
  git : Text → Option Text → Text → LockSource
  patch : LockSource → Text → LockSource

pub record RootResolution : Type 0 where
  pub dev_dependencies : Map Text
  pub optional_dependencies : Map Text
  pub overrides : Map Text
  pub workspace_patterns : List Text
  pub workspace_index_digest : Option Text
  pub target : Option LockTarget
  pub peer_mode : PeerMode

pub record PeerProvider : Type 0 where
  pub name : Text
  pub version : Text
  pub source : LockSource
  pub path : Text

pub record LockDependency : Type 0 where
  pub spec : Text
  pub target : Text

pub record PackageResolution : Type 0 where
  pub source : LockSource
  pub dev_optional : Bool
  pub peer : Bool
  pub libc : List Text
  pub dependencies : Map LockDependency
  pub optional_dependencies : Map LockDependency
  pub peer_dependencies : Map LockDependency
  pub optional_peers : List Text
  pub peer_context : Map PeerProvider
  pub workspace_target : Option Text
  pub has_install_script : Bool

pub record ResolutionMetadata : Type 0 where
  pub root : RootResolution
  pub packages : Map PackageResolution
  pub registry_names : Map Text

abbrev pub default_root_resolution : RootResolution
default_root_resolution = record {
  dev_dependencies = [];
  optional_dependencies = [];
  overrides = [];
  workspace_patterns = [];
  workspace_index_digest = none;
  target = none;
  peer_mode = strict;
}

abbrev pub default_resolution : ResolutionMetadata
default_resolution = record { root = default_root_resolution; packages = []; registry_names = [] }

pub record RootEntry : Type 0 where
  pub name : Option Text
  pub version : Option Text
  pub dependencies : Map Text

pub record PackageEntry : Type 0 where
  pub path : Text
  pub name : Text
  pub version : Text
  pub resolved : Text
  pub workspace_target : Option Text
  pub integrity : Option Text
  pub link : Bool
  pub dev : Bool
  pub optional : Bool
  pub os : List Text
  pub cpu : List Text
  pub bin : Map Text
  pub dependencies : Map Text

pub record Lockfile : Type 0 where
  pub lockfile_version : ℕ
  pub generator : Text
  pub root : RootEntry
  pub packages : List PackageEntry
  pub resolution : ResolutionMetadata

-- `Lockfile::new`
abbrev pub new_lockfile : Text → Lockfile
new_lockfile generator = record {
  lockfile_version = bpm_lock_version;
  generator = generator;
  root = record { name = none; version = none; dependencies = [] };
  packages = [];
  resolution = default_resolution;
}
