-- ===== src/Graph.antt =====
-- src/graph.rs: the canonical bytes of a dependency graph, the identifiers made from them, and the
-- paths of managed entries. The hash (blake3) and the platform's descriptor are parameters; the
-- workspace layout is what `workspace::discover` found.
pub mod Canonical
pub mod Forgotten
pub mod Identity
pub mod Managed
mod Tests
use bpm.Prelude.{
  ℕ, suc, Bool, true, false, not, ◌&&◌, ◌||◌, Option, none, some, ◌≡◌, List, [], ◌∷◌, ◌++◌, ◌==◌,
  leb, if◌then◌else◌, all, length,
}
use bpm.Prelude.Text.{Text, txt, text_eq, is_empty, split, starts_with}
use bpm.Prelude.Map.{Map, get}
use bpm.Prelude.Bytes.{write_u64, write_bool, write_field, write_each, write_counted}
use bpm.Prelude.Readable.{write_entry}
use bpm.Lockfile.Schema.{LockTarget, PackageResolution, PackageEntry, Lockfile}
use bpm.Workspace.{WorkspaceLayout, or_empty, write_workspace}

pub record InstallProfile : Type 0 where
  pub omit_dev : Bool
  pub lifecycle_production : Bool

abbrev pub default_profile : InstallProfile
default_profile = record { omit_dev = false; lifecycle_production = false }

abbrev pub dev_omitted : InstallProfile
dev_omitted = record { omit_dev = true; lifecycle_production = true }

abbrev pub production_full_tree : InstallProfile
production_full_tree = record { omit_dev = false; lifecycle_production = true }

abbrev pub is_default : InstallProfile → Bool
is_default p = not p.omit_dev && not p.lifecycle_production

unfoldable pub write_target : Option LockTarget → List ℕ → List ℕ
write_target none rest = write_bool false rest
write_target (some t) rest =
    write_bool true (write_field t.os (write_field t.cpu (write_field (or_empty t.libc) rest)))

-- the libc list of the resolution of a path; none counts as an empty one
abbrev libc_of_option : Option PackageResolution → List Text
libc_of_option none = []
libc_of_option (some r) = r.libc

abbrev pub libc_of : Map PackageResolution → Text → List Text
libc_of resolutions path = libc_of_option (get path resolutions)

-- the body of the loop over the packages
unfoldable pub write_package : Map PackageResolution → PackageEntry → List ℕ → List ℕ
write_package resolutions p rest = write_field p.path (
    write_field p.name (
      write_field p.version (
        write_field p.resolved (
          write_field (or_empty p.integrity) (
            write_bool p.link (
              write_bool p.dev (
                write_bool p.optional (
                  write_counted write_field p.os (
                    write_counted write_field p.cpu (
                      write_counted write_field (libc_of resolutions p.path) (
                        write_counted write_entry p.bin
                          (write_counted write_entry p.dependencies rest))))))))))))

abbrev pub no_entries : Map Text → Bool
no_entries [] = true
no_entries (e ∷ es) = false

unfoldable pub write_names : Map Text → List ℕ → List ℕ
write_names names rest = txt "registry-names\n" ++ write_counted write_entry names rest

-- the section of the registry names, where there are some
unfoldable pub write_registry_names : Map Text → List ℕ → List ℕ
write_registry_names names rest = if not (no_entries names) then write_names names rest else rest

-- the bytes of a lock's graph, in front of `rest`
unfoldable pub write_graph : Text → Lockfile → List ℕ → List ℕ
write_graph platform lockfile rest =
    txt "bpm-graph-v2\n"
    ++ write_field platform (
        txt "root\n"
        ++ write_counted write_entry lockfile.root.dependencies (
            write_counted write_entry lockfile.resolution.root.overrides (
              write_target lockfile.resolution.root.target (
                txt "packages\n"
                ++ write_counted (write_package lockfile.resolution.packages) lockfile.packages
                    (write_registry_names lockfile.resolution.registry_names rest)))))

abbrev pub canonical_graph_bytes : Text → Lockfile → List ℕ
canonical_graph_bytes platform lockfile = write_graph platform lockfile []

-- a `[u8; 32]`
pub record Key : Type 0 where
  pub contents : List ℕ
  pub sized : length contents ≡ 32

-- the path and the key of a prepared image
unfoldable pub write_prepared : Text × Key → List ℕ → List ℕ
write_prepared (path, key) rest = write_field path (key.contents ++ rest)

unfoldable pub append_prepared_images : Map Key → List ℕ → List ℕ
append_prepared_images prepared rest =
    txt "prepared-images\n" ++ write_counted write_prepared prepared rest

unfoldable pub append_install_profile : InstallProfile → List ℕ → List ℕ
append_install_profile profile rest =
    txt "install-profile-v2\n"
    ++ write_bool profile.omit_dev (write_bool profile.lifecycle_production rest)

abbrev pub none_prepared : Map Key → Bool
none_prepared [] = true
none_prepared (e ∷ es) = false

abbrev no_patterns : List Text → Bool
no_patterns [] = true
no_patterns (p ∷ ps) = false

abbrev pub has_workspace : WorkspaceLayout → Bool
has_workspace layout = not (length layout.packages == 0) || not (no_patterns layout.patterns)

-- the workspace, where there is one
abbrev pub workspace_part : WorkspaceLayout → List ℕ → List ℕ
workspace_part layout rest = if has_workspace layout then write_workspace layout rest else rest

module _ {ℓ} {Hash : Type ℓ} (hash : List ℕ → Hash) (platform : Text) where
  unfoldable pub graph_id : Lockfile → Hash
  graph_id lockfile = hash (canonical_graph_bytes platform lockfile)

  unfoldable pub graph_id_with_profile : Lockfile → InstallProfile → Hash
  graph_id_with_profile lockfile profile =
      if is_default profile
      then graph_id lockfile
      else hash (write_graph platform lockfile (append_install_profile profile []))

  unfoldable pub graph_id_with_prepared : Lockfile → Map Key → Hash
  graph_id_with_prepared lockfile prepared =
      if none_prepared prepared
      then graph_id lockfile
      else hash (write_graph platform lockfile (append_prepared_images prepared []))

  unfoldable pub graph_id_with_prepared_and_profile : Lockfile → Map Key → InstallProfile → Hash
  graph_id_with_prepared_and_profile lockfile prepared profile =
      let images = λ (rest : List ℕ).
        if not (none_prepared prepared) then append_prepared_images prepared rest else rest in
      if is_default profile
      then graph_id_with_prepared lockfile prepared
      else hash (write_graph platform lockfile (images (append_install_profile profile [])))

  unfoldable pub graph_id_with_workspace : Lockfile → WorkspaceLayout → Hash
  graph_id_with_workspace lockfile workspace =
      if not (has_workspace workspace)
      then graph_id lockfile
      else hash (write_graph platform lockfile (write_workspace workspace []))

  -- `ws` is the discovered layout of the project's root
  unfoldable pub graph_id_for_project_with_prepared : Lockfile → WorkspaceLayout → Map Key → Hash
  graph_id_for_project_with_prepared lockfile ws prepared =
      if none_prepared prepared
      then graph_id_with_workspace lockfile ws
      else hash
          (write_graph platform lockfile (workspace_part ws (append_prepared_images prepared [])))

  unfoldable pub graph_id_for_project_with_prepared_and_profile :
      Lockfile → WorkspaceLayout → Map Key → InstallProfile → Hash
  graph_id_for_project_with_prepared_and_profile lockfile ws prepared profile =
      let images = λ (rest : List ℕ).
        if not (none_prepared prepared) then append_prepared_images prepared rest else rest in
      if is_default profile
      then graph_id_for_project_with_prepared lockfile ws prepared
      else hash (
          write_graph platform lockfile
            (workspace_part ws (images (append_install_profile profile []))))

  unfoldable pub graph_id_for_project : Lockfile → WorkspaceLayout → Hash
  graph_id_for_project lockfile ws = graph_id_for_project_with_prepared lockfile ws []

  unfoldable pub graph_id_for_project_with_profile :
      Lockfile → WorkspaceLayout → InstallProfile → Hash
  graph_id_for_project_with_profile lockfile ws profile =
      graph_id_for_project_with_prepared_and_profile lockfile ws [] profile
