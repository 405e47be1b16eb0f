-- ===== src/Graph/Forgotten.antt =====
-- src/graph.rs: what of a lock the identifiers do not tell.
use bpm.Prelude.{ℕ, suc, Option, List, [], ◌∷◌, ◌≡◌, refl, sym, ap, ◌∙◌, length}
use bpm.Prelude.Text.{Text}
use bpm.Prelude.Map.{Map}
use bpm.Prelude.Bytes.{write_each, write_counted}
use bpm.Lockfile.Schema.{PeerMode, PackageEntry, PackageResolution, Lockfile}
use bpm.Workspace.{WorkspaceLayout}
use bpm.Graph
use bpm.Graph.{InstallProfile, Key, write_package, write_graph}
use bpm.Graph.Identity.{graph_ids_hash_project_bytes}

-- the packages, linked to other workspaces
abbrev pub retarget : (Text → Option Text) → List PackageEntry → List PackageEntry
retarget targets [] = []
retarget targets (p ∷ ps) = record p { workspace_target = targets p.path } ∷ retarget targets ps

-- the lock with another treatment of peers and with links to other workspaces
abbrev pub with_peers_and_links : PeerMode → (Text → Option Text) → Lockfile → Lockfile
with_peers_and_links mode targets lockfile = record lockfile {
  packages = retarget targets lockfile.packages;
  resolution = record lockfile.resolution {
    root = record lockfile.resolution.root { peer_mode = mode };
  };
}

length-retarget :
    (targets : Text → Option Text) (ps : List PackageEntry)
    → length (retarget targets ps) ≡ length ps
length-retarget targets [] = refl
length-retarget targets (p ∷ ps) = ap suc (length-retarget targets ps)

write_each-retarget :
    (resolutions : Map PackageResolution) (targets : Text → Option Text) (ps : List PackageEntry)
    (rest : List ℕ)
    → write_each (write_package resolutions) (retarget targets ps) rest
      ≡ write_each (write_package resolutions) ps rest
unfolding write_each write_package
write_each-retarget resolutions targets [] rest = refl
write_each-retarget resolutions targets (p ∷ ps) rest =
    ap (write_package resolutions p) (write_each-retarget resolutions targets ps rest)

write_graph-forgets :
    (platform : Text) (mode : PeerMode) (targets : Text → Option Text) (lockfile : Lockfile)
    (rest : List ℕ)
    → write_graph platform (with_peers_and_links mode targets lockfile) rest
      ≡ write_graph platform lockfile rest
unfolding write_graph write_counted
write_graph-forgets platform mode targets lockfile rest =
    simp
      (
        length-retarget targets lockfile.packages,
        write_each-retarget lockfile.resolution.packages targets lockfile.packages,
      )
      refl

-- Neither the peer mode of a lock nor the workspaces that its links lead to are part of the graph
-- identifier of a project: two locks that differ only in these have the same one, whatever the hash.
pub graph_id_forgets {ℓ} :
    {Hash : Type ℓ} (hash : List ℕ → Hash) (platform : Text) (mode : PeerMode)
    (targets : Text → Option Text) (lockfile : Lockfile) (ws : WorkspaceLayout) (prepared : Map Key)
    (profile : InstallProfile)
    → Graph.graph_id_for_project_with_prepared_and_profile hash platform
        (with_peers_and_links mode targets lockfile)
        ws
        prepared
        profile
      ≡ Graph.graph_id_for_project_with_prepared_and_profile hash platform lockfile ws prepared
          profile
graph_id_forgets hash platform mode targets lockfile ws prepared profile =
    let other = with_peers_and_links mode targets lockfile in
    let (x, _, _, _, _, _, _, _, _) =
      graph_ids_hash_project_bytes hash platform other ws prepared profile in
    let (y, _, _, _, _, _, _, _, _) =
      graph_ids_hash_project_bytes hash platform lockfile ws prepared profile in
    x ∙ ap hash (write_graph-forgets platform mode targets lockfile _) ∙ sym y
