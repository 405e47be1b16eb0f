-- ===== src/Graph/Tests.antt =====
-- A lock with a workspace and prepared images, and the properties applied to it.
use bpm.Prelude.{Bool, ℕ, true, false, List, [], ◌∷◌, ◌++◌, none, some, ◌≡◌, ◌≢◌, ◌⊎◌, refl}
use bpm.Prelude.Text.{Text, txt, split, contains, text_eq, starts_with}
use bpm.PathSafety.Inside.{StaysInside}
use bpm.Graph.Managed.{
  windows_components, is_entry_component, path_is_valid, IsEntry, managed_path-StaysInside,
}
use bpm.Prelude.Map.{Map}
use bpm.Lockfile.Schema.{Lockfile, legacy_ignore, new_lockfile, PackageEntry}
use bpm.Workspace.{WorkspaceLayout}
use bpm.Graph
use bpm.Graph.{InstallProfile, Key, dev_omitted, default_profile}
use bpm.Graph.Forgotten.{with_peers_and_links, graph_id_forgets}
use bpm.Graph.Identity.{
  project_bytes, project_facts, no_workspace, graph_ids_hash_project_bytes,
  equal_ids_equal_projects,
}

abbrev left_pad : PackageEntry
left_pad = record {
  path = txt "node_modules/left-pad";
  name = txt "left-pad";
  version = txt "1.3.0";
  resolved = txt "https://registry.npmjs.org/left-pad/-/left-pad-1.3.0.tgz";
  workspace_target = none;
  integrity = none;
  link = false;
  dev = false;
  optional = true;
  os = txt "linux" ∷ [];
  cpu = [];
  bin = [];
  dependencies = (txt "once", txt "^1.0.0") ∷ [];
}

abbrev locked : Lockfile
locked = record (new_lockfile (txt "bpm")) { packages = left_pad ∷ [] }

abbrev layout : WorkspaceLayout
layout = record {
  patterns = txt "packages/*" ∷ [];
  packages = record { dir = txt "packages/a"; name = some (txt "a"); version = none } ∷ [];
}

abbrev eight : List ℕ
eight = 1 ∷ 2 ∷ 3 ∷ 4 ∷ 5 ∷ 6 ∷ 7 ∷ 8 ∷ []

abbrev image_key : Key
image_key = record { contents = eight ++ (eight ++ (eight ++ eight)); sized = refl }

abbrev images : Map Key
images = (txt "node_modules/left-pad", image_key) ∷ []

abbrev itself : List ℕ → List ℕ
itself b = b

graph_ids_hash_project_bytes_example :
    (Graph.graph_id_for_project_with_prepared_and_profile itself
        (txt "x86_64/linux")
        locked
        layout
        images
        dev_omitted
      ≡ project_bytes (txt "x86_64/linux") locked layout images dev_omitted)
    × (Graph.graph_id_for_project_with_prepared itself (txt "x86_64/linux") locked layout images
        ≡ project_bytes (txt "x86_64/linux") locked layout images default_profile)
    × (Graph.graph_id_for_project_with_profile itself (txt "x86_64/linux") locked layout dev_omitted
        ≡ project_bytes (txt "x86_64/linux") locked layout [] dev_omitted)
    × (Graph.graph_id_for_project itself (txt "x86_64/linux") locked layout
        ≡ project_bytes (txt "x86_64/linux") locked layout [] default_profile)
    × (Graph.graph_id_with_workspace itself (txt "x86_64/linux") locked layout
        ≡ project_bytes (txt "x86_64/linux") locked layout [] default_profile)
    × (Graph.graph_id_with_prepared_and_profile itself
          (txt "x86_64/linux")
          locked
          images
          dev_omitted
        ≡ project_bytes (txt "x86_64/linux") locked no_workspace images dev_omitted)
    × (Graph.graph_id_with_prepared itself (txt "x86_64/linux") locked images
        ≡ project_bytes (txt "x86_64/linux") locked no_workspace images default_profile)
    × (Graph.graph_id_with_profile itself (txt "x86_64/linux") locked dev_omitted
        ≡ project_bytes (txt "x86_64/linux") locked no_workspace [] dev_omitted)
    × (Graph.graph_id itself (txt "x86_64/linux") locked
        ≡ project_bytes (txt "x86_64/linux") locked no_workspace [] default_profile)
graph_ids_hash_project_bytes_example =
    graph_ids_hash_project_bytes itself (txt "x86_64/linux") locked layout images dev_omitted

equal_ids_equal_projects_example :
    (project_facts (txt "x86_64/linux") locked layout images dev_omitted
      ≡ project_facts
          (txt "x86_64/linux")
          (record locked { generator = txt "npm" })
          layout
          images
          dev_omitted)
    ⊎ ((project_bytes (txt "x86_64/linux") locked layout images dev_omitted
          ≢ project_bytes
              (txt "x86_64/linux")
              (record locked { generator = txt "npm" })
              layout
              images
              dev_omitted)
        × (project_bytes (txt "x86_64/linux") locked layout images dev_omitted
            ≡ project_bytes
                (txt "x86_64/linux")
                (record locked { generator = txt "npm" })
                layout
                images
                dev_omitted))
unfolding Graph.graph_id_for_project_with_prepared_and_profile Graph.write_graph
equal_ids_equal_projects_example =
    equal_ids_equal_projects itself (txt "x86_64/linux") (txt "x86_64/linux") locked
      (record locked { generator = txt "npm" }) layout layout images images dev_omitted dev_omitted
      refl

-- one lock with strict peers and one that ignores them
graph_id_forgets_example :
    Graph.graph_id_for_project_with_prepared_and_profile itself
      (txt "x86_64/linux")
      (with_peers_and_links legacy_ignore (λ path. some (txt "packages/b")) locked)
      layout
      images
      dev_omitted
    ≡ Graph.graph_id_for_project_with_prepared_and_profile itself
        (txt "x86_64/linux")
        locked
        layout
        images
        dev_omitted
graph_id_forgets_example =
    graph_id_forgets itself (txt "x86_64/linux") legacy_ignore (λ path. some (txt "packages/b"))
      locked layout images dev_omitted

-- on Unix
abbrev begins_at_root : Text → Bool
begins_at_root = starts_with (txt "/")

scoped_valid : path_is_valid begins_at_root (txt "node_modules/@scope/a") ≡ true
unfolding path_is_valid is_entry_component split text_eq starts_with
scoped_valid = refl

-- a component with backslashes passes, and Windows reads it as two steps up
backslash_valid : path_is_valid begins_at_root (txt "node_modules/a\\..\\..") ≡ true
unfolding path_is_valid is_entry_component split text_eq starts_with
backslash_valid = refl

climbs_out :
    windows_components (txt "node_modules/a\\..\\..")
    ≡ txt "node_modules" ∷ txt "a" ∷ txt ".." ∷ txt ".." ∷ []
unfolding windows_components
climbs_out = refl

managed_path-StaysInside_example :
    IsEntry (split b'/' (txt "node_modules/@scope/a"))
    × StaysInside (txt "node_modules/@scope/a")
    × ((contains b'\\' (txt "node_modules/@scope/a") ≡ true)
        ⊎ (windows_components (txt "node_modules/@scope/a")
            ≡ split b'/' (txt "node_modules/@scope/a")))
managed_path-StaysInside_example =
    managed_path-StaysInside begins_at_root (txt "node_modules/@scope/a") scoped_valid
