-- ===== src/Workspace.antt =====
-- src/workspace.rs: the workspace layout and its canonical bytes. Reading the directories is not
-- here.
use bpm.Prelude.{ℕ, Option, none, some, List, [], ◌++◌, map}
use bpm.Prelude.Text.{Text, txt}
use bpm.Prelude.Bytes.{Agree, write_field, write_field-IsReadable, write_counted}
use bpm.Prelude.Readable.{append-cancel, write_counted-Agree, write_counted-IsReadable}

pub record WorkspacePackage : Type 0 where
  pub dir : Text
  pub name : Option Text
  pub version : Option Text

pub record WorkspaceLayout : Type 0 where
  pub patterns : List Text
  pub packages : List WorkspacePackage

-- `as_deref().unwrap_or("")`
abbrev pub or_empty : Option Text → Text
or_empty none = []
or_empty (some s) = s

unfoldable pub write_workspace_package : WorkspacePackage → List ℕ → List ℕ
write_workspace_package p rest =
    write_field p.dir (write_field (or_empty p.name) (write_field (or_empty p.version) rest))

-- the bytes of a layout, in front of `rest`
unfoldable pub write_workspace : WorkspaceLayout → List ℕ → List ℕ
write_workspace layout rest =
    txt "ws-v1\n"
    ++ (txt "patterns\n"
        ++ write_counted write_field layout.patterns
            (txt "packages\n" ++ write_counted write_workspace_package layout.packages rest))

abbrev pub canonical_workspace_bytes : WorkspaceLayout → List ℕ
canonical_workspace_bytes layout = write_workspace layout []

-- What the bytes tell of a package: a missing name or version is an empty one.
pub record PackageFacts : Type 0 where
  pub dir : Text
  pub name : Text
  pub version : Text

abbrev pub package_facts : WorkspacePackage → PackageFacts
package_facts p = record { dir = p.dir; name = or_empty p.name; version = or_empty p.version }

pub record LayoutFacts : Type 0 where
  pub patterns : List Text
  pub packages : List PackageFacts

abbrev pub layout_facts : WorkspaceLayout → LayoutFacts
layout_facts l = record { patterns = l.patterns; packages = map package_facts l.packages }

write_workspace_package-Agree :
    Agree write_workspace_package package_facts write_workspace_package package_facts
unfolding write_workspace_package
write_workspace_package-Agree a b s t h =
    let (e, h1) = write_field-IsReadable a.dir b.dir _ _ h in
    let (f, h2) = write_field-IsReadable (or_empty a.name) (or_empty b.name) _ _ h1 in
    let (g, end) = write_field-IsReadable (or_empty a.version) (or_empty b.version) s t h2 in
    (cc (e, f, g), end)

pub write_workspace-Agree : Agree write_workspace layout_facts write_workspace layout_facts
unfolding write_workspace
write_workspace-Agree a b s t h =
    let h1 = append-cancel (txt "patterns\n") (append-cancel (txt "ws-v1\n") h) in
    let (e, h2) =
      write_counted-IsReadable write_field write_field-IsReadable a.patterns b.patterns _ _ h1 in
    let (f, end) =
      write_counted-Agree write_workspace_package write_workspace_package package_facts
        package_facts write_workspace_package-Agree a.packages b.packages s t
        (append-cancel (txt "packages\n") h2) in
    (cc (e, f), end)
