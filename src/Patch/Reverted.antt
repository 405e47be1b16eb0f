-- ===== src/Patch/Reverted.antt =====
-- A patch that patch.rs parsed and applied, and its inverse.
use bpm.Prelude.{◌≡◌, sym, List, [], ◌∷◌, All, Elem, ok, inl, inr}
use mathlib.Core.Path.{subst}
use bpm.Prelude.Text.{Text}
use bpm.Patch.{FilePatch, parse_patch}
use bpm.Patch.Edit.{split_lines, apply_file_patch}
use bpm.Patch.Edit.Applied.Undo.{IsLine, inverse, apply_file_patch_undo}
use bpm.Patch.Whole.{IsUsable, parse_patch-AreUsable}

All-Elem : (ps : List FilePatch) (p : FilePatch) → All IsUsable ps → Elem p ps → IsUsable p
All-Elem [] p us e = absurd e
All-Elem (q ∷ ps) p (u, us) (inl e) = subst IsUsable (sym e) u
All-Elem (q ∷ ps) p (u, us) (inr e) = All-Elem ps p us e

-- Every patch that was parsed from a diff is undone by its inverse, on each file of whole lines
-- that it was applied to.
pub parsed_patch_undo :
    (text : Text) (patches : List FilePatch) (patch : FilePatch) (path original patched : Text)
    → parse_patch text ≡ ok patches
    → Elem patch patches
    → All IsLine (split_lines original)
    → apply_file_patch path original patch ≡ ok patched
    → apply_file_patch path patched (inverse patch) ≡ ok original
parsed_patch_undo text patches patch path original patched parsed member lines run =
    let usable = All-Elem patches patch (parse_patch-AreUsable text patches parsed).1 member in
    apply_file_patch_undo path original patch patched lines usable.whole run
