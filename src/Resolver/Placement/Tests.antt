-- ===== src/Resolver/Placement/Tests.antt =====
-- Placed nodes with two versions of a package in sight, and the properties applied to them.
use bpm.Prelude.{
  ℕ, true, false, none, some, List, [], ◌∷◌, ◌≡◌, ◌≢◌, ◌↔◌, ◌⊎◌, inl, inr, refl, All, Elem, Result,
  ok, err,
}
use bpm.Prelude.Text.{Text, txt}
use bpm.Prelude.Map.{get, text_set}
use bpm.Lockfile.Schema.{registry}
use bpm.Registry.Spec.{VersionMetadata, published}
use bpm.Registry.Resolve.{ResolvedArtifact}
use bpm.Registry.Digits.{digits, digits-IsOrder, codecs, metadata_of, plugin}
use bpm.Resolver.Placement.{
  Node, Nodes, find_visible, find_visible_any, find, fits, request_matches, choose_version,
}
use bpm.Resolver.Placement.Lookup.{Nearest, find_iff, find_visible_loaded_iff}
use bpm.Resolver.Placement.Resolve.{
  platform_allows, State, Client, source_error, resolve_dependency,
}
use bpm.Resolver.Placement.Steps.{IsClosed, Extends, IsClosed-of_no_targets}
use bpm.Resolver.Placement.Entered.{IsPlaced}
use bpm.Resolver.Placement.Closed.{resolve_dependency-IsClosed}
use bpm.Resolver.Placement.Choice.{peers_fit, IsMisfit, IsChosen, choose_version_outcomes}

abbrev node_of : Text → Text → ℕ → Node digits
node_of path name version = record {
  path = path;
  placement_name = name;
  metadata = metadata_of name version [];
  resolved = [];
  integrity = [];
  dependencies = [];
  targets = [];
  optional = false;
  dev = false;
  peer_context = [];
  source = registry (txt "https://registry.npmjs.org");
  link = false;
  workspace_target = none;
  source_dir = none;
}

-- `a` has `x` 1 in its own `node_modules`, the root has `x` 2, and `b` below `a` looks for `x`
abbrev placed : Nodes digits
placed =
    (txt "node_modules/a", node_of (txt "node_modules/a") (txt "a") 1)
    ∷ (
      txt "node_modules/a/node_modules/b",
      node_of (txt "node_modules/a/node_modules/b") (txt "b") 1,
    )
    ∷ (
      txt "node_modules/a/node_modules/x",
      node_of (txt "node_modules/a/node_modules/x") (txt "x") 1,
    )
    ∷ (txt "node_modules/react", node_of (txt "node_modules/react") (txt "react") 7)
    ∷ (txt "node_modules/x", node_of (txt "node_modules/x") (txt "x") 2)
    ∷ []

abbrev b_path : Text
b_path = txt "node_modules/a/node_modules/b"

-- `b` is linked to the `x` of the root, but loads that of `a`
farther_found : find_visible digits placed b_path (txt "x") (txt "^2") ≡ some (txt "node_modules/x")
unfolding find bpm.Resolver.Placement.find_from get bpm.Prelude.Text.text_eq
    bpm.Resolver.Placement.child_path bpm.Hoist.before_last bpm.Prelude.Text.starts_with
    request_matches bpm.Registry.Spec.parse_spec bpm.Prelude.Text.trim_end
    bpm.Prelude.Words.trim_start bpm.Prelude.Words.is_whitespace bpm.Registry.is_valid_npm_read_name
    bpm.Registry.valid_npm_name bpm.Registry.valid_name_segment bpm.Registry.valid_segment_byte
    bpm.Registry.valid_alphanumeric bpm.Registry.Spec.split_spec bpm.Registry.Spec.rsplit_once
    bpm.Prelude.Text.strip_prefix bpm.Prelude.Text.split_once bpm.Registry.Spec.parse_request
    bpm.Registry.Spec.parse_parts bpm.Registry.Spec.split_bars bpm.Registry.Spec.comparators_of
    bpm.Registry.Spec.join_comparators bpm.Prelude.Words.split_whitespace
    bpm.Prelude.Words.words_from
farther_found = refl

nearer_loaded :
    find_visible_any digits placed b_path (txt "x") ≡ some (txt "node_modules/a/node_modules/x")
unfolding find bpm.Resolver.Placement.find_from get bpm.Prelude.Text.text_eq
    bpm.Resolver.Placement.child_path bpm.Hoist.before_last bpm.Prelude.Text.starts_with
nearer_loaded = refl

loaded_misfit : request_matches digits (txt "^2") 1 ≡ false
unfolding request_matches bpm.Registry.Spec.parse_spec bpm.Prelude.Text.trim_end
    bpm.Prelude.Words.trim_start bpm.Prelude.Words.is_whitespace bpm.Registry.is_valid_npm_read_name
    bpm.Registry.valid_npm_name bpm.Registry.valid_name_segment bpm.Registry.valid_segment_byte
    bpm.Registry.valid_alphanumeric bpm.Registry.Spec.split_spec bpm.Registry.Spec.rsplit_once
    bpm.Prelude.Text.strip_prefix bpm.Prelude.Text.split_once bpm.Registry.Spec.parse_request
    bpm.Registry.Spec.parse_parts bpm.Registry.Spec.split_bars bpm.Registry.Spec.comparators_of
    bpm.Registry.Spec.join_comparators bpm.Prelude.Words.split_whitespace
    bpm.Prelude.Words.words_from bpm.Prelude.Text.text_eq
loaded_misfit = refl

find_iff_example :
    (find digits placed (txt "x") (fits digits (txt "^2")) b_path ≡ some (txt "node_modules/x"))
    ↔ Nearest digits placed (txt "x") (fits digits (txt "^2")) b_path (txt "node_modules/x")
find_iff_example =
    find_iff digits placed (txt "x") (fits digits (txt "^2")) b_path (txt "node_modules/x")

find_visible_loaded_iff_example :
    (find_visible digits placed b_path (txt "x") (txt "^2")
      ≡ some (txt "node_modules/a/node_modules/x"))
    ↔ (request_matches digits (txt "^2") 1 ≡ true)
unfolding get bpm.Prelude.Text.text_eq
find_visible_loaded_iff_example =
    find_visible_loaded_iff digits placed (txt "x") b_path (txt "^2")
      (txt "node_modules/a/node_modules/x")
      (node_of (txt "node_modules/a/node_modules/x") (txt "x") 1) nearer_loaded refl

abbrev base : Text
base = txt "https://registry.npmjs.org"

abbrev artifact : ℕ → Text → ResolvedArtifact digits codecs
artifact version peer = record {
  name = txt "plugin";
  version = version;
  tarball_url = txt "https://registry.npmjs.org/p.tgz";
  integrity = txt "sha512-AA";
  metadata = metadata_of (txt "plugin") version ((txt "react", peer) ∷ []);
}

-- The request `^1` resolves to version 1; with `react` 7 in sight, version 2 is placed for it.
left_range :
    choose_version digits codecs placed [] (txt "plugin") base plugin (artifact 1 (txt "^6"))
    ≡ ok (artifact 2 (txt "^7"))
unfolding find bpm.Resolver.Placement.find_from get bpm.Prelude.Text.text_eq
    bpm.Resolver.Placement.child_path bpm.Hoist.before_last bpm.Prelude.Text.starts_with
    request_matches bpm.Registry.Spec.parse_spec bpm.Prelude.Text.trim_end
    bpm.Prelude.Words.trim_start bpm.Prelude.Words.is_whitespace bpm.Registry.is_valid_npm_read_name
    bpm.Registry.valid_npm_name bpm.Registry.valid_name_segment bpm.Registry.valid_segment_byte
    bpm.Registry.valid_alphanumeric bpm.Registry.Spec.split_spec bpm.Registry.Spec.rsplit_once
    bpm.Prelude.Text.strip_prefix bpm.Prelude.Text.split_once bpm.Registry.Spec.parse_request
    bpm.Registry.Spec.parse_parts bpm.Registry.Spec.split_bars bpm.Registry.Spec.comparators_of
    bpm.Registry.Spec.join_comparators bpm.Prelude.Words.split_whitespace
    bpm.Prelude.Words.words_from choose_version bpm.Resolver.Placement.peer_candidate_matches
    bpm.Resolver.Placement.peer_fits bpm.Resolver.Placement.backtrack
    bpm.Resolver.Placement.reverse_onto bpm.Prelude.Sort.sort_by published
    bpm.Registry.Resolve.resolve_packument bpm.Registry.Spec.select_version
    bpm.Registry.Spec.select_request bpm.Registry.Resolve.resolved_artifact bpm.Integrity.parse
    bpm.Integrity.parse_tokens bpm.Integrity.read_token bpm.Integrity.decode_value
    bpm.Integrity.digest_of bpm.Registry.Resolve.resolve_tarball_url
left_range = refl

choose_version_outcomes_example :
    ((artifact 2 (txt "^7") ≡ artifact 1 (txt "^6"))
      × ((peers_fit digits codecs placed [] (txt "plugin") base plugin (artifact 1 (txt "^6"))
            ≡ true)
          ⊎ All
              (IsMisfit digits codecs placed [] (txt "plugin") base plugin)
              (published digits plugin.versions)))
    ⊎ ((peers_fit digits codecs placed [] (txt "plugin") base plugin (artifact 1 (txt "^6"))
          ≡ false)
        × IsChosen digits codecs placed [] (txt "plugin") base plugin (artifact 2 (txt "^7")))
choose_version_outcomes_example =
    choose_version_outcomes digits codecs placed [] (txt "plugin") base plugin digits-IsOrder
      (artifact 1 (txt "^6")) (artifact 2 (txt "^7")) left_range

abbrev client : Client digits
client = record {
  Source = Text;
  effective_spec_for = λ name spec ancestors. spec;
  workspace_link = λ name spec. ok none;
  parse_source = λ spec. none;
  resolve_source = λ base_dir name spec source. err (source_error name spec (txt "no sources"));
  registry_for_package = λ name. base;
  packument_for = λ spec. ok plugin;
  target = record { os = txt "linux"; cpu = txt "x64"; libc = none };
}

abbrev start : State digits
start = record { nodes = placed; diagnostics = [] }

-- `plugin` is new, and its request leaves the version to the peers in sight
resolve_dependency-IsClosed_example :
    let outcome =
      resolve_dependency digits codecs client 2 start [] (txt "plugin") (txt "^1") false false in
    IsClosed digits (outcome.0).nodes
    × Extends digits placed (outcome.0).nodes
    × IsPlaced digits codecs client (outcome.0).nodes outcome.1
resolve_dependency-IsClosed_example =
    resolve_dependency-IsClosed digits codecs client 2 start [] (txt "plugin") (txt "^1") false
      false (IsClosed-of_no_targets digits placed (refl, (refl, (refl, (refl, (refl, tt))))))

-- a list that says `any` twice allows every platform, as a set does
any_twice :
    platform_allows digits codecs client start
      (txt "plugin")
      (record (metadata_of (txt "plugin") 1 []) { os = txt "any" ∷ txt "any" ∷ [] })
      false
    ≡ (start, ok true)
unfolding platform_allows text_set bpm.Resolver.Platform.check_package_platform
    bpm.Resolver.Platform.mismatched_dimensions bpm.Resolver.Platform.matches_list
    bpm.Resolver.Platform.is_any bpm.Prelude.Map.insert_text bpm.Prelude.Map.text_lt
    bpm.Prelude.Text.text_eq
any_twice = refl
