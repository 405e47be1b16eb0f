-- ===== src/Resolver/Overrides/Tests.antt =====
-- Two rules for one package, and the property applied to them.
use bpm.Prelude.{ℕ, none, some, List, [], ◌∷◌, ◌≡◌, refl, true}
use bpm.Prelude.Text.{Text, txt}
use bpm.Registry.Digits.{digits}
use bpm.Resolver.Overrides.{OverrideRule, Requirements, applies, applying, effective_spec_for}

abbrev requirements : Requirements digits
requirements = record {
  comparators = λ r. record { major = r; minor = none; patch = none } ∷ [];
  new_version = λ major minor patch. major;
}

-- `x` everywhere, and `x` below `a`
abbrev rules : List OverrideRule
rules =
    record {
      ancestors = [];
      package_name = txt "x";
      package_req = none;
      spec = txt "^1";
      key = txt "x";
    }
    ∷ record {
      ancestors = record { name = txt "a"; req = none } ∷ [];
      package_name = txt "x";
      package_req = some (txt "^3");
      spec = txt "^2";
      key = txt "a>x@^3";
    }
    ∷ []

abbrev below_a : List (Text × ℕ)
below_a = (txt "a", 1) ∷ []

nested_rule : effective_spec_for digits requirements rules (txt "x") (txt "^3") below_a ≡ txt "^2"
unfolding effective_spec_for bpm.Resolver.Overrides.greatest applying applies
    bpm.Prelude.Text.text_eq bpm.Resolver.Overrides.ancestors_match bpm.Resolver.Overrides.all_match
    bpm.Resolver.Overrides.request_matches_selector bpm.Resolver.Overrides.skip
    bpm.Registry.Spec.parse_spec bpm.Prelude.Text.trim_end bpm.Prelude.Words.trim_start
    bpm.Prelude.Words.is_whitespace bpm.Registry.is_valid_npm_read_name bpm.Registry.valid_npm_name
    bpm.Registry.Spec.split_spec bpm.Registry.Spec.rsplit_once bpm.Prelude.Text.strip_prefix
    bpm.Prelude.Map.text_lt bpm.Prelude.Text.split_once bpm.Prelude.Words.split_whitespace
    bpm.Prelude.Words.words_from bpm.Registry.Spec.comparators_of bpm.Registry.Spec.join_comparators
    bpm.Registry.Spec.parse_parts bpm.Registry.Spec.parse_request bpm.Registry.Spec.split_bars
    bpm.Registry.valid_alphanumeric bpm.Registry.valid_name_segment bpm.Registry.valid_segment_byte
    bpm.Resolver.Overrides.ranges_intersect bpm.Resolver.Overrides.rule_lt
    bpm.Resolver.Overrides.versions_of
nested_rule = refl
