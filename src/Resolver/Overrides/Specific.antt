-- ===== src/Resolver/Overrides/Specific.antt =====
-- src/resolver/overrides.rs: the most specific rule that applies is the one that overrides.
use bpm.Prelude.{◌<◌, length, false, ◌≡◌, ◌⊎◌}
use bpm.Prelude.Text.{Text}
use bpm.Prelude.Map.{text_lt}
use bpm.Registry.Spec.{Semver}
use bpm.Resolver.Overrides.{OverrideRule, Requirements, rule_lt}

module _ (semver : Semver) (requirements : Requirements semver) where
  -- The rule has fewer ancestors than the best one, or as many and a key that is not greater.
  abbrev pub IsNoMoreSpecific : OverrideRule → OverrideRule → Type 0
  IsNoMoreSpecific rule best =
      (length rule.ancestors < length best.ancestors)
      ⊎ ((length rule.ancestors ≡ length best.ancestors) × (text_lt best.key rule.key ≡ false))

  -- `best` is no less than `rule`
  abbrev IsAtMost : OverrideRule → OverrideRule → Type 0
  IsAtMost best rule = rule_lt semver requirements best rule ≡ false
