-- ===== src/Resolver/Platform/CheckList.antt =====
-- What `matches_list` and `check_package_platform` of resolver/platform.rs decide.
use bpm.Prelude.{
  ℕ, suc, ◌≡◌, refl, ap, ◌∙◌, ◌⊎◌, inl, inr, Bool, true, false, not, ◌&&◌, ◌||◌, Option, none, some,
  List, [], ◌∷◌, ◌++◌, ◌==◌, any, ok, err, arith, Option-cases,
}
use bpm.Prelude.Text.{Text, txt, text_eq, strip_prefix}
use bpm.Resolver.Model.{TargetPlatform, PlatformConstraints, diagnostic, with_package}
use bpm.Resolver.Platform.{
  check_list, is_any, matches_list, mismatched_dimensions, PackageReachability, optional_only,
  required, compatible, skip_optional, PlatformError, PlatformDimension, os_dimension,
  cpu_dimension, libc_dimension, check_package_platform, is_none_or, is_empty_list, linux_libc,
  mismatch, error_text, unsupported, optional_platform_skip_code,
}

abbrev refusal : Option Text → Text → Bool
refusal none value = false
refusal (some blocked) value = text_eq value blocked

-- `d` is `!` followed by the value
abbrev pub blocks : Text → Text → Bool
blocks value d = refusal (strip_prefix (txt "!") d) value

abbrev is_none : Option Text → Bool
is_none none = true
is_none (some b) = false

-- `d` does not begin with `!`
abbrev pub is_positive : Text → Bool
is_positive d = is_none (strip_prefix (txt "!") d)

abbrev pub allows : Text → Text → Bool
allows value d = is_positive d && text_eq value d

check_list-eq :
    (value : Text) (ds : List Text) (positives : ℕ) (matched : Bool)
    → check_list value ds positives matched ≡ (
        not (any (blocks value) ds)
        && ((positives == 0 && not (any is_positive ds)) || (matched || any (allows value) ds)))
unfolding check_list
check_list-eq value [] positives matched = ground arith
check_list-eq value (d ∷ ds) positives matched = elim (Option-cases (strip_prefix (txt "!") d)) [
  | inr (blocked, e) ↦ ground (arith, e, check_list-eq value ds positives matched)
  | inl e ↦ ground (arith, e, check_list-eq value ds (suc positives) (matched || text_eq value d))
]

-- A value matches a list of declarations exactly when there is none or only `any`, or no
-- declaration is its negation and it is one of the positive ones, if there are any.
pub matches_list-eq :
    (value : Text) (declarations : List Text)
    → matches_list value declarations ≡ (
        is_any declarations
        || (not (any (blocks value) declarations)
            && (not (any is_positive declarations) || any (allows value) declarations)))
unfolding matches_list
matches_list-eq value declarations = ground (arith, check_list-eq value declarations 0 false)

-- the declared libc is there and matches, where one is declared
abbrev libc_matches : Option Text → List Text → Bool
libc_matches none declared = is_empty_list declared
libc_matches (some v) declared = is_empty_list declared || matches_list v declared

abbrev pub supports : PlatformConstraints → TargetPlatform → Bool
supports c target =
    matches_list target.os c.os
    && matches_list target.cpu c.cpu
    && libc_matches (linux_libc target) c.libc

libc_mismatch :
    (o : Option Text) (declared : List Text)
    → (not (is_empty_list declared) && is_none_or o (λ v. not (matches_list v declared)))
      ≡ not (libc_matches o declared)
libc_mismatch none declared = ground arith
libc_mismatch (some v) declared = ground arith

-- three tests give no mismatch exactly when all succeed
three :
    (a b c : Bool) (x y z : PlatformDimension)
    → (((a && b && c) ≡ true)
        × (mismatch (not a) x ++ (mismatch (not b) y ++ mismatch (not c) z) ≡ []))
      ⊎ (((a && b && c) ≡ false)
          × ((d : PlatformDimension) × (ds : List PlatformDimension) × (mismatch (not a) x
                  ++ (mismatch (not b) y ++ mismatch (not c) z)
                ≡ d ∷ ds)))
three true true true x y z = inl (refl, refl)
three true true false x y z = inr (refl, (z, [], refl))
three true false c x y z = inr (refl, (y, mismatch (not c) z, refl))
three false b c x y z = inr (refl, (x, mismatch (not b) y ++ mismatch (not c) z, refl))

dimensions_eq :
    (c : PlatformConstraints) (target : TargetPlatform)
    → mismatched_dimensions c target
      ≡ mismatch (not (matches_list target.os c.os)) os_dimension
        ++ (mismatch (not (matches_list target.cpu c.cpu)) cpu_dimension
            ++ mismatch (not (libc_matches (linux_libc target) c.libc)) libc_dimension)
unfolding mismatched_dimensions
dimensions_eq c target =
    ap
      (λ b.
        mismatch (not (matches_list target.os c.os)) os_dimension
        ++ (mismatch (not (matches_list target.cpu c.cpu)) cpu_dimension
            ++ mismatch b libc_dimension))
      (libc_mismatch (linux_libc target) c.libc)

-- A package that supports the target is compatible, however it is reached. One that does not is an
-- error where it is required and, where it is optional, skipped with the text of that error.
pub check_package_platform_outcomes :
    (name : Text) (constraints : PlatformConstraints) (target : TargetPlatform)
    → ((supports constraints target ≡ true)
        × ((r : PackageReachability)
            → check_package_platform name constraints target r ≡ ok compatible))
      ⊎ ((supports constraints target ≡ false)
          × ((e : PlatformError) × (check_package_platform name constraints target required ≡ err e)
              × (check_package_platform name constraints target optional_only
                  ≡ ok (
                      skip_optional (
                        with_package
                          (diagnostic optional_platform_skip_code (error_text e))
                          name)))))
unfolding check_package_platform
check_package_platform_outcomes name c target =
    elim (three (matches_list target.os c.os) (matches_list target.cpu c.cpu)
      (libc_matches (linux_libc target) c.libc) os_dimension cpu_dimension libc_dimension) [
        | inl (all_match, nothing) ↦
            let e : mismatched_dimensions c target ≡ [] = dimensions_eq c target ∙ nothing in
            inl (all_match, λ r. rw (e, check_package_platform) refl)
        | inr (no_match, (d, ds, some_dimension)) ↦
            let e : mismatched_dimensions c target ≡ d ∷ ds =
              dimensions_eq c target ∙ some_dimension in
            inr (
              no_match,
              (
                unsupported name c target (d ∷ ds),
                rw (e, check_package_platform) refl,
                rw (e, check_package_platform) refl,
              ),
            )
      ]
