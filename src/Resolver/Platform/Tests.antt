-- ===== src/Resolver/Platform/Tests.antt =====
-- The tests of resolver/platform.rs, and the theorems at a package for macOS.
use bpm.Prelude.{◌≡◌, ◌⊎◌, ◌||◌, ◌&&◌, not, refl, true, false, some, [], ◌∷◌, any, ok, err}
use bpm.Prelude.Text.{txt, text_eq, strip_prefix}
use bpm.Resolver.Model.{TargetPlatform, PlatformConstraints, diagnostic, with_package}
use bpm.Resolver.Platform.{
  check_list, is_any, matches_list, PackageReachability, optional_only, required, compatible,
  skip_optional, PlatformError, check_package_platform, error_text, optional_platform_skip_code,
}
use bpm.Resolver.Platform.CheckList.{
  blocks, is_positive, allows, matches_list-eq, supports, check_package_platform_outcomes,
}

negation_first : matches_list (txt "linux") (txt "!linux" ∷ txt "linux" ∷ []) ≡ false
unfolding matches_list is_any check_list strip_prefix text_eq
negation_first = refl

others_only : matches_list (txt "linux") (txt "!darwin" ∷ txt "!win32" ∷ []) ≡ true
unfolding matches_list is_any check_list strip_prefix text_eq
others_only = refl

any_among_others : matches_list (txt "linux") (txt "any" ∷ txt "darwin" ∷ []) ≡ false
unfolding matches_list is_any check_list strip_prefix text_eq
any_among_others = refl

abbrev mac_only : PlatformConstraints
mac_only = record { os = txt "darwin" ∷ []; cpu = []; libc = [] }

abbrev linux : TargetPlatform
linux = record { os = txt "linux"; cpu = txt "x64"; libc = some (txt "glibc") }

matches_list-eq_example : matches_list (txt "linux") (txt "darwin" ∷ []) ≡ (
    is_any (txt "darwin" ∷ [])
    || (not (any (blocks (txt "linux")) (txt "darwin" ∷ []))
        && (not (any is_positive (txt "darwin" ∷ []))
            || any (allows (txt "linux")) (txt "darwin" ∷ []))))
matches_list-eq_example = matches_list-eq (txt "linux") (txt "darwin" ∷ [])

check_package_platform_outcomes_example :
    ((supports mac_only linux ≡ true)
      × ((r : PackageReachability)
          → check_package_platform (txt "native@1") mac_only linux r ≡ ok compatible))
    ⊎ ((supports mac_only linux ≡ false)
        × ((e : PlatformError) × (check_package_platform (txt "native@1") mac_only linux required
              ≡ err e)
            × (check_package_platform (txt "native@1") mac_only linux optional_only
                ≡ ok (
                    skip_optional (
                      with_package
                        (diagnostic optional_platform_skip_code (error_text e))
                        (txt "native@1"))))))
check_package_platform_outcomes_example =
    check_package_platform_outcomes (txt "native@1") mac_only linux
