-- ===== src/Resolver/Platform.antt =====
-- src/resolver/platform.rs: the platforms that a package declares, against the target.
pub mod CheckList
mod Tests
use bpm.Prelude.{
  ℕ, suc, ◌+◌, Bool, true, false, not, ◌&&◌, ◌||◌, Option, none, some, List, [], ◌∷◌, ◌++◌, ◌==◌,
  if◌then◌else◌, Result, ok, err,
}
use bpm.Prelude.Text.{Text, txt, text_eq, strip_prefix, join}
use bpm.Resolver.Model.{
  TargetPlatform, PlatformConstraints, ResolutionDiagnostic, diagnostic, with_package,
}

abbrev pub optional_platform_skip_code : Text
optional_platform_skip_code = txt "OPTIONAL_PLATFORM_SKIPPED"

pub data PackageReachability : Type 0 where
  optional_only required : PackageReachability

pub data PlatformDisposition : Type 0 where
  compatible : PlatformDisposition
  skip_optional : ResolutionDiagnostic → PlatformDisposition

pub data PlatformDimension : Type 0 where
  os_dimension cpu_dimension libc_dimension : PlatformDimension

-- the error `Unsupported`
pub record PlatformError : Type 0 where
  pub package_name : Text
  pub target : Text
  pub declared : Text
  pub mismatched : Text

-- the loop of `matches_list`, from what it found so far
unfoldable pub check_list : Text → List Text → ℕ → Bool → Bool
check_list value [] positives matched = positives == 0 || matched
check_list value (d ∷ ds) positives matched = elim (strip_prefix (txt "!") d) [
  | some blocked ↦ if text_eq value blocked then false else check_list value ds positives matched
  | none ↦ check_list value ds (suc positives) (matched || text_eq value d)
]

-- no declaration, or only `any`
unfoldable pub is_any : List Text → Bool
is_any [] = true
is_any (d ∷ []) = text_eq d (txt "any")
is_any (d ∷ e ∷ ds) = false

unfoldable pub matches_list : Text → List Text → Bool
matches_list value declarations =
    if is_any declarations then true else check_list value declarations 0 false

abbrev pub is_none_or : Option Text → (Text → Bool) → Bool
is_none_or none p = true
is_none_or (some v) p = p v

abbrev pub is_empty_list : List Text → Bool
is_empty_list [] = true
is_empty_list (d ∷ ds) = false

-- the libc of the target counts on Linux only
unfoldable pub linux_libc : TargetPlatform → Option Text
linux_libc target = if text_eq target.os (txt "linux") then target.libc else none

abbrev pub mismatch : Bool → PlatformDimension → List PlatformDimension
mismatch true d = d ∷ []
mismatch false d = []

unfoldable pub mismatched_dimensions : PlatformConstraints → TargetPlatform → List PlatformDimension
mismatched_dimensions constraints target =
    mismatch (not (matches_list target.os constraints.os)) os_dimension
    ++ (mismatch (not (matches_list target.cpu constraints.cpu)) cpu_dimension
        ++ mismatch
            (not (is_empty_list constraints.libc)
              && is_none_or (linux_libc target) (λ v. not (matches_list v constraints.libc)))
            libc_dimension)

abbrev pub display_list : List Text → Text
display_list values = txt "[" ++ join b',' values ++ txt "]"

abbrev pub libc_or : Option Text → Text
libc_or none = txt "<unavailable>"
libc_or (some l) = l

abbrev pub display_target : TargetPlatform → Text
display_target target =
    txt "os=" ++ target.os ++ txt ", cpu=" ++ target.cpu ++ txt ", libc=" ++ libc_or target.libc

abbrev pub display_constraints : PlatformConstraints → Text
display_constraints c =
    txt "os="
    ++ display_list c.os
    ++ txt ", cpu="
    ++ display_list c.cpu
    ++ txt ", libc="
    ++ display_list c.libc

abbrev pub dimension_name : PlatformDimension → Text
dimension_name os_dimension = txt "os"
dimension_name cpu_dimension = txt "cpu"
dimension_name libc_dimension = txt "libc"

abbrev pub names : List PlatformDimension → List Text
names [] = []
names (d ∷ ds) = dimension_name d ∷ names ds

abbrev pub display_dimensions : List PlatformDimension → Text
display_dimensions dimensions = join b',' (names dimensions)

-- `to_string`
abbrev pub error_text : PlatformError → Text
error_text e =
    txt "package "
    ++ e.package_name
    ++ txt " does not support target "
    ++ e.target
    ++ txt "; declared constraints: "
    ++ e.declared
    ++ txt "; mismatched: "
    ++ e.mismatched

abbrev pub unsupported :
    Text → PlatformConstraints → TargetPlatform → List PlatformDimension → PlatformError
unsupported package_name constraints target mismatched = record {
  package_name = package_name;
  target = display_target target;
  declared = display_constraints constraints;
  mismatched = display_dimensions mismatched;
}

unfoldable pub check_package_platform :
    Text
    → PlatformConstraints
    → TargetPlatform
    → PackageReachability
    → Result PlatformDisposition PlatformError
check_package_platform package_name constraints target reachability =
    elim (mismatched_dimensions constraints target) [
      | [] ↦ ok compatible
      | d ∷ ds ↦ elim reachability [
        | required ↦ err (unsupported package_name constraints target (d ∷ ds))
        | optional_only ↦ ok (
            skip_optional (
              with_package
                (diagnostic optional_platform_skip_code
                  (error_text (unsupported package_name constraints target (d ∷ ds))))
                package_name))
      ]
    ]
