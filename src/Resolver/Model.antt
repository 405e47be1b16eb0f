-- ===== src/Resolver/Model.antt =====
-- src/resolver/model.rs: the values that the stages of the resolver share. A `BTreeSet<String>` is
-- the list of its texts in their order.
use bpm.Prelude.{Option, none, some, List}
use bpm.Prelude.Text.{Text}
use bpm.Prelude.Map.{Map}

pub data PackageSource : Type 0 where
  registry : Text → PackageSource
  workspace : Text → PackageSource

pub record TargetPlatform : Type 0 where
  pub os : Text
  pub cpu : Text
  pub libc : Option Text

pub record PlatformConstraints : Type 0 where
  pub os : List Text
  pub cpu : List Text
  pub libc : List Text

pub record ProviderIdentity : Type 0 where
  pub name : Text
  pub version : Text
  pub source : PackageSource

abbrev pub PeerContext : Type 0
PeerContext = Map ProviderIdentity

pub record ResolutionDiagnostic : Type 0 where
  pub code : Text
  pub package_name : Option Text
  pub message : Text

abbrev pub diagnostic : Text → Text → ResolutionDiagnostic
diagnostic code message = record { code = code; package_name = none; message = message }

abbrev pub with_package : ResolutionDiagnostic → Text → ResolutionDiagnostic
with_package d package_name = record {
  code = d.code;
  package_name = some package_name;
  message = d.message;
}
