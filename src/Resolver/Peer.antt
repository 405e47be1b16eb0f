-- ===== src/Resolver/Peer.antt =====
-- src/resolver/peer.rs: peer dependencies and the providers in sight. The version ranges, which the
-- registry client builds on the `semver` crate, and its versions are parameters.
pub mod Binding
mod Tests
use bpm.Prelude.{
  ℕ, Bool, true, false, ◌&&◌, not, Option, none, some, List, [], ◌∷◌, ◌++◌, if◌then◌else◌, length,
  Result, ok, err, ◌>>=◌,
}
use bpm.Prelude.Text.{Text, txt}
use bpm.Prelude.Map.{Map, get, insert}
use bpm.Prelude.Decimal.{decimal}
use bpm.Resolver.Model.{
  ProviderIdentity, PeerContext, ResolutionDiagnostic, diagnostic, with_package,
}

pub data PeerMode : Type 0 where
  strict legacy_ignore : PeerMode

pub record VisibleProvider : Type 0 where
  pub identity : ProviderIdentity
  pub path : Text
  pub competing_requester : Option Text

pub record VisibleProviders : Type 0 where
  pub consumer_chain : List Text
  pub providers : Map VisibleProvider

-- `collect` of a map: a later provider of a name takes the place of an earlier one
unfoldable pub collect : Map VisibleProvider → List (Text × VisibleProvider) → Map VisibleProvider
collect m [] = m
collect m ((name, p) ∷ ps) = collect (insert name p m) ps

abbrev pub new_visible_providers : List Text → List (Text × VisibleProvider) → VisibleProviders
new_visible_providers chain providers = record {
  consumer_chain = chain;
  providers = collect [] providers;
}

pub record PeerRequest : Type 0 where
  pub consumer : Text
  pub peer : Text
  pub range : Text
  pub consumer_chain : List Text

pub record UnsatisfiedPeer : Type 0 where
  pub consumer : Text
  pub consumer_version : Text
  pub peer : Text
  pub range : Text
  pub provider_name : Text
  pub provider_version : Text
  pub provider_path : Text
  pub competing_requester : Option Text
  pub consumer_chain : List Text

-- The fields of a variant, in the order of the source.
pub data PeerConflict : Type 0 where
  missing_required :
      (consumer consumer_version peer range : Text) (consumer_chain : List Text) → PeerConflict
  invalid_range : (consumer consumer_version peer range reason : Text) → PeerConflict
  unsatisfied : (details : UnsatisfiedPeer) → PeerConflict

abbrev pub conflict_code : PeerConflict → Text
conflict_code (missing_required c v p r chain) = txt "PEER_MISSING"
conflict_code (invalid_range c v p r why) = txt "PEER_INVALID_RANGE"
conflict_code (unsatisfied d) = txt "PEER_CONFLICT"

abbrev pub conflict_consumer : PeerConflict → Text
conflict_consumer (missing_required c v p r chain) = c
conflict_consumer (invalid_range c v p r why) = c
conflict_consumer (unsatisfied d) = d.consumer

-- `to_string` prints the chain in the format of `Debug`, a parameter here
abbrev pub conflict_diagnostic : (PeerConflict → Text) → PeerConflict → ResolutionDiagnostic
conflict_diagnostic to_string c =
    with_package (diagnostic (conflict_code c) (to_string c)) (conflict_consumer c)

unfoldable pub required_request : PeerConflict → Option PeerRequest
required_request (missing_required c v p r chain) =
    some (record { consumer = c; peer = p; range = r; consumer_chain = chain })
required_request (invalid_range c v p r why) = none
required_request (unsatisfied d) = none

-- the part of the registry's `VersionMetadata` that is read here; `optional` is the flag of
-- `peer_dependencies_meta`, and `version` is printed
pub record Candidate : Type 0 where
  pub name : Text
  pub version : Text
  pub peer_dependencies : Map Text
  pub peer_dependencies_meta : Map Bool

abbrev pub is_some_and : Option Bool → Bool
is_some_and none = false
is_some_and (some b) = b

abbrev pub is_optional : Candidate → Text → Bool
is_optional candidate peer = is_some_and (get peer candidate.peer_dependencies_meta)

abbrev pub unsatisfied_by :
    Candidate → VisibleProviders → Text → Text → VisibleProvider → PeerConflict
unsatisfied_by candidate visible peer range provider = unsatisfied (record {
  consumer = candidate.name;
  consumer_version = candidate.version;
  peer = peer;
  range = range;
  provider_name = provider.identity.name;
  provider_version = provider.identity.version;
  provider_path = provider.path;
  competing_requester = provider.competing_requester;
  consumer_chain = visible.consumer_chain;
})

module _ (Range Version : Type 0) (parse_range : Text → Result Range Text)
    (parse_version : Text → Option Version) (matches : Range → Version → Bool) where
  abbrev pub accepts : Range → Option Version → Bool
  accepts r none = false
  accepts r (some v) = matches r v

  -- a provider that is in sight
  unfoldable pub bind_provider :
      Candidate
      → VisibleProviders
      → Text
      → Text
      → VisibleProvider
      → Result ProviderIdentity PeerConflict
  bind_provider candidate visible peer range provider = elim (parse_range range) [
    | err reason ↦ err (invalid_range candidate.name candidate.version peer range reason)
    | ok requirement ↦
        if accepts requirement (parse_version provider.identity.version)
        then ok provider.identity
        else err (unsatisfied_by candidate visible peer range provider)
  ]

  -- the loop over the peers
  unfoldable pub bind_peers :
      Candidate
      → VisibleProviders
      → List (Text × Text)
      → PeerContext
      → Result PeerContext PeerConflict
  bind_peers candidate visible [] context = ok context
  bind_peers candidate visible ((peer, range) ∷ peers) context = elim (get peer visible.providers) [
    | none ↦
        if is_optional candidate peer
        then bind_peers candidate visible peers context
        else err
            (missing_required candidate.name candidate.version peer range visible.consumer_chain)
    | some provider ↦ bind_provider candidate visible peer range provider >>= λ identity.
        bind_peers candidate visible peers (insert peer identity context)
  ]

  unfoldable pub bind_peer_context :
      Candidate → VisibleProviders → PeerMode → Result PeerContext PeerConflict
  bind_peer_context candidate visible legacy_ignore = ok []
  bind_peer_context candidate visible strict =
      bind_peers candidate visible candidate.peer_dependencies []

abbrev pub ignored_peers : Candidate → Text
ignored_peers c =
    txt "ignored "
    ++ decimal (length c.peer_dependencies)
    ++ txt " peer dependency declaration(s) for "
    ++ c.name
    ++ txt "@"
    ++ c.version
    ++ txt " because legacy peer mode was explicitly selected"

abbrev pub legacy_warning : Candidate → List (Text × Text) → List ResolutionDiagnostic
legacy_warning candidate [] = []
legacy_warning candidate (p ∷ ps) =
    with_package (diagnostic (txt "LEGACY_PEER_DEPS") (ignored_peers candidate)) candidate.name ∷ []

unfoldable pub peer_mode_diagnostics : Candidate → PeerMode → List ResolutionDiagnostic
peer_mode_diagnostics candidate strict = []
peer_mode_diagnostics candidate legacy_ignore = legacy_warning candidate candidate.peer_dependencies
