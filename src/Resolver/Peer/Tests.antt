-- ===== src/Resolver/Peer/Tests.antt =====
-- A plugin with two peers through resolver/peer.rs, and the theorems at it. A range is a version
-- here, which only that version matches.
use bpm.Prelude.{
  ◌≡◌, refl, true, false, some, none, Option, Result, ok, err, [], ◌∷◌, All, inl, inr, Bool,
}
use bpm.Prelude.Text.{Text, txt, text_eq}
use bpm.Prelude.Map.{get, insert}
use bpm.Resolver.Model.{registry, ProviderIdentity, PeerContext}
use bpm.Resolver.Peer.{
  strict, VisibleProvider, VisibleProviders, new_visible_providers, collect, Candidate,
  missing_required, bind_provider, bind_peers, bind_peer_context,
}
use bpm.Resolver.Peer.Binding.{IsServedBy, bind_peer_context_succeeds, bind_peer_context-AreServed}

abbrev exact_range : Text → Result Text Text
exact_range r = ok r

abbrev exact_version : Text → Option Text
exact_version v = some v

abbrev react : ProviderIdentity
react = record { name = txt "react"; version = txt "18.3.0"; source = registry (txt "https://r/") }

abbrev react_in_sight : VisibleProvider
react_in_sight = record {
  identity = react;
  path = txt "node_modules/react";
  competing_requester = none;
}

abbrev in_sight : VisibleProviders
in_sight = record {
  consumer_chain = txt "app" ∷ txt "plugin" ∷ [];
  providers = (txt "react", react_in_sight) ∷ [];
}

abbrev plugin : Bool → Candidate
plugin optional = record {
  name = txt "plugin";
  version = txt "1.0.0";
  peer_dependencies = (txt "react", txt "18.3.0") ∷ (txt "vue", txt "3.0.0") ∷ [];
  peer_dependencies_meta = (txt "vue", optional) ∷ [];
}

bound :
    bind_peer_context Text Text exact_range exact_version text_eq (plugin true) in_sight strict
    ≡ ok ((txt "react", react) ∷ [])
unfolding bind_peer_context bind_peers bind_provider get insert text_eq
bound = refl

required_missing :
    bind_peer_context Text Text exact_range exact_version text_eq (plugin false) in_sight strict
    ≡ err (
        missing_required
          (txt "plugin")
          (txt "1.0.0")
          (txt "vue")
          (txt "3.0.0")
          (txt "app" ∷ txt "plugin" ∷ []))
unfolding bind_peer_context bind_peers bind_provider get insert text_eq
required_missing = refl

collected :
    new_visible_providers [] ((txt "react", react_in_sight) ∷ [])
    ≡ record { consumer_chain = []; providers = (txt "react", react_in_sight) ∷ [] }
unfolding collect insert
collected = refl

bind_peer_context_succeeds_example :
    (context : PeerContext) × (bind_peer_context Text Text exact_range exact_version text_eq
        (plugin true)
        in_sight
        strict
      ≡ ok context)
unfolding get text_eq
bind_peer_context_succeeds_example =
    bind_peer_context_succeeds Text Text exact_range exact_version text_eq (plugin true) in_sight
      (inl (react_in_sight, refl, (txt "18.3.0", refl, refl)), (inr (refl, refl), tt))

bind_peer_context-AreServed_example :
    All
      (IsServedBy Text Text exact_range exact_version text_eq
        ((txt "react", react) ∷ [])
        (plugin true)
        in_sight)
      ((txt "react", txt "18.3.0") ∷ (txt "vue", txt "3.0.0") ∷ [])
bind_peer_context-AreServed_example =
    bind_peer_context-AreServed Text Text exact_range exact_version text_eq (plugin true) in_sight
      ((txt "react", react) ∷ []) bound
