-- ===== src/Resolver/Peer/Binding.antt =====
-- What `bind_peer_context` of resolver/peer.rs binds.
use bpm.Prelude.{
  ◌≡◌, refl, sym, ap, ◌∙◌, ◌⊎◌, inl, inr, Bool, true, Option, none, some, List, [], ◌∷◌,
  if◌then◌else◌, All, Result, ok, err, ◌>>=◌, ok_steps, arith, Bool-cases, Option-cases,
}
use bpm.Prelude.Text.{Text, text_eq, text_eq→eq, text_eq_refl}
use bpm.Prelude.Map.{get, insert, get-insert}
use bpm.Resolver.Model.{ProviderIdentity, PeerContext}
use bpm.Resolver.Peer.{
  strict, VisibleProvider, VisibleProviders, invalid_range, Candidate, is_optional, unsatisfied_by,
  accepts, bind_provider, bind_peers, bind_peer_context,
}

module _ (Range Version : Type 0) (parse_range : Text → Result Range Text)
    (parse_version : Text → Option Version) (matches : Range → Version → Bool) where
  abbrev Fits : Text → VisibleProvider → Type 0
  Fits range provider =
      (r : Range) × (parse_range range ≡ ok r)
      × (accepts Range Version parse_range parse_version matches r
            (parse_version provider.identity.version)
          ≡ true)

  -- a provider is in sight and fits the range, or the peer is optional and has none
  abbrev pub IsServed : Candidate → VisibleProviders → Text × Text → Type 0
  IsServed candidate visible (peer, range) =
      ((provider : VisibleProvider) × (get peer visible.providers ≡ some provider)
        × Fits range provider)
      ⊎ ((get peer visible.providers ≡ none) × (is_optional candidate peer ≡ true))

  bind_provider-Fits :
      (candidate : Candidate) (visible : VisibleProviders) (peer range : Text)
      (provider : VisibleProvider) {identity : ProviderIdentity}
      → bind_provider Range Version parse_range parse_version matches candidate visible peer range
          provider
        ≡ ok identity
      → Fits range provider × (identity ≡ provider.identity)
  unfolding bind_provider
  bind_provider-Fits candidate visible peer range provider {identity} h =
      parsed (parse_range range) refl h
    where
      parsed :
          (p : Result Range Text)
          → parse_range range ≡ p
          → (elim p [
            | err reason ↦ err (invalid_range candidate.name candidate.version peer range reason)
            | ok requirement ↦
                if accepts Range Version parse_range parse_version matches requirement
                  (parse_version provider.identity.version)
                then ok provider.identity
                else err (unsatisfied_by candidate visible peer range provider)
          ])
            ≡ ok identity
          → Fits range provider × (identity ≡ provider.identity)
      parsed (err reason) e k = cc
      parsed (ok r) e k =
          elim (Bool-cases (
            accepts Range Version parse_range parse_version matches r
              (parse_version provider.identity.version))) [
                | inl yes' ↦ ((r, e, yes'), ground (arith, yes', k))
                | inr no' ↦ absurd (ground (arith, no', k))
              ]

  -- a name is bound as before, or to its provider in sight
  abbrev KeptOrBound : VisibleProviders → PeerContext → PeerContext → Text → Type 0
  KeptOrBound visible before after name =
      (get name after ≡ get name before)
      ⊎ ((p : VisibleProvider) × (get name visible.providers ≡ some p)
          × (get name after ≡ some p.identity))

  abbrev IsBound : VisibleProviders → PeerContext → Text × Text → Type 0
  IsBound visible context (peer, range) =
      (p : VisibleProvider)
      → get peer visible.providers ≡ some p
      → get peer context ≡ some p.identity

  bind_one :
      (visible : VisibleProviders) (context result : PeerContext) (peer : Text)
      (provider : VisibleProvider) (identity : ProviderIdentity)
      → get peer visible.providers ≡ some provider
      → identity ≡ provider.identity
      → ((name : Text) → KeptOrBound visible (insert peer identity context) result name)
      → ((name : Text) → KeptOrBound visible context result name)
        × ((p : VisibleProvider)
            → get peer visible.providers ≡ some p
            → get peer result ≡ some p.identity)
  bind_one visible context result peer provider identity found same kept = (every, here)
    where
      here :
          (p : VisibleProvider)
          → get peer visible.providers ≡ some p
          → get peer result ≡ some p.identity
      here p e = elim (kept peer) [
        | inr (q, f, bound) ↦
            let eq : q ≡ p = cc (e, f) in bound ∙ ap (λ (x : VisibleProvider). some x.identity) eq
        | inl as_before ↦
            let eq : provider ≡ p = cc (e, found) in
            let own : get peer (insert peer identity context) ≡ some identity =
              get-insert peer peer identity context ∙ rw (text_eq_refl peer) refl in
            as_before ∙ own ∙ ap some same ∙ ap (λ (x : VisibleProvider). some x.identity) eq
      ]

      every : (name : Text) → KeptOrBound visible context result name
      every name = elim (kept name) [
        | inr bound ↦ inr bound
        | inl as_before ↦ elim (Bool-cases (text_eq peer name)) [
          | inl e ↦
              let own : get name (insert peer identity context) ≡ some identity =
                get-insert peer name identity context ∙ rw e refl in
              let found_name : get name visible.providers ≡ some provider =
                ap (λ n. get n visible.providers) (sym (text_eq→eq peer name e)) ∙ found in
              inr (provider, found_name, as_before ∙ own ∙ ap some same)
          | inr e ↦ inl (as_before ∙ get-insert peer name identity context ∙ rw e refl)
        ]
      ]

  bind_peers-Bound :
      (candidate : Candidate) (visible : VisibleProviders) (peers : List (Text × Text))
      (context result : PeerContext)
      → bind_peers Range Version parse_range parse_version matches candidate visible peers context
        ≡ ok result
      → All (IsServed candidate visible) peers
        × ((name : Text) → KeptOrBound visible context result name)
        × All (IsBound visible result) peers
  unfolding bind_peers
  bind_peers-Bound candidate visible [] context result h =
      let e : context ≡ result = cc h in (tt, λ name. inl (ap (get name) (sym e)), tt)
  bind_peers-Bound candidate visible ((peer, range) ∷ peers) context result h =
      elim (Option-cases (get peer visible.providers)) [
        | inl absent ↦ elim (Bool-cases (is_optional candidate peer)) [
          | inr must ↦ absurd (ground (arith, absent, must, h))
          | inl may ↦
              let (served, kept, bound) =
                bind_peers-Bound candidate visible peers context result
                  (ground (arith, absent, may, h)) in
              ((inr (absent, may), served), kept, ((λ p e. absurd (cc (e, absent))), bound))
        ]
        | inr (provider, found) ↦
            let run =
              bind_provider Range Version parse_range parse_version matches candidate visible peer
                range provider in
            let steps : (run >>= λ identity.
            bind_peers Range Version parse_range parse_version matches candidate visible peers
              (insert peer identity context))
                ≡ ok result =
              ground (arith, found, h) in
            let (identity, p_ok, rest) = ok_steps _ run steps in
            let (fits, same) =
              bind_provider-Fits candidate visible peer range provider {identity = identity} p_ok in
            let (served, kept, bound) =
              bind_peers-Bound candidate visible peers (insert peer identity context) result rest in
            let (kept', here) =
              bind_one visible context result peer provider identity found same kept in
            ((inl (provider, found, fits), served), kept', (here, bound))
      ]

  bind_peers_succeeds :
      (candidate : Candidate) (visible : VisibleProviders) (peers : List (Text × Text))
      (context : PeerContext)
      → All (IsServed candidate visible) peers
      → (result : PeerContext) × (bind_peers Range Version parse_range parse_version matches
            candidate visible peers context
          ≡ ok result)
  unfolding bind_peers bind_provider
  bind_peers_succeeds candidate visible [] context served = (context, refl)
  bind_peers_succeeds candidate visible ((peer, range) ∷ peers) context (one, served) = elim one [
    | inr (absent, may) ↦
        let (result, e) = bind_peers_succeeds candidate visible peers context served in
        (result, ground (arith, absent, may, e))
    | inl (provider, found, (r, parsed, accepted)) ↦
        let (result, e) =
          bind_peers_succeeds candidate visible peers (insert peer provider.identity context)
            served in
        (result, ground (arith, found, parsed, accepted, e))
  ]

  -- a provider in sight that fits is the one bound, or the peer is optional and has none
  abbrev pub IsServedBy : PeerContext → Candidate → VisibleProviders → Text × Text → Type 0
  IsServedBy context candidate visible (peer, range) =
      ((provider : VisibleProvider) × (get peer visible.providers ≡ some provider)
        × Fits range provider
        × (get peer context ≡ some provider.identity))
      ⊎ ((get peer visible.providers ≡ none) × (is_optional candidate peer ≡ true))

  served_by :
      (candidate : Candidate) (visible : VisibleProviders) (context : PeerContext)
      (peers : List (Text × Text))
      → All (IsServed candidate visible) peers
      → All (IsBound visible context) peers
      → All (IsServedBy context candidate visible) peers
  served_by candidate visible context [] s b = tt
  served_by candidate visible context ((peer, range) ∷ peers) (one, s) (bound, b) =
      let rest = served_by candidate visible context peers s b in
      elim one [
        | inl (provider, found, fits) ↦ (inl (provider, found, fits, bound provider found), rest)
        | inr absent ↦ (inr absent, rest)
      ]

  -- Strict binding succeeds where every declared peer has a provider in sight whose version its
  -- range accepts, or is optional and has no provider in sight.
  pub bind_peer_context_succeeds :
      (candidate : Candidate) (visible : VisibleProviders)
      → All (IsServed candidate visible) candidate.peer_dependencies
      → (context : PeerContext) × (bind_peer_context Range Version parse_range parse_version matches
            candidate visible strict
          ≡ ok context)
  unfolding bind_peer_context
  bind_peer_context_succeeds candidate visible served =
      bind_peers_succeeds candidate visible candidate.peer_dependencies [] served

  -- Where strict binding succeeds, every declared peer has a provider in sight whose version its
  -- range accepts and is bound to it, or is optional and has no provider in sight.
  pub bind_peer_context-AreServed :
      (candidate : Candidate) (visible : VisibleProviders) (context : PeerContext)
      → bind_peer_context Range Version parse_range parse_version matches candidate visible strict
        ≡ ok context
      → All (IsServedBy context candidate visible) candidate.peer_dependencies
  unfolding bind_peer_context
  bind_peer_context-AreServed candidate visible context h =
      let (served, kept, bound) =
        bind_peers-Bound candidate visible candidate.peer_dependencies [] context h in
      served_by candidate visible context candidate.peer_dependencies served bound
