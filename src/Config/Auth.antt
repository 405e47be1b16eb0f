-- ===== src/Config/Auth.antt =====
-- src/config.rs: for which requests a token is given away, and what identifies the credentials.
use bpm.Prelude.{
  ℕ, ◌≤◌, true, Option, none, some, List, [], ◌∷◌, ◌++◌, ltb, ◌≡◌, ◌≢◌, refl, sym, ap, ◌∙◌, ◌⊎◌,
  ◌↔◌, inl, inr, arith, All, All-imp, Elem, Bool-cases, Option-cases, ok,
}
use mathlib.Core.Path.{subst}
use bpm.Prelude.Text.{Text, txt, text_eq, text_eq→eq, text_ne_of, starts_with, trim_end}
use bpm.Prelude.Bytes.{IsReadable, write_bytes-IsReadable, write_counted, bytes, bytes-injective}
use bpm.Prelude.Readable.{append-cancel, write_counted-IsReadable}
use bpm.Config.{
  AuthScope, NpmConfig, without_slashes, path_is_within_auth_scope, Url, RequestTarget,
  parse_http_target, covers, covering, prefix_length, longest, auth_token_for_url, hash_field,
  hash_token, credential_bytes, credential_partition_digest,
}
use bpm.Config.Target.{IsPlainHttp, parse_http_target-IsPlainHttp}
use bpm.Config.Source.{load_paths}
use bpm.Config.Loaded.{IsDirectory, load_paths-IsSound}

-- The path is the directory, with or without a slash behind it, or below it.
abbrev pub Inside : Text → Text → Type 0
Inside dir path = (path ≡ dir) ⊎ ((rest : Text) × (path ≡ dir ++ (txt "/" ++ rest)))

starts_with_rest :
    (prefix s : Text) → starts_with prefix s ≡ true → (rest : Text) × (s ≡ prefix ++ rest)
unfolding starts_with
starts_with_rest [] s h = (s, refl)
starts_with_rest (c ∷ p) [] h = cc
starts_with_rest (c ∷ p) (d ∷ s) h =
    let both : (d ≡ c) × (starts_with p s ≡ true) = ground (arith, h) in
    let (rest, e) = starts_with_rest p s both.1 in (rest, cc (both.0, e))

trim_end-slash : (s : Text) → without_slashes (s ++ txt "/") ≡ without_slashes s
unfolding trim_end
trim_end-slash [] = refl
trim_end-slash (c ∷ s) = rw (trim_end-slash s) refl

append_assoc : (a b c : Text) → (a ++ b) ++ c ≡ a ++ (b ++ c)
append_assoc [] b c = refl
append_assoc (x ∷ a) b c = ap (λ r. x ∷ r) (append_assoc a b c)

within-Inside :
    (prefix path : Text) (d : IsDirectory prefix)
    → path_is_within_auth_scope path prefix ≡ true
    → Inside d.dir path
unfolding path_is_within_auth_scope
within-Inside prefix path d h = elim (Bool-cases (starts_with prefix path)) [
  | inl below ↦
      let (rest, e) = starts_with_rest prefix path below in
      inr (rest, e ∙ ap (λ p. p ++ rest) d.is_dir ∙ append_assoc d.dir (txt "/") rest)
  | inr other ↦
      let same : path ≡ without_slashes prefix =
        text_eq→eq path (without_slashes prefix) (ground (arith, h, other)) in
      inl (same ∙ ap without_slashes d.is_dir ∙ trim_end-slash d.dir ∙ d.ends_in_name)
]

covering-Elem :
    (target : RequestTarget) (e : AuthScope × Text) (tokens : List (AuthScope × Text))
    → Elem e (covering target tokens)
    → Elem e tokens × (covers target e.0 ≡ true)
unfolding covering
covering-Elem target e [] m = absurd m
covering-Elem target e ((scope, token) ∷ tokens) m = elim (Bool-cases (covers target scope)) [
  | inr misses ↦
      let (n, y) = covering-Elem target e tokens (rw (misses, covering) at m) in (inr n, y)
  | inl fits ↦ elim (rw (fits, covering) at m) [
    | inl same ↦ (inl same, ap (λ (t : AuthScope × Text). covers target t.0) same ∙ fits)
    | inr n ↦ let (k, y) = covering-Elem target e tokens n in (inr k, y)
  ]
]

longest-none : (es : List (AuthScope × Text)) → longest es ≡ none → es ≡ []
unfolding longest
longest-none [] h = refl
longest-none (e ∷ es) h = elim (Option-cases (longest es)) [
  | inl k ↦ absurd (ground (arith, rw (k, longest) at h))
  | inr (best, k) ↦ absurd (ground (arith, rw (k, longest) at h))
]

longest_outcome :
    (es : List (AuthScope × Text)) (b : AuthScope × Text)
    → longest es ≡ some b
    → Elem b es × All (λ e. prefix_length e ≤ prefix_length b) es
unfolding longest
longest_outcome [] b h = cc
longest_outcome (e ∷ es) b h = elim (Option-cases (longest es)) [
  | inl k ↦
      let same : some e ≡ some b = rw (k, longest) at h in
      let it : e ≡ b = cc same in rw (sym it, longest-none es k) (inl refl, (omega arith, tt))
  | inr (best, k) ↦
      let (here, bounds) = longest_outcome es best k in
      elim (Bool-cases (ltb (prefix_length best) (prefix_length e))) [
        | inl more ↦
            let same : some e ≡ some b = rw (k, more, longest) at h in
            let it : e ≡ b = cc same in
            rw (sym it)
              (inl refl, (omega arith, All-imp (λ x l. ground (arith, l, more)) es bounds))
        | inr fewer ↦
            let same : some best ≡ some b = rw (k, fewer, longest) at h in
            let it : best ≡ b = cc same in
            subst (λ x. Elem x (e ∷ es) × All (λ y. prefix_length y ≤ prefix_length x) (e ∷ es)) it
              (inr here, (ground (arith, fewer), bounds))
      ]
]

module _ (parse_url : Text → Option Url) (environment : Text → Option Text) where
  -- The token is configured for a scope of the target's authority, the target is inside the scope's
  -- directory, and no scope that covers the target has a longer path.
  pub record IsGranted (config : NpmConfig) (target : RequestTarget) (token : Text) : Type 0 where
    pub scope : AuthScope
    pub dir : Text
    pub configured : Elem (scope, token) config.auth_tokens
    pub same_authority : scope.authority ≡ target.authority
    pub is_dir : scope.path_prefix ≡ dir ++ txt "/"
    pub inside : Inside dir target.path
    pub longest_prefix :
        All
          (λ e. prefix_length e ≤ prefix_length (scope, token))
          (covering target config.auth_tokens)

  All-at :
      (tokens : List (AuthScope × Text)) (e : AuthScope × Text)
      → All (λ t. IsDirectory (t.0).path_prefix) tokens
      → Elem e tokens
      → IsDirectory (e.0).path_prefix
  All-at [] e h m = absurd m
  All-at (t ∷ tokens) e h (inl same) = rw same h.0
  All-at (t ∷ tokens) e h (inr m) = All-at tokens e h.1 m

  -- A token of a loaded configuration is given for a URL only where the URL is of scheme http or
  -- https, without user, password or white space around it, and the token is granted for its host,
  -- port and path.
  pub auth_token-IsGranted :
      (files : List (Text × Text)) (config : NpmConfig) (url token : Text)
      → load_paths parse_url environment files ≡ ok config
      → auth_token_for_url parse_url config url ≡ some token
      → (target : RequestTarget) × IsPlainHttp parse_url url target × IsGranted config target token
  unfolding auth_token_for_url covers
  auth_token-IsGranted files config url token loaded h =
      let (sound, _) = load_paths-IsSound parse_url environment files config loaded in
      elim (Option-cases (parse_http_target parse_url url)) [
        | inl e ↦ absurd (ground (arith, rw (e, auth_token_for_url) at h))
        | inr (target, e) ↦ elim (Option-cases (longest (covering target config.auth_tokens))) [
          | inl k ↦ absurd (ground (arith, rw (e, k, auth_token_for_url) at h))
          | inr (best, k) ↦
              let its : best.1 ≡ token = cc (rw (e, k, auth_token_for_url) at h) in
              let (here, bounds) = longest_outcome (covering target config.auth_tokens) best k in
              let (member, covered) = covering-Elem target best config.auth_tokens here in
              let d = All-at config.auth_tokens best sound.scopes member in
              let (authority, within) : (text_eq (best.0).authority target.authority ≡ true)
                  × (path_is_within_auth_scope target.path (best.0).path_prefix ≡ true) =
                ground (arith, covered) in
              (
                target,
                parse_http_target-IsPlainHttp parse_url url target e,
                rw (sym its) (record {
                  scope = best.0;
                  dir = d.dir;
                  configured = member;
                  same_authority = text_eq→eq _ _ authority;
                  is_dir = d.is_dir;
                  inside = within-Inside (best.0).path_prefix target.path d within;
                  longest_prefix = bounds;
                }),
              )
        ]
      ]

hash_field-IsReadable : (tag : Text) → IsReadable (hash_field tag)
unfolding hash_field
hash_field-IsReadable tag a b s t h =
    let (_, rest) = write_bytes-IsReadable tag tag _ _ h in
    let (e, end) = write_bytes-IsReadable (bytes a) (bytes b) s t rest in
    (bytes-injective a b e, end)

hash_token-IsReadable : IsReadable hash_token
unfolding hash_token
hash_token-IsReadable (a, x) (b, y) s t h =
    let (e, h1) = hash_field-IsReadable (txt "authority") a.authority b.authority _ _ h in
    let (f, h2) = hash_field-IsReadable (txt "path-prefix") a.path_prefix b.path_prefix _ _ h1 in
    let (g, end) = hash_field-IsReadable (txt "token") x y s t h2 in (cc (e, f, g), end)

-- Two configurations have one credential partition exactly where their tokens are the same for the
-- same scopes, or where two different sequences of bytes have the same hash.
pub credential_partition_iff {ℓ} :
    {Hash : Type ℓ} (hash : List ℕ → Hash) (c d : NpmConfig)
    → (credential_partition_digest hash c ≡ credential_partition_digest hash d) ↔ (
        (c.auth_tokens ≡ d.auth_tokens)
        ⊎ ((credential_bytes c ≢ credential_bytes d)
            × (hash (credential_bytes c) ≡ hash (credential_bytes d))))
unfolding credential_bytes write_counted
credential_partition_iff hash c d = (
  λ h. elim (Bool-cases (text_eq (credential_bytes c) (credential_bytes d))) [
    | inl same ↦
        let rest =
          append-cancel (txt "bpm-npm-credential-partition-v1" ++ 0 ∷ [])
            (text_eq→eq (credential_bytes c) (credential_bytes d) same) in
        inl
          (write_counted-IsReadable hash_token hash_token-IsReadable c.auth_tokens d.auth_tokens []
            [] rest).0
    | inr other ↦ inr (text_ne_of _ _ other, h)
  ],
  λ e. elim e [ inl same ↦ rw (same, credential_bytes) refl | inr collision ↦ collision.1 ],
)
