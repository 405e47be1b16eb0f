-- ===== src/Config/Loaded.antt =====
-- src/config.rs: what holds of every configuration that was loaded.
use bpm.Prelude.{
  ℕ, ◌≤◌, ◌<◌, ◌+◌, ◌^◌, Bool, true, false, Option, List, [], ◌∷◌, ◌++◌, ◌==◌, if◌then◌else◌, ◌≡◌,
  refl, sym, ap, inl, inr, arith, All, Bool-cases, Option-cases, Result, ok, err, ok_steps,
}
use bpm.Prelude.Text.{Text, txt, is_empty, strip_prefix, split_once, trim_end}
use bpm.Prelude.Words.{trim}
use bpm.Patch.{str_lines}
use bpm.Prelude.Map.{insert}
use bpm.Config.{
  NetworkConfig, AuthScope, NpmConfig, default_config, without_slashes, Url, RequestTarget,
  parse_http_target,
}
use bpm.Config.Source.{
  valid_scope, parse_number, insert_token, scope_eq, scope_lt, scope_at, parse_auth_scope,
  normalize_registry, apply_network, apply_token, apply_value, apply_setting, apply_each_line,
  apply_files, load_paths, expand_environment, at_line, is_comment, is_auth_key, scope_key,
  suffix_of, apply_source, same_key,
}

-- The scope covers a directory and what lies in it.
pub record IsDirectory (prefix : Text) : Type 0 where
  pub dir : Text
  pub is_dir : prefix ≡ dir ++ txt "/"
  pub ends_in_name : without_slashes dir ≡ dir

trim_end_idem : (p : ℕ → Bool) (s : Text) → trim_end p (trim_end p s) ≡ trim_end p s
unfolding trim_end
trim_end_idem p [] = refl
trim_end_idem p (c ∷ s) = elim (Bool-cases (p c)) [
  | inr keep ↦ ground (arith, keep, trim_end_idem p s)
  | inl drop ↦ ground (arith, drop, trim_end_idem p s)
]

prefix_at : (path : Text) → (if is_empty path then txt "/" else path ++ txt "/") ≡ path ++ txt "/"
prefix_at [] = refl
prefix_at (c ∷ path) = refl

scope_at-IsDirectory : (target : RequestTarget) → IsDirectory (scope_at target).path_prefix
scope_at-IsDirectory target = record {
  dir = without_slashes target.path;
  is_dir = prefix_at (without_slashes target.path);
  ends_in_name = trim_end_idem (λ c. c == b'/') target.path;
}

-- The numbers are positive.
pub record IsUsable (n : NetworkConfig) : Type 0 where
  pub factor : 0 < n.retry_factor
  pub min_timeout : 0 < n.retry_min_timeout
  pub max_timeout : 0 < n.retry_max_timeout
  pub fetch_timeout : 0 < n.fetch_timeout

pub record IsSound (config : NpmConfig) : Type 0 where
  pub scopes : All (λ e. IsDirectory (e.0).path_prefix) config.auth_tokens
  pub usable : IsUsable config.network

insert_token-All {κ} :
    (P : AuthScope × Text → Type κ) (scope : AuthScope) (token : Text)
    (tokens : List (AuthScope × Text))
    → P (scope, token)
    → All P tokens
    → All P (insert_token scope token tokens)
unfolding insert_token
insert_token-All P scope token [] p h = (p, tt)
insert_token-All P scope token ((s, t) ∷ tokens) p h = elim (Bool-cases (scope_eq s scope)) [
  | inl same ↦ rw (same, insert_token) (p, h.1)
  | inr other ↦ elim (Bool-cases (scope_lt scope s)) [
    | inl before ↦ rw (other, before, insert_token) (p, h)
    | inr behind ↦
        rw (other, behind, insert_token) (h.0, insert_token-All P scope token tokens p h.1)
  ]
]

-- A number that must not be zero is positive.
parse_number_positive :
    (bound : ℕ) (value key : Text) (n : ℕ) → parse_number bound value key false ≡ ok n → 0 < n
unfolding parse_number
parse_number_positive bound value key n h = ground (arith, h)

module _ (parse_url : Text → Option Url) where
  parse_auth_scope-IsDirectory :
      (key : Text) (scope : AuthScope)
      → parse_auth_scope parse_url key ≡ ok scope
      → IsDirectory scope.path_prefix
  unfolding parse_auth_scope
  parse_auth_scope-IsDirectory key scope h =
      elim (Option-cases (suffix_of (strip_prefix (txt "//") key))) [
        | inl e ↦ absurd (ground (arith, e, h))
        | inr (raw, e) ↦ elim (Option-cases (parse_http_target parse_url (txt "https://" ++ raw))) [
          | inl f ↦ absurd (ground (arith, e, f, h))
          | inr (target, f) ↦
              let same : scope_at target ≡ scope = ground (arith, e, f, h) in
              rw (sym same) (scope_at-IsDirectory target)
        ]
      ]

  apply_network-IsUsable :
      (n m : NetworkConfig) (key value : Text)
      → apply_network parse_url n key value ≡ ok m
      → IsUsable n
      → IsUsable m
  unfolding apply_network
  apply_network-IsUsable n m key value h usable =
      elim (Bool-cases (same_key key (txt "fetch-retries"))) [
        | inl k0 ↦
            let (r, e, f) =
              ok_steps _ (parse_number (2 ^ 64) value (txt "fetch-retries") true)
                (rw (k0, apply_network) at h) in
            let same : record n { retries = r } ≡ m = cc f in
            rw (sym same) (record {
              factor = usable.factor;
              min_timeout = usable.min_timeout;
              max_timeout = usable.max_timeout;
              fetch_timeout = usable.fetch_timeout;
            })
        | inr n0 ↦ elim (Bool-cases (same_key key (txt "fetch-retry-factor"))) [
          | inl k1 ↦
              let (r, e, f) =
                ok_steps _ (parse_number (2 ^ 32) value (txt "fetch-retry-factor") false)
                  (rw (n0, k1, apply_network) at h) in
              let same : record n { retry_factor = r } ≡ m = cc f in
              rw (sym same) (record {
                factor = parse_number_positive (2 ^ 32) value (txt "fetch-retry-factor") r e;
                min_timeout = usable.min_timeout;
                max_timeout = usable.max_timeout;
                fetch_timeout = usable.fetch_timeout;
              })
          | inr n1 ↦ elim (Bool-cases (same_key key (txt "fetch-retry-mintimeout"))) [
            | inl k2 ↦
                let (r, e, f) =
                  ok_steps _ (parse_number (2 ^ 64) value key false)
                    (rw (n0, n1, k2, apply_network) at h) in
                let same : record n { retry_min_timeout = r } ≡ m = cc f in
                rw (sym same) (record {
                  factor = usable.factor;
                  min_timeout = parse_number_positive (2 ^ 64) value key r e;
                  max_timeout = usable.max_timeout;
                  fetch_timeout = usable.fetch_timeout;
                })
            | inr n2 ↦ elim (Bool-cases (same_key key (txt "fetch-retry-maxtimeout"))) [
              | inl k3 ↦
                  let (r, e, f) =
                    ok_steps _ (parse_number (2 ^ 64) value key false)
                      (rw (n0, n1, n2, k3, apply_network) at h) in
                  let same : record n { retry_max_timeout = r } ≡ m = cc f in
                  rw (sym same) (record {
                    factor = usable.factor;
                    min_timeout = usable.min_timeout;
                    max_timeout = parse_number_positive (2 ^ 64) value key r e;
                    fetch_timeout = usable.fetch_timeout;
                  })
              | inr n3 ↦ elim (Bool-cases (same_key key (txt "fetch-timeout"))) [
                | inl k4 ↦
                    let (r, e, f) =
                      ok_steps _ (parse_number (2 ^ 64) value key false)
                        (rw (n0, n1, n2, n3, k4, apply_network) at h) in
                    let same : record n { fetch_timeout = r } ≡ m = cc f in
                    rw (sym same) (record {
                      factor = usable.factor;
                      min_timeout = usable.min_timeout;
                      max_timeout = usable.max_timeout;
                      fetch_timeout = parse_number_positive (2 ^ 64) value key r e;
                    })
                | inr n4 ↦
                    let same : n ≡ m =
                      ground (arith, rw (n0, n1, n2, n3, n4, apply_network) at h) in
                    rw (sym same) usable
              ]
            ]
          ]
        ]
      ]

  apply_token-IsSound :
      (c d : NpmConfig) (key value : Text)
      → apply_token parse_url c key value ≡ ok d
      → IsSound c
      → IsSound d
  unfolding apply_token
  apply_token-IsSound c d key value h sound = elim (Bool-cases (is_auth_key key)) [
    | inr k ↦
        let (n, e, f) =
          ok_steps _ (apply_network parse_url c.network key value) (rw (k, apply_token) at h) in
        let same : record c { network = n } ≡ d = cc f in
        rw (sym same) (record {
          scopes = sound.scopes;
          usable = apply_network-IsUsable c.network n key value e sound.usable;
        })
    | inl k ↦ elim (Bool-cases (is_empty value)) [
      | inl none_given ↦ absurd (ground (arith, rw (k, none_given, apply_token) at h))
      | inr given ↦
          let (scope, e, f) =
            ok_steps _ (parse_auth_scope parse_url key) (rw (k, given, apply_token) at h) in
          let same : record c { auth_tokens = insert_token scope value c.auth_tokens } ≡ d = cc f in
          rw (sym same) (record {
            scopes =
                insert_token-All (λ t. IsDirectory (t.0).path_prefix) scope value c.auth_tokens
                  (parse_auth_scope-IsDirectory key scope e) sound.scopes;
            usable = sound.usable;
          })
    ]
  ]

  apply_value-IsSound :
      (c d : NpmConfig) (key value : Text)
      → apply_value parse_url c key value ≡ ok d
      → IsSound c
      → IsSound d
  unfolding apply_value
  apply_value-IsSound c d key value h sound = elim (Bool-cases (same_key key (txt "registry"))) [
    | inl k ↦
        let (r, e, f) =
          ok_steps _ (normalize_registry parse_url value) (rw (k, apply_value) at h) in
        let same : record c { registry = r } ≡ d = cc f in
        rw (sym same) (record { scopes = sound.scopes; usable = sound.usable })
    | inr k ↦ elim (Option-cases (scope_key key)) [
      | inl e ↦ apply_token-IsSound c d key value (rw (k, e, apply_value) at h) sound
      | inr (scope, e) ↦ elim (Bool-cases (valid_scope scope)) [
        | inr bad ↦ absurd (ground (arith, rw (k, e, bad, apply_value) at h))
        | inl good ↦
            let (r, _, f) =
              ok_steps _ (normalize_registry parse_url value) (rw (k, e, good, apply_value) at h) in
            let same : record c { scoped_registries = insert scope r c.scoped_registries } ≡ d =
              cc f in
            rw (sym same) (record { scopes = sound.scopes; usable = sound.usable })
      ]
    ]
  ]

  module _ (environment : Text → Option Text) where
    apply_setting-IsSound :
        (c d : NpmConfig) (line : Text)
        → apply_setting parse_url environment c line ≡ ok d
        → IsSound c
        → IsSound d
    unfolding apply_setting
    apply_setting-IsSound c d line h sound = elim (Option-cases (split_once b'=' line)) [
      | inl e ↦ absurd (ground (arith, rw (e, apply_setting) at h))
      | inr (setting, e) ↦ elim (Bool-cases (is_empty (trim setting.0))) [
        | inl k ↦ absurd (ground (arith, rw (e, k, apply_setting) at h))
        | inr k ↦
            let (value, _, f) =
              ok_steps _ (expand_environment environment (trim setting.1))
                (rw (e, k, apply_setting) at h) in
            apply_value-IsSound c d (trim setting.0) value f sound
      ]
    ]

    at_line_ok :
        (path : Text) (number : ℕ) (r : Result NpmConfig Text) (d : NpmConfig)
        → at_line parse_url path number r ≡ ok d
        → r ≡ ok d
    at_line_ok path number (ok c) d h = ap ok (cc h)
    at_line_ok path number (err e) d h = cc

    apply_each_line-IsSound :
        (path : Text) (number : ℕ) (c d : NpmConfig) (lines : List Text)
        → apply_each_line parse_url environment path number c lines ≡ ok d
        → IsSound c
        → IsSound d
    unfolding apply_each_line
    apply_each_line-IsSound path number c d [] h sound =
        let same : c ≡ d = cc h in rw (sym same) sound
    apply_each_line-IsSound path number c d (raw ∷ lines) h sound =
        elim (Bool-cases (is_comment parse_url (trim raw))) [
          | inl k ↦
              apply_each_line-IsSound path (number + 1) c d lines (rw (k, apply_each_line) at h)
                sound
          | inr k ↦
              let (next, e, f) =
                ok_steps _
                  (at_line parse_url path number (apply_setting parse_url environment c (trim raw)))
                  (rw (k, apply_each_line) at h) in
              apply_each_line-IsSound path (number + 1) next d lines f
                (apply_setting-IsSound c next (trim raw) (at_line_ok path number _ next e) sound)
        ]

    apply_files-IsSound :
        (c d : NpmConfig) (files : List (Text × Text))
        → apply_files parse_url environment c files ≡ ok d
        → IsSound c
        → IsSound d
    unfolding apply_files
    apply_files-IsSound c d [] h sound = let same : c ≡ d = cc h in rw (sym same) sound
    apply_files-IsSound c d ((path, source) ∷ files) h sound =
        let (next, e, f) = ok_steps _ (apply_source parse_url environment c path source) h in
        apply_files-IsSound next d files f
          (apply_each_line-IsSound path 1 c next (str_lines source) e sound)

    default-IsSound : IsSound default_config
    default-IsSound = record {
      scopes = tt;
      usable = record {
        factor = omega arith;
        min_timeout = omega arith;
        max_timeout = omega arith;
        fetch_timeout = omega arith;
      };
    }

    -- In a configuration that was loaded every token is for a directory, the retry factor and the
    -- timeouts are positive, and the shortest timeout is at most the longest.
    pub load_paths-IsSound :
        (files : List (Text × Text)) (config : NpmConfig)
        → load_paths parse_url environment files ≡ ok config
        → IsSound config × config.network.retry_min_timeout ≤ config.network.retry_max_timeout
    unfolding load_paths
    load_paths-IsSound files config h =
        let (loaded, e, f) =
          ok_steps _ (apply_files parse_url environment default_config files) h in
        let (same, bound) : (loaded ≡ config)
            × (loaded.network.retry_min_timeout ≤ loaded.network.retry_max_timeout) =
          ground (arith, f) in
        rw (sym same) (apply_files-IsSound default_config loaded files e default-IsSound, bound)
