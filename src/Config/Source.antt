-- ===== src/Config/Source.antt =====
-- src/config.rs: reading the settings of an npmrc file.
use bpm.Prelude.{
  ℕ, zero, suc, ◌+◌, ◌^◌, Bool, true, false, not, ◌&&◌, ◌||◌, Option, none, some, List, [], ◌∷◌,
  ◌++◌, ◌==◌, leb, ltb, if◌then◌else◌, all, length, Result, ok, err, ◌>>=◌,
}
use bpm.Prelude.Text.{
  Text, txt, text_eq, is_empty, starts_with, strip_prefix, split_once, to_ascii_lowercase, contains,
}
use bpm.Prelude.Words.{trim}
use bpm.Prelude.Map.{insert, text_lt}
use bpm.Prelude.Decimal.{parse_u64, is_ascii_digit}
use bpm.Patch.{str_lines}
use bpm.Registry.{is_ascii}
use bpm.Config.{
  NetworkConfig, AuthScope, NpmConfig, default_config, without_slashes, Url, RequestTarget,
  parse_http_target,
}

pub data ConfigError : Type 0 where
  syntax : (path : Text) (line : ℕ) (message : Text) → ConfigError
  invalid : (message : Text) → ConfigError

-- `strip_suffix`: what stands in front of the suffix
unfoldable pub strip_suffix : Text → Text → Option Text
strip_suffix suffix [] = if is_empty suffix then some [] else none
strip_suffix suffix (c ∷ s) =
    let shorter : Option Text = elim (strip_suffix suffix s) [
      | none ↦ none
      | some front ↦ some (c ∷ front)
    ] in
    if text_eq suffix (c ∷ s) then some [] else shorter

unfoldable pub valid_scope : Text → Bool
valid_scope [] = false
valid_scope (c ∷ s) =
    is_ascii (c ∷ s)
    && (leb b'a' c && leb c b'z')
    && all
        (λ b. leb b'a' b && leb b b'z' || is_ascii_digit b || b == b'.' || b == b'-' || b == b'_')
        (c ∷ s)

-- `parse::<T>()` of an unsigned type with `bound` values, at most a `u64`
abbrev below : ℕ → Option ℕ → Option ℕ
below bound none = none
below bound (some n) = if ltb n bound then some n else none

unfoldable pub parse_number : ℕ → Text → Text → Bool → Result ℕ Text
parse_number bound value key allow_zero = elim (below bound (parse_u64 value)) [
  | none ↦ err (key ++ txt " must be a non-negative integer")
  | some n ↦
      if not allow_zero && n == 0 then err (key ++ txt " must be greater than zero") else ok n
]

abbrev pub parse_duration : Text → Text → Result ℕ Text
parse_duration value key = parse_number (2 ^ 64) value key false

-- `find("${")`: what stands before and behind the first one
unfoldable pub split_reference : Text → Option (Text × Text)
split_reference [] = none
split_reference (c ∷ []) = none
split_reference (c ∷ d ∷ s) =
    let later : Option (Text × Text) = elim (split_reference (d ∷ s)) [
      | none ↦ none
      | some parts ↦ some (c ∷ parts.0, parts.1)
    ] in
    if c == b'$' && d == b'{' then some ([], s) else later

abbrev is_name_char : ℕ → Bool
is_name_char c =
    leb b'a' c && leb c b'z' || leb b'A' c && leb c b'Z' || is_ascii_digit c || c == b'_'

-- the value of a variable that is named well and set
unfoldable pub variable : (Text → Option Text) → Text → Result Text Text
variable environment name =
    if is_empty name || not (all is_name_char name)
    then err (txt "invalid environment variable reference")
    else elim (environment name) [
      | none ↦ err (txt "environment variable `" ++ (name ++ txt "` is not set"))
      | some value ↦ ok value
    ]

-- The loop over the references. The fuel bounds the rounds; each leaves a shorter rest.
unfoldable pub expand_from : ℕ → (Text → Option Text) → Text → Result Text Text
expand_from zero environment rest = ok rest
expand_from (suc fuel) environment rest = elim (split_reference rest) [
  | none ↦ ok rest
  | some parts ↦ elim (split_once b'}' parts.1) [
    | none ↦ err (txt "unterminated environment variable reference")
    | some reference ↦ variable environment reference.0 >>= (λ value.
        expand_from fuel environment reference.1 >>= (λ behind. ok (parts.0 ++ (value ++ behind))))
  ]
]

abbrev pub expand_environment : (Text → Option Text) → Text → Result Text Text
expand_environment environment value = expand_from (suc (length value)) environment value

-- `cmp` on authorities, then on prefixes
abbrev pub scope_lt : AuthScope → AuthScope → Bool
scope_lt a b =
    text_lt a.authority b.authority
    || text_eq a.authority b.authority && text_lt a.path_prefix b.path_prefix

abbrev pub scope_eq : AuthScope → AuthScope → Bool
scope_eq a b = text_eq a.authority b.authority && text_eq a.path_prefix b.path_prefix

-- `insert` of a `BTreeMap`
unfoldable pub insert_token : AuthScope → Text → List (AuthScope × Text) → List (AuthScope × Text)
insert_token scope token [] = (scope, token) ∷ []
insert_token scope token ((s, t) ∷ tokens) =
    let rest = insert_token scope token tokens in
    if scope_eq s scope
    then (scope, token) ∷ tokens
    else if scope_lt scope s
    then (scope, token) ∷ (s, t) ∷ tokens
    else (s, t) ∷ rest

-- the scope of a key, with `/` behind its path
abbrev directory_prefix : Text → Text
directory_prefix path = if is_empty path then txt "/" else path ++ txt "/"

abbrev pub scope_at : RequestTarget → AuthScope
scope_at target = record {
  authority = target.authority;
  path_prefix = directory_prefix (without_slashes target.path);
}

abbrev pub suffix_of : Option Text → Option Text
suffix_of none = none
suffix_of (some key) = strip_suffix (txt ":_authToken") key

-- the scope of `@scope:registry`
abbrev pub scope_key : Text → Option Text
scope_key key = elim (strip_prefix (txt "@") key) [
  | none ↦ none
  | some rest ↦ strip_suffix (txt ":registry") rest
]

abbrev pub is_auth_key : Text → Bool
is_auth_key key =
    starts_with (txt "//") key
    && (elim (strip_suffix (txt ":_authToken") key) [ none ↦ false | some front ↦ true ])

abbrev pub same_key : Text → Text → Bool
same_key key name = text_eq (to_ascii_lowercase key) name

module _ (parse_url : Text → Option Url) where
  unfoldable pub normalize_registry : Text → Result Text Text
  normalize_registry value = elim (parse_http_target parse_url value) [
    | none ↦ err (txt "registry must be an absolute http:// or https:// URL without credentials")
    | some target ↦
        if target.has_query || target.has_fragment
        then err (txt "registry URL must not contain a query or fragment")
        else ok (target.scheme ++ (txt "://" ++ (target.authority ++ without_slashes target.path)))
  ]

  unfoldable pub parse_auth_scope : Text → Result AuthScope Text
  parse_auth_scope key = elim (suffix_of (strip_prefix (txt "//") key)) [
    | none ↦ err (txt "invalid auth token key")
    | some raw ↦
        if not (contains b'/' raw)
        then err (txt "auth token key must include a host and `/` path")
        else elim (parse_http_target parse_url (txt "https://" ++ raw)) [
          | none ↦ err (txt "invalid host-scoped auth token key")
          | some target ↦
              if target.has_query || target.has_fragment
              then err (txt "invalid host-scoped auth token key")
              else ok (scope_at target)
        ]
  ]

  -- a setting of the network, or none that is consumed
  unfoldable pub apply_network : NetworkConfig → Text → Text → Result NetworkConfig Text
  apply_network n key value =
      if same_key key (txt "fetch-retries")
      then parse_number (2 ^ 64) value (txt "fetch-retries") true
        >>= (λ r. ok (record n { retries = r }))
      else if same_key key (txt "fetch-retry-factor")
      then parse_number (2 ^ 32) value (txt "fetch-retry-factor") false
        >>= (λ r. ok (record n { retry_factor = r }))
      else if same_key key (txt "fetch-retry-mintimeout")
      then parse_duration value key >>= (λ d. ok (record n { retry_min_timeout = d }))
      else if same_key key (txt "fetch-retry-maxtimeout")
      then parse_duration value key >>= (λ d. ok (record n { retry_max_timeout = d }))
      else if same_key key (txt "fetch-timeout")
      then parse_duration value key >>= (λ d. ok (record n { fetch_timeout = d }))
      else ok n

  -- an auth token, or a setting of the network
  unfoldable pub apply_token : NpmConfig → Text → Text → Result NpmConfig Text
  apply_token config key value =
      if is_auth_key key
      then if is_empty value
        then err (txt "auth token must not be empty")
        else parse_auth_scope key >>= (λ scope.
          ok (record config { auth_tokens = insert_token scope value config.auth_tokens }))
      else apply_network config.network key value >>= (λ n. ok (record config { network = n }))

  -- `apply_value`, with the message of its error
  unfoldable pub apply_value : NpmConfig → Text → Text → Result NpmConfig Text
  apply_value config key value =
      if same_key key (txt "registry")
      then normalize_registry value >>= (λ r. ok (record config { registry = r }))
      else elim (scope_key key) [
        | none ↦ apply_token config key value
        | some scope ↦
            if not (valid_scope scope)
            then err (txt "invalid scoped registry key")
            else normalize_registry value >>= (λ r.
              ok (record config { scoped_registries = insert scope r config.scoped_registries }))
      ]

  -- a line that is not empty and no comment
  unfoldable pub apply_setting : (Text → Option Text) → NpmConfig → Text → Result NpmConfig Text
  apply_setting environment config line = elim (split_once b'=' line) [
    | none ↦ err (txt "expected `key=value`")
    | some setting ↦
        if is_empty (trim setting.0)
        then err (txt "configuration key is empty")
        else expand_environment environment (trim setting.1)
          >>= (λ value. apply_value config (trim setting.0) value)
  ]

  abbrev pub at_line {ℓ} : {A : Type ℓ} → Text → ℕ → Result A Text → Result A ConfigError
  at_line path line (ok a) = ok a
  at_line path line (err message) = err (syntax path line message)

  abbrev pub is_comment : Text → Bool
  is_comment [] = true
  is_comment (c ∷ s) = c == b'#' || c == b';'

  -- the loop over the lines, the number of the first one given
  unfoldable pub apply_each_line :
      (Text → Option Text) → Text → ℕ → NpmConfig → List Text → Result NpmConfig ConfigError
  apply_each_line environment path number config [] = ok config
  apply_each_line environment path number config (raw_line ∷ lines) =
      let line = trim raw_line in
      let skipped = apply_each_line environment path (number + 1) config lines in
      let applied =
        at_line path number (apply_setting environment config line)
        >>= (λ next. apply_each_line environment path (number + 1) next lines) in
      if is_comment line then skipped else applied

  abbrev pub apply_source :
      (Text → Option Text) → NpmConfig → Text → Text → Result NpmConfig ConfigError
  apply_source environment config path source =
      apply_each_line environment path 1 config (str_lines source)

  -- the loop over the files that were found, each with its text
  unfoldable pub apply_files :
      (Text → Option Text) → NpmConfig → List (Text × Text) → Result NpmConfig ConfigError
  apply_files environment config [] = ok config
  apply_files environment config ((path, source) ∷ files) =
      apply_source environment config path source >>= (λ next. apply_files environment next files)

  abbrev pub validate : NpmConfig → Result NpmConfig ConfigError
  validate config =
      if ltb config.network.retry_max_timeout config.network.retry_min_timeout
      then err (invalid (txt "fetch-retry-mintimeout must not exceed fetch-retry-maxtimeout"))
      else ok config

  -- `load_paths`
  unfoldable pub load_paths :
      (Text → Option Text) → List (Text × Text) → Result NpmConfig ConfigError
  load_paths environment files =
      apply_files environment default_config files >>= (λ config. validate config)
