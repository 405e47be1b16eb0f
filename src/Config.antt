-- ===== src/Config.antt =====
-- src/config.rs: npm's configuration. The parts of a URL are those that the `url` crate gives, the
-- environment is a function, and the sources are the texts of the files that were found.
pub mod Source
pub mod Target
pub mod Auth
pub mod Loaded
mod Tests
use bpm.Prelude.{
  ℕ, Bool, true, false, not, ◌&&◌, ◌||◌, Option, none, some, List, [], ◌∷◌, ◌++◌, ◌==◌, leb, ltb,
  if◌then◌else◌, all, length, Result, ok, err, ◌>>=◌,
}
use bpm.Prelude.Text.{
  Text, txt, text_eq, is_empty, starts_with, strip_prefix, split_once, trim_end, to_ascii_lowercase,
  contains,
}
use bpm.Prelude.Words.{trim}
use bpm.Prelude.Map.{Map, get, text_lt}
use bpm.Prelude.Bytes.{bytes, write_bytes, write_u64, write_each}

-- durations in milliseconds
pub record NetworkConfig : Type 0 where
  pub retries : ℕ
  pub retry_factor : ℕ
  pub retry_min_timeout : ℕ
  pub retry_max_timeout : ℕ
  pub fetch_timeout : ℕ

abbrev pub default_network : NetworkConfig
default_network = record {
  retries = 2;
  retry_factor = 10;
  retry_min_timeout = 10_000;
  retry_max_timeout = 60_000;
  fetch_timeout = 300_000;
}

pub record AuthScope : Type 0 where
  pub authority : Text
  pub path_prefix : Text

pub record NpmConfig : Type 0 where
  pub registry : Text
  pub scoped_registries : Map Text
  -- a `BTreeMap<AuthScope, String>`, in the order of its keys
  pub auth_tokens : List (AuthScope × Text)
  pub network : NetworkConfig

abbrev pub default_config : NpmConfig
default_config = record {
  registry = txt "https://registry.npmjs.org";
  scoped_registries = [];
  auth_tokens = [];
  network = default_network;
}

-- `trim_end_matches('/')`
abbrev pub without_slashes : Text → Text
without_slashes = trim_end (λ c. c == b'/')

unfoldable pub path_is_within_auth_scope : Text → Text → Bool
path_is_within_auth_scope target_path scope_prefix =
    starts_with scope_prefix target_path
    || not (text_eq scope_prefix (txt "/")) && text_eq target_path (without_slashes scope_prefix)

-- what is read of `url::Url`
pub record Url : Type 0 where
  pub scheme : Text
  pub has_host : Bool
  -- from before the user's name up to the host
  pub userinfo : Text
  pub has_password : Bool
  -- the host and the port
  pub host_port : Text
  pub path : Text
  pub has_query : Bool
  pub has_fragment : Bool

pub record RequestTarget : Type 0 where
  pub scheme : Text
  pub authority : Text
  pub path : Text
  pub has_query : Bool
  pub has_fragment : Bool

abbrev pub target_of : Option Url → Option RequestTarget
target_of none = none
target_of (some u) =
    if not (text_eq u.scheme (txt "http") || text_eq u.scheme (txt "https"))
      || not u.has_host
      || u.has_password
      || not (is_empty u.userinfo)
    then none
    else some (record {
      scheme = u.scheme;
      authority = to_ascii_lowercase u.host_port;
      path = u.path;
      has_query = u.has_query;
      has_fragment = u.has_fragment;
    })

-- `package.strip_prefix('@').and_then(|rest| rest.split_once('/'))`
abbrev scope_of : Option Text → Option (Text × Text)
scope_of none = none
scope_of (some rest) = split_once b'/' rest

abbrev registry_of : NpmConfig → Option (Text × Text) → Text
registry_of config none = config.registry
registry_of config (some parts) = elim (get parts.0 config.scoped_registries) [
  | none ↦ config.registry
  | some r ↦ r
]

unfoldable pub registry_for_package : NpmConfig → Text → Text
registry_for_package config package_name =
    registry_of config (scope_of (strip_prefix (txt "@") package_name))

-- whether a scope covers a target
unfoldable pub covers : RequestTarget → AuthScope → Bool
covers target scope =
    text_eq scope.authority target.authority
    && path_is_within_auth_scope target.path scope.path_prefix

unfoldable pub covering : RequestTarget → List (AuthScope × Text) → List (AuthScope × Text)
covering target [] = []
covering target ((scope, token) ∷ tokens) =
    let rest = covering target tokens in if covers target scope then (scope, token) ∷ rest else rest

abbrev pub prefix_length : AuthScope × Text → ℕ
prefix_length entry = length (bytes (entry.0).path_prefix)

-- `max_by_key`: of entries of the greatest length the last one
unfoldable pub longest : List (AuthScope × Text) → Option (AuthScope × Text)
longest [] = none
longest (e ∷ es) = elim (longest es) [
  | none ↦ some e
  | some best ↦ if ltb (prefix_length best) (prefix_length e) then some e else some best
]

abbrev token_text : Option (AuthScope × Text) → Option Text
token_text none = none
token_text (some entry) = some entry.1

module _ (parse_url : Text → Option Url) where
  unfoldable pub parse_http_target : Text → Option RequestTarget
  parse_http_target value =
      if not (text_eq (trim value) value) then none else target_of (parse_url value)

  abbrev pub token_for_target : NpmConfig → Option RequestTarget → Option Text
  token_for_target config none = none
  token_for_target config (some target) = token_text (longest (covering target config.auth_tokens))

  unfoldable pub auth_token_for_url : NpmConfig → Text → Option Text
  auth_token_for_url config url = token_for_target config (parse_http_target url)

-- `hash_field`
unfoldable pub hash_field : Text → Text → List ℕ → List ℕ
hash_field tag value rest = write_bytes tag (write_bytes (bytes value) rest)

unfoldable pub hash_token : AuthScope × Text → List ℕ → List ℕ
hash_token (scope, token) rest =
    hash_field (txt "authority") scope.authority
      (hash_field (txt "path-prefix") scope.path_prefix (hash_field (txt "token") token rest))

-- what the hasher of `credential_partition_digest` is fed
unfoldable pub credential_bytes : NpmConfig → List ℕ
credential_bytes config =
    txt "bpm-npm-credential-partition-v1"
    ++ 0 ∷ write_u64 (length config.auth_tokens) (write_each hash_token config.auth_tokens [])

abbrev pub credential_partition_digest {ℓ} : {Hash : Type ℓ} → (List ℕ → Hash) → NpmConfig → Hash
credential_partition_digest hash config = hash (credential_bytes config)
