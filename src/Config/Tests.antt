-- ===== src/Config/Tests.antt =====
-- A configuration with tokens, and the properties applied to it.
use bpm.Prelude.{
  ℕ, ◌≤◌, Bool, true, false, Option, none, some, List, [], ◌∷◌, ◌++◌, ◌≡◌, ◌≢◌, ◌↔◌, ◌⊎◌, refl, ok,
  Result,
}
use bpm.Prelude.Text.{Text, txt, strip_prefix, split_once, starts_with}
use bpm.Config.{
  NpmConfig, AuthScope, default_config, Url, RequestTarget, parse_http_target, auth_token_for_url,
  path_is_within_auth_scope, credential_bytes, credential_partition_digest, registry_for_package,
}
use bpm.Config.Source.{load_paths}
use bpm.Config.Loaded.{IsSound, load_paths-IsSound}
use bpm.Config.Target.{IsPlainHttp}
use bpm.Config.Auth.{IsGranted, auth_token-IsGranted, credential_partition_iff}

-- a URL of one authority, with the path behind it
abbrev urls_of : Option Text → Option Url
urls_of none = none
urls_of (some path) = some (record {
  scheme = txt "https";
  has_host = true;
  userinfo = [];
  has_password = false;
  host_port = txt "npm.test";
  path = path;
  has_query = false;
  has_fragment = false;
})

abbrev parse_url : Text → Option Url
parse_url url = urls_of (strip_prefix (txt "https://npm.test") url)

abbrev nothing_set : Text → Option Text
nothing_set name = none

abbrev files : List (Text × Text)
files = (txt ".npmrc", txt "//npm.test/team/:_authToken=abc\n") ∷ []

abbrev loaded : NpmConfig
loaded = record default_config {
  auth_tokens = (record { authority = txt "npm.test"; path_prefix = txt "/team/" }, txt "abc") ∷ [];
}

abbrev target : RequestTarget
target = record {
  scheme = txt "https";
  authority = txt "npm.test";
  path = txt "/team/x";
  has_query = false;
  has_fragment = false;
}

npmrc_result : load_paths parse_url nothing_set files ≡ ok loaded
unfolding load_paths bpm.Config.Source.apply_files bpm.Config.Source.apply_each_line
    bpm.Patch.str_lines bpm.Patch.complete_lines bpm.Prelude.Text.split bpm.Prelude.Text.trim_end
    bpm.Prelude.Words.trim_start bpm.Patch.strip_cr bpm.Prelude.Words.is_whitespace
    bpm.Config.Source.apply_setting split_once bpm.Config.Source.expand_from
    bpm.Config.Source.split_reference bpm.Config.Source.apply_value bpm.Prelude.Text.text_eq
    bpm.Prelude.Text.to_ascii_lowercase strip_prefix bpm.Config.Source.apply_network
    bpm.Config.Source.apply_token bpm.Config.Source.insert_token bpm.Config.Source.parse_auth_scope
    bpm.Config.Source.strip_suffix bpm.Config.Source.valid_scope parse_http_target
    bpm.Prelude.Map.insert bpm.Prelude.Map.text_lt bpm.Prelude.Text.contains
    bpm.Prelude.Text.lower_char starts_with
npmrc_result = refl

a_token : auth_token_for_url parse_url loaded (txt "https://npm.test/team/x") ≡ some (txt "abc")
unfolding auth_token_for_url parse_http_target bpm.Prelude.Text.text_eq bpm.Prelude.Text.trim_end
    bpm.Prelude.Words.trim_start bpm.Prelude.Words.is_whitespace strip_prefix bpm.Config.longest
    bpm.Config.covering bpm.Config.covers bpm.Prelude.Text.to_ascii_lowercase
    path_is_within_auth_scope starts_with
a_token = refl

no_sibling : path_is_within_auth_scope (txt "/teammate") (txt "/team/") ≡ false
unfolding path_is_within_auth_scope starts_with bpm.Prelude.Text.text_eq bpm.Prelude.Text.trim_end
no_sibling = refl

load_paths-IsSound_example :
    IsSound loaded × loaded.network.retry_min_timeout ≤ loaded.network.retry_max_timeout
load_paths-IsSound_example = load_paths-IsSound parse_url nothing_set files loaded npmrc_result

auth_token-IsGranted_example :
    (t : RequestTarget) × IsPlainHttp parse_url (txt "https://npm.test/team/x") t
    × IsGranted parse_url nothing_set loaded t (txt "abc")
auth_token-IsGranted_example =
    auth_token-IsGranted parse_url nothing_set files loaded (txt "https://npm.test/team/x")
      (txt "abc") npmrc_result a_token

credential_partition_iff_example :
    (credential_partition_digest (λ (b : List ℕ). b) loaded
      ≡ credential_partition_digest (λ (b : List ℕ). b) default_config)
    ↔ ((loaded.auth_tokens ≡ default_config.auth_tokens)
        ⊎ ((credential_bytes loaded ≢ credential_bytes default_config)
            × (credential_bytes loaded ≡ credential_bytes default_config)))
credential_partition_iff_example =
    credential_partition_iff (λ (b : List ℕ). b) loaded default_config
