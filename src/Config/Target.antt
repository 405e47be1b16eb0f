-- ===== src/Config/Target.antt =====
-- src/config.rs: which URLs `parse_http_target` gives a target for.
use bpm.Prelude.{
  true, false, Option, some, [], ◌∷◌, ◌≡◌, refl, ◌⊎◌, inl, inr, arith, Bool-cases, Option-cases,
}
use bpm.Prelude.Text.{Text, txt, text_eq, text_eq→eq, is_empty, to_ascii_lowercase}
use bpm.Prelude.Words.{trim}
use bpm.Config.{Url, RequestTarget, target_of, parse_http_target}

-- The URL is parsed, of scheme http or https, with a host, no user and no password, and there
-- is no white space around it; the target has the scheme, the path and the host and port in lower
-- case.
pub record IsPlainHttp (parse_url : Text → Option Url) (url : Text) (target : RequestTarget)
    : Type 0 where
  pub parsed : Url
  pub is_parsed : parse_url url ≡ some parsed
  pub is_trimmed : trim url ≡ url
  pub http : (parsed.scheme ≡ txt "http") ⊎ (parsed.scheme ≡ txt "https")
  pub hosted : parsed.has_host ≡ true
  pub no_user : parsed.userinfo ≡ []
  pub no_password : parsed.has_password ≡ false
  pub same_scheme : target.scheme ≡ parsed.scheme
  pub same_path : target.path ≡ parsed.path
  pub lower_authority : target.authority ≡ to_ascii_lowercase parsed.host_port

empty_of : (s : Text) → is_empty s ≡ true → s ≡ []
empty_of [] h = refl
empty_of (c ∷ s) h = cc h

target_tests :
    (u : Url) (target : RequestTarget)
    → target_of (some u) ≡ some target
    → ((text_eq u.scheme (txt "http") ≡ true) ⊎ (text_eq u.scheme (txt "https") ≡ true))
      × (u.has_host ≡ true)
      × (is_empty u.userinfo ≡ true)
      × (u.has_password ≡ false)
      × (target.scheme ≡ u.scheme)
      × (target.path ≡ u.path)
      × (target.authority ≡ to_ascii_lowercase u.host_port)
target_tests u target h = (
  ground (arith, h),
  ground (arith, h),
  ground (arith, h),
  ground (arith, h),
  ground (arith, h),
  ground (arith, h),
  ground (arith, h),
)

pub parse_http_target-IsPlainHttp :
    (parse_url : Text → Option Url) (url : Text) (target : RequestTarget)
    → parse_http_target parse_url url ≡ some target
    → IsPlainHttp parse_url url target
unfolding parse_http_target
parse_http_target-IsPlainHttp parse_url url target h = elim (Bool-cases (text_eq (trim url) url)) [
  | inr padded ↦ absurd (ground (arith, h, padded))
  | inl trimmed ↦ elim (Option-cases (parse_url url)) [
    | inl nothing ↦ absurd (ground (arith, h, trimmed, nothing))
    | inr (u, e) ↦
        let k : target_of (some u) ≡ some target = rw (trimmed, e) at h in
        let (scheme, host, user, password, s, p, a) = target_tests u target k in
        record {
          parsed = u;
          is_parsed = e;
          is_trimmed = text_eq→eq (trim url) url trimmed;
          http = elim scheme [
            | inl one ↦ inl (text_eq→eq u.scheme (txt "http") one)
            | inr two ↦ inr (text_eq→eq u.scheme (txt "https") two)
          ];
          hosted = host;
          no_user = empty_of u.userinfo user;
          no_password = password;
          same_scheme = s;
          same_path = p;
          lower_authority = a;
        }
  ]
]
