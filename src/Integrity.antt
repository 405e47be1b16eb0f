-- ===== src/Integrity.antt =====
-- src/integrity.rs: integrity strings. A digest is its 64 bytes; the codecs of `base64` and `hex` are
-- parameters, which give the bytes of a text or none.
pub mod Tokens
mod Tests
use bpm.Prelude.{
  ℕ, ◌+◌, Bool, true, false, Option, none, some, List, [], ◌∷◌, ◌++◌, ◌==◌, if◌then◌else◌, length,
  Result, ok, err,
}
use bpm.Prelude.Text.{Text, txt, text_eq, split_once}
use bpm.Prelude.Words.{split_whitespace}

abbrev pub sha512 : Text
sha512 = txt "sha512"

-- the errors of `parse`, and those of a digest that is decoded
pub data IntegrityError : Type 0 where
  invalid_format : Text → IntegrityError
  unsupported_algorithm : Text → IntegrityError
  bad_encoding : Text → IntegrityError
  bad_length : ℕ → IntegrityError

abbrev pub Digest : Type 0
Digest = List ℕ

-- the end of `from_hex` and of `from_base64`
unfoldable pub digest_of : Result (List ℕ) Text → Result Digest IntegrityError
digest_of (err why) = err (bad_encoding why)
digest_of (ok bytes) = if length bytes == 64 then ok bytes else err (bad_length (length bytes))

-- `join(", ")`
abbrev pub join_comma : List Text → Text
join_comma [] = []
join_comma (t ∷ []) = t
join_comma (t ∷ u ∷ ts) = t ++ txt ", " ++ join_comma (u ∷ ts)

module _ (base64_encode : List ℕ → Text) (base64_decode : Text → Result (List ℕ) Text)
    (hex_decode : Text → Result (List ℕ) Text) (byte_length : Text → ℕ) where
  abbrev pub to_npm_string : Digest → Text
  to_npm_string d = sha512 ++ txt "-" ++ base64_encode d

  -- the value of a `sha512` token: base64, or 128 bytes of hex
  unfoldable pub decode_value : Text → Option Digest
  decode_value value = elim (digest_of (base64_decode value)) [
    | ok d ↦ some d
    | err e ↦
        if byte_length value == 128
        then elim (digest_of (hex_decode value)) [ ok d ↦ some d | err f ↦ none ]
        else none
  ]

  -- what a token is: a digest, another algorithm, or nothing that counts
  pub data Token : Type 0 where
    decoded : Digest → Token
    other_algorithm : Text → Token
    ignored : Token

  abbrev pub token_of : Option Digest → Token
  token_of none = ignored
  token_of (some d) = decoded d

  unfoldable pub read_token : Text → Token
  read_token token = elim (split_once b'-' token) [
    | none ↦ ignored
    | some parts ↦
        if text_eq parts.0 sha512 then token_of (decode_value parts.1) else other_algorithm parts.0
  ]

  abbrev pub no_digest : Text → List Text → Result Digest IntegrityError
  no_digest s [] = err (invalid_format s)
  no_digest s (a ∷ as') = err (unsupported_algorithm (join_comma (a ∷ as')))

  -- the loop over the tokens, with the other algorithms seen so far
  unfoldable pub parse_tokens : Text → List Text → List Text → Result Digest IntegrityError
  parse_tokens s others [] = no_digest s others
  parse_tokens s others (t ∷ ts) = elim (read_token t) [
    | decoded d ↦ ok d
    | other_algorithm a ↦ parse_tokens s (others ++ a ∷ []) ts
    | ignored ↦ parse_tokens s others ts
  ]

  unfoldable pub parse : Text → Result Digest IntegrityError
  parse s = parse_tokens s [] (split_whitespace s)
