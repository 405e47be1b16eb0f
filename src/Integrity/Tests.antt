-- ===== src/Integrity/Tests.antt =====
-- A digest through integrity.rs. The codec here writes each byte as one character far from the
-- whitespace.
use bpm.Prelude.{
  ℕ, ◌+◌, ◌-◌, ◌≡◌, refl, ap, not, true, List, [], ◌∷◌, ◌++◌, all, Result, ok, err, arith, length,
}
use bpm.Prelude.Text.{Text, txt, text_eq, split_once}
use bpm.Prelude.Words.{is_whitespace, split_whitespace, words_from}
use bpm.Integrity.{Digest, read_token, parse_tokens, parse, to_npm_string, unsupported_algorithm}
use bpm.Integrity.Tokens.{IsCodec, parse-to_npm_string}

abbrev encode : List ℕ → Text
encode [] = []
encode (b ∷ bytes) = (b + 20_000) ∷ encode bytes

abbrev decode_all : Text → List ℕ
decode_all [] = []
decode_all (c ∷ s) = (c - 20_000) ∷ decode_all s

abbrev decode : Text → Result (List ℕ) Text
decode s = ok (decode_all s)

abbrev no_hex : Text → Result (List ℕ) Text
no_hex s = err (txt "Odd number of digits")

decode_all-encode : (bytes : List ℕ) → decode_all (encode bytes) ≡ bytes
decode_all-encode [] = refl
decode_all-encode (b ∷ bytes) =
    let byte : b + 20_000 - 20_000 ≡ b = omega arith in rw (byte, decode_all-encode bytes) refl

encode_plain : (bytes : List ℕ) → all (λ c. not (is_whitespace c)) (encode bytes) ≡ true
unfolding is_whitespace
encode_plain [] = refl
encode_plain (b ∷ bytes) = ground (arith, encode_plain bytes)

codec : IsCodec encode decode no_hex length
codec = record { decodes = λ bytes. ap ok (decode_all-encode bytes); plain = encode_plain }

sha1_only :
    parse encode decode no_hex length (txt "sha1-abc") ≡ err (unsupported_algorithm (txt "sha1"))
unfolding parse split_whitespace words_from is_whitespace parse_tokens read_token split_once text_eq
sha1_only = refl

abbrev eight : List ℕ
eight = 1 ∷ 2 ∷ 3 ∷ 4 ∷ 5 ∷ 6 ∷ 7 ∷ 8 ∷ []

abbrev digest : Digest
digest = eight ++ (eight ++ (eight ++ (eight ++ (eight ++ (eight ++ (eight ++ eight))))))

parse-to_npm_string_example :
    parse encode decode no_hex length (to_npm_string encode decode no_hex length digest) ≡ ok digest
parse-to_npm_string_example =
    parse-to_npm_string encode decode no_hex length digest codec (omega arith)
