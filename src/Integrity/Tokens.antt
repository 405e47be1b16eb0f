-- ===== src/Integrity/Tokens.antt =====
-- What `Integrity::parse` of integrity.rs reads from its tokens.
use bpm.Prelude.{
  ℕ, ◌≡◌, refl, true, false, not, some, List, [], ◌∷◌, ◌==◌, length, all, Result, ok, arith, ==_iff,
}
use bpm.Prelude.Text.{Text, text_eq, split_once}
use bpm.Prelude.Words.{split_whitespace, words_from, is_whitespace}
use bpm.Integrity.{
  Digest, digest_of, decode_value, decoded, read_token, parse_tokens, parse, to_npm_string,
}

-- a text without whitespace is one word
words-plain : (s : Text) → all (λ c. not (is_whitespace c)) s ≡ true → words_from s ≡ (s, [])
unfolding words_from
words-plain [] h = refl
words-plain (c ∷ s) h =
    let plain : is_whitespace c ≡ false = ground (arith, h) in
    rw (words-plain s (ground (arith, h)), plain) refl

module _ (base64_encode : List ℕ → Text) (base64_decode : Text → Result (List ℕ) Text)
    (hex_decode : Text → Result (List ℕ) Text) (byte_length : Text → ℕ) where
  -- What an encoder in base64 promises: its texts decode, and hold no whitespace.
  pub record IsCodec : Type 0 where
    pub decodes : (bytes : List ℕ) → base64_decode (base64_encode bytes) ≡ ok bytes
    pub plain : (bytes : List ℕ) → all (λ c. not (is_whitespace c)) (base64_encode bytes) ≡ true

  one_word :
      (d : Digest)
      → IsCodec
      → split_whitespace (to_npm_string base64_encode base64_decode hex_decode byte_length d)
        ≡ to_npm_string base64_encode base64_decode hex_decode byte_length d ∷ []
  unfolding split_whitespace is_whitespace
  one_word d codec =
      let s = to_npm_string base64_encode base64_decode hex_decode byte_length d in
      let plain : words_from s ≡ (s, []) = words-plain s (codec.plain d) in rw plain refl

  decode_digest :
      (d : Digest)
      → IsCodec
      → length d ≡ 64
      → decode_value base64_encode base64_decode hex_decode byte_length (base64_encode d) ≡ some d
  unfolding decode_value digest_of
  decode_digest d codec long =
      let size : (length d == 64) ≡ true = (==_iff (length d) 64).1 long in
      ground (arith, codec.decodes d, size)

  read_digest :
      (d : Digest)
      → IsCodec
      → length d ≡ 64
      → read_token base64_encode base64_decode hex_decode byte_length
          (to_npm_string base64_encode base64_decode hex_decode byte_length d)
        ≡ decoded d
  unfolding read_token split_once text_eq
  read_digest d codec long = rw (decode_digest d codec long) refl

  -- The integrity string of a digest of 64 bytes is parsed to that digest, for a codec whose texts
  -- decode and hold no whitespace.
  pub parse-to_npm_string :
      (d : Digest)
      → IsCodec
      → length d ≡ 64
      → parse base64_encode base64_decode hex_decode byte_length
          (to_npm_string base64_encode base64_decode hex_decode byte_length d)
        ≡ ok d
  unfolding parse parse_tokens
  parse-to_npm_string d codec long =
      rw (one_word d codec) (rw (read_digest d codec long, parse_tokens) refl)
