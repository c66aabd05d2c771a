-- ===== src/Webhook/Signature.antt =====
-- The signature test of internal/webhook/handler.go, and the headers that GitHub sends.
use lark_git_webhook.Base.{
  ◌+◌, ◌<◌, ◌≡◌, refl, ap, true, Option, none, some, [], ◌∷◌, ◌++◌, arith, ltb, ◌==◌, if◌then◌else◌,
  ℕ, length, ◌*◌, ◌/◌, ◌%◌, length-append,
}
use lark_git_webhook.Base.Bytes.{Bytes, same_iff, same_refl}
use lark_git_webhook.Webhook.Checks.{
  Content, hex_value, decode_hex, signature_prefix, provided_mac, valid_signature,
}

-- A digit in lower case, as GitHub writes it.
abbrev pub hex_digit : ℕ → ℕ
hex_digit d = if ltb d 10 then 48 + d else 87 + d

abbrev pub encode_hex : Bytes → Bytes
encode_hex [] = []
encode_hex (b ∷ bytes) = hex_digit (b / 16) ∷ hex_digit (b % 16) ∷ encode_hex bytes

-- Every element is a byte.
abbrev pub AreBytes : Bytes → Type 0
AreBytes [] = Unit
AreBytes (b ∷ bytes) = (b < 256) × AreBytes bytes

hex_value-hex_digit : (d : ℕ) → d < 16 → hex_value (hex_digit d) ≡ some d
unfolding hex_value
hex_value-hex_digit d h = ground arith

decode-encode_hex : (bytes : Bytes) → AreBytes bytes → decode_hex (encode_hex bytes) ≡ some bytes
unfolding decode_hex
decode-encode_hex [] h = refl
decode-encode_hex (b ∷ bytes) h =
    rw
      (
        hex_value-hex_digit (b / 16) (omega (arith, h.0)),
        hex_value-hex_digit (b % 16) (omega arith),
        decode-encode_hex bytes h.1,
      )
      (ap (λ (n : ℕ). some (n ∷ bytes)) (omega arith))

length-encode_hex : (bytes : Bytes) → length (encode_hex bytes) ≡ 2 * length bytes
length-encode_hex [] = refl
length-encode_hex (b ∷ bytes) = omega (arith, length-encode_hex bytes)

provided-encode_hex :
    (mac : Bytes)
    → AreBytes mac
    → length mac ≡ 32
    → provided_mac (signature_prefix ++ encode_hex mac) ≡ some mac
unfolding provided_mac
provided-encode_hex mac bytes size =
    let whole : (length (signature_prefix ++ encode_hex mac) == 71) ≡ true =
      ground (arith, length-append signature_prefix (encode_hex mac), length-encode_hex mac) in
    rw (provided_mac, whole, decode-encode_hex mac bytes) refl

module _ ⦃content : Content⦄ where
  -- The header that GitHub sends for a body, `sha256=` and the HMAC in hexadecimal, is accepted, and
  -- every header that is accepted carries the HMAC of the body under the secret.
  pub valid_signature_lem :
      (header body secret : Bytes)
      → AreBytes (content.hmac secret body)
      → length (content.hmac secret body) ≡ 32
      → (valid_signature (signature_prefix ++ encode_hex (content.hmac secret body)) body secret
          ≡ true)
        × (valid_signature header body secret ≡ true
            → provided_mac header ≡ some (content.hmac secret body))
  unfolding valid_signature
  valid_signature_lem header body secret bytes size = (
    rw (valid_signature, provided-encode_hex (content.hmac secret body) bytes size)
        (ground (arith, same_refl (content.hmac secret body))),
    λ accepted. go (provided_mac header) refl accepted,
  )
    where
      go :
          (o : Option Bytes)
          → provided_mac header ≡ o
          → valid_signature header body secret ≡ true
          → provided_mac header ≡ some (content.hmac secret body)
      go none e h = absurd (ground arith)
      go (some p) e h = ground (arith, same_iff (content.hmac secret body) p)
