-- ===== src/Crypto/Hex.antt =====
-- Hexadecimal texts and their comparison (agent/src/common/crypto.cpp).
use webhook_ops.Common.{
  ◌+◌, ◌*◌, ◌/◌, ◌%◌, ◌≡◌, ◌↔◌, refl, sym, ap, ap₂, ◌∙◌, true, [], ◌∷◌, arith, Bytes, IsByte, All,
  length,
}
use webhook_ops.Stdlib.Hex.{hex_digit, hex_value, hex_value-hex_digit}
use webhook_ops.Crypto.{OpenSsl, to_hex, constant_time_equals}

-- The bytes that pairs of digits stand for.
of_hex : Bytes → Bytes
of_hex (a ∷ b ∷ s) = (hex_value a * 16 + hex_value b) ∷ of_hex s
of_hex _ = []

of_hex-to_hex : (s : Bytes) → All IsByte s → of_hex (to_hex s) ≡ s
unfolding of_hex to_hex
of_hex-to_hex [] h = refl
of_hex-to_hex (b ∷ s) (h, hs) = ap₂ (λ c t. c ∷ t) byte (of_hex-to_hex s hs)
  where
    byte : hex_value (hex_digit (b / 16 % 16)) * 16 + hex_value (hex_digit (b % 16)) ≡ b
    byte = omega (
      arith,
      hex_value-hex_digit (b / 16 % 16) (omega arith),
      hex_value-hex_digit (b % 16) (omega arith),
    )

-- Different bytes have different texts, of two digits for each byte.
to_hex-injective : (s t : Bytes) → All IsByte s → All IsByte t → to_hex s ≡ to_hex t → s ≡ t
to_hex-injective s t hs ht e = sym (of_hex-to_hex s hs) ∙ ap of_hex e ∙ of_hex-to_hex t ht

pub length-to_hex : (s : Bytes) → length (to_hex s) ≡ 2 * length s
unfolding to_hex
length-to_hex [] = omega arith
length-to_hex (b ∷ s) = omega (arith, length-to_hex s)

-- The comparison in constant time decides equality.
pub constant_time_equals_iff :
    (ssl : OpenSsl) (a b : Bytes) → (constant_time_equals ssl a b ≡ true) ↔ (a ≡ b)
unfolding constant_time_equals
constant_time_equals_iff ssl a b = (
  λ h. (ssl.memcmp_iff a b (ground arith)).0 (ground arith),
  λ e.
      let n : length a ≡ length b = ap length e in
      let z : ssl.memcmp a b ≡ 0 = (ssl.memcmp_iff a b n).1 e in ground arith,
)
