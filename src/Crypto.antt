-- ===== src/Crypto.antt =====
-- agent/src/common/crypto.cpp. OpenSSL is a parameter: the digest that HMAC-SHA256 computes, and
-- `CRYPTO_memcmp`, which answers 0 for equal buffers alone.
pub mod Hex
use webhook_ops.Common.{
  ℕ, ◌/◌, ◌%◌, ◌≡◌, ◌↔◌, Bool, true, false, Option, none, some, [], ◌∷◌, Bytes, length, ◌==◌,
  if◌then◌else◌,
}
use webhook_ops.Stdlib.Hex.{hex_digit}

pub record OpenSsl : Type 0 where
  -- The key and the message.
  pub hmac_sha256 : Bytes → Bytes → Bytes
  pub memcmp : Bytes → Bytes → ℕ
  pub memcmp_iff : (a b : Bytes) → length a ≡ length b → (memcmp a b ≡ 0) ↔ (a ≡ b)

-- Two digits for each byte, the first one 0 if need be.
unfoldable pub to_hex : Bytes → Bytes
unfolding hex_digit
to_hex [] = []
to_hex (b ∷ bs) = hex_digit (b / 16 % 16) ∷ hex_digit (b % 16) ∷ to_hex bs

-- The argument is what `RAND_bytes` filled in, `none` if it failed.
unfoldable pub random_hex : Option Bytes → Bytes
unfolding to_hex
random_hex none = []
random_hex (some buffer) = to_hex buffer

module _ (ssl : OpenSsl) where
  unfoldable pub hmac_sha256_hex : Bytes → Bytes → Bytes
  unfolding to_hex
  hmac_sha256_hex secret message = to_hex (ssl.hmac_sha256 secret message)

  unfoldable pub constant_time_equals : Bytes → Bytes → Bool
  constant_time_equals a b = if length a == length b then ssl.memcmp a b == 0 else false
