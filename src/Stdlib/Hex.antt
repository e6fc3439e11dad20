-- ===== src/Stdlib/Hex.antt =====
-- Lower-case hexadecimal digits.
use webhook_ops.Common.{ℕ, ◌+◌, ◌-◌, ◌≡◌, ◌<◌, arith, ltb, leb, if◌then◌else◌}

-- A digit of "0123456789abcdef".
unfoldable pub hex_digit : ℕ → ℕ
hex_digit d = if ltb d 10 then b'0' + d else b'a' - 10 + d

unfoldable pub hex_value : ℕ → ℕ
hex_value c = if leb c b'9' then c - b'0' else c + 10 - b'a'

pub hex_value-hex_digit : (d : ℕ) → d < 16 → hex_value (hex_digit d) ≡ d
unfolding hex_value hex_digit
hex_value-hex_digit d h = ground arith
