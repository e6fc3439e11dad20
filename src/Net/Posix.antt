-- ===== src/Net/Posix.antt =====
-- `::recv` and `::send` of the operating system on one connected socket: parameters of the model with
-- their documented behaviour. `recv` blocks until a byte, the end or an error is there.
use webhook_ops.Common.{ℕ, ◌≤◌, ◌<◌, ◌≡◌, ◌≢◌, Option, none, some, [], ◌++◌, Bytes, length, take}
use webhook_ops.Net.Stream.{Received, got, closed}

pub record Posix : Type 1 where
  pub Sock : Type 0
  -- At most the given number of bytes.
  pub recv : Sock → ℕ → Received × Sock
  -- How many bytes of the chunk were taken; `none` for a result of 0 or less.
  pub send : Sock → Bytes → Option ℕ × Sock
  pub pending : Sock → Bytes
  pub written : Sock → Bytes
  pub IsUp : Sock → Type 0
  pub recv_got :
      (s : Sock) (n : ℕ) (bs : Bytes) (s' : Sock)
      → 0 < n
      → recv s n ≡ (got bs, s')
      → (bs ≢ []) × (length bs ≤ n) × (pending s ≡ bs ++ pending s')
  pub recv_up :
      (s : Sock) (n : ℕ)
      → 0 < n
      → IsUp s
      → pending s ≢ []
      → (bs : Bytes) × (s' : Sock) × (recv s n ≡ (got bs, s')) × IsUp s'
  pub recv_end :
      (s : Sock) (n : ℕ) → 0 < n → IsUp s → pending s ≡ [] → (s' : Sock) × (recv s n ≡ (closed, s'))
  pub send_some :
      (s s' : Sock) (chunk : Bytes) (k : ℕ)
      → chunk ≢ []
      → send s chunk ≡ (some k, s')
      → (0 < k) × (k ≤ length chunk) × (written s' ≡ written s ++ take k chunk)
  pub send_none : (s s' : Sock) (chunk : Bytes) → send s chunk ≡ (none, s') → written s' ≡ written s
  pub send_up :
      (s : Sock) (chunk : Bytes)
      → chunk ≢ []
      → IsUp s
      → (k : ℕ) × (s' : Sock) × (send s chunk ≡ (some k, s')) × IsUp s'
