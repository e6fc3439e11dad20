-- ===== src/Net/Stream.antt =====
-- The interface between byte transport and frames: what `send_all` and `recv_some` promise of one
-- connection, whether it is a plain socket or a TLS channel.
use webhook_ops.Common.{ℕ, ◌≤◌, ◌<◌, ◌≡◌, ◌≢◌, Bool, true, false, [], ◌++◌, Bytes, length, take}

-- The result of `recv_some`: a positive count with its bytes, 0, or a negative number.
pub data Received : Type 0 where
  got : Bytes → Received
  closed : Received
  failed : Received

pub record Stream : Type 1 where
  pub Conn : Type 0
  pub recv_some : Conn → ℕ → Received × Conn
  pub send_all : Conn → Bytes → Bool × Conn
  -- The bytes that the peer has sent or will send and that were not read yet.
  pub pending : Conn → Bytes
  -- The bytes handed to the peer so far.
  pub written : Conn → Bytes
  -- The connection has not failed; it ends in order when `pending` is read.
  pub IsUp : Conn → Type 0
  pub recv_got :
      (c : Conn) (n : ℕ) (bs : Bytes) (c' : Conn)
      → 0 < n
      → recv_some c n ≡ (got bs, c')
      → (bs ≢ []) × (length bs ≤ n) × (pending c ≡ bs ++ pending c')
  pub recv_up :
      (c : Conn) (n : ℕ)
      → 0 < n
      → IsUp c
      → pending c ≢ []
      → (bs : Bytes) × (c' : Conn) × (recv_some c n ≡ (got bs, c')) × IsUp c'
  pub recv_end :
      (c : Conn) (n : ℕ)
      → 0 < n
      → IsUp c
      → pending c ≡ []
      → (c' : Conn) × (recv_some c n ≡ (closed, c'))
  pub send_done :
      (c c' : Conn) (bs : Bytes) → send_all c bs ≡ (true, c') → written c' ≡ written c ++ bs
  pub send_part :
      (c c' : Conn) (bs : Bytes)
      → send_all c bs ≡ (false, c')
      → (k : ℕ) × (written c' ≡ written c ++ take k bs)
  pub send_up :
      (c : Conn) (bs : Bytes) → IsUp c → (c' : Conn) × (send_all c bs ≡ (true, c')) × IsUp c'
