-- ===== src/Net/Transfer.antt =====
-- `send_all` and `recv_some` of agent/src/common/net.cpp over the operating system's calls.
pub mod Sending
use mathlib.Core.List.{append_assoc, append-nil}
use webhook_ops.Common.{
  ℕ, zero, suc, ◌+◌, ◌-◌, ◌≤◌, ◌<◌, ◌≡◌, ◌≢◌, refl, sym, ap, ◌∙◌, Bool, true, false, Option, none,
  some, List, [], ◌∷◌, ◌++◌, arith, Bytes, length, take, drop, length-drop, length-take,
  take-append-drop, ltb, if◌then◌else◌, Result-cases, take-take, take-append-take-drop, inl, inr,
  min,
}
use webhook_ops.Net.Posix.{Posix}
use webhook_ops.Net.Stream.{Received, Stream}

-- No call moves more than 64 KiB.
abbrev pub max_chunk : ℕ
max_chunk = 65536

abbrev pub chunk_size : ℕ → ℕ
chunk_size len = if ltb max_chunk len then max_chunk else len

pub data Sent : Type 0 where
  sent refused out_of_rounds : Sent

-- The bytes that the next call of `send` is given.
unfoldable pub chunk : Bytes → Bytes
chunk bs = take (chunk_size (length bs)) bs

-- One call of `send` on what remains, and the rest of the loop behind it.
unfoldable pub send_next : {S : Type 0} → (S → Bytes → Sent × S) → Bytes → Option ℕ × S → Sent × S
send_next continue bs (none, s) = (refused, s)
send_next continue bs (some k, s) = continue s (drop k bs)

abbrev pub is_sent : Sent → Bool
is_sent sent = true
is_sent refused = false
is_sent out_of_rounds = false

module _ (os : Posix) where
  open os use {Sock, recv, send, pending, written, IsUp}

  unfoldable pub recv_some : Sock → ℕ → Received × Sock
  recv_some s len = recv s (chunk_size len)

  -- The loop of `send_all` over the bytes that remain; each round moves at least one.
  unfoldable pub send_loop : ℕ → Sock → Bytes → Sent × Sock
  unfolding send_next
  send_loop rounds s [] = (sent, s)
  send_loop zero s (b ∷ rest) = (out_of_rounds, s)
  send_loop (suc rounds) s (b ∷ rest) =
      send_next (send_loop rounds) (b ∷ rest) (send s (chunk (b ∷ rest)))

  unfoldable pub send_all : Sock → Bytes → Bool × Sock
  send_all s bs = let r = send_loop (length bs) s bs in (is_sent r.0, r.1)
