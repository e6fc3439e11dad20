-- ===== src/Tunnel/Header.antt =====
-- The header of a proxy client's request: `read_http_header` of agent/src/tunnel/main.cpp.
pub mod Reading
use webhook_ops.Common.{
  ℕ, zero, suc, ◌+◌, ◌*◌, ◌≤◌, ◌<◌, ◌≡◌, ◌≢◌, refl, sym, ap, ◌∙◌, Bool, true, false, Option, none,
  some, List, [], ◌∷◌, ◌++◌, append_assoc, arith, Bytes, length, length-append, take, drop,
  take-append-drop, length-take, eqb, ltb, Bool-cases, Option-cases, inl, inr, if◌then◌else◌,
}
use webhook_ops.Net.Stream.{Stream, Received, got, closed, failed}

abbrev pub marker : Bytes
marker = b'\r' ∷ b'\n' ∷ b'\r' ∷ b'\n' ∷ []

abbrev pub after : Option ℕ → Option ℕ
after none = none
after (some n) = some (suc n)

-- The place behind the first marker.
unfoldable pub header_end : Bytes → Option ℕ
header_end [] = none
header_end (c ∷ s) =
    let later = header_end s in if eqb (take 4 (c ∷ s)) marker then some 4 else after later

pub data HeaderRead : Type 0 where
  -- The header, and what came behind it.
  header : Bytes → Bytes → HeaderRead
  not_received too_long out_of_rounds : HeaderRead

abbrev pub max_header : ℕ
max_header = 64 * 1024

-- The buffer with the bytes that were received last.
unfoldable pub look : {C : Type 0} → (C → Bytes → HeaderRead × C) → Bytes → C → HeaderRead × C
unfolding header_end
look continue buffer c = elim (header_end buffer) [
  | none ↦ continue c buffer
  | some n ↦ (header (take n buffer) (drop n buffer), c)
]

unfoldable pub read_next :
    {C : Type 0} → (C → Bytes → HeaderRead × C) → Bytes → Received × C → HeaderRead × C
unfolding look
read_next continue buffer (got bs, c) = look continue (buffer ++ bs) c
read_next continue buffer (closed, c) = (not_received, c)
read_next continue buffer (failed, c) = (not_received, c)

module _ (stream : Stream) where
  open stream use {Conn, recv_some, pending}

  unfoldable pub read_loop : ℕ → Conn → Bytes → HeaderRead × Conn
  unfolding read_next
  read_loop zero c buffer = (if ltb (length buffer) max_header then out_of_rounds else too_long, c)
  read_loop (suc rounds) c buffer =
      let more = read_next (read_loop rounds) buffer (recv_some c 4096) in
      if ltb (length buffer) max_header then more else (too_long, c)

  -- Each round receives at least one byte.
  unfoldable pub read_http_header : Conn → HeaderRead × Conn
  unfolding read_loop
  read_http_header c = read_loop max_header c []
