-- ===== src/Channel/Transfer.antt =====
-- `Channel::send_all` and `Channel::recv_some` of agent/src/common/channel.cpp: over the socket, or over
-- `SSL_write` and `SSL_read`, which are parameters with the behaviour that `Posix` states.
use webhook_ops.Common.{
  ℕ, ◌≤◌, ◌<◌, ◌≡◌, ◌≢◌, sym, ap, ◌∙◌, Bool, true, false, ◌++◌, [], Bytes, length, take,
}
use webhook_ops.Net.Posix.{Posix}
use webhook_ops.Net.Stream.{Received, got, closed, Stream}
use webhook_ops.Net.Transfer.{recv_some, send_all}
use webhook_ops.Net.Transfer.Sending.{
  recv_some-got, recv_some-up, recv_some-end, send_all-done, send_all-part, send_all-up,
}

-- A channel without and with `ssl_`.
pub data Carrier (S T : Type 0) : Type 0 where
  bare : S → Carrier S T
  wrapped : T → Carrier S T

module _ (os tls : Posix) where
  abbrev pub Conn : Type 0
  Conn = Carrier os.Sock tls.Sock

  abbrev on_bare : {A : Type 0} → A × os.Sock → A × Conn
  on_bare (answer, s) = (answer, bare s)

  abbrev on_wrapped : {A : Type 0} → A × tls.Sock → A × Conn
  on_wrapped (answer, s) = (answer, wrapped s)

  unfoldable pub channel_send_all : Conn → Bytes → Bool × Conn
  channel_send_all (bare s) bs = on_bare (send_all os s bs)
  channel_send_all (wrapped s) bs = on_wrapped (send_all tls s bs)

  unfoldable pub channel_recv_some : Conn → ℕ → Received × Conn
  channel_recv_some (bare s) len = on_bare (recv_some os s len)
  channel_recv_some (wrapped s) len = on_wrapped (recv_some tls s len)

  abbrev pub pending : Conn → Bytes
  pending (bare s) = os.pending s
  pending (wrapped s) = tls.pending s

  abbrev pub written : Conn → Bytes
  written (bare s) = os.written s
  written (wrapped s) = tls.written s

  abbrev pub IsWorking : Conn → Type 0
  IsWorking (bare s) = os.IsUp s
  IsWorking (wrapped s) = tls.IsUp s

  -- An answer on a channel comes from an answer of what carries it.
  from_bare :
      {A : Type 0} (r : A × os.Sock) (a : A) (c' : Conn)
      → on_bare r ≡ (a, c')
      → (s' : os.Sock) × (r ≡ (a, s')) × (c' ≡ bare s')
  from_bare (x, s) a c' e =
      (s, ap (λ y. (y, s)) (ap (λ (z : _ × Conn). z.0) e), sym (ap (λ (z : _ × Conn). z.1) e))

  from_wrapped :
      {A : Type 0} (r : A × tls.Sock) (a : A) (c' : Conn)
      → on_wrapped r ≡ (a, c')
      → (s' : tls.Sock) × (r ≡ (a, s')) × (c' ≡ wrapped s')
  from_wrapped (x, s) a c' e =
      (s, ap (λ y. (y, s)) (ap (λ (z : _ × Conn). z.0) e), sym (ap (λ (z : _ × Conn). z.1) e))

  pub recv_got :
      (c : Conn) (n : ℕ) (bs : Bytes) (c' : Conn)
      → 0 < n
      → channel_recv_some c n ≡ (got bs, c')
      → (bs ≢ []) × (length bs ≤ n) × (pending c ≡ bs ++ pending c')
  unfolding channel_recv_some
  recv_got (bare s) n bs c' h e =
      let (s', r, same) = from_bare (recv_some os s n) (got bs) c' e in
      let (more, inside, read) = recv_some-got os s n bs s' h r in
      (more, inside, read ∙ ap (λ x. bs ++ pending x) (sym same))
  recv_got (wrapped s) n bs c' h e =
      let (s', r, same) = from_wrapped (recv_some tls s n) (got bs) c' e in
      let (more, inside, read) = recv_some-got tls s n bs s' h r in
      (more, inside, read ∙ ap (λ x. bs ++ pending x) (sym same))

  pub recv_up :
      (c : Conn) (n : ℕ)
      → 0 < n
      → IsWorking c
      → pending c ≢ []
      → (bs : Bytes) × (c' : Conn) × (channel_recv_some c n ≡ (got bs, c')) × IsWorking c'
  unfolding channel_recv_some
  recv_up (bare s) n h up more =
      let (bs, s', r, up') = recv_some-up os s n h up more in (bs, bare s', ap on_bare r, up')
  recv_up (wrapped s) n h up more =
      let (bs, s', r, up') = recv_some-up tls s n h up more in
      (bs, wrapped s', ap on_wrapped r, up')

  pub recv_end :
      (c : Conn) (n : ℕ)
      → 0 < n
      → IsWorking c
      → pending c ≡ []
      → (c' : Conn) × (channel_recv_some c n ≡ (closed, c'))
  unfolding channel_recv_some
  recv_end (bare s) n h up none_left =
      let (s', r) = recv_some-end os s n h up none_left in (bare s', ap on_bare r)
  recv_end (wrapped s) n h up none_left =
      let (s', r) = recv_some-end tls s n h up none_left in (wrapped s', ap on_wrapped r)

  pub send_done :
      (c c' : Conn) (bs : Bytes) → channel_send_all c bs ≡ (true, c') → written c' ≡ written c ++ bs
  unfolding channel_send_all
  send_done (bare s) c' bs e =
      let (s', r, same) = from_bare (send_all os s bs) true c' e in
      ap written same ∙ send_all-done os s s' bs r
  send_done (wrapped s) c' bs e =
      let (s', r, same) = from_wrapped (send_all tls s bs) true c' e in
      ap written same ∙ send_all-done tls s s' bs r

  pub send_part :
      (c c' : Conn) (bs : Bytes)
      → channel_send_all c bs ≡ (false, c')
      → (k : ℕ) × (written c' ≡ written c ++ take k bs)
  unfolding channel_send_all
  send_part (bare s) c' bs e =
      let (s', r, same) = from_bare (send_all os s bs) false c' e in
      let (k, wrote) = send_all-part os s s' bs r in (k, ap written same ∙ wrote)
  send_part (wrapped s) c' bs e =
      let (s', r, same) = from_wrapped (send_all tls s bs) false c' e in
      let (k, wrote) = send_all-part tls s s' bs r in (k, ap written same ∙ wrote)

  pub send_up :
      (c : Conn) (bs : Bytes)
      → IsWorking c
      → (c' : Conn) × (channel_send_all c bs ≡ (true, c')) × IsWorking c'
  unfolding channel_send_all
  send_up (bare s) bs up = let (s', r, up') = send_all-up os s bs up in (bare s', ap on_bare r, up')
  send_up (wrapped s) bs up =
      let (s', r, up') = send_all-up tls s bs up in (wrapped s', ap on_wrapped r, up')

  -- A channel is a byte stream, so frames go over it.
  abbrev pub channel_stream : Stream
  channel_stream = record {
    Conn = Conn;
    recv_some = channel_recv_some;
    send_all = channel_send_all;
    pending = pending;
    written = written;
    IsUp = IsWorking;
    recv_got = recv_got;
    recv_up = recv_up;
    recv_end = recv_end;
    send_done = send_done;
    send_part = send_part;
    send_up = send_up;
  }
