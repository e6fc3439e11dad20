-- ===== src/Net/Transfer/Sending.antt =====
-- What the loop of `send_all` (agent/src/common/net.cpp) hands to the socket.
use mathlib.Core.List.{append_assoc, append-nil}
use webhook_ops.Common.{
  ℕ, zero, suc, ◌+◌, ◌≤◌, ◌<◌, ◌≡◌, ◌≢◌, refl, sym, ap, ◌∙◌, Bool, true, false, none, some, [], ◌∷◌,
  ◌++◌, arith, Bytes, length, take, drop, length-drop, length-take, Result-cases, take-take,
  take-append-take-drop, take-length, inl, inr,
}
use webhook_ops.Net.Posix.{Posix}
use webhook_ops.Net.Stream.{got, closed, Stream}
use webhook_ops.Net.Transfer.{
  Sent, sent, refused, out_of_rounds, chunk_size, chunk, send_next, send_loop, send_all, is_sent,
  recv_some,
}

chunk-ne-nil : (b : ℕ) (rest : Bytes) → chunk (b ∷ rest) ≢ []
unfolding chunk
chunk-ne-nil b rest e =
    let n : length (take (chunk_size (suc (length rest))) (b ∷ rest)) ≡ 0 = ap length e in
    ground (arith, length-take (chunk_size (suc (length rest))) (b ∷ rest))

sent_of_true : (o : Sent) → is_sent o ≡ true → o ≡ sent
sent_of_true sent e = refl
sent_of_true refused e = cc
sent_of_true out_of_rounds e = cc

pub chunk_size_bounds : (n : ℕ) → 0 < n → (0 < chunk_size n) × (chunk_size n ≤ n)
chunk_size_bounds n h = ground arith

module _ (os : Posix) where
  open os use {Sock, recv, send, pending, written, IsUp}

  -- What one successful call of `send` moves.
  record Moved (s s' : Sock) (bs : Bytes) (k : ℕ) : Type 0 where
    positive : 0 < k
    inside : k ≤ length bs
    wrote : written s' ≡ written s ++ take k bs

  send-Moved :
      (s s' : Sock) (b : ℕ) (rest : Bytes) (k : ℕ)
      → send s (chunk (b ∷ rest)) ≡ (some k, s')
      → Moved s s' (b ∷ rest) k
  unfolding chunk
  send-Moved s s' b rest k e =
      let bs : Bytes = b ∷ rest in
      let m = chunk_size (length bs) in
      let (positive, inside, wrote) = os.send_some s s' _ k (chunk-ne-nil b rest) e in
      let fits : k ≤ m = omega (arith, length-take m bs) in
      record {
        positive = positive;
        inside = omega (arith, length-take m bs);
        wrote = wrote ∙ ap (λ t. written s ++ t) (take-take k m bs fits);
      }

  send_loop-refused :
      (rounds : ℕ) (s s' : Sock) (b : ℕ) (rest : Bytes)
      → send s (chunk (b ∷ rest)) ≡ (none, s')
      → send_loop os (suc rounds) s (b ∷ rest) ≡ (refused, s')
  unfolding send_loop
  send_loop-refused rounds s s' b rest e = ap (send_next (send_loop os rounds) (b ∷ rest)) e

  send_loop-moved :
      (rounds : ℕ) (s s' : Sock) (b : ℕ) (rest : Bytes) (k : ℕ)
      → send s (chunk (b ∷ rest)) ≡ (some k, s')
      → send_loop os (suc rounds) s (b ∷ rest) ≡ send_loop os rounds s' (drop k (b ∷ rest))
  unfolding send_loop
  send_loop-moved rounds s s' b rest k e = ap (send_next (send_loop os rounds) (b ∷ rest)) e

  -- What a run of the loop wrote is an initial part of the bytes, all of them if it succeeds.
  record Wrote (s : Sock) (bs : Bytes) (r : Sent × Sock) : Type 0 where
    count : ℕ
    inside : count ≤ length bs
    wrote : written r.1 ≡ written s ++ take count bs
    whole : r.0 ≡ sent → count ≡ length bs

  Wrote-more :
      (s s' : Sock) (bs : Bytes) (k : ℕ) (r : Sent × Sock)
      → Moved s s' bs k
      → Wrote s' (drop k bs) r
      → Wrote s bs r
  Wrote-more s s' bs k r m w = record {
    count = k + w.count;
    inside = omega (arith, length-drop k bs, m.inside, w.inside);
    wrote =
        w.wrote
        ∙ ap (λ t. t ++ take w.count (drop k bs)) m.wrote
        ∙ append_assoc (written s) (take k bs) _
        ∙ ap (λ t. written s ++ t) (take-append-take-drop k w.count bs m.inside);
    whole = λ e. omega (arith, length-drop k bs, m.inside, w.whole e);
  }

  Wrote-nothing :
      (s s' : Sock) (bs : Bytes) (o : Sent)
      → written s' ≡ written s
      → (o ≡ sent → 0 ≡ length bs)
      → Wrote s bs (o, s')
  Wrote-nothing s s' bs o e whole = record {
    count = 0;
    inside = omega arith;
    wrote = e ∙ sym (append-nil _);
    whole = whole;
  }

  send_loop-Wrote : (rounds : ℕ) (s : Sock) (bs : Bytes) → Wrote s bs (send_loop os rounds s bs)
  send_loop-Wrote zero s [] = unfold send_loop in Wrote-nothing s s [] sent refl (λ _. refl)
  send_loop-Wrote (suc rounds) s [] = unfold send_loop in Wrote-nothing s s [] sent refl (λ _. refl)
  send_loop-Wrote zero s (b ∷ rest) =
      unfold send_loop in Wrote-nothing s s (b ∷ rest) out_of_rounds refl (λ e. cc)
  send_loop-Wrote (suc rounds) s (b ∷ rest) = elim (Result-cases (send s (chunk (b ∷ rest)))) [
    | inl (s', e) ↦
        rw (send_loop-refused rounds s s' b rest e)
          (Wrote-nothing s s' (b ∷ rest) refused (os.send_none s s' _ e) (λ h. cc))
    | inr (k, s', e) ↦ rw (send_loop-moved rounds s s' b rest k e) (
        Wrote-more s s' (b ∷ rest) k _ (send-Moved s s' b rest k e)
          (send_loop-Wrote rounds s' (drop k (b ∷ rest))))
  ]

  -- On a connection that is up the loop sends everything, within one round for each byte.
  send_loop-up :
      (rounds : ℕ) (s : Sock) (bs : Bytes)
      → length bs ≤ rounds
      → IsUp s
      → (s' : Sock) × (send_loop os rounds s bs ≡ (sent, s')) × IsUp s'
  send_loop-up zero s [] h up = unfold send_loop in (s, refl, up)
  send_loop-up (suc rounds) s [] h up = unfold send_loop in (s, refl, up)
  send_loop-up zero s (b ∷ rest) h up = absurd (omega arith)
  send_loop-up (suc rounds) s (b ∷ rest) h up =
      let (k, s', e, up') = os.send_up s (chunk (b ∷ rest)) (chunk-ne-nil b rest) up in
      let m = send-Moved s s' b rest k e in
      rw (send_loop-moved rounds s s' b rest k e) (
        send_loop-up rounds s' (drop k (b ∷ rest))
          (omega (arith, length-drop k (b ∷ rest), m.positive)) up')

  -- `send_all` always ends by the connection's word: the rounds are enough.
  send_loop-rounds :
      (rounds : ℕ) (s : Sock) (bs : Bytes)
      → length bs ≤ rounds
      → (send_loop os rounds s bs).0 ≢ out_of_rounds
  send_loop-rounds zero s [] h e = unfold send_loop in cc
  send_loop-rounds (suc rounds) s [] h e = unfold send_loop in cc
  send_loop-rounds zero s (b ∷ rest) h e = absurd (omega arith)
  send_loop-rounds (suc rounds) s (b ∷ rest) h x = elim (Result-cases (send s (chunk (b ∷ rest)))) [
    | inl (s', e) ↦
        let w : refused ≡ out_of_rounds = rw (send_loop-refused rounds s s' b rest e) at x in cc
    | inr (k, s', e) ↦
        let m = send-Moved s s' b rest k e in
        send_loop-rounds rounds s' (drop k (b ∷ rest))
          (omega (arith, length-drop k (b ∷ rest), m.positive))
          (rw (send_loop-moved rounds s s' b rest k e) at x)
  ]

  -- Whatever the connection does, `send_all` ends by its word (the loop needs no more rounds than
  -- there are bytes), what it handed over is an initial part of the bytes, and it answers true only
  -- if that part is all of them.
  pub send_all-written :
      (s : Sock) (bs : Bytes)
      → (k : ℕ) × (written (send_all os s bs).1 ≡ written s ++ take k bs)
        × ((send_all os s bs).0 ≡ true → k ≡ length bs)
        × ((send_loop os (length bs) s bs).0 ≢ out_of_rounds)
  unfolding send_all
  send_all-written s bs =
      let w = send_loop-Wrote (length bs) s bs in
      (
        w.count,
        w.wrote,
        λ e. w.whole (sent_of_true _ e),
        send_loop-rounds (length bs) s bs (omega arith),
      )

  -- Over a socket that is up all bytes are sent, with the answer true, and the socket stays up.
  pub send_all-up :
      (s : Sock) (bs : Bytes) → IsUp s → (s' : Sock) × (send_all os s bs ≡ (true, s')) × IsUp s'
  unfolding send_all
  send_all-up s bs up =
      let (s', e, up') = send_loop-up (length bs) s bs (omega arith) up in
      (s', ap (λ (r : Sent × Sock). (is_sent r.0, r.1)) e, up')

  pub send_all-done :
      (s s' : Sock) (bs : Bytes) → send_all os s bs ≡ (true, s') → written s' ≡ written s ++ bs
  send_all-done s s' bs e =
      let (k, wrote, whole, _) = send_all-written s bs in
      let n : k ≡ length bs = whole (ap (λ (r : Bool × Sock). r.0) e) in
      ap (λ (r : Bool × Sock). written r.1) (sym e)
      ∙ wrote
      ∙ ap (λ t. written s ++ t) (ap (λ m. take m bs) n ∙ take-length bs)

  pub send_all-part :
      (s s' : Sock) (bs : Bytes)
      → send_all os s bs ≡ (false, s')
      → (k : ℕ) × (written s' ≡ written s ++ take k bs)
  send_all-part s s' bs e =
      let (k, wrote, _, _) = send_all-written s bs in
      (k, ap (λ (r : Bool × Sock). written r.1) (sym e) ∙ wrote)

  pub recv_some-got :
      (s : Sock) (n : ℕ) (bs : Bytes) (s' : Sock)
      → 0 < n
      → recv_some os s n ≡ (got bs, s')
      → (bs ≢ []) × (length bs ≤ n) × (pending s ≡ bs ++ pending s')
  unfolding recv_some
  recv_some-got s n bs s' h e =
      let (more, inside, read) = os.recv_got s (chunk_size n) bs s' (chunk_size_bounds n h).0 e in
      (more, omega (arith, chunk_size_bounds n h), read)

  pub recv_some-up :
      (s : Sock) (n : ℕ)
      → 0 < n
      → IsUp s
      → pending s ≢ []
      → (bs : Bytes) × (s' : Sock) × (recv_some os s n ≡ (got bs, s')) × IsUp s'
  unfolding recv_some
  recv_some-up s n h = os.recv_up s (chunk_size n) (chunk_size_bounds n h).0

  pub recv_some-end :
      (s : Sock) (n : ℕ)
      → 0 < n
      → IsUp s
      → pending s ≡ []
      → (s' : Sock) × (recv_some os s n ≡ (closed, s'))
  unfolding recv_some
  recv_some-end s n h = os.recv_end s (chunk_size n) (chunk_size_bounds n h).0

  -- A socket of the operating system, used through `recv_some` and `send_all`, is a byte stream.
  abbrev pub socket_stream : Stream
  socket_stream = record {
    Conn = Sock;
    recv_some = recv_some os;
    send_all = send_all os;
    pending = pending;
    written = written;
    IsUp = IsUp;
    recv_got = recv_some-got;
    recv_up = recv_some-up;
    recv_end = recv_some-end;
    send_done = send_all-done;
    send_part = send_all-part;
    send_up = send_all-up;
  }
