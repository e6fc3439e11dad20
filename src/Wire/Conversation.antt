-- ===== src/Wire/Conversation.antt =====
-- Frames that one side sends one after the other (agent/src/common/channel.cpp) and that the loop of the
-- other side receives.
use webhook_ops.Common.{
  ℕ, zero, suc, ◌≡◌, refl, sym, ap, ◌∙◌, Bool, true, List, [], ◌∷◌, ◌++◌, append_assoc, append-nil,
  Bytes, length, All, if◌then◌else◌,
}
use webhook_ops.Net.Stream.{Stream}
use webhook_ops.Wire.{Frame, Incoming, frame, send_frame, recv_frame}
use webhook_ops.Wire.Header.{IsFrame, encode}
use webhook_ops.Wire.Sending.{send_frame-up}
use webhook_ops.Wire.Receiving.Frames.{recv_frame-encode}

abbrev pub encode_all : List Frame → Bytes
encode_all [] = []
encode_all (f ∷ frames) = encode f ++ encode_all frames

module _ (stream : Stream) where
  open stream use {Conn, pending, written, IsUp}

  unfoldable pub send_frames : List Frame → Conn → Bool × Conn
  unfolding send_frame
  send_frames [] c = (true, c)
  send_frames (f ∷ frames) c =
      let r = send_frame stream c f in let rest = send_frames frames r.1 in if r.0 then rest else r

  -- A loop that ends when no frame is received.
  abbrev go_on : (Conn → List Frame × Conn) → Incoming × Conn → List Frame × Conn
  go_on continue (frame f, c) = let r = continue c in (f ∷ r.0, r.1)
  go_on continue (_, c) = ([], c)

  -- The frames of so many rounds of the loop.
  unfoldable pub recv_frames : ℕ → Conn → List Frame × Conn
  unfolding recv_frame
  recv_frames zero c = ([], c)
  recv_frames (suc n) c = go_on (recv_frames n) (recv_frame stream c)

  send_frames-up :
      (frames : List Frame) (c : Conn)
      → All IsFrame frames
      → IsUp c
      → (c' : Conn) × (send_frames frames c ≡ (true, c'))
        × (written c' ≡ written c ++ encode_all frames)
        × IsUp c'
  unfolding send_frames
  send_frames-up [] c v up = (c, refl, sym (append-nil (written c)), up)
  send_frames-up (f ∷ frames) c (is_frame, v) up =
      let (c₁, r, wrote, up₁) = send_frame-up stream c f up is_frame.fits in
      let (c', r', wrote', up') = send_frames-up frames c₁ v up₁ in
      (
        c',
        ap (λ (x : Bool × Conn). if x.0 then send_frames frames x.1 else x) r ∙ r',
        wrote'
            ∙ ap (λ t. t ++ encode_all frames) wrote
            ∙ append_assoc (written c) (encode f) (encode_all frames),
        up',
      )

  recv_frames-encode_all :
      (frames : List Frame) (c : Conn) (rest : Bytes)
      → All IsFrame frames
      → IsUp c
      → pending c ≡ encode_all frames ++ rest
      → (c' : Conn) × (recv_frames (length frames) c ≡ (frames, c')) × (pending c' ≡ rest) × IsUp c'
  unfolding recv_frames
  recv_frames-encode_all [] c rest v up e = (c, refl, e, up)
  recv_frames-encode_all (f ∷ frames) c rest (is_frame, v) up e =
      let (c₁, r, next, up₁) =
        recv_frame-encode stream c f (encode_all frames ++ rest) is_frame up
          (e ∙ append_assoc (encode f) (encode_all frames) rest) in
      let (c', r', next', up') = recv_frames-encode_all frames c₁ rest v up₁ next in
      (
        c',
        ap (go_on (recv_frames (length frames))) r
            ∙ ap (λ (y : List Frame × Conn). (f ∷ y.0, y.1)) r',
        next',
        up',
      )

module _ (near far : Stream) where
  -- Whatever well-formed frames are sent on a connection that is up and on which nothing was sent
  -- before, all are sent, and a peer whose connection is up and to which the bytes come, however they
  -- are cut, receives exactly these frames, in their order, and nothing behind them.
  pub recv_frames-send_frames :
      (frames : List Frame) (c : near.Conn) (d : far.Conn) (rest : Bytes)
      → All IsFrame frames
      → near.IsUp c
      → far.IsUp d
      → near.written c ≡ []
      → far.pending d ≡ near.written (send_frames near frames c).1 ++ rest
      → ((send_frames near frames c).0 ≡ true)
        × ((recv_frames far (length frames) d).0 ≡ frames)
        × (far.pending (recv_frames far (length frames) d).1 ≡ rest)
  recv_frames-send_frames frames c d rest v up far_up fresh comes =
      let (c', sent, wrote, _) = send_frames-up near frames c v up in
      let all =
        ap (λ (x : Bool × near.Conn). near.written x.1) sent
        ∙ wrote
        ∙ ap (λ t. t ++ encode_all frames) fresh in
      let (d', received, left, _) =
        recv_frames-encode_all far frames d rest v far_up (comes ∙ ap (λ t. t ++ rest) all) in
      (
        ap (λ (x : Bool × near.Conn). x.0) sent,
        ap (λ (x : List Frame × far.Conn). x.0) received,
        ap (λ (x : List Frame × far.Conn). far.pending x.1) received ∙ left,
      )
