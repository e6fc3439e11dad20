-- ===== src/Wire/Sending.antt =====
-- What `Channel::send_frame` of agent/src/common/channel.cpp puts on a connection.
use webhook_ops.Common.{
  ◌≤◌, ◌<◌, ◌≡◌, refl, sym, ap, ◌∙◌, Bool, true, false, [], ◌∷◌, ◌++◌, append_assoc, append-nil,
  arith, Bytes, length, ltb, ◌⊎◌, inl, inr, Bool-cases,
}
use webhook_ops.Net.Stream.{Stream}
use webhook_ops.Wire.{Frame, max_frame_payload, make_header, send_payload, send_frame}
use webhook_ops.Wire.Header.{encode}

Bool-result {κ} :
    {C : Type κ} (r : Bool × C) → ((c : C) × (r ≡ (true, c))) ⊎ ((c : C) × (r ≡ (false, c)))
Bool-result (true, c) = inl (c, refl)
Bool-result (false, c) = inr (c, refl)

module _ (stream : Stream) where
  open stream use {Conn, send_all, written, IsUp}

  -- A payload over the limit is refused before anything is sent.
  pub send_frame_too_large :
      (c : Conn) (f : Frame)
      → max_frame_payload < length f.payload
      → send_frame stream c f ≡ (false, c)
  unfolding send_frame
  send_frame_too_large c f h = ground arith

  send_frame-fits :
      (c : Conn) (f : Frame)
      → length f.payload ≤ max_frame_payload
      → send_frame stream c f ≡ send_payload send_all f.payload (send_all c (make_header f))
  unfolding send_frame
  send_frame-fits c f h = ground arith

  send_payload-sent :
      (c c₁ c' : Conn) (header payload : Bytes)
      → written c₁ ≡ written c ++ header
      → send_payload send_all payload (true, c₁) ≡ (true, c')
      → written c' ≡ written c ++ (header ++ payload)
  unfolding send_payload
  send_payload-sent c c₁ c' header [] w e =
      ap (λ (r : Bool × Conn). written r.1) (sym e)
      ∙ w
      ∙ ap (λ t. written c ++ t) (sym (append-nil header))
  send_payload-sent c c₁ c' header (b ∷ rest) w e =
      stream.send_done c₁ c' (b ∷ rest) e
      ∙ ap (λ t. t ++ b ∷ rest) w
      ∙ append_assoc (written c) header (b ∷ rest)

  -- A frame that was sent is on the connection whole, and within the limit.
  pub send_frame-sent :
      (c c' : Conn) (f : Frame)
      → send_frame stream c f ≡ (true, c')
      → (length f.payload ≤ max_frame_payload) × (written c' ≡ written c ++ encode f)
  unfolding send_payload
  send_frame-sent c c' f e = elim (Bool-cases (ltb max_frame_payload (length f.payload))) [
    | inl large ↦
        let x : ◌≡◌ {A = Bool × Conn} (false, c) (true, c') =
          sym (send_frame_too_large c f (ground arith)) ∙ e in
        cc
    | inr fits ↦
        let fits' : length f.payload ≤ max_frame_payload = ground arith in
        let e' = sym (send_frame-fits c f fits') ∙ e in
        elim (Bool-result (send_all c (make_header f))) [
          | inl (c₁, r) ↦ (
            fits',
            send_payload-sent c c₁ c' (make_header f) f.payload (stream.send_done c c₁ _ r)
                (ap (send_payload send_all f.payload) (sym r) ∙ e'),
          )
          | inr (c₁, r) ↦
              let x : ◌≡◌ {A = Bool × Conn} (false, c₁) (true, c') =
                ap (send_payload send_all f.payload) (sym r) ∙ e' in
              cc
        ]
  ]

  send_payload-up :
      (c₁ : Conn) (payload : Bytes)
      → IsUp c₁
      → (c' : Conn) × (send_payload send_all payload (true, c₁) ≡ (true, c')) × IsUp c'
  unfolding send_payload
  send_payload-up c₁ [] up = (c₁, refl, up)
  send_payload-up c₁ (b ∷ rest) up = stream.send_up c₁ (b ∷ rest) up

  -- On a connection that is up every frame within the limit is sent.
  pub send_frame-up :
      (c : Conn) (f : Frame)
      → IsUp c
      → length f.payload ≤ max_frame_payload
      → (c' : Conn) × (send_frame stream c f ≡ (true, c'))
        × (written c' ≡ written c ++ encode f)
        × IsUp c'
  send_frame-up c f up fits =
      let (c₁, r, up₁) = stream.send_up c (make_header f) up in
      let (c', r', up') = send_payload-up c₁ f.payload up₁ in
      let e = send_frame-fits c f fits ∙ ap (send_payload send_all f.payload) r ∙ r' in
      (c', e, (send_frame-sent c c' f e).1, up')
