-- ===== src/Wire/Receiving/Frames.antt =====
-- `Channel::recv_frame` of agent/src/common/channel.cpp returns the frames that were sent.
use webhook_ops.Common.{
  ◌≤◌, ◌<◌, ◌≡◌, ◌≢◌, refl, sym, ap, ◌∙◌, true, false, [], ◌++◌, append_assoc, arith, Bytes, length,
  length-append, append_split, drop, ltb, if◌then◌else◌, Bool-cases, inl, inr,
}
use webhook_ops.Net.Stream.{Stream}
use webhook_ops.Wire.{
  Frame, max_frame_payload, load_be32, make_header, header_length, complete, frame, refused,
  connection_closed, payload_too_large, with_payload, with_header, recv_exact, recv_frame,
}
use webhook_ops.Wire.Header.{
  IsFrame, encode, length-make_header, header_type-make_header, header_id-make_header,
  header_size-make_header,
}
use webhook_ops.Wire.Receiving.Exactly.{recv_loop-complete, recv_loop-closed, length-pos}

module _ (stream : Stream) where
  open stream use {Conn, pending, IsUp}

  recv_exact-complete :
      (c : Conn) (part rest : Bytes)
      → IsUp c
      → pending c ≡ part ++ rest
      → (c' : Conn) × (recv_exact stream c (length part) ≡ (complete part, c'))
        × (pending c' ≡ rest)
        × IsUp c'
  unfolding recv_exact
  recv_exact-complete c part rest up e =
      recv_loop-complete stream (length part) c (length part) [] part rest (omega arith) up e refl

  pub recv_frame-header :
      (c c₁ : Conn) (header : Bytes)
      → recv_exact stream c header_length ≡ (complete header, c₁)
      → load_be32 (drop 5 header) ≤ max_frame_payload
      → recv_frame stream c ≡ with_payload header (recv_exact stream c₁ (load_be32 (drop 5 header)))
  unfolding recv_frame with_header
  recv_frame-header c c₁ header e fits =
      let small : ltb max_frame_payload (load_be32 (drop 5 header)) ≡ false = ground arith in
      ap (with_header (recv_exact stream)) e
      ∙ ap
          (λ b.
            if b
            then (refused payload_too_large, c₁)
            else with_payload header (recv_exact stream c₁ (load_be32 (drop 5 header))))
          small

  -- A length over the limit is refused before any byte of the payload is read.
  pub recv_frame_too_large :
      (c c₁ : Conn) (header : Bytes)
      → recv_exact stream c header_length ≡ (complete header, c₁)
      → max_frame_payload < load_be32 (drop 5 header)
      → recv_frame stream c ≡ (refused payload_too_large, c₁)
  unfolding recv_frame with_header
  recv_frame_too_large c c₁ header e large =
      let big : ltb max_frame_payload (load_be32 (drop 5 header)) ≡ true = ground arith in
      ap (with_header (recv_exact stream)) e
      ∙ ap
          (λ b.
            if b
            then (refused payload_too_large, c₁)
            else with_payload header (recv_exact stream c₁ (load_be32 (drop 5 header))))
          big

  -- A frame that stands next on a connection that is up is received as it was sent, however the
  -- connection cuts its bytes, and nothing behind it is read.
  pub recv_frame-encode :
      (c : Conn) (f : Frame) (rest : Bytes)
      → IsFrame f
      → IsUp c
      → pending c ≡ encode f ++ rest
      → (c' : Conn) × (recv_frame stream c ≡ (frame f, c')) × (pending c' ≡ rest) × IsUp c'
  unfolding with_payload
  recv_frame-encode c f rest v up e =
      let (c₁, r₁, next₁, up₁) =
        recv_exact-complete c (make_header f) (f.payload ++ rest) up
          (e ∙ append_assoc (make_header f) f.payload rest) in
      let (c', r₂, next₂, up₂) = recv_exact-complete c₁ f.payload rest up₁ next₁ in
      let size = header_size-make_header v in
      (
        c',
        recv_frame-header c c₁ (make_header f)
              (ap (recv_exact stream c) (sym (length-make_header f)) ∙ r₁)
              (omega (arith, size, v.fits))
            ∙ ap (λ n. with_payload (make_header f) (recv_exact stream c₁ n)) size
            ∙ ap (with_payload (make_header f)) r₂
            ∙ (λ i. (
              frame (record {
                frame_type = header_type-make_header v i;
                stream_id = header_id-make_header v i;
                payload = f.payload;
              }),
              c',
            )),
        next₂,
        up₂,
      )

  -- A connection that ends inside a frame delivers no part of it.
  pub recv_frame-cut :
      (c : Conn) (f : Frame) (missing : Bytes)
      → IsFrame f
      → IsUp c
      → encode f ≡ pending c ++ missing
      → missing ≢ []
      → (c' : Conn) × (recv_frame stream c ≡ (refused connection_closed, c'))
  unfolding with_payload
  recv_frame-cut c f missing v up e more =
      elim (Bool-cases (ltb (length (pending c)) header_length)) [
        | inl short ↦
            let (c', r) =
              recv_loop-closed stream header_length c header_length [] (omega arith) up
                (ground arith) in
            (c', unfold recv_frame recv_exact with_header in ap (with_header (recv_exact stream)) r)
        | inr long ↦
            let (part, same, next) =
              append_split (make_header f) f.payload (pending c) missing (sym e)
                (ground (arith, length-make_header f)) in
            let (c₁, r₁, next₁, up₁) = recv_exact-complete c (make_header f) part up same in
            let size = header_size-make_header v in
            let (c', r₂) =
              recv_loop-closed stream (length f.payload) c₁ (length f.payload) [] (omega arith) up₁
                (omega (
                  arith,
                  ap length next,
                  length-append part missing,
                  ap length next₁,
                  length-pos missing more,
                )) in
            (
              c',
              recv_frame-header c c₁ (make_header f)
                    (ap (recv_exact stream c) (sym (length-make_header f)) ∙ r₁)
                    (omega (arith, size, v.fits))
                  ∙ ap (λ n. with_payload (make_header f) (recv_exact stream c₁ n)) size
                  ∙ (unfold recv_exact in ap (with_payload (make_header f)) r₂),
            )
      ]
