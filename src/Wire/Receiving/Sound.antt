-- ===== src/Wire/Receiving/Sound.antt =====
-- Every frame that `Channel::recv_frame` of agent/src/common/channel.cpp returns stood on the connection.
use webhook_ops.Common.{
  ℕ, ◌%◌, ◌^◌, ◌≤◌, ◌≡◌, ◌≢◌, refl, sym, ap, ap₂, ◌∙◌, subst, [], ◌∷◌, ◌++◌, append_assoc, arith,
  Bytes, IsByte, All, All-append_left, length, drop, ltb, Bool-cases, inl, inr, ◌⊎◌,
}
use webhook_ops.Net.Stream.{Stream}
use webhook_ops.Wire.{
  Frame, type_to_byte, type_of_byte, max_frame_payload, be32, load_be32, make_header, header_type,
  header_length, Exact, complete, incomplete, out_of_rounds, Incoming, frame, refused, Reason,
  payload_too_large, with_payload, with_header, recv_exact, recv_frame,
}
use webhook_ops.Wire.Header.{IsFrame, encode}
use webhook_ops.Wire.Receiving.Exactly.{recv_loop_sound, recv_loop-rounds}
use webhook_ops.Wire.Receiving.Frames.{recv_frame-header, recv_frame_too_large}

-- The header of a frame that `recv_frame` makes from nine bytes and a payload.
abbrev frame_of : Bytes → Bytes → Frame
frame_of header payload = record {
  frame_type = header_type header;
  stream_id = load_be32 (drop 1 header);
  payload = payload;
}

type-byte : (b : ℕ) → type_to_byte (type_of_byte b) ≡ b
type-byte b = ground arith

be32-load :
    (a b c d : ℕ) (rest : Bytes)
    → IsByte a
    → IsByte b
    → IsByte c
    → IsByte d
    → be32 (load_be32 (a ∷ b ∷ c ∷ d ∷ rest)) ≡ a ∷ b ∷ c ∷ d ∷ []
unfolding be32 load_be32
be32-load a b c d rest ha hb hc hd = ground arith

header_of_nine :
    (header payload : Bytes)
    → length header ≡ header_length
    → All IsByte header
    → length payload ≡ load_be32 (drop 5 header)
    → length payload ≤ max_frame_payload
    → (make_header (frame_of header payload) ≡ header) × IsFrame (frame_of header payload)
unfolding make_header header_type load_be32
header_of_nine (t ∷ a ∷ b ∷ c ∷ d ∷ e ∷ f ∷ g ∷ h ∷ []) payload n bytes size fits =
    let (ht, more) = bytes in
    let (ha, (hb, (hc, (hd, (he, (hf, (hg, (hh, _)))))))) = more in
    let same : length payload % 2 ^ 32 ≡ load_be32 (e ∷ f ∷ g ∷ h ∷ []) = omega arith in
    (
      ap₂ (λ x l. x ∷ l) (type-byte t)
          (ap₂ (λ l m. l ++ m) (be32-load a b c d (e ∷ f ∷ g ∷ h ∷ []) ha hb hc hd)
            (ap be32 same ∙ be32-load e f g h [] he hf hg hh)),
      record { typed = ap type_of_byte (type-byte t); id_fits = omega arith; fits = fits },
    )
header_of_nine _ payload n bytes size fits = absurd (omega arith)

Exact-cases :
    {C : Type 0} (r : Exact × C)
    → ((bs : Bytes) × (c : C) × (r ≡ (complete bs, c)))
      ⊎ ((why : Reason) × (c : C) × (r ≡ (incomplete why, c)))
      ⊎ ((c : C) × (r ≡ (out_of_rounds, c)))
Exact-cases (complete bs, c) = inl (bs, c, refl)
Exact-cases (incomplete why, c) = inr (inl (why, c, refl))
Exact-cases (out_of_rounds, c) = inr (inr (c, refl))

frame-injective : {f g : Frame} → frame f ≡ frame g → f ≡ g
frame-injective e = cc

module _ (stream : Stream) where
  open stream use {Conn, pending, IsUp}

  recv_exact_sound :
      (c c' : Conn) (len : ℕ) (bs : Bytes)
      → recv_exact stream c len ≡ (complete bs, c')
      → (length bs ≡ len) × (pending c ≡ bs ++ pending c')
  unfolding recv_exact
  recv_exact_sound c c' len bs e =
      let (part, same, size, next) = recv_loop_sound stream len c len [] bs c' e in
      (ap length same ∙ size, next ∙ ap (λ t. t ++ pending c') (sym same))

  recv_exact-rounds : (c c' : Conn) (len : ℕ) → recv_exact stream c len ≢ (out_of_rounds, c')
  unfolding recv_exact
  recv_exact-rounds c c' len e =
      recv_loop-rounds stream len c len [] (omega arith) (ap (λ (r : Exact × Conn). r.0) e)

  -- A received frame is well-formed and stood next on the connection, whole; what is left is what
  -- stood behind it. So no frame is made up, and none is longer than the limit.
  pub recv_frame_sound :
      (c c' : Conn) (f : Frame)
      → All IsByte (pending c)
      → recv_frame stream c ≡ (frame f, c')
      → IsFrame f × (pending c ≡ encode f ++ pending c')
  unfolding with_payload with_header recv_frame
  recv_frame_sound c c' f bytes e = elim (Exact-cases (recv_exact stream c header_length)) [
    | inl (header, c₁, r₁) ↦ behind_header header c₁ r₁
    | inr (inl (why, c₁, r₁)) ↦
        let x : ◌≡◌ {A = Incoming × Conn} (refused why, c₁) (frame f, c') =
          ap (with_header (recv_exact stream)) (sym r₁) ∙ e in
        cc
    | inr (inr (c₁, r₁)) ↦ absurd (recv_exact-rounds c c₁ header_length r₁)
  ]
    where
      whole :
          (header payload : Bytes) (c₁ c₂ : Conn)
          → recv_exact stream c header_length ≡ (complete header, c₁)
          → recv_exact stream c₁ (load_be32 (drop 5 header)) ≡ (complete payload, c₂)
          → load_be32 (drop 5 header) ≤ max_frame_payload
          → ◌≡◌ {A = Incoming × Conn} (frame (frame_of header payload), c₂) (frame f, c')
          → IsFrame f × (pending c ≡ encode f ++ pending c')
      whole header payload c₁ c₂ r₁ r₂ small x =
          let (size₁, next₁) = recv_exact_sound c c₁ header_length header r₁ in
          let (size₂, next₂) = recv_exact_sound c₁ c₂ _ payload r₂ in
          let header_bytes : All IsByte header =
            All-append_left IsByte header (pending c₁) (subst (All IsByte) next₁ bytes) in
          let (same, valid) =
            header_of_nine header payload size₁ header_bytes size₂ (omega arith) in
          let f_eq : frame_of header payload ≡ f =
            frame-injective (ap (λ (r : Incoming × Conn). r.0) x) in
          (
            subst IsFrame f_eq valid,
            next₁
                ∙ ap₂ (λ h p. h ++ p) (sym same)
                    (next₂ ∙ ap (λ t. payload ++ t) (ap (λ (r : Incoming × Conn). pending r.1) x))
                ∙ sym (append_assoc _ payload _)
                ∙ ap (λ g. encode g ++ pending c') f_eq,
          )

      behind_header :
          (header : Bytes) (c₁ : Conn)
          → recv_exact stream c header_length ≡ (complete header, c₁)
          → IsFrame f × (pending c ≡ encode f ++ pending c')
      behind_header header c₁ r₁ =
          elim (Bool-cases (ltb max_frame_payload (load_be32 (drop 5 header)))) [
            | inl large ↦
                let x : ◌≡◌ {A = Incoming × Conn} (refused payload_too_large, c₁) (frame f, c') =
                  sym (recv_frame_too_large stream c c₁ header r₁ (ground arith)) ∙ e in
                cc
            | inr small ↦
                let small' : load_be32 (drop 5 header) ≤ max_frame_payload = ground arith in
                let e' = sym (recv_frame-header stream c c₁ header r₁ small') ∙ e in
                elim (Exact-cases (recv_exact stream c₁ (load_be32 (drop 5 header)))) [
                  | inl (payload, c₂, r₂) ↦
                      whole header payload c₁ c₂ r₁ r₂ small'
                        (ap (with_payload header) (sym r₂) ∙ e')
                  | inr (inl (why, c₂, r₂)) ↦
                      let x : ◌≡◌ {A = Incoming × Conn} (refused why, c₂) (frame f, c') =
                        ap (with_payload header) (sym r₂) ∙ e' in
                      cc
                  | inr (inr (c₂, r₂)) ↦ absurd (recv_exact-rounds c₁ c₂ _ r₂)
                ]
          ]
