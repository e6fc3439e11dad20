-- ===== src/Tunnel/Header/Reading.antt =====
-- What `read_http_header` of agent/src/tunnel/main.cpp reads.
use webhook_ops.Common.{
  ℕ, zero, suc, ◌+◌, ◌≤◌, ◌≡◌, ◌≢◌, refl, sym, subst, ap, ◌∙◌, true, Option, none, some, [], ◌∷◌,
  ◌++◌, append_assoc, arith, Bytes, length, length-append, take, drop, take-append-drop,
  length-take, eqb, ltb, Bool-cases, inl, inr,
}
use webhook_ops.Net.Stream.{Stream}
use webhook_ops.Wire.Receiving.Exactly.{Received-cases, length-pos}
use webhook_ops.Tunnel.Header.{
  header_end, after, marker, HeaderRead, header, out_of_rounds, max_header, look, read_next,
  read_loop, read_http_header,
}

length-take_fits : (n : ℕ) (s : Bytes) → n ≤ length s → length (take n s) ≡ n
length-take_fits n s h = omega (arith, length-take n s)

after-some : (o : Option ℕ) (n : ℕ) → after o ≡ some n → (m : ℕ) × (o ≡ some m) × (n ≡ suc m)
after-some none n e = absurd (cc)
after-some (some m) n e = (m, refl, ground arith)

eqb-length : (s t : Bytes) → eqb s t ≡ true → length s ≡ length t
eqb-length [] [] e = refl
eqb-length [] (b ∷ t) e = absurd (cc)
eqb-length (a ∷ s) [] e = absurd (cc)
eqb-length (a ∷ s) (b ∷ t) e = ap suc (eqb-length s t (ground arith))

header_end-bound : (s : Bytes) (n : ℕ) → header_end s ≡ some n → n ≤ length s
unfolding header_end
header_end-bound [] n e = absurd (cc)
header_end-bound (c ∷ s) n e = elim (Bool-cases (eqb (take 4 (c ∷ s)) marker)) [
  | inl found ↦
      let four : length (take 4 (c ∷ s)) ≡ 4 = eqb-length (take 4 (c ∷ s)) marker found in
      let same : 4 ≡ n = ground arith in omega (arith, length-take 4 (c ∷ s))
  | inr other ↦
      let (m, later, same) = after-some (header_end s) n (ground arith) in
      omega (arith, header_end-bound s m later)
]

module _ (stream : Stream) where
  open stream use {Conn, recv_some, pending}

  -- What is known of a header that was read from a buffer and a connection.
  record IsRead (all h rest : Bytes) (c' : Conn) : Type 0 where
    whole : all ≡ h ++ (rest ++ pending c')
    ends : header_end (h ++ rest) ≡ some (length h)

  look_found :
      (buffer h rest : Bytes) (n : ℕ) (c c' : Conn)
      → header_end buffer ≡ some n
      → ◌≡◌ {A = HeaderRead × Conn} (header (take n buffer) (drop n buffer), c) (header h rest, c')
      → IsRead (buffer ++ pending c) h rest c'
  look_found buffer h rest n c c' e f =
      let first : take n buffer ≡ h = cc in
      let second : drop n buffer ≡ rest = cc in
      let same : c ≡ c' = cc in
      let joined : h ++ rest ≡ buffer =
        sym (ap (λ t. t ++ drop n buffer) first ∙ ap (λ t. h ++ t) second)
        ∙ take-append-drop n buffer in
      record {
        whole =
            ap (λ t. t ++ pending c) (sym joined)
            ∙ append_assoc h rest (pending c)
            ∙ ap (λ d. h ++ (rest ++ pending d)) same;
        ends =
            ap header_end joined
            ∙ e
            ∙ ap some
                (sym (length-take_fits n buffer (header_end-bound buffer n e)) ∙ ap length first);
      }

  look_sound :
      (continue : Conn → Bytes → HeaderRead × Conn) (o : Option ℕ) (buffer h rest : Bytes)
      (c c' : Conn)
      → (continue c buffer ≡ (header h rest, c') → IsRead (buffer ++ pending c) h rest c')
      → header_end buffer ≡ o
      → look continue buffer c ≡ (header h rest, c')
      → IsRead (buffer ++ pending c) h rest c'
  unfolding look
  look_sound continue none buffer h rest c c' next f g = next (rw (look, f) at g)
  look_sound continue (some n) buffer h rest c c' next f g =
      look_found buffer h rest n c c' f (rw (look, f) at g)

  read_loop_sound :
      (rounds : ℕ) (c c' : Conn) (buffer h rest : Bytes)
      → read_loop stream rounds c buffer ≡ (header h rest, c')
      → IsRead (buffer ++ pending c) h rest c'
  unfolding read_loop read_next
  read_loop_sound zero c c' buffer h rest e = absurd (ground arith)
  read_loop_sound (suc rounds) c c' buffer h rest e =
      elim (Bool-cases (ltb (length buffer) max_header)) [
        | inl short ↦ elim (Received-cases (recv_some c 4096)) [
          | inl (bs, c₁, r) ↦
              let (more, inside, read) = stream.recv_got c 4096 bs c₁ (omega arith) r in
              let move = append_assoc buffer bs (pending c₁) ∙ ap (λ t. buffer ++ t) (sym read) in
              subst (λ all. IsRead all h rest c') move
                (look_sound (read_loop stream rounds) (header_end (buffer ++ bs)) (buffer ++ bs) h
                  rest c₁ c' (λ f. read_loop_sound rounds c₁ c' (buffer ++ bs) h rest f) refl
                  (rw (short, r) at e))
          | inr (inl (c₁, r)) ↦ absurd (ground arith)
          | inr (inr (c₁, r)) ↦ absurd (ground arith)
        ]
        | inr full ↦ absurd (ground arith)
      ]

  -- A header that is read ends at the first empty line of the bytes that came, and the bytes behind it
  -- are not lost: they come with it or are still on the connection.
  pub read_http_header_sound :
      (c c' : Conn) (h rest : Bytes)
      → read_http_header stream c ≡ (header h rest, c')
      → (pending c ≡ h ++ (rest ++ pending c')) × (header_end (h ++ rest) ≡ some (length h))
  unfolding read_http_header
  read_http_header_sound c c' h rest e =
      let v = read_loop_sound max_header c c' [] h rest e in (v.whole, v.ends)

  look_ends :
      (continue : Conn → Bytes → HeaderRead × Conn) (o : Option ℕ) (buffer : Bytes) (c : Conn)
      → (continue c buffer).0 ≢ out_of_rounds
      → header_end buffer ≡ o
      → (look continue buffer c).0 ≢ out_of_rounds
  unfolding look
  look_ends continue none buffer c next f = rw (look, f) next
  look_ends continue (some n) buffer c next f = rw (look, f) (λ e. cc)

  read_loop_ends :
      (rounds : ℕ) (c : Conn) (buffer : Bytes)
      → max_header ≤ rounds + length buffer
      → (read_loop stream rounds c buffer).0 ≢ out_of_rounds
  unfolding read_loop read_next
  read_loop_ends zero c buffer h = λ e. ground arith
  read_loop_ends (suc rounds) c buffer h = elim (Bool-cases (ltb (length buffer) max_header)) [
    | inl short ↦ elim (Received-cases (recv_some c 4096)) [
      | inl (bs, c₁, r) ↦
          let (more, inside, read) = stream.recv_got c 4096 bs c₁ (omega arith) r in
          let longer : max_header ≤ rounds + length (buffer ++ bs) =
            omega (arith, length-append buffer bs, length-pos bs more) in
          rw (short, r)
            (look_ends (read_loop stream rounds) (header_end (buffer ++ bs)) (buffer ++ bs) c₁
              (read_loop_ends rounds c₁ (buffer ++ bs) longer) refl)
      | inr (inl (c₁, r)) ↦ rw (short, r) (λ e. cc)
      | inr (inr (c₁, r)) ↦ rw (short, r) (λ e. cc)
    ]
    | inr full ↦ rw full (λ e. cc)
  ]

  -- The reading of a header ends: with the header, without one when the connection ends or fails, or
  -- with the answer that it is too long, and never for want of rounds.
  pub read_http_header_ends : (c : Conn) → (read_http_header stream c).0 ≢ out_of_rounds
  unfolding read_http_header
  read_http_header_ends c = read_loop_ends max_header c [] (omega arith)
