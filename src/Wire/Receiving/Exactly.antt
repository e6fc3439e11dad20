-- ===== src/Wire/Receiving/Exactly.antt =====
-- `recv_exact` of agent/src/common/channel.cpp: however the connection cuts its bytes, the loop reads the
-- ones that were asked for, or says why not.
use webhook_ops.Common.{
  ℕ, zero, suc, ◌-◌, ◌≤◌, ◌<◌, ◌≡◌, ◌≢◌, refl, sym, ap, ◌∙◌, [], ◌∷◌, ◌++◌, append_assoc,
  append-nil, arith, Bytes, length, length-append, append_split, length-zero, ◌⊎◌, inl, inr,
}
use webhook_ops.Net.Stream.{Stream, Received, got, closed, failed}
use webhook_ops.Wire.{
  Exact, complete, incomplete, out_of_rounds, connection_closed, io_error, recv_next, recv_loop,
}

pub Received-cases :
    {C : Type 0} (r : Received × C)
    → ((bs : Bytes) × (c : C) × (r ≡ (got bs, c)))
      ⊎ ((c : C) × (r ≡ (closed, c)))
      ⊎ ((c : C) × (r ≡ (failed, c)))
Received-cases (got bs, c) = inl (bs, c, refl)
Received-cases (closed, c) = inr (inl (c, refl))
Received-cases (failed, c) = inr (inr (c, refl))

pub List-cases : (s : Bytes) → (s ≡ []) ⊎ ((b : ℕ) × (rest : Bytes) × (s ≡ b ∷ rest))
List-cases [] = inl refl
List-cases (b ∷ s) = inr (b, s, refl)

complete-injective : {xs ys : Bytes} → complete xs ≡ complete ys → xs ≡ ys
complete-injective e = cc

pub length-pos : (s : Bytes) → s ≢ [] → 0 < length s
length-pos [] h = absurd (h refl)
length-pos (b ∷ s) h = omega arith

ne-nil : (all part rest : Bytes) {n : ℕ} → all ≡ part ++ rest → length part ≡ suc n → all ≢ []
ne-nil all [] rest e n = absurd (omega arith)
ne-nil all (b ∷ part) rest e n = λ z. cc

module _ (stream : Stream) where
  open stream use {Conn, recv_some, pending, IsUp}

  recv_loop-step :
      (rounds : ℕ) (c : Conn) (need : ℕ) (bytes : Bytes) {r : Received × Conn}
      → recv_some c (suc need) ≡ r
      → recv_loop stream (suc rounds) c (suc need) bytes
        ≡ recv_next (recv_loop stream rounds) (suc need) bytes r
  unfolding recv_loop
  recv_loop-step rounds c need bytes e = ap (recv_next (recv_loop stream rounds) (suc need) bytes) e

  -- The bytes that one call delivers begin the ones that come next, and leave the rest of them.
  got-part :
      (c : Conn) (need : ℕ) (bs : Bytes) (c' : Conn) (part rest : Bytes)
      → recv_some c (suc need) ≡ (got bs, c')
      → pending c ≡ part ++ rest
      → length part ≡ suc need
      → (left : Bytes) × (part ≡ bs ++ left)
        × (pending c' ≡ left ++ rest)
        × (length left ≡ suc need - length bs)
        × (0 < length bs)
  got-part c need bs c' part rest e p n =
      let (more, inside, read) = stream.recv_got c (suc need) bs c' (omega arith) e in
      let (left, same, next) =
        append_split bs (pending c') part rest (sym p ∙ read) (omega arith) in
      (left, same, next, omega (arith, ap length same, length-append bs left), length-pos bs more)

  -- The bytes that come next are there: they are read.
  pub recv_loop-complete :
      (rounds : ℕ) (c : Conn) (need : ℕ) (bytes part rest : Bytes)
      → need ≤ rounds
      → IsUp c
      → pending c ≡ part ++ rest
      → length part ≡ need
      → (c' : Conn) × (recv_loop stream rounds c need bytes ≡ (complete (bytes ++ part), c'))
        × (pending c' ≡ rest)
        × IsUp c'
  unfolding recv_next
  recv_loop-complete rounds c zero bytes part rest h up e n =
      let none_left : part ≡ [] = length-zero part n in
      (
        c,
        unfold recv_loop in
            ap (λ t. (complete t, c)) (sym (ap (λ t. bytes ++ t) none_left ∙ append-nil bytes)),
        e ∙ ap (λ t. t ++ rest) none_left,
        up,
      )
  recv_loop-complete zero c (suc need) bytes part rest h up e n = absurd (omega arith)
  recv_loop-complete (suc rounds) c (suc need) bytes part rest h up e n =
      let (bs, c₁, r, up₁) =
        stream.recv_up c (suc need) (omega arith) up (ne-nil (pending c) part rest e n) in
      let (left, same, next, size, more) = got-part c need bs c₁ part rest r e n in
      let (c', run, after, up') =
        recv_loop-complete rounds c₁ (suc need - length bs) (bytes ++ bs) left rest (omega arith)
          up₁ next size in
      (
        c',
        recv_loop-step rounds c need bytes r
            ∙ run
            ∙ ap (λ t. (complete t, c'))
                (append_assoc bytes bs left ∙ ap (λ t. bytes ++ t) (sym same)),
        after,
        up',
      )

  -- The connection ends in order before they are all there: the loop says that it was closed.
  pub recv_loop-closed :
      (rounds : ℕ) (c : Conn) (need : ℕ) (bytes : Bytes)
      → need ≤ rounds
      → IsUp c
      → length (pending c) < need
      → (c' : Conn) × (recv_loop stream rounds c need bytes ≡ (incomplete connection_closed, c'))
  unfolding recv_next
  recv_loop-closed rounds c zero bytes h up n = absurd (omega arith)
  recv_loop-closed zero c (suc need) bytes h up n = absurd (omega arith)
  recv_loop-closed (suc rounds) c (suc need) bytes h up n = elim (List-cases (pending c)) [
    | inl none_left ↦
        let (c', r) = stream.recv_end c (suc need) (omega arith) up none_left in
        (c', recv_loop-step rounds c need bytes r)
    | inr (b, some_left, e) ↦
        let (bs, c₁, r, up₁) = stream.recv_up c (suc need) (omega arith) up (λ z. cc) in
        let (more, inside, read) = stream.recv_got c (suc need) bs c₁ (omega arith) r in
        let (c', run) =
          recv_loop-closed rounds c₁ (suc need - length bs) (bytes ++ bs)
            (omega (arith, length-pos bs more)) up₁
            (omega (arith, ap length read, length-append bs (pending c₁))) in
        (c', recv_loop-step rounds c need bytes r ∙ run)
  ]

  -- Whatever the connection does, what the loop returns was next on it.
  pub recv_loop_sound :
      (rounds : ℕ) (c : Conn) (need : ℕ) (bytes out : Bytes) (c' : Conn)
      → recv_loop stream rounds c need bytes ≡ (complete out, c')
      → (part : Bytes) × (out ≡ bytes ++ part)
        × (length part ≡ need)
        × (pending c ≡ part ++ pending c')
  unfolding recv_next
  recv_loop_sound rounds c zero bytes out c' e =
      let done : ◌≡◌ {A = Exact × Conn} (complete bytes, c) (complete out, c') =
        unfold recv_loop in e in
      (
        [],
        complete-injective (ap (λ (r : Exact × Conn). r.0) (sym done)) ∙ sym (append-nil bytes),
        refl,
        ap (λ (r : Exact × Conn). pending r.1) done,
      )
  recv_loop_sound zero c (suc need) bytes out c' e = unfold recv_loop in cc
  recv_loop_sound (suc rounds) c (suc need) bytes out c' e =
      elim (Received-cases (recv_some c (suc need))) [
        | inl (bs, c₁, r) ↦
            let (more, inside, read) = stream.recv_got c (suc need) bs c₁ (omega arith) r in
            let (part, same, size, next) =
              recv_loop_sound rounds c₁ (suc need - length bs) (bytes ++ bs) out c'
                (sym (recv_loop-step rounds c need bytes r) ∙ e) in
            (
              bs ++ part,
              same ∙ append_assoc bytes bs part,
              omega (arith, length-append bs part),
              read ∙ ap (λ t. bs ++ t) next ∙ sym (append_assoc bs part _),
            )
        | inr (inl (c₁, r)) ↦
            let x : ◌≡◌ {A = Exact × Conn} (incomplete connection_closed, c₁) (complete out, c') =
              sym (recv_loop-step rounds c need bytes r) ∙ e in
            cc
        | inr (inr (c₁, r)) ↦
            let x : ◌≡◌ {A = Exact × Conn} (incomplete io_error, c₁) (complete out, c') =
              sym (recv_loop-step rounds c need bytes r) ∙ e in
            cc
      ]

  -- The rounds are enough: the loop never stops for want of them.
  pub recv_loop-rounds :
      (rounds : ℕ) (c : Conn) (need : ℕ) (bytes : Bytes)
      → need ≤ rounds
      → (recv_loop stream rounds c need bytes).0 ≢ out_of_rounds
  unfolding recv_next
  recv_loop-rounds rounds c zero bytes h e = unfold recv_loop in cc
  recv_loop-rounds zero c (suc need) bytes h e = absurd (omega arith)
  recv_loop-rounds (suc rounds) c (suc need) bytes h e =
      elim (Received-cases (recv_some c (suc need))) [
        | inl (bs, c₁, r) ↦
            let (more, inside, read) = stream.recv_got c (suc need) bs c₁ (omega arith) r in
            recv_loop-rounds rounds c₁ (suc need - length bs) (bytes ++ bs)
              (omega (arith, length-pos bs more)) (rw (recv_loop-step rounds c need bytes r) at e)
        | inr (inl (c₁, r)) ↦
            let x : incomplete connection_closed ≡ out_of_rounds =
              rw (recv_loop-step rounds c need bytes r) at e in
            cc
        | inr (inr (c₁, r)) ↦
            let x : incomplete io_error ≡ out_of_rounds =
              rw (recv_loop-step rounds c need bytes r) at e in
            cc
      ]
