-- ===== src/Tunnel/Serving/InOrder.antt =====
-- The reader of a session hands each proxy client the bytes of its stream in order
-- (agent/src/tunnel/main.cpp).
use webhook_ops.Common.{
  ℕ, ◌≡◌, refl, sym, ap, ◌∙◌, Bool, true, false, some, List, [], ◌∷◌, ◌++◌, append_assoc,
  append-nil, Bytes, ◌==◌, ==_iff, ==_refl, if◌then◌else◌, Bool-cases, ◌⊎◌, inl, inr,
}
use webhook_ops.Wire.{Frame, FrameType, heartbeat, stream_data, close, error}
use webhook_ops.Streams.{lookup, erase, holds}
use webhook_ops.Tunnel.Session.{
  Session, on_frame, is_heartbeat, find_stream, receive_frame, Arrival, read_frames,
}
use webhook_ops.Tunnel.Session.Clean.{IsClean}
use webhook_ops.Tunnel.Serving.Clean.{receive_frame-IsClean, holds-erase-Named}
use webhook_ops.Tunnel.Serving.Delivery.{
  handle_frames, frames_read, written_to, written_to-append, deliver_type, deliveries,
  on_data-parts, on_close-parts, on_error-parts, receive_frame-other, handle_frames-forgotten,
  lookup-Named,
}

-- A frame of the client's own stream: the bytes that it brings, and whether the stream goes on.
record GoesOn (id h : ℕ) (t : FrameType) (a : Arrival) (s s' : Session) : Type 0 where
  part : Bytes
  registered : lookup id s'.streams ≡ some h
  written : written_to h s'.writes ≡ written_to h s.writes ++ part
  expected : (rest : Bytes) → deliver_type id t a rest ≡ part ++ rest

record Stops (id h : ℕ) (t : FrameType) (a : Arrival) (s s' : Session) : Type 0 where
  part : Bytes
  forgotten : holds h s'.streams ≡ false
  written : written_to h s'.writes ≡ written_to h s.writes ++ part
  expected : (rest : Bytes) → deliver_type id t a rest ≡ part

unchanged :
    (id h : ℕ) (t : FrameType) (a : Arrival) (s s' : Session)
    → lookup id s.streams ≡ some h
    → s'.streams ≡ s.streams
    → s'.writes ≡ s.writes
    → ((rest : Bytes) → deliver_type id t a rest ≡ rest)
    → GoesOn id h t a s s'
unchanged id h t a s s' found streams writes e = record {
  part = [];
  registered = ap (lookup id) streams ∙ found;
  written = ap (written_to h) writes ∙ sym (append-nil _);
  expected = e;
}

own_data :
    (id h : ℕ) (a : Arrival) (s : Session)
    → IsClean s
    → lookup id s.streams ≡ some h
    → a.frame.stream_id ≡ id
    → let s' = on_frame a.delivered a.forwarded a.frame h stream_data s in
      GoesOn id h stream_data a s s' ⊎ Stops id h stream_data a s s'
unfolding on_frame deliver_type
own_data id h a s v found same =
    let (streams, writes) =
      on_data-parts a.delivered a.forwarded a.frame.stream_id h a.frame.payload s in
    let written =
      ap (written_to h) writes
      ∙ written_to-append h h a.frame.payload s.writes
      ∙ rw (==_refl h) refl in
    elim (Bool-cases a.forwarded) [
      | inl w ↦ inl (record {
        part = a.frame.payload;
        registered = ap (lookup id) (streams ∙ rw w refl) ∙ found;
        written = written;
        expected = λ rest. rw w refl;
      })
      | inr w ↦ inr (record {
        part = a.frame.payload;
        forgotten =
            ap (holds h) (streams ∙ rw w refl)
            ∙ ap (λ i. holds h (erase i s.streams)) same
            ∙ holds-erase-Named id h s.clients s.streams
                (lookup-Named id h s.clients s.streams v.named found) v.named;
        written = written;
        expected = λ rest. rw w (append-nil a.frame.payload);
      })
    ]

own_frame :
    (id h : ℕ) (t : FrameType) (a : Arrival) (s : Session)
    → IsClean s
    → lookup id s.streams ≡ some h
    → a.frame.stream_id ≡ id
    → let s' = on_frame a.delivered a.forwarded a.frame h t s in
      GoesOn id h t a s s' ⊎ Stops id h t a s s'
unfolding on_frame deliver_type
own_frame id h stream_data a s v found same = own_data id h a s v found same
own_frame id h close a s v found same =
    let (streams, writes) = on_close-parts a.frame.stream_id h s in
    inr (record {
      part = [];
      forgotten =
          ap (holds h) streams
          ∙ ap (λ i. holds h (erase i s.streams)) same
          ∙ holds-erase-Named id h s.clients s.streams
              (lookup-Named id h s.clients s.streams v.named found) v.named;
      written = ap (written_to h) writes ∙ sym (append-nil _);
      expected = λ rest. refl;
    })
own_frame id h error a s v found same =
    let (streams, writes) = on_error-parts h a.frame.payload s in
    inl (unchanged id h error a s _ found streams writes (λ rest. refl))
own_frame id h t a s v found same = inl (unchanged id h t a s _ found refl refl (λ rest. refl))

heartbeat_frame :
    (delivered forwarded : Bool) (f : Frame) (h : ℕ) (t : FrameType) (s : Session)
    → is_heartbeat t ≡ true
    → s ≡ on_frame delivered forwarded f h t s
unfolding on_frame is_heartbeat
heartbeat_frame delivered forwarded f h heartbeat s e = refl
heartbeat_frame delivered forwarded f h _ s e = absurd (cc)

receive_own :
    (id h : ℕ) (a : Arrival) (s : Session)
    → lookup id s.streams ≡ some h
    → a.frame.stream_id ≡ id
    → receive_frame a.delivered a.forwarded a.frame s
      ≡ on_frame a.delivered a.forwarded a.frame h a.frame.frame_type s
unfolding receive_frame find_stream
receive_own id h a s found same =
    let at_id : lookup a.frame.stream_id s.streams ≡ some h =
      ap (λ i. lookup i s.streams) same ∙ found in
    elim (Bool-cases (is_heartbeat a.frame.frame_type)) [
      | inl beat ↦
          rw beat (heartbeat_frame a.delivered a.forwarded a.frame h a.frame.frame_type s beat)
      | inr other ↦ rw (receive_frame, other, at_id) refl
    ]

handle_frames-deliveries :
    (arrivals : List Arrival) (id h : ℕ) (s : Session)
    → IsClean s
    → find_stream id s ≡ some h
    → written_to h (handle_frames arrivals s).writes
      ≡ written_to h s.writes ++ deliveries id arrivals
unfolding handle_frames deliveries find_stream
handle_frames-deliveries [] id h s v found = sym (append-nil _)
handle_frames-deliveries (a ∷ arrivals) id h s v found =
    let clean = receive_frame-IsClean a.delivered a.forwarded a.frame s v in
    elim (Bool-cases (a.frame.stream_id == id)) [
      | inl same ↦
          let own = (==_iff a.frame.stream_id id).0 same in
          let rest = deliveries id arrivals in
          let s' = receive_frame a.delivered a.forwarded a.frame s in
          let step = receive_own id h a s found own in
          elim (own_frame id h a.frame.frame_type a s v found own) [
            | inl on ↦ rw same (
                handle_frames-deliveries arrivals id h s' clean
                  (ap (λ x. lookup id x.streams) step ∙ on.registered)
                ∙ ap (λ w. w ++ rest) (ap (λ x. written_to h x.writes) step ∙ on.written)
                ∙ append_assoc (written_to h s.writes) on.part rest
                ∙ ap (λ w. written_to h s.writes ++ w) (sym (on.expected rest)))
            | inr end ↦ rw same (
                handle_frames-forgotten arrivals h s'
                  (ap (λ x. holds h x.streams) step ∙ end.forgotten)
                ∙ ap (λ x. written_to h x.writes) step
                ∙ end.written
                ∙ ap (λ w. written_to h s.writes ++ w) (sym (end.expected rest)))
          ]
      | inr other ↦
          let (found', writes) = receive_frame-other a id h s v found other in
          rw (other) (
            handle_frames-deliveries arrivals id h _ clean found'
            ∙ ap (λ w. w ++ deliveries id arrivals) writes)
    ]

read_frames_lem :
    (arrivals : List Arrival) (s : Session)
    → (read_frames arrivals s ≡ handle_frames (frames_read arrivals s) s)
      × ((frames_read arrivals s ≡ arrivals) ⊎ ((read_frames arrivals s).alive ≡ false))
unfolding read_frames frames_read handle_frames
read_frames_lem [] s = (refl, inl refl)
read_frames_lem (a ∷ arrivals) s =
    let s' = receive_frame a.delivered a.forwarded a.frame s in
    let rest = frames_read arrivals s' in
    let (same, all) = read_frames_lem arrivals s' in
    let reads = λ (b : Bool). if b then read_frames arrivals s' else s in
    let takes = λ (b : Bool). if b then a ∷ rest else [] in
    elim (Bool-cases s.alive) [
      | inl up ↦ (
        ap reads up ∙ same ∙ ap (λ l. handle_frames l s) (sym (ap takes up)),
        elim all [
          | inl e ↦ inl (ap takes up ∙ ap (λ l. a ∷ l) e)
          | inr dead ↦ inr (ap (λ x. x.alive) (ap reads up) ∙ dead)
        ],
      )
      | inr down ↦ (
        ap reads down ∙ ap (λ l. handle_frames l s) (sym (ap takes down)),
        inr (ap (λ x. x.alive) (ap reads down) ∙ down),
      )
    ]

-- From a clean session whose stream id `id` leads to a client, the loop of the reader gives the client
-- exactly the payloads of the DATA frames of that id, in their order, up to the CLOSE frame of that id
-- or the first of these writes that fails, whatever frames of other streams come between. It takes all
-- frames that arrive, or the session is no longer alive.
pub read_frames-deliveries :
    (arrivals : List Arrival) (id h : ℕ) (s : Session)
    → IsClean s
    → find_stream id s ≡ some h
    → (written_to h (read_frames arrivals s).writes
        ≡ written_to h s.writes ++ deliveries id (frames_read arrivals s))
      × ((frames_read arrivals s ≡ arrivals) ⊎ ((read_frames arrivals s).alive ≡ false))
read_frames-deliveries arrivals id h s v found =
    let (same, all) = read_frames_lem arrivals s in
    (
      ap (λ x. written_to h x.writes) same
          ∙ handle_frames-deliveries (frames_read arrivals s) id h s v found,
      all,
    )
