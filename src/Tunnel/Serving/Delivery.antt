-- ===== src/Tunnel/Serving/Delivery.antt =====
-- What the reader of a session hands to a proxy client (agent/src/tunnel/main.cpp).
use webhook_ops.Common.{
  ℕ, ◌≡◌, refl, sym, ap, ◌∙◌, Bool, true, false, some, List, [], ◌∷◌, ◌++◌, append_assoc,
  append-nil, arith, Bytes, ◌==◌, ==_iff, ==_refl, if◌then◌else◌, Bool-cases, Option-cases, ◌⊎◌,
  inl, inr,
}
use webhook_ops.Wire.{Frame, FrameType, stream_data, close, error}
use webhook_ops.Streams.{lookup, erase, holds, lookup-erase, holds-erase}
use webhook_ops.Streams.Store.{flag, flag-not}
use webhook_ops.Tunnel.Session.{
  ProxyStream, Session, send, stream_frame, unregister_stream, close_proxy_client, write_client,
  fail_stream, on_error, on_data, on_close, on_frame, is_heartbeat, find_stream, receive_frame,
  Arrival,
}
use webhook_ops.Tunnel.Session.Clean.{has_id, Named, IsClean, send-Same}
use webhook_ops.Tunnel.Serving.Clean.{close_proxy_client-streams}

-- The bytes that a client was given, one after the other.
unfoldable pub written_to : ℕ → List (ℕ × Bytes) → Bytes
written_to h [] = []
written_to h ((j, bytes) ∷ writes) =
    if j == h then bytes ++ written_to h writes else written_to h writes

pub written_to-append :
    (h j : ℕ) (bytes : Bytes) (writes : List (ℕ × Bytes))
    → written_to h (writes ++ (j, bytes) ∷ [])
      ≡ (if j == h then written_to h writes ++ bytes else written_to h writes)
unfolding written_to
written_to-append h j bytes [] = ground (arith, append-nil bytes)
written_to-append h j bytes ((k, b) ∷ writes) =
    ground (arith, written_to-append h j bytes writes, append_assoc b (written_to h writes) bytes)

-- Frames that are all handled.
unfoldable pub handle_frames : List Arrival → Session → Session
handle_frames [] s = s
handle_frames (a ∷ arrivals) s =
    handle_frames arrivals (receive_frame a.delivered a.forwarded a.frame s)

-- The frames that the reader takes while the session is alive.
unfoldable pub frames_read : List Arrival → Session → List Arrival
frames_read [] s = []
frames_read (a ∷ arrivals) s =
    if s.alive
    then a ∷ frames_read arrivals (receive_frame a.delivered a.forwarded a.frame s)
    else []

-- What a client should get: the payloads of the DATA frames of its stream, up to the CLOSE frame of
-- the stream or a write that fails.
unfoldable pub deliver_type : ℕ → FrameType → Arrival → Bytes → Bytes
deliver_type id stream_data a rest = a.frame.payload ++ (if a.forwarded then rest else [])
deliver_type id close a rest = []
deliver_type id t a rest = rest

unfoldable pub deliveries : ℕ → List Arrival → Bytes
deliveries id [] = []
deliveries id (a ∷ arrivals) =
    let rest = deliveries id arrivals in
    if a.frame.stream_id == id then deliver_type id a.frame.frame_type a rest else rest

-- What a step leaves of the map and of the writes to one client.
record Quiet (h : ℕ) (s s' : Session) : Type 0 where
  streams : s'.streams ≡ s.streams
  writes : written_to h s'.writes ≡ written_to h s.writes

close_proxy_client-writes : (h : ℕ) (s : Session) → (close_proxy_client h s).writes ≡ s.writes
unfolding close_proxy_client
close_proxy_client-writes h s = ground arith

send-writes :
    (delivered : Bool) (f : Frame) (s : Session) → (send delivered f s).1.writes ≡ s.writes
unfolding send
send-writes delivered f s = ground arith

pub on_error-parts :
    (h : ℕ) (text : Bytes) (s : Session)
    → ((on_error h text s).streams ≡ s.streams) × ((on_error h text s).writes ≡ s.writes)
unfolding on_error fail_stream
on_error-parts h text s = ground (
  arith,
  close_proxy_client-streams h (fail_stream h text s),
  close_proxy_client-writes h (fail_stream h text s),
)

pub on_close-parts :
    (id h : ℕ) (s : Session)
    → ((on_close id h s).streams ≡ erase id s.streams) × ((on_close id h s).writes ≡ s.writes)
unfolding on_close unregister_stream
on_close-parts id h s = (close_proxy_client-streams h _, close_proxy_client-writes h _)

pub on_data-parts :
    (delivered forwarded : Bool) (id h : ℕ) (payload : Bytes) (s : Session)
    → ((on_data delivered forwarded id h payload s).streams
        ≡ (if forwarded then s.streams else erase id s.streams))
      × ((on_data delivered forwarded id h payload s).writes ≡ s.writes ++ (h, payload) ∷ [])
unfolding on_data write_client unregister_stream
on_data-parts delivered true id h payload s = (refl, refl)
on_data-parts delivered false id h payload s =
    let written = write_client h payload s in
    let f = stream_frame close id [] in
    (
      close_proxy_client-streams h _ ∙ ap (erase id) (send-Same delivered f written).streams,
      close_proxy_client-writes h _ ∙ send-writes delivered f written,
    )

pub lookup-Named :
    (id h : ℕ) (clients : List ProxyStream) (streams : List (ℕ × ℕ))
    → Named clients streams
    → lookup id streams ≡ some h
    → flag (has_id id) h clients ≡ true
unfolding lookup
lookup-Named id h clients [] v e = absurd (cc)
lookup-Named id h clients ((k, j) ∷ streams) (named, v) e = elim (Bool-cases (k == id)) [
  | inl same ↦
      let at : j ≡ h = ground arith in
      ap (λ i. flag (has_id id) i clients) (sym at)
      ∙ ap (λ i. flag (has_id i) j clients) (sym ((==_iff k id).0 same))
      ∙ named
  | inr other ↦ lookup-Named id h clients streams v (ground arith)
]

lookup-holds :
    (id h : ℕ) (streams : List (ℕ × ℕ)) → lookup id streams ≡ some h → holds h streams ≡ true
unfolding lookup holds
lookup-holds id h [] e = absurd (cc)
lookup-holds id h ((k, j) ∷ streams) e = ground (arith, lookup-holds id h streams, ==_refl h)

-- A frame for a stream of another client.
on_frame-Quiet :
    (delivered forwarded : Bool) (f : Frame) (h j : ℕ) (t : FrameType) (s : Session)
    → (j == h) ≡ false
    → (written_to h (on_frame delivered forwarded f j t s).writes ≡ written_to h s.writes)
      × (((on_frame delivered forwarded f j t s).streams ≡ s.streams)
          ⊎ ((on_frame delivered forwarded f j t s).streams ≡ erase f.stream_id s.streams))
unfolding on_frame
on_frame-Quiet delivered forwarded f h j stream_data s e =
    let (streams, writes) = on_data-parts delivered forwarded f.stream_id j f.payload s in
    (
      ap (written_to h) writes ∙ written_to-append h j f.payload s.writes ∙ rw e refl,
      elim (Bool-cases forwarded) [
        | inl w ↦ inl (streams ∙ rw w refl)
        | inr w ↦ inr (streams ∙ rw w refl)
      ],
    )
on_frame-Quiet delivered forwarded f h j close s e =
    let (streams, writes) = on_close-parts f.stream_id j s in
    (ap (written_to h) writes, inr streams)
on_frame-Quiet delivered forwarded f h j error s e =
    let (streams, writes) = on_error-parts j f.payload s in (ap (written_to h) writes, inl streams)
on_frame-Quiet delivered forwarded f h j _ s e = (refl, inl refl)

-- A client that no stream id leads to gets nothing more.
receive_frame-forgotten :
    (a : Arrival) (h : ℕ) (s : Session)
    → holds h s.streams ≡ false
    → let s' = receive_frame a.delivered a.forwarded a.frame s in
      (holds h s'.streams ≡ false) × (written_to h s'.writes ≡ written_to h s.writes)
unfolding receive_frame find_stream
receive_frame-forgotten a h s gone = elim (Bool-cases (is_heartbeat a.frame.frame_type)) [
  | inl beat ↦ rw beat (gone, refl)
  | inr other ↦ elim (Option-cases (lookup a.frame.stream_id s.streams)) [
    | inl e ↦ rw (receive_frame, other, e) (gone, refl)
    | inr (j, e) ↦
        let ne : (j == h) ≡ false =
          ground (arith, lookup-holds a.frame.stream_id j s.streams e, ==_iff j h) in
        let (writes, streams) =
          on_frame-Quiet a.delivered a.forwarded a.frame h j a.frame.frame_type s ne in
        rw (receive_frame, other, e)
          (
            elim streams [
              | inl same ↦ ap (holds h) same ∙ gone
              | inr less ↦ ap (holds h) less ∙ holds-erase h a.frame.stream_id s.streams gone
            ],
            writes,
          )
  ]
]

pub handle_frames-forgotten :
    (arrivals : List Arrival) (h : ℕ) (s : Session)
    → holds h s.streams ≡ false
    → written_to h (handle_frames arrivals s).writes ≡ written_to h s.writes
unfolding handle_frames
handle_frames-forgotten [] h s gone = refl
handle_frames-forgotten (a ∷ arrivals) h s gone =
    let (gone', same) = receive_frame-forgotten a h s gone in
    handle_frames-forgotten arrivals h _ gone' ∙ same

separate :
    (k id j h : ℕ) (s : Session)
    → IsClean s
    → lookup k s.streams ≡ some j
    → lookup id s.streams ≡ some h
    → (k == id) ≡ false
    → (j == h) ≡ false
separate k id j h s v e found ne = elim (Bool-cases (j == h)) [
  | inl same ↦
      let at_j = lookup-Named k j s.clients s.streams v.named e in
      let at_h = lookup-Named id h s.clients s.streams v.named found in
      let never = flag-not (has_id k) (has_id id) (λ c q. ground arith) h s.clients at_h in
      let moved = ap (λ i. flag (has_id k) i s.clients) (sym ((==_iff j h).0 same)) ∙ at_j in
      absurd (cc)
  | inr other ↦ other
]

-- A frame of another stream.
pub receive_frame-other :
    (a : Arrival) (id h : ℕ) (s : Session)
    → IsClean s
    → find_stream id s ≡ some h
    → (a.frame.stream_id == id) ≡ false
    → let s' = receive_frame a.delivered a.forwarded a.frame s in
      (find_stream id s' ≡ some h) × (written_to h s'.writes ≡ written_to h s.writes)
unfolding receive_frame find_stream
receive_frame-other a id h s v found ne = elim (Bool-cases (is_heartbeat a.frame.frame_type)) [
  | inl beat ↦ rw beat (found, refl)
  | inr other ↦ elim (Option-cases (lookup a.frame.stream_id s.streams)) [
    | inl e ↦ rw (receive_frame, other, e) (found, refl)
    | inr (j, e) ↦
        let apart = separate a.frame.stream_id id j h s v e found ne in
        let (writes, streams) =
          on_frame-Quiet a.delivered a.forwarded a.frame h j a.frame.frame_type s apart in
        rw (receive_frame, other, e)
          (
            elim streams [
              | inl same ↦ ap (lookup id) same ∙ found
              | inr less ↦
                  ap (lookup id) less ∙ lookup-erase a.frame.stream_id id s.streams ∙ ground arith
            ],
            writes,
          )
  ]
]
