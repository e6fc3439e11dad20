-- ===== src/Agent/Session/Closing.antt =====
-- An agent closes the socket of a target once (agent/src/agent/main.cpp).
use webhook_ops.Common.{
  ℕ, zero, suc, ◌≡◌, refl, sym, ap, ◌∙◌, Bool, true, false, Option, none, some, List, [], ◌∷◌, ◌++◌,
  ◌&&◌, arith, Bool-cases, Option-cases, inl, inr, length, ◌==◌, if◌then◌else◌,
}
use webhook_ops.Net.Endpoint.{Endpoint, endpoint_to_string}
use webhook_ops.Open.{parse_open_payload}
use webhook_ops.Streams.{count}
use webhook_ops.Wire.{
  Frame, FrameType, error, close, stream_data, payload_text, hello, hello_ok, heartbeat,
  open_stream, open_ok, auth_challenge, auth_response, unnamed,
}
use webhook_ops.Agent.Session.{
  Agent, TargetStream, contains, send, reply, find_stream, add_stream, remove_stream, is_open,
  set_closed, close_object, Connected, open_object, connect_target, handle_open, close_found,
  handle_close, data_found, handle_data, handle_frame, reader_round, pass_on, close_each,
  close_all_streams, Event, receive, read_target, end_session, step, run,
}
use webhook_ops.Agent.Session.Allowlist.{Connected-cases}

-- How often an object's socket was closed, and how often its flag says.
unfoldable pub closings : ℕ → List TargetStream → ℕ
closings n [] = 0
closings zero (t ∷ objects) = if t.closed then 1 else 0
closings (suc n) (t ∷ objects) = closings n objects

-- The socket of an object whose flag is set was closed once, and of any other never.
abbrev pub IsClosedOnce : Agent → Type 0
IsClosedOnce a = (n : ℕ) → count n a.closes ≡ closings n a.objects

closings-append :
    (n : ℕ) (objects : List TargetStream) (t : TargetStream)
    → t.closed ≡ false
    → closings n (objects ++ t ∷ []) ≡ closings n objects
unfolding closings
closings-append zero [] t e = rw e refl
closings-append (suc n) [] t e = refl
closings-append zero (s ∷ objects) t e = refl
closings-append (suc n) (s ∷ objects) t e = closings-append n objects t e

closings-set_closed :
    (n h : ℕ) (objects : List TargetStream)
    → is_open h objects ≡ true
    → closings n (set_closed h objects)
      ≡ (if n == h then suc (closings n objects) else closings n objects)
unfolding closings set_closed is_open
closings-set_closed n h [] e = absurd (cc)
closings-set_closed zero zero (t ∷ objects) e = ground arith
closings-set_closed zero (suc h) (t ∷ objects) e = ground arith
closings-set_closed (suc n) zero (t ∷ objects) e = ground arith
closings-set_closed (suc n) (suc h) (t ∷ objects) e =
    ground (arith, closings-set_closed n h objects e)

close_object-IsClosedOnce :
    (h : ℕ) (a : Agent)
    → is_open h a.objects ≡ true
    → IsClosedOnce a
    → IsClosedOnce (close_object h a)
unfolding close_object count
close_object-IsClosedOnce h a e v n = ground (arith, closings-set_closed n h a.objects e, v n)

-- A part of the agent that closes nothing and makes nothing.
record Keeps (a b : Agent) : Type 0 where
  objects : b.objects ≡ a.objects
  closes : b.closes ≡ a.closes

Keeps-IsClosedOnce : {a b : Agent} → Keeps a b → IsClosedOnce a → IsClosedOnce b
Keeps-IsClosedOnce k v n = ap (count n) k.closes ∙ v n ∙ sym (ap (closings n) k.objects)

send-Keeps : (delivered : Bool) (f : Frame) (a : Agent) → Keeps a (send delivered f a).1
unfolding send
send-Keeps delivered f a = ground arith

send-IsClosedOnce :
    (delivered : Bool) (f : Frame) (a : Agent)
    → IsClosedOnce a
    → IsClosedOnce (send delivered f a).1
send-IsClosedOnce delivered f a v = Keeps-IsClosedOnce (send-Keeps delivered f a) v

close_found-IsClosedOnce :
    (delivered notify : Bool) (id h : ℕ) (a : Agent)
    → IsClosedOnce a
    → IsClosedOnce (close_found delivered id notify h a)
unfolding close_found remove_stream
close_found-IsClosedOnce delivered notify id h a v = elim (Bool-cases (is_open h a.objects)) [
  | inl e ↦
      let gone = remove_stream id (close_object h a) in
      let gone-IsClosedOnce : IsClosedOnce gone = close_object-IsClosedOnce h a e v in
      elim (Bool-cases notify) [
        | inl w ↦ rw (close_found, e, w) (send-IsClosedOnce delivered _ gone gone-IsClosedOnce)
        | inr w ↦ rw (close_found, e, w) gone-IsClosedOnce
      ]
  | inr e ↦ rw (close_found, e) v
]

handle_close-IsClosedOnce :
    (delivered notify : Bool) (id : ℕ) (a : Agent)
    → IsClosedOnce a
    → IsClosedOnce (handle_close delivered id notify a)
unfolding handle_close
handle_close-IsClosedOnce delivered notify id a v = elim (Option-cases (find_stream id a)) [
  | inl e ↦ rw (handle_close, e) v
  | inr (h, e) ↦ rw (handle_close, e) (close_found-IsClosedOnce delivered notify id h a v)
]

data_found-IsClosedOnce :
    (delivered forwarded : Bool) (id h : ℕ) (a : Agent)
    → IsClosedOnce a
    → IsClosedOnce (data_found delivered forwarded id h a)
unfolding data_found
data_found-IsClosedOnce delivered forwarded id h a v = elim (Bool-cases (is_open h a.objects)) [
  | inl e ↦ elim (Bool-cases forwarded) [
    | inl w ↦ rw (data_found, e, w) v
    | inr w ↦ rw (data_found, e, w) (handle_close-IsClosedOnce delivered true id a v)
  ]
  | inr e ↦ rw (data_found, e) (send-IsClosedOnce delivered _ a v)
]

handle_data-IsClosedOnce :
    (delivered forwarded : Bool) (f : Frame) (a : Agent)
    → IsClosedOnce a
    → IsClosedOnce (handle_data delivered forwarded f a)
unfolding handle_data
handle_data-IsClosedOnce delivered forwarded f a v =
    elim (Option-cases (find_stream f.stream_id a)) [
      | inl e ↦ rw (handle_data, e) (send-IsClosedOnce delivered _ a v)
      | inr (h, e) ↦
          rw (handle_data, e) (data_found-IsClosedOnce delivered forwarded f.stream_id h a v)
    ]

pass_on-IsClosedOnce :
    (delivered : Bool) (id : ℕ) (bytes : List ℕ) (a : Agent)
    → IsClosedOnce a
    → IsClosedOnce (pass_on delivered id bytes a)
unfolding pass_on
pass_on-IsClosedOnce delivered id bytes a v =
    let passed = send-IsClosedOnce delivered (reply stream_data id bytes) a v in
    elim (Bool-cases (send delivered (reply stream_data id bytes) a).0) [
      | inl e ↦ rw (e) passed
      | inr e ↦ rw (e) (handle_close-IsClosedOnce delivered true id _ passed)
    ]

reader_round-IsClosedOnce :
    (delivered : Bool) (h : ℕ) (bytes : Option (List ℕ)) (a : Agent)
    → IsClosedOnce a
    → IsClosedOnce (reader_round delivered h bytes a)
unfolding reader_round
reader_round-IsClosedOnce delivered h none a v = handle_close-IsClosedOnce delivered true _ a v
reader_round-IsClosedOnce delivered h (some bytes) a v =
    elim (Bool-cases (is_open h a.objects && a.connected)) [
      | inl e ↦ rw (reader_round, e) (pass_on-IsClosedOnce delivered _ bytes a v)
      | inr e ↦ rw (reader_round, e) (handle_close-IsClosedOnce delivered true _ a v)
    ]

close_each-IsClosedOnce :
    (streams : List (ℕ × ℕ)) (a : Agent) → IsClosedOnce a → IsClosedOnce (close_each streams a)
unfolding close_each
close_each-IsClosedOnce [] a v = v
close_each-IsClosedOnce ((id, h) ∷ rest) a v = elim (Bool-cases (is_open h a.objects)) [
  | inl e ↦
      rw (close_each, e)
        (close_each-IsClosedOnce rest (close_object h a) (close_object-IsClosedOnce h a e v))
  | inr e ↦ rw (close_each, e) (close_each-IsClosedOnce rest a v)
]

open_object-IsClosedOnce :
    (delivered : Bool) (id target : ℕ) (a : Agent)
    → IsClosedOnce a
    → IsClosedOnce (open_object delivered id target a)
unfolding open_object add_stream
open_object-IsClosedOnce delivered id target a v =
    let object : TargetStream = record { id = id; target = target; closed = false } in
    let more : Agent = record a { objects = a.objects ++ object ∷ [] } in
    send-IsClosedOnce delivered _ (add_stream id (length a.objects) more)
      (λ n. v n ∙ sym (closings-append n a.objects object refl))

connect_target-IsClosedOnce :
    (connect : Endpoint → Connected) (delivered : Bool) (id : ℕ) (e : Endpoint) (a : Agent)
    → IsClosedOnce a
    → IsClosedOnce (connect_target connect delivered id e a)
unfolding connect_target
connect_target-IsClosedOnce connect delivered id e a v =
    let asked : Agent = record a { connects = e ∷ a.connects } in
    let asked-IsClosedOnce : IsClosedOnce asked = v in
    elim (Connected-cases (connect e)) [
      | inl (target, w) ↦
          rw (w, connect_target)
            (open_object-IsClosedOnce delivered id target asked asked-IsClosedOnce)
      | inr (reason, w) ↦
          rw (w, connect_target) (send-IsClosedOnce delivered _ asked asked-IsClosedOnce)
    ]

handle_open-IsClosedOnce :
    (connect : Endpoint → Connected) (delivered : Bool) (f : Frame) (a : Agent)
    → IsClosedOnce a
    → IsClosedOnce (handle_open connect delivered f a)
unfolding handle_open
handle_open-IsClosedOnce connect delivered f a v =
    elim (Option-cases (parse_open_payload (payload_text f.payload))) [
      | inl w ↦ rw (handle_open, w) (send-IsClosedOnce delivered _ a v)
      | inr (e, w) ↦ elim (Bool-cases (contains (endpoint_to_string e.host e.port) a.allowlist)) [
        | inl c ↦
            rw (handle_open, w, c) (connect_target-IsClosedOnce connect delivered f.stream_id e a v)
        | inr c ↦ rw (handle_open, w, c) (send-IsClosedOnce delivered _ a v)
      ]
    ]

handle_frame-IsClosedOnce :
    (connect : Endpoint → Connected) (delivered forwarded : Bool) (f : Frame) (t : FrameType)
    (a : Agent)
    → IsClosedOnce a
    → IsClosedOnce (handle_frame connect delivered forwarded f t a)
unfolding handle_frame
handle_frame-IsClosedOnce connect delivered forwarded f t a v =
    elim t as (λ k. IsClosedOnce (handle_frame connect delivered forwarded f k a)) [
      | open_stream ↦ handle_open-IsClosedOnce connect delivered f a v
      | stream_data ↦ handle_data-IsClosedOnce delivered forwarded f a v
      | close ↦ handle_close-IsClosedOnce delivered true f.stream_id a v
      | hello ↦ send-IsClosedOnce delivered _ a v
      | hello_ok ↦ send-IsClosedOnce delivered _ a v
      | heartbeat ↦ send-IsClosedOnce delivered _ a v
      | open_ok ↦ send-IsClosedOnce delivered _ a v
      | error ↦ send-IsClosedOnce delivered _ a v
      | auth_challenge ↦ send-IsClosedOnce delivered _ a v
      | auth_response ↦ send-IsClosedOnce delivered _ a v
      | unnamed b ↦ send-IsClosedOnce delivered _ a v
    ]

step-IsClosedOnce : (e : Event) (a : Agent) → IsClosedOnce a → IsClosedOnce (step e a)
unfolding step close_all_streams
step-IsClosedOnce (receive connect delivered forwarded f) a v =
    handle_frame-IsClosedOnce connect delivered forwarded f f.frame_type a v
step-IsClosedOnce (read_target delivered o bytes) a v =
    reader_round-IsClosedOnce delivered o bytes a v
step-IsClosedOnce end_session a v =
    let ended : Agent = record a { connected = false; streams = [] } in
    close_each-IsClosedOnce a.streams ended v

-- Whatever frames come from the tunnel and whatever the targets do, in any order, the socket of a
-- stream object whose `closed` is set was closed exactly once, and that of any other never, if it was
-- so before.
pub run-IsClosedOnce :
    (events : List Event) (a : Agent) → IsClosedOnce a → IsClosedOnce (run events a)
unfolding run
run-IsClosedOnce [] a v = v
run-IsClosedOnce (e ∷ events) a v = run-IsClosedOnce events (step e a) (step-IsClosedOnce e a v)
