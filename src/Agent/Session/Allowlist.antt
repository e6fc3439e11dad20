-- ===== src/Agent/Session/Allowlist.antt =====
-- An agent connects to the targets of its allowlist and to no other (agent/src/agent/main.cpp).
use webhook_ops.Common.{
  ◌⊎◌, ◌&&◌, ℕ, ◌≡◌, refl, sym, ◌∙◌, subst, Bool, true, false, Option, none, some, List, [], ◌∷◌,
  arith, Bytes, All, Bool-cases, Option-cases, inl, inr, if◌then◌else◌,
}
use webhook_ops.Net.Endpoint.{Endpoint, endpoint_to_string}
use webhook_ops.Open.{parse_open_payload}
use webhook_ops.Wire.{
  Frame, FrameType, error, close, open_ok, stream_data, payload_text, hello, hello_ok, heartbeat,
  open_stream, auth_challenge, auth_response, unnamed,
}
use webhook_ops.Agent.Session.{
  Agent, contains, send, reply, find_stream, is_open, close_object, Connected, socket, no_socket,
  open_object, connect_target, handle_open, close_found, handle_close, data_found, handle_data,
  handle_frame, reader_round, close_each, close_all_streams, Event, receive, read_target,
  end_session, step, run, pass_on,
}

abbrev Allowed : List Bytes → Endpoint → Type 0
Allowed allowlist e = contains (endpoint_to_string e.host e.port) allowlist ≡ true

-- The agent has this allowlist and asked for endpoints of it only.
pub record IsAllowed (allowlist : List Bytes) (a : Agent) : Type 0 where
  pub same : a.allowlist ≡ allowlist
  pub allowed : All (Allowed allowlist) a.connects

-- A part of the agent that asks for no connection.
record Keeps (a b : Agent) : Type 0 where
  allowlist : b.allowlist ≡ a.allowlist
  connects : b.connects ≡ a.connects

Keeps-IsAllowed : {l : List Bytes} {a b : Agent} → Keeps a b → IsAllowed l a → IsAllowed l b
Keeps-IsAllowed {l} k h = record {
  same = k.allowlist ∙ h.same;
  allowed = subst (λ cs. All (Allowed l) cs) (sym k.connects) h.allowed;
}

pub Connected-cases :
    (c : Connected)
    → ((target : ℕ) × (c ≡ socket target)) ⊎ ((reason : Bytes) × (c ≡ no_socket reason))
Connected-cases (socket target) = inl (target, refl)
Connected-cases (no_socket reason) = inr (reason, refl)

send-Keeps : (delivered : Bool) (f : Frame) (a : Agent) → Keeps a (send delivered f a).1
unfolding send
send-Keeps delivered f a = ground arith

close_found-Keeps :
    (delivered notify : Bool) (id h : ℕ) (a : Agent) → Keeps a (close_found delivered id notify h a)
unfolding close_found
close_found-Keeps delivered notify id h a = ground arith

Keeps-refl : {a : Agent} → Keeps a a
Keeps-refl = record { allowlist = refl; connects = refl }

Keeps-trans : {a b c : Agent} → Keeps a b → Keeps b c → Keeps a c
Keeps-trans k l = record {
  allowlist = l.allowlist ∙ k.allowlist;
  connects = l.connects ∙ k.connects;
}

handle_close-Keeps :
    (delivered notify : Bool) (id : ℕ) (a : Agent) → Keeps a (handle_close delivered id notify a)
unfolding handle_close
handle_close-Keeps delivered notify id a = elim (Option-cases (find_stream id a)) [
  | inl e ↦ rw (e, handle_close) Keeps-refl
  | inr (h, e) ↦ rw (e, handle_close) (close_found-Keeps delivered notify id h a)
]

data_found-Keeps :
    (delivered forwarded : Bool) (id h : ℕ) (a : Agent)
    → Keeps a (data_found delivered forwarded id h a)
unfolding data_found
data_found-Keeps delivered forwarded id h a = elim (Bool-cases (is_open h a.objects)) [
  | inl e ↦ elim (Bool-cases forwarded) [
    | inl w ↦ rw (e, w, data_found) Keeps-refl
    | inr w ↦ rw (e, w, data_found) (handle_close-Keeps delivered true id a)
  ]
  | inr e ↦ rw (e, data_found) (send-Keeps delivered _ a)
]

handle_data-Keeps :
    (delivered forwarded : Bool) (f : Frame) (a : Agent)
    → Keeps a (handle_data delivered forwarded f a)
unfolding handle_data
handle_data-Keeps delivered forwarded f a = elim (Option-cases (find_stream f.stream_id a)) [
  | inl e ↦ rw (e, handle_data) (send-Keeps delivered _ a)
  | inr (h, e) ↦ rw (e, handle_data) (data_found-Keeps delivered forwarded f.stream_id h a)
]

pass_on-Keeps :
    (delivered : Bool) (id : ℕ) (bytes : Bytes) (a : Agent) → Keeps a (pass_on delivered id bytes a)
unfolding pass_on
pass_on-Keeps delivered id bytes a =
    let passed = send-Keeps delivered (reply stream_data id bytes) a in
    elim (Bool-cases (send delivered (reply stream_data id bytes) a).0) [
      | inl e ↦ rw (e) passed
      | inr e ↦ rw (e) (Keeps-trans passed (handle_close-Keeps delivered true id _))
    ]

reader_round-Keeps :
    (delivered : Bool) (h : ℕ) (bytes : Option Bytes) (a : Agent)
    → Keeps a (reader_round delivered h bytes a)
unfolding reader_round
reader_round-Keeps delivered h none a = handle_close-Keeps delivered true _ a
reader_round-Keeps delivered h (some bytes) a =
    elim (Bool-cases (is_open h a.objects && a.connected)) [
      | inl e ↦ rw (e, reader_round) (pass_on-Keeps delivered _ bytes a)
      | inr e ↦ rw (e, reader_round) (handle_close-Keeps delivered true _ a)
    ]

close_each-Keeps : (streams : List (ℕ × ℕ)) (a : Agent) → Keeps a (close_each streams a)
unfolding close_each close_object
close_each-Keeps [] a = Keeps-refl
close_each-Keeps ((id, h) ∷ rest) a =
    Keeps-trans (ground arith)
      (close_each-Keeps rest (if is_open h a.objects then close_object h a else a))

open_object-Keeps :
    (delivered : Bool) (id target : ℕ) (a : Agent) → Keeps a (open_object delivered id target a)
unfolding open_object
open_object-Keeps delivered id target a = ground arith

connect_target-IsAllowed :
    {l : List Bytes} (connect : Endpoint → Connected) (delivered : Bool) (id : ℕ) (e : Endpoint)
    (a : Agent)
    → Allowed l e
    → IsAllowed l a
    → IsAllowed l (connect_target connect delivered id e a)
unfolding connect_target
connect_target-IsAllowed {l} connect delivered id e a is_allowed h =
    let asked : Agent = record a { connects = e ∷ a.connects } in
    let asked-IsAllowed : IsAllowed l asked = record {
      same = h.same;
      allowed = (is_allowed, h.allowed);
    } in
    elim (Connected-cases (connect e)) [
      | inl (target, w) ↦
          rw (w, connect_target)
            (Keeps-IsAllowed (open_object-Keeps delivered id target asked) asked-IsAllowed)
      | inr (reason, w) ↦
          rw (w, connect_target) (Keeps-IsAllowed (send-Keeps delivered _ asked) asked-IsAllowed)
    ]

-- A connection that is asked for is allowed.
handle_open-IsAllowed :
    {l : List Bytes} (connect : Endpoint → Connected) (delivered : Bool) (f : Frame) (a : Agent)
    → IsAllowed l a
    → IsAllowed l (handle_open connect delivered f a)
unfolding handle_open
handle_open-IsAllowed connect delivered f a h =
    elim (Option-cases (parse_open_payload (payload_text f.payload))) [
      | inl w ↦ rw (handle_open, w) (Keeps-IsAllowed (send-Keeps delivered _ a) h)
      | inr (e, w) ↦ elim (Bool-cases (contains (endpoint_to_string e.host e.port) a.allowlist)) [
        | inl c ↦
            rw (handle_open, w, c)
              (connect_target-IsAllowed connect delivered f.stream_id e a
                (subst (λ l. Allowed l e) h.same c) h)
        | inr c ↦ rw (handle_open, w, c) (Keeps-IsAllowed (send-Keeps delivered _ a) h)
      ]
    ]

handle_frame-IsAllowed :
    {l : List Bytes} (connect : Endpoint → Connected) (delivered forwarded : Bool) (f : Frame)
    (t : FrameType) (a : Agent)
    → IsAllowed l a
    → IsAllowed l (handle_frame connect delivered forwarded f t a)
unfolding handle_frame
handle_frame-IsAllowed {l} connect delivered forwarded f t a h =
    elim t as (λ k. IsAllowed l (handle_frame connect delivered forwarded f k a)) [
      | open_stream ↦ handle_open-IsAllowed connect delivered f a h
      | stream_data ↦ Keeps-IsAllowed (handle_data-Keeps delivered forwarded f a) h
      | close ↦ Keeps-IsAllowed (handle_close-Keeps delivered true f.stream_id a) h
      | hello ↦ Keeps-IsAllowed (send-Keeps delivered _ a) h
      | hello_ok ↦ Keeps-IsAllowed (send-Keeps delivered _ a) h
      | heartbeat ↦ Keeps-IsAllowed (send-Keeps delivered _ a) h
      | open_ok ↦ Keeps-IsAllowed (send-Keeps delivered _ a) h
      | error ↦ Keeps-IsAllowed (send-Keeps delivered _ a) h
      | auth_challenge ↦ Keeps-IsAllowed (send-Keeps delivered _ a) h
      | auth_response ↦ Keeps-IsAllowed (send-Keeps delivered _ a) h
      | unnamed b ↦ Keeps-IsAllowed (send-Keeps delivered _ a) h
    ]

step-IsAllowed : {l : List Bytes} (e : Event) (a : Agent) → IsAllowed l a → IsAllowed l (step e a)
unfolding step close_all_streams
step-IsAllowed (receive connect delivered forwarded f) a h =
    handle_frame-IsAllowed connect delivered forwarded f f.frame_type a h
step-IsAllowed (read_target delivered o bytes) a h =
    Keeps-IsAllowed (reader_round-Keeps delivered o bytes a) h
step-IsAllowed {l} end_session a h =
    let ended : Agent = record a { connected = false; streams = [] } in
    let ended-IsAllowed : IsAllowed l ended = record { same = h.same; allowed = h.allowed } in
    Keeps-IsAllowed (close_each-Keeps a.streams ended) ended-IsAllowed

-- Whatever frames come from the tunnel and whatever the targets do, in any order, an agent that asked
-- to connect only to endpoints of its allowlist has the same allowlist afterwards, and has asked to
-- connect only to endpoints of it.
pub run-IsAllowed :
    {l : List Bytes} (events : List Event) (a : Agent) → IsAllowed l a → IsAllowed l (run events a)
unfolding run
run-IsAllowed [] a h = h
run-IsAllowed (e ∷ events) a h = run-IsAllowed events (step e a) (step-IsAllowed e a h)
