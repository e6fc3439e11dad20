-- ===== src/Agent/Lifecycle/Down.antt =====
-- What the handlers of the streams leave of an agent's connection (agent/src/agent/main.cpp).
use webhook_ops.Common.{
  ℕ, ◌≡◌, refl, sym, subst, ◌∙◌, Bool, true, false, ◌&&◌, Option, none, some, List, [], ◌∷◌, ◌++◌,
  arith, Bytes, length, codes, Option-cases, Bool-cases, inl, inr,
}
use webhook_ops.Net.Endpoint.{Endpoint, endpoint_to_string}
use webhook_ops.Open.{parse_open_payload}
use webhook_ops.Wire.{
  Frame, FrameType, open_stream, open_ok, stream_data, close, payload_text, text_payload,
}
use webhook_ops.Agent.Session
use webhook_ops.Agent.Session.{
  Agent, Connected, socket, no_socket, TargetStream, add_stream, reply, send, find_stream, is_open,
  close_object, remove_stream, open_object, connect_target, handle_open, contains, close_found,
  handle_close, data_found, handle_data, handle_frame, object_id, pass_on, reader_round, close_each,
  close_all_streams, receive, read_target, end_session,
}
use webhook_ops.Agent.Session.Allowlist.{Connected-cases}

close_each-connected :
    (streams : List (ℕ × ℕ)) (a : Agent)
    → ((close_each streams a).connected ≡ a.connected)
      × ((close_each streams a).channel_valid ≡ a.channel_valid)
unfolding close_each close_object
close_each-connected [] a = (refl, refl)
close_each-connected ((id, h) ∷ rest) a =
    let (connected, valid) = close_each-connected rest _ in
    (connected ∙ ground arith, valid ∙ ground arith)

pub close_all_streams-connected :
    (a : Agent)
    → ((close_all_streams a).connected ≡ a.connected)
      × ((close_all_streams a).channel_valid ≡ a.channel_valid)
unfolding close_all_streams
close_all_streams-connected a = close_each-connected a.streams (record a { streams = [] })

-- `Q` is a property of `connected_` and of the validity of the channel that a lost connection keeps.
module _ (Q : Bool → Bool → Type 0) (lost : (c v : Bool) → Q c v → Q false v) where
  unfoldable pub StaysDown : Agent → Agent → Type 0
  StaysDown a b = Q a.connected a.channel_valid → Q b.connected b.channel_valid

  pub send-StaysDown :
      (delivered : Bool) (f : Frame) (a : Agent) → StaysDown a (send delivered f a).1
  unfolding StaysDown send
  send-StaysDown delivered f a stays = elim (Bool-cases a.channel_valid) [
    | inl valid ↦ elim (Bool-cases delivered) [
      | inl sent ↦ rw (valid, sent) (rw valid at stays)
      | inr failed ↦ rw (valid, failed) (lost a.connected true (rw valid at stays))
    ]
    | inr gone ↦ rw gone (rw gone at stays)
  ]

  close_found-StaysDown :
      (delivered notify : Bool) (id h : ℕ) (a : Agent)
      → StaysDown a (close_found delivered id notify h a)
  unfolding StaysDown close_found remove_stream close_object
  close_found-StaysDown delivered notify id h a stays = elim (Bool-cases (is_open h a.objects)) [
    | inl e ↦ elim (Bool-cases notify) [
      | inl n ↦
          rw (e, n)
            (send-StaysDown delivered (reply close id []) (remove_stream id (close_object h a))
              stays)
      | inr n ↦ rw (e, n) stays
    ]
    | inr e ↦ rw e stays
  ]

  handle_close-StaysDown :
      (delivered notify : Bool) (id : ℕ) (a : Agent)
      → StaysDown a (handle_close delivered id notify a)
  unfolding StaysDown handle_close
  handle_close-StaysDown delivered notify id a stays = elim (Option-cases (find_stream id a)) [
    | inl e ↦ rw (e, handle_close) stays
    | inr (h, e) ↦ rw (e, handle_close) (close_found-StaysDown delivered notify id h a stays)
  ]

  data_found-StaysDown :
      (delivered forwarded : Bool) (id h : ℕ) (a : Agent)
      → StaysDown a (data_found delivered forwarded id h a)
  unfolding StaysDown data_found
  data_found-StaysDown delivered forwarded id h a stays = elim (Bool-cases (is_open h a.objects)) [
    | inl e ↦ elim (Bool-cases forwarded) [
      | inl w ↦ rw (e, w) stays
      | inr w ↦ rw (e, w) (handle_close-StaysDown delivered true id a stays)
    ]
    | inr e ↦ rw e (send-StaysDown delivered _ a stays)
  ]

  handle_data-StaysDown :
      (delivered forwarded : Bool) (f : Frame) (a : Agent)
      → StaysDown a (handle_data delivered forwarded f a)
  unfolding StaysDown handle_data
  handle_data-StaysDown delivered forwarded f a stays =
      elim (Option-cases (find_stream f.stream_id a)) [
        | inl e ↦ rw (e, handle_data) (send-StaysDown delivered _ a stays)
        | inr (h, e) ↦
            rw (e, handle_data) (data_found-StaysDown delivered forwarded f.stream_id h a stays)
      ]

  pass_on-StaysDown :
      (delivered : Bool) (id : ℕ) (bytes : Bytes) (a : Agent)
      → StaysDown a (pass_on delivered id bytes a)
  unfolding StaysDown pass_on
  pass_on-StaysDown delivered id bytes a stays =
      let f = reply stream_data id bytes in
      let still = send-StaysDown delivered f a stays in
      elim (Bool-cases (send delivered f a).0) [
        | inl e ↦ rw e still
        | inr e ↦ rw e (handle_close-StaysDown delivered true id (send delivered f a).1 still)
      ]

  reader_round-StaysDown :
      (delivered : Bool) (h : ℕ) (bytes : Option Bytes) (a : Agent)
      → StaysDown a (reader_round delivered h bytes a)
  unfolding StaysDown reader_round
  reader_round-StaysDown delivered h none a stays = handle_close-StaysDown delivered true _ a stays
  reader_round-StaysDown delivered h (some bytes) a stays =
      elim (Bool-cases (is_open h a.objects && a.connected)) [
        | inl e ↦ rw e (pass_on-StaysDown delivered _ bytes a stays)
        | inr e ↦ rw e (handle_close-StaysDown delivered true _ a stays)
      ]

  open_object-StaysDown :
      (delivered : Bool) (id target : ℕ) (a : Agent)
      → StaysDown a (open_object delivered id target a)
  unfolding StaysDown open_object add_stream
  open_object-StaysDown delivered id target a stays =
      let h = length a.objects in
      let object : TargetStream = record { id = id; target = target; closed = false } in
      send-StaysDown delivered (reply open_ok id (text_payload (codes "ok")))
        (add_stream id h (record a { objects = a.objects ++ object ∷ [] })) stays

  connect_target-StaysDown :
      (answer : Endpoint → Connected) (delivered : Bool) (id : ℕ) (e : Endpoint) (a : Agent)
      → StaysDown a (connect_target answer delivered id e a)
  unfolding StaysDown connect_target
  connect_target-StaysDown answer delivered id e a stays =
      let asked = record a { connects = e ∷ a.connects } in
      elim (Connected-cases (answer e)) [
        | inl (target, w) ↦
            rw (w, connect_target) (open_object-StaysDown delivered id target asked stays)
        | inr (reason, w) ↦ rw (w, connect_target) (send-StaysDown delivered _ asked stays)
      ]

  handle_open-StaysDown :
      (answer : Endpoint → Connected) (delivered : Bool) (f : Frame) (a : Agent)
      → StaysDown a (handle_open answer delivered f a)
  unfolding StaysDown handle_open
  handle_open-StaysDown answer delivered f a stays =
      elim (Option-cases (parse_open_payload (payload_text f.payload))) [
        | inl e ↦ rw (handle_open, e) (send-StaysDown delivered _ a stays)
        | inr (target, e) ↦
            elim (Bool-cases (contains (endpoint_to_string target.host target.port) a.allowlist)) [
              | inl w ↦
                  rw (handle_open, e, w)
                    (connect_target-StaysDown answer delivered f.stream_id target a stays)
              | inr w ↦ rw (handle_open, e, w) (send-StaysDown delivered _ a stays)
            ]
      ]

  handle_frame-StaysDown :
      (answer : Endpoint → Connected) (delivered forwarded : Bool) (f : Frame) (t : FrameType)
      (a : Agent)
      → StaysDown a (handle_frame answer delivered forwarded f t a)
  unfolding StaysDown handle_frame
  handle_frame-StaysDown answer delivered forwarded f open_stream a stays =
      handle_open-StaysDown answer delivered f a stays
  handle_frame-StaysDown answer delivered forwarded f stream_data a stays =
      handle_data-StaysDown delivered forwarded f a stays
  handle_frame-StaysDown answer delivered forwarded f close a stays =
      handle_close-StaysDown delivered true f.stream_id a stays
  handle_frame-StaysDown answer delivered forwarded f t a stays = send-StaysDown delivered _ a stays

  pub session-StaysDown : (e : Session.Event) (a : Agent) → StaysDown a (Session.step e a)
  unfolding StaysDown Session.step
  session-StaysDown (receive answer delivered forwarded f) a stays =
      handle_frame-StaysDown answer delivered forwarded f f.frame_type a stays
  session-StaysDown (read_target delivered h bytes) a stays =
      reader_round-StaysDown delivered h bytes a stays
  session-StaysDown end_session a stays =
      let (connected, valid) = close_all_streams-connected (record a { connected = false }) in
      subst (λ c. Q c (close_all_streams (record a { connected = false })).channel_valid)
        (sym connected)
        (subst (λ v. Q false v) (sym valid) (lost a.connected a.channel_valid stays))
