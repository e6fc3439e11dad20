-- ===== src/Tunnel/Serving/Race.antt =====
-- What a CONNECT client is given when its target speaks first or hangs up at once: the reader of the
-- session and the client's thread both write to the client (agent/src/tunnel/main.cpp).
use webhook_ops.Common.{
  ℕ, ◌≡◌, refl, ap, ◌∙◌, true, false, none, some, List, [], ◌∷◌, ◌++◌, Bytes, get_elem?, not,
  if◌then◌else◌,
}
use webhook_ops.Wire.{FrameType, open_ok, stream_data, close}
use webhook_ops.Streams.Store.{modify, get_elem?-modify, flag-get_elem?}
use webhook_ops.Tunnel.Session.{
  waiting, greeting, ProxyStream, Session, stream_frame, change_client, write_client,
  close_proxy_client, unregister_stream, on_frame, find_stream, receive_frame, Arrival, read_frames,
}
use webhook_ops.Tunnel.Serving.{
  verdict, end_wait, established, pump_on, greet_client, serve, serve_client,
}

-- A CONNECT client whose thread waits for the agent.
pub record IsWaiting (id h : ℕ) (c : ProxyStream) (s : Session) : Type 0 where
  pub alive : s.alive ≡ true
  pub found : find_stream id s ≡ some h
  pub stored : get_elem? s.clients h ≡ some c
  pub waits : c.phase ≡ waiting
  pub no_error : c.error_text ≡ []
  pub connects : c.request.is_connect ≡ true

abbrev arrived : FrameType → ℕ → Bytes → Arrival
arrived t id payload = record {
  frame = stream_frame t id payload;
  delivered = true;
  forwarded = true;
}

-- The agent says that the stream is open, and the first bytes of the target follow.
abbrev pub target_first : ℕ → Bytes → List Arrival
target_first id payload = arrived open_ok id [] ∷ arrived stream_data id payload ∷ []

-- The agent says that the stream is open, and the target hangs up.
abbrev pub hang_up : ℕ → List Arrival
hang_up id = arrived open_ok id [] ∷ arrived close id [] ∷ []

abbrev opened_now : ProxyStream → ProxyStream
opened_now c = record c { opened = true }

abbrev closed_now : ProxyStream → ProxyStream
closed_now c = record c { closed = true }

abbrev shut_now : ProxyStream → ProxyStream
shut_now c = record c { client_closed = true }

abbrev greet : ProxyStream → ProxyStream
greet c = record c { phase = greeting }

read_open :
    (id h : ℕ) (s : Session)
    → find_stream id s ≡ some h
    → receive_frame true true (stream_frame open_ok id []) s ≡ change_client h opened_now s
unfolding receive_frame on_frame
read_open id h s e = rw (receive_frame, e) refl

read_one :
    (a : Arrival) (arrivals : List Arrival) (s : Session)
    → s.alive ≡ true
    → read_frames (a ∷ arrivals) s
      ≡ read_frames arrivals (receive_frame a.delivered a.forwarded a.frame s)
unfolding read_frames
read_one a arrivals s up =
    ap
      (λ b. if b then read_frames arrivals (receive_frame a.delivered a.forwarded a.frame s) else s)
      up

-- Both frames of a list that begins with OPEN_OK.
read_two :
    (id h : ℕ) (a : Arrival) (s : Session)
    → s.alive ≡ true
    → find_stream id s ≡ some h
    → read_frames (arrived open_ok id [] ∷ a ∷ []) s
      ≡ receive_frame a.delivered a.forwarded a.frame (change_client h opened_now s)
unfolding read_frames
read_two id h a s up found =
    let opened_s = change_client h opened_now s in
    read_one (arrived open_ok id []) (a ∷ []) s up
    ∙ ap (read_frames (a ∷ [])) (read_open id h s found)
    ∙ read_one a [] opened_s up

read_payload :
    (id h : ℕ) (payload : Bytes) (s : Session)
    → find_stream id s ≡ some h
    → receive_frame true true (stream_frame stream_data id payload) s ≡ write_client h payload s
unfolding receive_frame on_frame
read_payload id h payload s e = rw (receive_frame, e) refl

read_close :
    (id h : ℕ) (s : Session)
    → find_stream id s ≡ some h
    → receive_frame true true (stream_frame close id []) s
      ≡ close_proxy_client h (unregister_stream id (change_client h closed_now s))
unfolding receive_frame on_frame
read_close id h s e = rw (receive_frame, e) refl

serve_wait :
    (h : ℕ) (c : ProxyStream) (s : Session)
    → get_elem? s.clients h ≡ some c
    → c.phase ≡ waiting
    → c.error_text ≡ []
    → c.opened ≡ true
    → serve_client true true none h s ≡ change_client h greet s
unfolding serve_client serve end_wait verdict
serve_wait h c s e waits no_error opens =
    rw (serve_client, e, waits, end_wait, verdict, no_error, opens) refl

serve_greeting :
    (h : ℕ) (c : ProxyStream) (s : Session)
    → get_elem? s.clients h ≡ some (greet c)
    → c.request.is_connect ≡ true
    → serve_client true true none h s ≡ pump_on h (write_client h established s)
unfolding serve_client serve greet_client
serve_greeting h c s e connects = rw (serve_client, e, greet_client, connects) refl

-- Both steps of the client's thread.
serve_twice :
    (h : ℕ) (c : ProxyStream) (s : Session)
    → get_elem? s.clients h ≡ some c
    → c.phase ≡ waiting
    → c.error_text ≡ []
    → c.opened ≡ true
    → c.request.is_connect ≡ true
    → serve_client true true none h (serve_client true true none h s)
      ≡ pump_on h (write_client h established (change_client h greet s))
serve_twice h c s e waits no_error opens connects =
    rw (serve_wait h c s e waits no_error opens)
      (serve_greeting h c (change_client h greet s) (get_elem?-modify h greet s.clients e) connects)

-- When the reader takes OPEN_OK and the first bytes of the target before the client's thread wakes up,
-- the client is given the target's bytes first and the answer to its CONNECT request behind them.
pub target_first_lem :
    (id h : ℕ) (c : ProxyStream) (payload : Bytes) (s : Session)
    → IsWaiting id h c s
    → (serve_client true true none h
        (serve_client true true none h (read_frames (target_first id payload) s))).writes
      ≡ (s.writes ++ (h, payload) ∷ []) ++ (h, established) ∷ []
unfolding find_stream write_client modify pump_on
target_first_lem id h c payload s w =
    let opened_s = change_client h opened_now s in
    let after = write_client h payload opened_s in
    let stored = get_elem?-modify h opened_now s.clients w.stored in
    rw
      (
        read_two id h (arrived stream_data id payload) s w.alive w.found,
        read_payload id h payload opened_s w.found,
        serve_twice h (opened_now c) after stored w.waits w.no_error refl w.connects,
      )
      refl

-- When the reader takes OPEN_OK and CLOSE before the client's thread wakes up, the socket of the client
-- is closed, and then the answer to the CONNECT request is written to it.
pub hang_up_lem :
    (id h : ℕ) (c : ProxyStream) (s : Session)
    → IsWaiting id h c s
    → c.client_closed ≡ false
    → ((read_frames (hang_up id) s).closes ≡ h ∷ s.closes)
      × ((serve_client true true none h
            (serve_client true true none h (read_frames (hang_up id) s))).writes
          ≡ s.writes ++ (h, established) ∷ [])
unfolding find_stream write_client modify pump_on close_proxy_client unregister_stream
hang_up_lem id h c s w unshut =
    let opened_s = change_client h opened_now s in
    let closing = unregister_stream id (change_client h closed_now opened_s) in
    let after = record closing {
      clients = modify h shut_now closing.clients;
      closes = h ∷ closing.closes;
    } in
    let stored =
      get_elem?-modify h closed_now opened_s.clients
        (get_elem?-modify h opened_now s.clients w.stored) in
    let is_unshut = flag-get_elem? (λ d. not d.client_closed) h closing.clients stored in
    rw
      (
        read_two id h (arrived close id []) s w.alive w.found,
        read_close id h opened_s w.found,
        close_proxy_client,
        is_unshut,
        unshut,
      )
      (
        refl,
        ap (λ r. r.writes)
            (serve_twice h (shut_now (closed_now (opened_now c))) after
              (get_elem?-modify h shut_now closing.clients stored) w.waits w.no_error refl
              w.connects),
      )
