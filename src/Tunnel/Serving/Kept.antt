-- ===== src/Tunnel/Serving/Kept.antt =====
-- Every step of a session keeps it clean, the steps of its clients' threads included
-- (agent/src/tunnel/main.cpp).
use webhook_ops.Common.{
  ℕ, ◌+◌, ◌%◌, ◌^◌, ◌≡◌, refl, sym, ap, ◌∙◌, Bool, true, false, Option, none, some, List, [], ◌∷◌,
  ◌++◌, arith, Bytes, length, get_elem?, ◌==◌, ==_iff, ==_refl, if◌then◌else◌, is_empty, Bool-cases,
  Option-cases, inl, inr,
}
use webhook_ops.Wire.{Frame, stream_data}
use webhook_ops.Streams.{holds, holds-erase}
use webhook_ops.Streams.Store.{flag, flag-append_ge, flag-append, flag-bound, flag-get_elem?}
use webhook_ops.Tunnel.Request.{ParsedProxyRequest}
use webhook_ops.Tunnel.Session.{
  Phase, waiting, greeting, pumping, finished, ProxyStream, Session, send, stream_frame,
  register_stream, unregister_stream, write_client, end_reader, stop_session,
}
use webhook_ops.Tunnel.Session.Clean.{
  has_ended, is_closed, has_id, Named, IsClean, send-IsClean, write_client-IsClean,
  unregister_stream-IsClean, change_client-IsClean, close_all_streams-IsClean,
}
use webhook_ops.Tunnel.Serving.{
  new_stream, http_error, leave, refuse, open_client, verdict, end_wait, established, pump_on,
  greet_client, end_pump, pump_client, serve, serve_client, Event, client_came, id_taken,
  client_step, frame_came, reader_ended, stopped, step, run,
}
use webhook_ops.Tunnel.Session.Clean.{send-Same}
use webhook_ops.Tunnel.Serving.Clean.{if-IsClean, receive_frame-IsClean, leave-IsClean}

-- What a step needs to know of the stream that it serves.
abbrev IsAt : ℕ → ℕ → Session → Type 0
IsAt id h s = flag (has_id id) h s.clients ≡ true

send-IsAt :
    (delivered : Bool) (f : Frame) (id h : ℕ) (s : Session)
    → IsAt id h s
    → IsAt id h (send delivered f s).1
send-IsAt delivered f id h s e = ap (flag (has_id id) h) (send-Same delivered f s).clients ∙ e

refuse-IsClean :
    (id h : ℕ) (reason : Bytes) (s : Session)
    → IsAt id h s
    → IsClean s
    → IsClean (refuse id h reason s)
unfolding refuse write_client
refuse-IsClean id h reason s e v =
    leave-IsClean id h _ e (write_client-IsClean h (http_error 502 reason) s v)

append-Named :
    (c : ProxyStream) (clients : List ProxyStream) (streams : List (ℕ × ℕ))
    → Named clients streams
    → Named (clients ++ c ∷ []) streams
append-Named c clients [] v = tt
append-Named c clients ((k, j) ∷ streams) (e, v) =
    (flag-append_ge (has_id k) j clients c e, append-Named c clients streams v)

last-IsAt :
    (c : ProxyStream) (clients : List ProxyStream)
    → flag (has_id c.id) (length clients) (clients ++ c ∷ []) ≡ true
last-IsAt c clients =
    flag-append (has_id c.id) (length clients) clients c ∙ ground (arith, ==_refl c.id)

-- A stream whose thread begins has a flag of none of the kinds.
fresh_flag :
    (p : ProxyStream → Bool) (c : ProxyStream) (n : ℕ) (clients : List ProxyStream)
    → p c ≡ false
    → flag p (length clients) clients ≡ false
    → flag p n (clients ++ c ∷ []) ≡ flag p n clients
fresh_flag p c n clients e out =
    flag-append p n clients c ∙ elim (Bool-cases (n == length clients)) [
      | inl last ↦ rw (last, (==_iff n (length clients)).0 last, e, out) refl
      | inr other ↦ rw other refl
    ]

past_end :
    (p : ProxyStream → Bool) (clients : List ProxyStream) → flag p (length clients) clients ≡ false
unfolding flag
past_end p [] = refl
past_end p (c ∷ clients) = past_end p clients

abbrev with_client : ProxyStream → Session → Session
with_client c s = record s { clients = s.clients ++ c ∷ []; next_stream_id = (c.id + 1) % 2 ^ 32 }

register_stream-IsClean :
    (c : ProxyStream) (s : Session)
    → c.client_closed ≡ false
    → has_ended c ≡ false
    → IsClean s
    → IsClean (register_stream c.id (length s.clients) (with_client c s))
unfolding register_stream holds unregister_stream
register_stream-IsClean c s unset running v =
    let h = length s.clients in
    let old = λ (p : ProxyStream → Bool) (e : p c ≡ false) (n : ℕ).
      fresh_flag p c n s.clients e (past_end p s.clients) in
    let ended = old has_ended running in
    record {
      once = λ n. v.once n ∙ ap (λ b. if b then 1 else 0) (sym (old is_closed unset n));
      shut = λ n e. old is_closed unset n ∙ v.shut n (sym (ended n) ∙ e);
      gone = λ n e.
          let before = sym (ended n) ∙ e in
          ground (
            arith,
            flag-bound has_ended n s.clients before,
            holds-erase n c.id s.streams (v.gone n before),
          );
      named = (
        last-IsAt c s.clients,
        append-Named c s.clients _ (unregister_stream-IsClean c.id s v).named,
      );
    }

registered : ParsedProxyRequest → Session → Session
registered request s =
    register_stream s.next_stream_id (length s.clients)
      (with_client (new_stream s.next_stream_id request) s)

registered-IsAt :
    (request : ParsedProxyRequest) (s : Session)
    → IsAt s.next_stream_id (length s.clients) (registered request s)
unfolding registered register_stream
registered-IsAt request s = last-IsAt (new_stream s.next_stream_id request) s.clients

open_client-IsClean :
    (delivered : Bool) (request : ParsedProxyRequest) (s : Session)
    → IsClean s
    → IsClean (open_client delivered request s)
unfolding open_client registered
open_client-IsClean delivered request s v =
    let id = s.next_stream_id in
    let start = registered request s in
    let start-IsClean : IsClean start =
      register_stream-IsClean (new_stream id request) s refl refl v in
    let tried-IsClean = λ (f : Frame). send-IsClean delivered f start start-IsClean in
    let tried-IsAt = λ (f : Frame).
      send-IsAt delivered f id (length s.clients) start (registered-IsAt request s) in
    if-IsClean _ (tried-IsClean _)
      (refuse-IsClean id (length s.clients) _ _ (tried-IsAt _) (tried-IsClean _))

end_wait-IsClean :
    (h : ℕ) (c : ProxyStream) (s : Session) → IsAt c.id h s → IsClean s → IsClean (end_wait h c s)
unfolding end_wait
end_wait-IsClean h c s e v = elim (Option-cases (verdict c)) [
  | inl w ↦
      rw (end_wait, w) (change_client-IsClean h _ s (λ d. refl) (λ d. refl) (λ d q. absurd (cc)) v)
  | inr (reason, w) ↦ rw (end_wait, w) (refuse-IsClean c.id h reason s e v)
]

pump_on-IsClean : (h : ℕ) (s : Session) → IsClean s → IsClean (pump_on h s)
unfolding pump_on
pump_on-IsClean h s v = change_client-IsClean h _ s (λ d. refl) (λ d. refl) (λ d q. absurd (cc)) v

-- A frame is sent, and the thread ends.
send_leave-IsClean :
    (delivered : Bool) (f : Frame) (id h : ℕ) (s : Session)
    → IsAt id h s
    → IsClean s
    → IsClean (leave id h (send delivered f s).1)
send_leave-IsClean delivered f id h s e v =
    leave-IsClean id h _ (send-IsAt delivered f id h s e) (send-IsClean delivered f s v)

greet_client-IsClean :
    (delivered answered : Bool) (h : ℕ) (c : ProxyStream) (s : Session)
    → IsAt c.id h s
    → IsClean s
    → IsClean (greet_client delivered answered h c s)
unfolding greet_client write_client
greet_client-IsClean delivered answered h c s e v =
    let written = write_client-IsClean h established s v in
    let tried = send-IsClean delivered (stream_frame stream_data c.id c.request.initial_data) s v in
    if-IsClean c.request.is_connect
      (if-IsClean answered (pump_on-IsClean h _ written)
        (send_leave-IsClean delivered _ c.id h _ e written))
      (if-IsClean (is_empty c.request.initial_data) (pump_on-IsClean h s v)
        (if-IsClean _ (pump_on-IsClean h _ tried) (send_leave-IsClean delivered _ c.id h s e v)))

pump_client-IsClean :
    (delivered closing : Bool) (bytes : Option Bytes) (h : ℕ) (c : ProxyStream) (s : Session)
    → IsAt c.id h s
    → IsClean s
    → IsClean (pump_client delivered closing bytes h c s)
unfolding pump_client end_pump
pump_client-IsClean delivered closing none h c s e v = send_leave-IsClean closing _ c.id h s e v
pump_client-IsClean delivered closing (some bytes) h c s e v =
    let tried = send-IsClean delivered (stream_frame stream_data c.id bytes) s v in
    if-IsClean _ tried
      (send_leave-IsClean closing _ c.id h _ (send-IsAt delivered _ c.id h s e) tried)

serve-IsClean :
    (delivered answered : Bool) (bytes : Option Bytes) (h : ℕ) (c : ProxyStream) (p : Phase)
    (s : Session)
    → IsAt c.id h s
    → IsClean s
    → IsClean (serve delivered answered bytes h c p s)
unfolding serve
serve-IsClean delivered answered bytes h c waiting s e v = end_wait-IsClean h c s e v
serve-IsClean delivered answered bytes h c greeting s e v =
    greet_client-IsClean delivered answered h c s e v
serve-IsClean delivered answered bytes h c pumping s e v =
    pump_client-IsClean delivered answered bytes h c s e v
serve-IsClean delivered answered bytes h c finished s e v = v

serve_client-IsClean :
    (delivered answered : Bool) (bytes : Option Bytes) (h : ℕ) (s : Session)
    → IsClean s
    → IsClean (serve_client delivered answered bytes h s)
unfolding serve_client
serve_client-IsClean delivered answered bytes h s v = elim (Option-cases (get_elem? s.clients h)) [
  | inl e ↦ rw (serve_client, e) v
  | inr (c, e) ↦
      rw (serve_client, e)
        (serve-IsClean delivered answered bytes h c c.phase s
          (flag-get_elem? (has_id c.id) h s.clients e ∙ ==_refl c.id) v)
]

step-IsClean : (e : Event) (s : Session) → IsClean s → IsClean (step e s)
unfolding step end_reader stop_session
step-IsClean (client_came delivered request) s v = open_client-IsClean delivered request s v
step-IsClean id_taken s v = record { once = v.once; shut = v.shut; gone = v.gone; named = v.named }
step-IsClean (client_step delivered answered bytes h) s v =
    serve_client-IsClean delivered answered bytes h s v
step-IsClean (frame_came delivered forwarded f) s v =
    receive_frame-IsClean delivered forwarded f s v
step-IsClean reader_ended s v =
    close_all_streams-IsClean _ (record s { alive = false })
      (record { once = v.once; shut = v.shut; gone = v.gone; named = v.named })
step-IsClean stopped s v =
    close_all_streams-IsClean _ (record s { alive = false })
      (record { once = v.once; shut = v.shut; gone = v.gone; named = v.named })

-- A session that is clean stays so, whatever its clients, their threads, the agent and the operator do,
-- in any order: the socket of a client was closed exactly once if it counts as closed and never
-- otherwise, a client whose thread has ended is closed and no stream id leads to it, and a stream id
-- leads to the stream of that id.
pub run-IsClean : (events : List Event) (s : Session) → IsClean s → IsClean (run events s)
unfolding run
run-IsClean [] s v = v
run-IsClean (e ∷ events) s v = run-IsClean events (step e s) (step-IsClean e s v)
