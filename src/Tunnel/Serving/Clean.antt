-- ===== src/Tunnel/Serving/Clean.antt =====
-- Whatever happens to a session, in any order: client sockets are closed once, and a client whose
-- thread has ended is closed and forgotten (agent/src/tunnel/main.cpp).
use webhook_ops.Common.{
  ℕ, ◌≡◌, refl, sym, ap, ◌∙◌, Bool, true, false, not, List, [], ◌∷◌, arith, Bytes, ◌==◌, ==_iff,
  if◌then◌else◌, Bool-cases, Option-cases, inl, inr,
}
use webhook_ops.Wire.{
  Frame, FrameType, hello, hello_ok, heartbeat, open_stream, open_ok, stream_data, close, error,
  auth_challenge, auth_response, unnamed,
}
use webhook_ops.Streams.{erase, holds}
use webhook_ops.Streams.Store.{
  modify, flag, flag-either, flag-not, flag-modify_same, flag-modify_ne, flag-modify_self,
}
use webhook_ops.Tunnel.Session.{
  finished, ProxyStream, Session, unregister_stream, change_client, close_proxy_client, on_error,
  on_data, on_close, on_frame, is_heartbeat, find_stream, receive_frame,
}
use webhook_ops.Tunnel.Session.Clean.{
  has_ended, is_closed, has_id, Named, IsClean, send-IsClean, write_client-IsClean,
  unregister_stream-IsClean, change_client-IsClean, close_proxy_client-IsClean, fail_stream-IsClean,
}
use webhook_ops.Tunnel.Serving.{leave}

pub if-IsClean : (b : Bool) {x y : Session} → IsClean x → IsClean y → IsClean (if b then x else y)
if-IsClean true v w = v
if-IsClean false v w = w

on_error-IsClean : (h : ℕ) (text : Bytes) (s : Session) → IsClean s → IsClean (on_error h text s)
unfolding on_error
on_error-IsClean h text s v =
    let failed = fail_stream-IsClean h text s v in
    if-IsClean _ (close_proxy_client-IsClean h _ failed) failed

on_data-IsClean :
    (delivered forwarded : Bool) (id h : ℕ) (payload : Bytes) (s : Session)
    → IsClean s
    → IsClean (on_data delivered forwarded id h payload s)
unfolding on_data
on_data-IsClean delivered forwarded id h payload s v =
    let written = write_client-IsClean h payload s v in
    if-IsClean forwarded written (
      close_proxy_client-IsClean h _
        (unregister_stream-IsClean id _ (send-IsClean delivered _ _ written)))

on_close-IsClean : (id h : ℕ) (s : Session) → IsClean s → IsClean (on_close id h s)
unfolding on_close
on_close-IsClean id h s v = close_proxy_client-IsClean h _ (
    unregister_stream-IsClean id _
      (change_client-IsClean h _ s (λ c. refl) (λ c. refl) (λ c e. e) v))

on_frame-IsClean :
    (delivered forwarded : Bool) (f : Frame) (h : ℕ) (t : FrameType) (s : Session)
    → IsClean s
    → IsClean (on_frame delivered forwarded f h t s)
unfolding on_frame
on_frame-IsClean delivered forwarded f h t s v =
    elim t as (λ k. IsClean (on_frame delivered forwarded f h k s)) [
      | open_ok ↦ change_client-IsClean h _ s (λ c. refl) (λ c. refl) (λ c e. e) v
      | error ↦ on_error-IsClean h f.payload s v
      | stream_data ↦ on_data-IsClean delivered forwarded f.stream_id h f.payload s v
      | close ↦ on_close-IsClean f.stream_id h s v
      | open_stream ↦ v
      | hello ↦ v
      | hello_ok ↦ v
      | heartbeat ↦ v
      | auth_challenge ↦ v
      | auth_response ↦ v
      | unnamed b ↦ v
    ]

pub receive_frame-IsClean :
    (delivered forwarded : Bool) (f : Frame) (s : Session)
    → IsClean s
    → IsClean (receive_frame delivered forwarded f s)
unfolding receive_frame
receive_frame-IsClean delivered forwarded f s v = elim (Option-cases (find_stream f.stream_id s)) [
  | inl e ↦ rw (receive_frame, e) (if-IsClean (is_heartbeat f.frame_type) v v)
  | inr (h, e) ↦
      rw (receive_frame, e)
        (if-IsClean (is_heartbeat f.frame_type) v
          (on_frame-IsClean delivered forwarded f h f.frame_type s v))
]

-- The stream of an id is behind no other id.
pub holds-erase-Named :
    (id h : ℕ) (clients : List ProxyStream) (streams : List (ℕ × ℕ))
    → flag (has_id id) h clients ≡ true
    → Named clients streams
    → holds h (erase id streams) ≡ false
unfolding holds erase
holds-erase-Named id h clients [] e v = refl
holds-erase-Named id h clients ((k, j) ∷ streams) e (named, v) = elim (Bool-cases (k == id)) [
  | inl same ↦ rw same (holds-erase-Named id h clients streams e v)
  | inr other ↦ elim (Bool-cases (j == h)) [
    | inl here ↦
        let not_k = flag-not (has_id k) (has_id id) (λ c q. ground arith) h clients e in
        let at_h = ap (λ i. flag (has_id k) i clients) (sym ((==_iff j h).0 here)) ∙ named in
        absurd (cc)
    | inr there ↦ rw (other, there) (holds-erase-Named id h clients streams e v)
  ]
]

closed_after :
    (id h : ℕ) (s : Session)
    → flag (has_id id) h s.clients ≡ true
    → flag is_closed h (close_proxy_client h s).clients ≡ true
unfolding close_proxy_client
closed_after id h s e = elim (flag-either (has_id id) is_closed h s.clients e) [
  | inl before ↦
      let unset =
        flag-not (λ c. not c.client_closed) is_closed (λ c q. ground arith) h s.clients before in
      rw (close_proxy_client, unset) before
  | inr unset ↦
      rw (close_proxy_client, unset)
        (flag-modify_self (λ c. not c.client_closed) is_closed _ (λ c q. refl) h s.clients unset)
]

pub close_proxy_client-streams :
    (h : ℕ) (s : Session) → (close_proxy_client h s).streams ≡ s.streams
unfolding close_proxy_client
close_proxy_client-streams h s = ground arith

abbrev end_thread : ProxyStream → ProxyStream
end_thread c = record c { phase = finished }

pub end_thread-IsClean :
    (h : ℕ) (s : Session)
    → flag is_closed h s.clients ≡ true
    → holds h s.streams ≡ false
    → IsClean s
    → IsClean (change_client h end_thread s)
end_thread-IsClean h s shut gone v =
    let same = λ (p : ProxyStream → Bool) (q : (c : ProxyStream) → p (end_thread c) ≡ p c) (n : ℕ).
      flag-modify_same p end_thread q n h s.clients in
    record {
      once = λ n. v.once n ∙ ap (λ b. if b then 1 else 0) (sym (same is_closed (λ c. refl) n));
      shut = λ n e. same is_closed (λ c. refl) n ∙ closed n e;
      gone = forgotten;
      named = named s.streams v.named;
    }
  where
    closed :
        (n : ℕ)
        → flag has_ended n (modify h end_thread s.clients) ≡ true
        → flag is_closed n s.clients ≡ true
    closed n e = elim (Bool-cases (n == h)) [
      | inl here ↦ ap (λ i. flag is_closed i s.clients) ((==_iff n h).0 here) ∙ shut
      | inr there ↦ v.shut n (sym (flag-modify_ne has_ended end_thread n h s.clients there) ∙ e)
    ]

    forgotten :
        (n : ℕ)
        → flag has_ended n (modify h end_thread s.clients) ≡ true
        → holds n s.streams ≡ false
    forgotten n e = elim (Bool-cases (n == h)) [
      | inl here ↦ ap (λ i. holds i s.streams) ((==_iff n h).0 here) ∙ gone
      | inr there ↦ v.gone n (sym (flag-modify_ne has_ended end_thread n h s.clients there) ∙ e)
    ]

    named :
        (streams : List (ℕ × ℕ))
        → Named s.clients streams
        → Named (modify h end_thread s.clients) streams
    named [] w = tt
    named ((k, j) ∷ streams) (e, w) =
        (flag-modify_same (has_id k) end_thread (λ c. refl) j h s.clients ∙ e, named streams w)

pub leave-IsClean :
    (id h : ℕ) (s : Session)
    → flag (has_id id) h s.clients ≡ true
    → IsClean s
    → IsClean (leave id h s)
unfolding leave unregister_stream
leave-IsClean id h s e v =
    let forgotten = unregister_stream id s in
    let closed = close_proxy_client h forgotten in
    end_thread-IsClean h closed (closed_after id h forgotten e)
      (ap (holds h) (close_proxy_client-streams h forgotten)
        ∙ holds-erase-Named id h s.clients s.streams e v.named)
      (close_proxy_client-IsClean h forgotten (unregister_stream-IsClean id s v))
