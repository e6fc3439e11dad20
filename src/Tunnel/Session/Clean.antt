-- ===== src/Tunnel/Session/Clean.antt =====
-- What holds between the steps of a session: client sockets are closed once, and a client whose thread
-- has ended is closed and forgotten (agent/src/tunnel/main.cpp).
use webhook_ops.Common.{
  ℕ, suc, ◌≡◌, refl, sym, ap, ◌∙◌, subst, Bool, true, false, not, List, [], ◌∷◌, arith, Bytes, All,
  ◌==◌, ==_iff, if◌then◌else◌, Bool-cases, inl, inr,
}
use webhook_ops.Wire.{Frame}
use webhook_ops.Streams.{erase, holds, count, holds-erase}
use webhook_ops.Streams.Store.{
  modify, flag, flag-modify_same, flag-modify_ne, flag-modify_le, flag-modify_ge, flag-modify_self,
  flag-not,
}
use webhook_ops.Tunnel.Session.{
  Phase, finished, ProxyStream, Session, send, unregister_stream, change_client, close_proxy_client,
  write_client, fail_stream, close_each, close_all_streams,
}

abbrev is_finished : Phase → Bool
is_finished finished = true
is_finished _ = false

abbrev pub has_ended : ProxyStream → Bool
has_ended c = is_finished c.phase

abbrev pub is_closed : ProxyStream → Bool
is_closed c = c.client_closed

abbrev pub has_id : ℕ → ProxyStream → Bool
has_id id c = c.id == id

abbrev pub Named : List ProxyStream → List (ℕ × ℕ) → Type 0
Named clients = All (λ (e : ℕ × ℕ). flag (has_id e.0) e.1 clients ≡ true)

pub record IsClean (s : Session) : Type 0 where
  -- A client socket was closed once if it counts as closed, and not at all otherwise.
  pub once : (n : ℕ) → count n s.closes ≡ (if flag is_closed n s.clients then 1 else 0)
  -- A client whose thread has ended is closed, and no stream id leads to it.
  pub shut : (n : ℕ) → flag has_ended n s.clients ≡ true → flag is_closed n s.clients ≡ true
  pub gone : (n : ℕ) → flag has_ended n s.clients ≡ true → holds n s.streams ≡ false
  -- A stream id leads to the stream of that id.
  pub named : Named s.clients s.streams

-- A step that moves frames and bytes only.
pub record Same (a b : Session) : Type 0 where
  pub clients : b.clients ≡ a.clients
  pub streams : b.streams ≡ a.streams
  pub closes : b.closes ≡ a.closes

pub Same-IsClean : {a b : Session} → Same a b → IsClean a → IsClean b
Same-IsClean {a} {b} k v = record {
  once = λ n.
      ap (count n) k.closes
      ∙ v.once n
      ∙ ap (λ cs. if flag is_closed n cs then 1 else 0) (sym k.clients);
  shut =
      λ n e. ap (flag is_closed n) k.clients ∙ v.shut n (ap (flag has_ended n) (sym k.clients) ∙ e);
  gone = λ n e. ap (holds n) k.streams ∙ v.gone n (ap (flag has_ended n) (sym k.clients) ∙ e);
  named =
      subst (λ cs. Named cs b.streams) (sym k.clients)
        (subst (Named a.clients) (sym k.streams) v.named);
}

pub send-Same : (delivered : Bool) (f : Frame) (s : Session) → Same s (send delivered f s).1
unfolding send
send-Same delivered f s = ground arith

pub send-IsClean :
    (delivered : Bool) (f : Frame) (s : Session) → IsClean s → IsClean (send delivered f s).1
send-IsClean delivered f s v = Same-IsClean (send-Same delivered f s) v

pub write_client-IsClean :
    (h : ℕ) (bytes : Bytes) (s : Session) → IsClean s → IsClean (write_client h bytes s)
unfolding write_client
write_client-IsClean h bytes s v = record {
  once = v.once;
  shut = v.shut;
  gone = v.gone;
  named = v.named;
}

erase-Named :
    (id : ℕ) (clients : List ProxyStream) (streams : List (ℕ × ℕ))
    → Named clients streams
    → Named clients (erase id streams)
unfolding erase
erase-Named id clients [] v = tt
erase-Named id clients ((k, h) ∷ streams) (e, v) = elim (Bool-cases (k == id)) [
  | inl same ↦ rw same (erase-Named id clients streams v)
  | inr other ↦ rw other (e, erase-Named id clients streams v)
]

pub unregister_stream-IsClean :
    (id : ℕ) (s : Session) → IsClean s → IsClean (unregister_stream id s)
unfolding unregister_stream
unregister_stream-IsClean id s v = record {
  once = v.once;
  shut = v.shut;
  gone = λ n e. holds-erase n id s.streams (v.gone n e);
  named = erase-Named id s.clients s.streams v.named;
}

modify-Named :
    (f : ProxyStream → ProxyStream) (h : ℕ) (clients : List ProxyStream) (streams : List (ℕ × ℕ))
    → ((c : ProxyStream) → (f c).id ≡ c.id)
    → Named clients streams
    → Named (modify h f clients) streams
modify-Named f h clients [] same v = tt
modify-Named f h clients ((k, j) ∷ streams) same (e, v) = (
  flag-modify_same (has_id k) f (λ c. ap (λ i. i == k) (same c)) j h clients ∙ e,
  modify-Named f h clients streams same v,
)

-- A change of a stream that leaves its id and its socket alone and ends no thread.
pub change_client-IsClean :
    (h : ℕ) (f : ProxyStream → ProxyStream) (s : Session)
    → ((c : ProxyStream) → (f c).id ≡ c.id)
    → ((c : ProxyStream) → (f c).client_closed ≡ c.client_closed)
    → ((c : ProxyStream) → has_ended (f c) ≡ true → has_ended c ≡ true)
    → IsClean s
    → IsClean (change_client h f s)
change_client-IsClean h f s id closed le v =
    let same = λ (n : ℕ). flag-modify_same is_closed f closed n h s.clients in
    let before = λ (n : ℕ). flag-modify_le has_ended f le n h s.clients in
    record {
      once = λ n. v.once n ∙ ap (λ b. if b then 1 else 0) (sym (same n));
      shut = λ n e. same n ∙ v.shut n (before n e);
      gone = λ n e. v.gone n (before n e);
      named = modify-Named f h s.clients s.streams id v.named;
    }

abbrev closed_now : ProxyStream → ProxyStream
closed_now c = record c { client_closed = true }

closed_now-once :
    (n h : ℕ) (s : Session)
    → flag (λ c. not c.client_closed) h s.clients ≡ true
    → IsClean s
    → count n (h ∷ s.closes) ≡ (if flag is_closed n (modify h closed_now s.clients) then 1 else 0)
unfolding count
closed_now-once n h s unset v = elim (Bool-cases (n == h)) [
  | inl same ↦
      let e : n ≡ h = (==_iff n h).0 same in
      let fresh : flag is_closed h s.clients ≡ false =
        flag-not is_closed (λ c. not c.client_closed) (λ c q. ground arith) h s.clients unset in
      let now : flag is_closed h (modify h closed_now s.clients) ≡ true =
        flag-modify_self (λ c. not c.client_closed) is_closed closed_now (λ c q. refl) h s.clients
          unset in
      let none_yet : count h s.closes ≡ 0 = v.once h ∙ ap (λ b. if b then 1 else 0) fresh in
      rw (same, e, now) (ap suc (ap (λ i. count i s.closes) e ∙ none_yet))
  | inr other ↦ rw (other, flag-modify_ne is_closed closed_now n h s.clients other) (v.once n)
]

pub close_proxy_client-IsClean :
    (h : ℕ) (s : Session) → IsClean s → IsClean (close_proxy_client h s)
unfolding close_proxy_client
close_proxy_client-IsClean h s v = elim (Bool-cases (flag (λ c. not c.client_closed) h s.clients)) [
  | inl unset ↦
      rw (close_proxy_client, unset)
        (record {
          once = λ n. closed_now-once n h s unset v;
          shut = λ n e.
              flag-modify_ge is_closed closed_now (λ c q. refl) n h s.clients
                (v.shut n (flag-modify_le has_ended closed_now (λ c q. q) n h s.clients e));
          gone = λ n e. v.gone n (flag-modify_le has_ended closed_now (λ c q. q) n h s.clients e);
          named = modify-Named closed_now h s.clients s.streams (λ c. refl) v.named;
        })
  | inr shut ↦ rw (close_proxy_client, shut) v
]

pub fail_stream-IsClean :
    (h : ℕ) (reason : Bytes) (s : Session) → IsClean s → IsClean (fail_stream h reason s)
unfolding fail_stream
fail_stream-IsClean h reason s v = change_client-IsClean h _ s (λ c. refl) (λ c. refl) (λ c e. e) v

pub close_each-IsClean :
    (streams : List (ℕ × ℕ)) (reason : Bytes) (s : Session)
    → IsClean s
    → IsClean (close_each streams reason s)
unfolding close_each
close_each-IsClean [] reason s v = v
close_each-IsClean ((id, h) ∷ rest) reason s v =
    close_each-IsClean rest reason _
      (close_proxy_client-IsClean h _ (fail_stream-IsClean h reason s v))

pub close_all_streams-IsClean :
    (reason : Bytes) (s : Session) → IsClean s → IsClean (close_all_streams reason s)
unfolding close_all_streams holds
close_all_streams-IsClean reason s v =
    close_each-IsClean s.streams reason (record s { streams = [] })
      (record { once = v.once; shut = v.shut; gone = λ n e. refl; named = tt })
