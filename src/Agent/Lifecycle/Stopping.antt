-- ===== src/Agent/Lifecycle/Stopping.antt =====
-- What becomes of an agent that is asked to stop, and of its heartbeat threads
-- (agent/src/agent/main.cpp).
use webhook_ops.Common.{
  ℕ, zero, suc, ◌≤◌, ◌+◌, ◌≡◌, refl, sym, ap, ap₂, subst, ◌∙◌, Bool, true, false, ◌&&◌, List, [],
  ◌∷◌, arith, if◌then◌else◌,
}
use webhook_ops.Agent.Lifecycle.Down.{StaysDown, session-StaysDown, close_all_streams-connected}
use webhook_ops.Agent.Lifecycle.{
  Place, testing, connecting, looping, in_session, asleep, ended, Lifecycle, connect, leave_session,
  test_session, receive_frame, beat, beats, session, advance, request_stop, Event, run_moves,
  stop_requested, step, run,
}

abbrev pub is_connecting : Place → Bool
is_connecting connecting = true
is_connecting _ = false

abbrev at : Place → Bool → Lifecycle → Lifecycle
at p s l = record l { place = p; stopping = s }

-- A state with its place and its flag written out.
at_lem : (l : Lifecycle) {p : Place} {s : Bool} → l.place ≡ p → l.stopping ≡ s → at p s l ≡ l
at_lem l e h = ap₂ (λ p s. at p s l) (sym e) (sym h)

-- How many steps the thread of an agent that is stopping has left.
abbrev pub moves_left : Place → ℕ
moves_left asleep = 2
moves_left ended = 0
moves_left _ = 1

-- How often the thread of `run` moves.
abbrev pub moves : List Event → ℕ
moves [] = 0
moves (run_moves _ ∷ events) = suc (moves events)
moves (_ ∷ events) = moves events

abbrev IsCut : Bool → Bool → Type 0
IsCut connected valid = (connected ≡ false) × (valid ≡ false)

lost-IsCut : (connected valid : Bool) → IsCut connected valid → IsCut false valid
lost-IsCut connected valid (_, closed) = (refl, closed)

-- A stop took effect, and the thread of `run` has at most `n` steps left.
record IsStopping (n : ℕ) (l : Lifecycle) : Type 0 where
  stops : l.stopping ≡ true
  down : IsCut l.agent.connected l.agent.channel_valid
  settled : is_connecting l.place ≡ false
  left : moves_left l.place ≤ n

leave_session-IsStopping : (l : Lifecycle) → l.stopping ≡ true → IsStopping 0 (leave_session l)
unfolding leave_session
leave_session-IsStopping l stops =
    let (down, _) = close_all_streams-connected (record l.agent { connected = false }) in
    record {
      stops = stops;
      down = (down, refl);
      settled = rw stops refl;
      left = rw stops (omega arith);
    }

more_left : {m n : ℕ} {l : Lifecycle} → m ≤ n → IsStopping m l → IsStopping n l
more_left h v = record {
  stops = v.stops;
  down = v.down;
  settled = v.settled;
  left = omega (arith, h, v.left);
}

-- A test that is known to succeed, or to fail.
if_true :
    (P : Lifecycle → Type 0) {b : Bool} (x y : Lifecycle) → b ≡ true → P x → P (if b then x else y)
if_true P x y e k = rw e k

if_false :
    (P : Lifecycle → Type 0) {b : Bool} (x y : Lifecycle) → b ≡ false → P y → P (if b then x else y)
if_false P x y e k = rw e k

advance-IsStopping :
    (n : ℕ) (succeeds : Bool) (p : Place) (l : Lifecycle)
    → IsStopping (suc n) l
    → l.place ≡ p
    → IsStopping n (advance succeeds p l)
unfolding advance test_session receive_frame
advance-IsStopping n succeeds testing l v e = record {
  stops = v.stops;
  down = v.down;
  settled = rw v.stops refl;
  left = rw v.stops (omega arith);
}
advance-IsStopping n succeeds connecting l v e =
    absurd (let c = v.settled in let d = ap is_connecting e in cc)
advance-IsStopping n succeeds looping l v e =
    if_false (IsStopping n) _ _ (ap (λ c. c && l.agent.channel_valid) v.down.0)
      (more_left (omega arith) (leave_session-IsStopping l v.stops))
advance-IsStopping n true in_session l v e =
    if_false (IsStopping n) _ _ v.down.1
      (more_left (omega arith) (leave_session-IsStopping l v.stops))
advance-IsStopping n false in_session l v e =
    more_left (omega arith) (leave_session-IsStopping l v.stops)
advance-IsStopping n succeeds asleep l v e = record {
  stops = v.stops;
  down = v.down;
  settled = refl;
  left = omega (arith, v.left, ap moves_left e);
}
advance-IsStopping n succeeds ended l v e = record {
  stops = v.stops;
  down = v.down;
  settled = v.settled;
  left = omega (arith, ap moves_left e);
}

beat-IsStopping :
    (n : ℕ) (delivered : Bool) (h : ℕ) (l : Lifecycle)
    → IsStopping n l
    → IsStopping n (beat delivered h l)
unfolding beat
beat-IsStopping n delivered zero l v = v
beat-IsStopping n delivered (suc others) l v =
    if_false (IsStopping n) _ (record l { heartbeats = others }) v.down.0
      (record { stops = v.stops; down = v.down; settled = v.settled; left = v.left })

run-IsStopping :
    (events : List Event) (n : ℕ) (l : Lifecycle)
    → IsStopping n l
    → n ≤ moves events
    → (run events l).place ≡ ended
unfolding run step request_stop StaysDown
run-IsStopping [] n l v h = ends l.place (omega (arith, v.left, h))
  where
    ends : (p : Place) → moves_left p ≤ 0 → p ≡ ended
    ends ended k = refl
    ends testing k = absurd (omega (arith, k))
    ends connecting k = absurd (omega (arith, k))
    ends looping k = absurd (omega (arith, k))
    ends in_session k = absurd (omega (arith, k))
    ends asleep k = absurd (omega (arith, k))
run-IsStopping (run_moves succeeds ∷ events) zero l v h =
    run-IsStopping events zero _
      (advance-IsStopping zero succeeds l.place l (more_left (omega arith) v) refl) (omega arith)
run-IsStopping (run_moves succeeds ∷ events) (suc n) l v h =
    run-IsStopping events n _ (advance-IsStopping n succeeds l.place l v refl) (omega (arith, h))
run-IsStopping (beats delivered ∷ events) n l v h =
    run-IsStopping events n _ (beat-IsStopping n delivered l.heartbeats l v) h
run-IsStopping (stop_requested ∷ events) n l v h =
    if_true (λ x. (run events x).place ≡ ended) l _ v.stops (run-IsStopping events n l v h)
run-IsStopping (session e ∷ events) n l v h =
    run-IsStopping events n _
      (record {
        stops = v.stops;
        down = session-StaysDown IsCut lost-IsCut e l.agent v.down;
        settled = v.settled;
        left = v.left;
      })
      h

-- An agent that is asked to stop for the first time, while it is not connecting, ends after two more
-- steps of its thread if that sleeps, and after one more if it is in a session or before the test of
-- `stopping_`, whatever these steps bring and whatever the tunnel, the targets, the other threads and
-- the operator do between them.
pub request_stop-ends :
    (events : List Event) (l : Lifecycle)
    → is_connecting l.place ≡ false
    → l.stopping ≡ false
    → moves_left l.place ≤ moves events
    → (run (stop_requested ∷ events) l).place ≡ ended
unfolding run step request_stop
request_stop-ends events l c s h =
    let cut = record l.agent { connected = false; channel_valid = false } in
    let (down, closed) = close_all_streams-connected cut in
    if_false (λ x. (run events x).place ≡ ended) l _ s
      (run-IsStopping events (moves_left l.place) _
        (record { stops = refl; down = (down, closed); settled = c; left = omega arith }) h)

-- An agent that is asked to stop while it connects, and then connects, is in a session and connected,
-- though it counts as stopping; asking again changes nothing, and each frame that comes is received.
pub stop_lost :
    (l : Lifecycle)
    → l.place ≡ connecting
    → l.stopping ≡ false
    → let l' = run (stop_requested ∷ run_moves true ∷ run_moves true ∷ []) l in
      (l'.place ≡ in_session)
      × (l'.agent.connected ≡ true)
      × (l'.stopping ≡ true)
      × (request_stop l' ≡ l')
      × (run (run_moves true ∷ run_moves true ∷ []) l' ≡ l')
unfolding run step advance connect request_stop test_session receive_frame
stop_lost l c s =
    subst
      (λ x.
        let x' = run (stop_requested ∷ run_moves true ∷ run_moves true ∷ []) x in
        (x'.place ≡ in_session)
        × (x'.agent.connected ≡ true)
        × (x'.stopping ≡ true)
        × (request_stop x' ≡ x')
        × (run (run_moves true ∷ run_moves true ∷ []) x' ≡ x'))
      (at_lem l c s) (refl, refl, refl, refl, refl)

abbrev pub reconnects : ℕ → List Event
reconnects zero = []
reconnects (suc n) =
    run_moves false
    ∷ run_moves true
    ∷ run_moves true
    ∷ run_moves true
    ∷ run_moves true
    ∷ reconnects n

-- Each loss of the connection that is followed by a new one before the heartbeat thread wakes up leaves
-- one more heartbeat thread.
pub reconnects-heartbeats :
    (n : ℕ) (l : Lifecycle)
    → l.place ≡ in_session
    → l.stopping ≡ false
    → (run (reconnects n) l).heartbeats ≡ n + l.heartbeats
unfolding run step advance connect leave_session test_session receive_frame
reconnects-heartbeats zero l p s = omega arith
reconnects-heartbeats (suc n) l p s =
    ap (λ x. (run (reconnects (suc n)) x).heartbeats) (sym (at_lem l p s))
    ∙ reconnects-heartbeats n (run (reconnects 1) (at in_session false l)) refl refl
    ∙ omega arith
