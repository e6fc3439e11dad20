-- ===== src/Tunnel/Controller/Reconnect.antt =====
-- What happens to the new session of an agent that connects again, when the reader of its earlier
-- session ends (agent/src/tunnel/main.cpp).
use webhook_ops.Common.{
  ℕ, zero, suc, ◌<◌, ◌≡◌, ◌≢◌, refl, ap, ◌∙◌, true, none, some, List, [], ◌∷◌, ◌++◌, arith, Bytes,
  length,
}
use webhook_ops.Tunnel.Controller.{
  AgentSession, Controller, find_agent, erase_agent, is_alive, session_id, close_session,
  save_selected_agent, drop_existing, select_first, register_agent, remove_agent, end_read_loop,
}

pub find_agent-erase_agent :
    (id : Bytes) (agents : List (Bytes × ℕ)) → find_agent id (erase_agent id agents) ≡ none
unfolding find_agent erase_agent
find_agent-erase_agent id [] = refl
find_agent-erase_agent id ((k, h) ∷ agents) = ground (arith, find_agent-erase_agent id agents)

pub session_id-close_session :
    (n h : ℕ) (sessions : List AgentSession)
    → session_id n (close_session h sessions) ≡ session_id n sessions
unfolding session_id close_session
session_id-close_session n h [] = refl
session_id-close_session zero zero (s ∷ sessions) = refl
session_id-close_session zero (suc h) (s ∷ sessions) = refl
session_id-close_session (suc n) zero (s ∷ sessions) = refl
session_id-close_session (suc n) (suc h) (s ∷ sessions) = session_id-close_session n h sessions

is_alive-close_session :
    (n h : ℕ) (sessions : List AgentSession)
    → n ≢ h
    → is_alive n (close_session h sessions) ≡ is_alive n sessions
unfolding is_alive close_session
is_alive-close_session n h [] d = refl
is_alive-close_session zero zero (s ∷ sessions) d = absurd (d refl)
is_alive-close_session zero (suc h) (s ∷ sessions) d = refl
is_alive-close_session (suc n) zero (s ∷ sessions) d = refl
is_alive-close_session (suc n) (suc h) (s ∷ sessions) d =
    is_alive-close_session n h sessions (λ e. d (ap suc e))

pub session_id-append :
    (h : ℕ) (sessions more : List AgentSession) (id : Bytes)
    → session_id h sessions ≡ some id
    → session_id h (sessions ++ more) ≡ some id
unfolding session_id
session_id-append h [] more id e = absurd (cc)
session_id-append zero (s ∷ sessions) more id e = e
session_id-append (suc h) (s ∷ sessions) more id e = session_id-append h sessions more id e

session_id-bound :
    (h : ℕ) (sessions : List AgentSession) (id : Bytes)
    → session_id h sessions ≡ some id
    → h < length sessions
unfolding session_id
session_id-bound h [] id e = absurd (cc)
session_id-bound zero (s ∷ sessions) id e = omega arith
session_id-bound (suc h) (s ∷ sessions) id e = omega (arith, session_id-bound h sessions id e)

pub session_id-last :
    (sessions : List AgentSession) (s : AgentSession)
    → session_id (length sessions) (sessions ++ s ∷ []) ≡ some s.id
unfolding session_id
session_id-last [] s = refl
session_id-last (t ∷ sessions) s = session_id-last sessions s

is_alive-last :
    (sessions : List AgentSession) (s : AgentSession)
    → is_alive (length sessions) (sessions ++ s ∷ []) ≡ s.alive
unfolding is_alive
is_alive-last [] s = refl
is_alive-last (t ∷ sessions) s = is_alive-last sessions s

pub select_first-same :
    (id : Bytes) (c : Controller)
    → ((select_first id c).sessions ≡ c.sessions) × ((select_first id c).agents ≡ c.agents)
unfolding select_first save_selected_agent
select_first-same id c = ground arith

register_agent-sessions :
    (id : Bytes) (h : ℕ) (c : Controller)
    → find_agent id c.agents ≡ some h
    → (register_agent id c).sessions
      ≡ close_session h (c.sessions ++ (record { id = id; alive = true }) ∷ [])
unfolding register_agent drop_existing
register_agent-sessions id h c e =
    rw (register_agent, (select_first-same id _).0, drop_existing, e) refl

pub remove_agent-parts :
    (id : Bytes) (c : Controller)
    → ((remove_agent id c).sessions ≡ c.sessions)
      × ((remove_agent id c).agents ≡ erase_agent id c.agents)
unfolding remove_agent
remove_agent-parts id c = ground arith

end_read_loop-parts :
    (id : Bytes) (h : ℕ) (c : Controller)
    → session_id h c.sessions ≡ some id
    → ((end_read_loop h c).sessions ≡ close_session h c.sessions)
      × (find_agent id (end_read_loop h c).agents ≡ none)
unfolding end_read_loop
end_read_loop-parts id h c e =
    let closed : Controller = record c { sessions = close_session h c.sessions } in
    let (sessions, agents) = remove_agent-parts id closed in
    rw (end_read_loop, e) (sessions, ap (find_agent id) agents ∙ find_agent-erase_agent id c.agents)

-- An agent that is registered and connects again under its id has a new session, alive and of that
-- id. When the reader of the earlier session ends, the map has no session of that id: the new session
-- is alive and is not found any more.
pub end_read_loop-register_agent :
    (id : Bytes) (h : ℕ) (c : Controller)
    → find_agent id c.agents ≡ some h
    → session_id h c.sessions ≡ some id
    → let after = end_read_loop h (register_agent id c) in
      (session_id (length c.sessions) after.sessions ≡ some id)
      × (is_alive (length c.sessions) after.sessions ≡ true)
      × (find_agent id after.agents ≡ none)
end_read_loop-register_agent id h c found same =
    let r = register_agent id c in
    let n = length c.sessions in
    let all = c.sessions ++ (record { id = id; alive = true }) ∷ [] in
    let before : r.sessions ≡ close_session h all = register_agent-sessions id h c found in
    let kept : session_id h r.sessions ≡ some id =
      ap (session_id h) before
      ∙ session_id-close_session h h all
      ∙ session_id-append h c.sessions _ id same in
    let (after, gone) = end_read_loop-parts id h r kept in
    let twice = after ∙ ap (close_session h) before in
    let other : n ≢ h = λ e. omega (arith, session_id-bound h c.sessions id same) in
    (
      ap (session_id n) twice
          ∙ session_id-close_session n h (close_session h all)
          ∙ session_id-close_session n h all
          ∙ session_id-last c.sessions _,
      ap (is_alive n) twice
          ∙ is_alive-close_session n h (close_session h all) other
          ∙ is_alive-close_session n h all other
          ∙ is_alive-last c.sessions _,
      gone,
    )
