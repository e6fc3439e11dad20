-- ===== src/Tunnel/Controller/Names.antt =====
-- The map of agents names sessions by their ids, and the agent that a proxy request gets is alive
-- (agent/src/tunnel/main.cpp).
use webhook_ops.Common.{
  ℕ, ◌≡◌, refl, sym, ap, ◌∙◌, subst, true, Option, none, some, List, [], ◌∷◌, ◌++◌, arith, Bytes,
  All, length, eqb, eqb→eq, is_empty, Bool-cases, Option-cases, inl, inr,
}
use webhook_ops.Tunnel.Controller.{
  AgentSession, Controller, less, find_agent, erase_agent, insert_agent, is_alive, session_id,
  close_session, save_selected_agent, drop_existing, select_first, register_agent, first_alive,
  select_session, if_alive, select_agent, set_selected_agent, end_read_loop,
}
use webhook_ops.Tunnel.Controller.Reconnect.{
  session_id-append, session_id-last, session_id-close_session, select_first-same,
  remove_agent-parts,
}

abbrev pub Named : List AgentSession → List (Bytes × ℕ) → Type 0
Named sessions = All (λ (entry : Bytes × ℕ). session_id entry.1 sessions ≡ some entry.0)

-- Every entry of the map is a session of that id.
abbrev pub IsNamed : Controller → Type 0
IsNamed c = Named c.sessions c.agents

erase_agent-Named :
    (id : Bytes) (sessions : List AgentSession) (agents : List (Bytes × ℕ))
    → Named sessions agents
    → Named sessions (erase_agent id agents)
unfolding erase_agent
erase_agent-Named id sessions [] h = tt
erase_agent-Named id sessions ((k, j) ∷ agents) (h, hs) = elim (Bool-cases (eqb k id)) [
  | inl e ↦ rw (e) (erase_agent-Named id sessions agents hs)
  | inr e ↦ rw (e) (h, erase_agent-Named id sessions agents hs)
]

insert_agent-Named :
    (id : Bytes) (n : ℕ) (sessions : List AgentSession) (agents : List (Bytes × ℕ))
    → session_id n sessions ≡ some id
    → Named sessions agents
    → Named sessions (insert_agent id n agents)
unfolding insert_agent
insert_agent-Named id n sessions [] e h = (e, tt)
insert_agent-Named id n sessions ((k, j) ∷ agents) e (h, hs) = elim (Bool-cases (eqb k id)) [
  | inl same ↦ rw (same) (e, hs)
  | inr other ↦ elim (Bool-cases (less id k)) [
    | inl first ↦ rw (other, first) (e, (h, hs))
    | inr later ↦ rw (other, later) (h, insert_agent-Named id n sessions agents e hs)
  ]
]

append-Named :
    (sessions more : List AgentSession) (agents : List (Bytes × ℕ))
    → Named sessions agents
    → Named (sessions ++ more) agents
append-Named sessions more [] h = tt
append-Named sessions more ((k, j) ∷ agents) (h, hs) =
    (session_id-append j sessions more k h, append-Named sessions more agents hs)

close_session-Named :
    (n : ℕ) (sessions : List AgentSession) (agents : List (Bytes × ℕ))
    → Named sessions agents
    → Named (close_session n sessions) agents
close_session-Named n sessions [] h = tt
close_session-Named n sessions ((k, j) ∷ agents) (h, hs) =
    (session_id-close_session j n sessions ∙ h, close_session-Named n sessions agents hs)

-- An entry that was found.
pub find_agent-Named :
    (id : Bytes) (sessions : List AgentSession) (n : ℕ) (agents : List (Bytes × ℕ))
    → Named sessions agents
    → find_agent id agents ≡ some n
    → session_id n sessions ≡ some id
unfolding find_agent
find_agent-Named id sessions n [] h e = absurd (cc)
find_agent-Named id sessions n ((k, j) ∷ agents) (h, hs) e = elim (Bool-cases (eqb k id)) [
  | inl same ↦ ground (arith, eqb→eq k id same)
  | inr other ↦ find_agent-Named id sessions n agents hs (ground arith)
]

pub first_alive-Named :
    (sessions : List AgentSession) (n : ℕ) (agents : List (Bytes × ℕ))
    → Named sessions agents
    → first_alive sessions agents ≡ some n
    → (is_alive n sessions ≡ true) × ((id : Bytes) × (session_id n sessions ≡ some id))
unfolding first_alive
first_alive-Named sessions n [] h e = absurd (cc)
first_alive-Named sessions n ((k, j) ∷ agents) (h, hs) e = elim (Bool-cases (is_alive j sessions)) [
  | inl alive ↦
      let same : j ≡ n = ground arith in
      (
        ap (λ i. is_alive i sessions) (sym same) ∙ alive,
        (k, ap (λ i. session_id i sessions) (sym same) ∙ h),
      )
  | inr dead ↦ first_alive-Named sessions n agents hs (ground arith)
]

IsNamed-same :
    (a b : Controller) → b.sessions ≡ a.sessions → b.agents ≡ a.agents → IsNamed a → IsNamed b
IsNamed-same a b e f h =
    subst (λ l. Named b.sessions l) (sym f) (subst (λ l. Named l a.agents) (sym e) h)

-- A closed session of an id is forgotten; the other entries stay, and so do the ids of all sessions.
drop_existing-IsNamed :
    (id : Bytes) (c : Controller)
    → IsNamed c
    → IsNamed (drop_existing id c)
      × ((n : ℕ) → session_id n (drop_existing id c).sessions ≡ session_id n c.sessions)
unfolding drop_existing
drop_existing-IsNamed id c h = elim (Option-cases (find_agent id c.agents)) [
  | inl e ↦ rw (drop_existing, e) (h, λ n. refl)
  | inr (j, e) ↦
      rw (drop_existing, e)
        (
          close_session-Named j c.sessions _ (erase_agent-Named id c.sessions c.agents h),
          λ n. session_id-close_session n j c.sessions,
        )
]

pub register_agent-IsNamed :
    (id : Bytes) (c : Controller) → IsNamed c → IsNamed (register_agent id c)
unfolding register_agent
register_agent-IsNamed id c h =
    let n = length c.sessions in
    let more : List AgentSession = record { id = id; alive = true } ∷ [] in
    let made : Controller = record c { sessions = c.sessions ++ more } in
    let made-IsNamed : IsNamed made = append-Named c.sessions more c.agents h in
    let (kept, same) = drop_existing-IsNamed id made made-IsNamed in
    let cleared = drop_existing id made in
    let added : Controller = record cleared { agents = insert_agent id n cleared.agents } in
    let added-IsNamed : IsNamed added =
      insert_agent-Named id n cleared.sessions cleared.agents
        (same n ∙ session_id-last c.sessions _) kept in
    let (e, f) = select_first-same id added in
    IsNamed-same added (select_first id added) e f added-IsNamed

pub end_read_loop-IsNamed : (j : ℕ) (c : Controller) → IsNamed c → IsNamed (end_read_loop j c)
unfolding end_read_loop
end_read_loop-IsNamed j c h = elim (Option-cases (session_id j c.sessions)) [
  | inl e ↦ rw (end_read_loop, e) h
  | inr (id, e) ↦
      let closed : Controller = record c { sessions = close_session j c.sessions } in
      let (s, a) = remove_agent-parts id closed in
      rw (end_read_loop, e, s, a)
        (close_session-Named j c.sessions _ (erase_agent-Named id c.sessions c.agents h))
]

save_selected_agent-same :
    (id : Bytes) (c : Controller)
    → ((save_selected_agent id c).sessions ≡ c.sessions)
      × ((save_selected_agent id c).agents ≡ c.agents)
unfolding save_selected_agent
save_selected_agent-same id c = ground arith

pub set_selected_agent-IsNamed :
    (id : Bytes) (c : Controller) → IsNamed c → IsNamed (set_selected_agent id c)
unfolding set_selected_agent
set_selected_agent-IsNamed id c h = elim (Option-cases (find_agent id c.agents)) [
  | inl e ↦ rw (set_selected_agent, e) h
  | inr (j, e) ↦
      let chosen : Controller = record c { selected_agent = id } in
      let (s, a) = save_selected_agent-same id chosen in rw (set_selected_agent, e, s, a) h
]

select_session-same :
    (o : Option ℕ) (c : Controller)
    → ((select_session o c).1.sessions ≡ c.sessions) × ((select_session o c).1.agents ≡ c.agents)
unfolding select_session
select_session-same none c = (refl, refl)
select_session-same (some j) c = elim (Option-cases (session_id j c.sessions)) [
  | inl e ↦ rw (select_session, e) (refl, refl)
  | inr (id, e) ↦ rw (select_session, e) (refl, refl)
]

if_alive-same : (o : Option ℕ) (c : Controller) → (if_alive o c).1 ≡ c
unfolding if_alive
if_alive-same none c = refl
if_alive-same (some j) c = ground arith

pub select_agent-IsNamed : (c : Controller) → IsNamed c → IsNamed (select_agent c).1
unfolding select_agent
select_agent-IsNamed c h = elim (Bool-cases (is_empty c.selected_agent)) [
  | inl e ↦ let (s, a) = select_session-same (first_alive c.sessions c.agents) c in rw (e, s, a) h
  | inr e ↦ rw (e, if_alive-same (find_agent c.selected_agent c.agents) c) h
]
