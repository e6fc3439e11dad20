-- ===== src/Tunnel/Controller.antt =====
-- The agents that are connected to the tunnel and the one that is selected: class `Controller` of
-- agent/src/tunnel/main.cpp. A session is shared between the map and its reader thread, so sessions
-- stand in a store and are named by their place in it.
pub mod Names
pub mod Reconnect
pub mod Selection
pub mod Chosen
pub mod Absent
use webhook_ops.Common.{
  ℕ, zero, suc, ◌≡◌, refl, Bool, true, false, ◌&&◌, Option, none, some, List, [], ◌∷◌, ◌++◌, Bytes,
  codes, length, eqb, ltb, ◌==◌, is_empty, if◌then◌else◌,
}
use webhook_ops.Config.{ConfigFile, Loaded, loaded, load_error, load_config_file, config_get}

-- An `AgentSession`: its id, and `alive_`.
pub record AgentSession : Type 0 where
  pub id : Bytes
  pub alive : Bool

pub record Controller : Type 0 where
  pub state_path : Bytes
  pub initial_selected_agent : Bytes
  -- Whether the state file can be opened for writing, and what it holds.
  pub state_writable : Bool
  pub state_file : Option Bytes
  -- Every session made so far.
  pub sessions : List AgentSession
  -- From ids to sessions, in the order of the ids.
  pub agents : List (Bytes × ℕ)
  pub selected_agent : Bytes

-- The order of `std::string`.
unfoldable pub less : Bytes → Bytes → Bool
less [] [] = false
less [] (_ ∷ _) = true
less (_ ∷ _) [] = false
less (a ∷ s) (b ∷ t) = if ltb a b then true else if a == b then less s t else false

unfoldable pub find_agent : Bytes → List (Bytes × ℕ) → Option ℕ
find_agent id [] = none
find_agent id ((k, h) ∷ agents) = if eqb k id then some h else find_agent id agents

unfoldable pub erase_agent : Bytes → List (Bytes × ℕ) → List (Bytes × ℕ)
erase_agent id [] = []
erase_agent id ((k, h) ∷ agents) =
    if eqb k id then erase_agent id agents else (k, h) ∷ erase_agent id agents

unfoldable pub insert_agent : Bytes → ℕ → List (Bytes × ℕ) → List (Bytes × ℕ)
insert_agent id h [] = (id, h) ∷ []
insert_agent id h ((k, j) ∷ agents) =
    if eqb k id
    then (id, h) ∷ agents
    else if less id k
    then (id, h) ∷ (k, j) ∷ agents
    else (k, j) ∷ insert_agent id h agents

unfoldable pub is_alive : ℕ → List AgentSession → Bool
is_alive h [] = false
is_alive zero (s ∷ sessions) = s.alive
is_alive (suc h) (s ∷ sessions) = is_alive h sessions

unfoldable pub session_id : ℕ → List AgentSession → Option Bytes
session_id h [] = none
session_id zero (s ∷ sessions) = some s.id
session_id (suc h) (s ∷ sessions) = session_id h sessions

-- `AgentSession::close`
unfoldable pub close_session : ℕ → List AgentSession → List AgentSession
close_session h [] = []
close_session zero (s ∷ sessions) = record s { alive = false } ∷ sessions
close_session (suc h) (s ∷ sessions) = s ∷ close_session h sessions

unfoldable pub save_selected_agent : Bytes → Controller → Controller
save_selected_agent id c =
    if is_empty c.state_path
    then c
    else if c.state_writable
    then record c { state_file = some (codes "selected_agent=" ++ id ++ b'\n' ∷ []) }
    else c

unfoldable pub restore : Loaded × ConfigFile → Controller → Controller
restore (load_error e, state) c = c
restore (loaded, state) c =
    let saved = config_get state (codes "selected_agent") [] in
    if is_empty saved then c else record c { selected_agent = saved }

unfoldable pub load_selected_agent : Controller → Controller
unfolding restore
load_selected_agent c =
    restore (load_config_file (λ path. c.state_file) c.state_path [])
      (record c { selected_agent = c.initial_selected_agent })

-- The session of the same id, if there is one, is closed and forgotten.
unfoldable pub drop_existing : Bytes → Controller → Controller
unfolding find_agent erase_agent close_session
drop_existing id c = elim (find_agent id c.agents) [
  | none ↦ c
  | some h ↦ record c { sessions = close_session h c.sessions; agents = erase_agent id c.agents }
]

unfoldable pub select_first : Bytes → Controller → Controller
unfolding save_selected_agent
select_first id c =
    if is_empty c.selected_agent
    then save_selected_agent id (record c { selected_agent = id })
    else c

-- An agent that was admitted in `control_accept_loop`.
unfoldable pub register_agent : Bytes → Controller → Controller
unfolding drop_existing select_first insert_agent
register_agent id c =
    let h = length c.sessions in
    let session : AgentSession = record { id = id; alive = true } in
    let cleared = drop_existing id (record c { sessions = c.sessions ++ session ∷ [] }) in
    select_first id (record cleared { agents = insert_agent id h cleared.agents })

unfoldable pub first_alive : List AgentSession → List (Bytes × ℕ) → Option ℕ
unfolding is_alive
first_alive sessions [] = none
first_alive sessions ((id, h) ∷ agents) =
    if is_alive h sessions then some h else first_alive sessions agents

-- `selected_agent_ = agent->id()`
unfoldable pub select_session : Option ℕ → Controller → Option ℕ × Controller
unfolding session_id
select_session none c = (none, c)
select_session (some h) c = elim (session_id h c.sessions) [
  | none ↦ (some h, c)
  | some id ↦ (some h, record c { selected_agent = id })
]

unfoldable pub if_alive : Option ℕ → Controller → Option ℕ × Controller
unfolding is_alive
if_alive none c = (none, c)
if_alive (some h) c = if is_alive h c.sessions then (some h, c) else (none, c)

unfoldable pub select_agent : Controller → Option ℕ × Controller
unfolding first_alive select_session if_alive find_agent
select_agent c =
    if is_empty c.selected_agent
    then select_session (first_alive c.sessions c.agents) c
    else if_alive (find_agent c.selected_agent c.agents) c

-- The first id of the map.
unfoldable pub first_id : List (Bytes × ℕ) → Bytes
first_id [] = []
first_id ((id, _) ∷ _) = id

unfoldable pub remove_agent : Bytes → Controller → Controller
unfolding erase_agent first_id
remove_agent id c =
    let agents = erase_agent id c.agents in
    let removed = record c { agents = agents } in
    if eqb c.selected_agent id then record removed { selected_agent = first_id agents } else removed

unfoldable pub set_selected_agent : Bytes → Controller → Controller
unfolding find_agent save_selected_agent
set_selected_agent id c = elim (find_agent id c.agents) [
  | none ↦ c
  | some h ↦ save_selected_agent id (record c { selected_agent = id })
]

-- How a session's `read_loop` ends.
unfoldable pub end_read_loop : ℕ → Controller → Controller
unfolding session_id close_session remove_agent
end_read_loop h c = elim (session_id h c.sessions) [
  | none ↦ c
  | some id ↦ remove_agent id (record c { sessions = close_session h c.sessions })
]

unfoldable pub close_agents : List (Bytes × ℕ) → List AgentSession → List AgentSession
unfolding close_session
close_agents [] sessions = sessions
close_agents ((id, h) ∷ agents) sessions = close_agents agents (close_session h sessions)

-- The agents' part of `request_stop`.
unfoldable pub stop_agents : Controller → Controller
unfolding close_agents
stop_agents c = record c {
  sessions = close_agents c.agents c.sessions;
  agents = [];
  selected_agent = [];
}

-- What happens to the controller, one locked section at a time: an admitted agent, a proxy client that
-- asks for an agent, a command, the end of a session's reader, and the stop.
pub data Change : Type 0 where
  agent_admitted : Bytes → Change
  client_came : Change
  agent_chosen : Bytes → Change
  reader_ended : ℕ → Change
  stopped : Change

unfoldable pub apply_change : Change → Controller → Controller
unfolding register_agent select_agent set_selected_agent end_read_loop stop_agents
apply_change (agent_admitted id) c = register_agent id c
apply_change client_came c = (select_agent c).1
apply_change (agent_chosen id) c = set_selected_agent id c
apply_change (reader_ended h) c = end_read_loop h c
apply_change stopped c = stop_agents c

unfoldable pub apply_changes : List Change → Controller → Controller
unfolding apply_change
apply_changes [] c = c
apply_changes (e ∷ changes) c = apply_changes changes (apply_change e c)
