-- ===== src/Tunnel/Controller/Chosen.antt =====
-- The agent that `select_agent` of agent/src/tunnel/main.cpp answers.
use webhook_ops.Common.{
  ℕ, ◌≡◌, refl, sym, subst, ◌∙◌, true, Option, none, some, List, [], ◌∷◌, arith, Bytes, is_empty,
  Bool-cases, Option-cases, inl, inr,
}
use webhook_ops.Tunnel.Controller.{
  Controller, find_agent, is_alive, session_id, first_alive, select_session, if_alive, select_agent,
  Change, agent_admitted, client_came, agent_chosen, reader_ended, stopped, apply_change,
  apply_changes, stop_agents,
}
use webhook_ops.Tunnel.Controller.Names.{
  IsNamed, find_agent-Named, first_alive-Named, register_agent-IsNamed, end_read_loop-IsNamed,
  set_selected_agent-IsNamed, select_agent-IsNamed,
}

apply_change-IsNamed : (e : Change) (c : Controller) → IsNamed c → IsNamed (apply_change e c)
unfolding apply_change stop_agents
apply_change-IsNamed (agent_admitted id) c h = register_agent-IsNamed id c h
apply_change-IsNamed client_came c h = select_agent-IsNamed c h
apply_change-IsNamed (agent_chosen id) c h = set_selected_agent-IsNamed id c h
apply_change-IsNamed (reader_ended n) c h = end_read_loop-IsNamed n c h
apply_change-IsNamed stopped c h = tt

-- If every entry of the map is a session of the entry's id, so it is after whatever happens, in any
-- order.
pub apply_changes-IsNamed :
    (changes : List Change) (c : Controller) → IsNamed c → IsNamed (apply_changes changes c)
unfolding apply_changes
apply_changes-IsNamed [] c h = h
apply_changes-IsNamed (e ∷ changes) c h =
    apply_changes-IsNamed changes (apply_change e c) (apply_change-IsNamed e c h)

-- An answer of the controller that is alive and selected.
record IsChosen (n : ℕ) (c : Controller) : Type 0 where
  alive : is_alive n c.sessions ≡ true
  selected : session_id n c.sessions ≡ some c.selected_agent

select_session-IsChosen :
    (n : ℕ) (id : Bytes) (c : Controller)
    → is_alive n c.sessions ≡ true
    → session_id n c.sessions ≡ some id
    → IsChosen n (select_session (some n) c).1
unfolding select_session
select_session-IsChosen n id c alive e =
    rw (select_session, e) (record { alive = alive; selected = e })

some-injective : {m n : ℕ} → some m ≡ some n → m ≡ n
some-injective e = cc

pub select_session-answer : (n : ℕ) (c : Controller) → (select_session (some n) c).0 ≡ some n
unfolding select_session
select_session-answer n c = elim (Option-cases (session_id n c.sessions)) [
  | inl e ↦ rw (select_session, e) refl
  | inr (id, e) ↦ rw (select_session, e) refl
]

-- Nothing was selected.
first-IsChosen :
    (n : ℕ) (o : Option ℕ) (c : Controller)
    → IsNamed c
    → first_alive c.sessions c.agents ≡ o
    → (select_session o c).0 ≡ some n
    → IsChosen n (select_session o c).1
first-IsChosen n none c h f e = absurd (unfold select_session in cc)
first-IsChosen n (some m) c h f e =
    let same : m ≡ n = some-injective (sym (select_session-answer m c) ∙ e) in
    let (alive, (id, named)) = first_alive-Named c.sessions m c.agents h f in
    subst (λ i. IsChosen i (select_session (some m) c).1) same
      (select_session-IsChosen m id c alive named)

-- The selected agent is there or not.
found-IsChosen :
    (n : ℕ) (o : Option ℕ) (c : Controller)
    → IsNamed c
    → find_agent c.selected_agent c.agents ≡ o
    → (if_alive o c).0 ≡ some n
    → IsChosen n (if_alive o c).1
unfolding if_alive
found-IsChosen n none c h f e = absurd (cc)
found-IsChosen n (some m) c h f e = elim (Bool-cases (is_alive m c.sessions)) [
  | inl alive ↦
      let same : m ≡ n = ground arith in
      let chosen : IsChosen m c = record {
        alive = alive;
        selected = find_agent-Named c.selected_agent c.sessions m c.agents h f;
      } in
      rw alive (subst (λ i. IsChosen i c) same chosen)
  | inr dead ↦ absurd (ground arith)
]

-- When every entry of the map is a session of its id, a session that a proxy client gets is alive, and
-- its id is the selected one afterwards.
pub select_agent-IsChosen :
    (n : ℕ) (c : Controller)
    → IsNamed c
    → (select_agent c).0 ≡ some n
    → (is_alive n (select_agent c).1.sessions ≡ true)
      × (session_id n (select_agent c).1.sessions ≡ some (select_agent c).1.selected_agent)
unfolding select_agent
select_agent-IsChosen n c h e = elim (Bool-cases (is_empty c.selected_agent)) [
  | inl none_selected ↦
      let chosen = first-IsChosen n _ c h refl (rw none_selected at e) in
      rw none_selected (chosen.alive, chosen.selected)
  | inr some_selected ↦
      let chosen = found-IsChosen n _ c h refl (rw some_selected at e) in
      rw some_selected (chosen.alive, chosen.selected)
]
