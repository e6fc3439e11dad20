-- ===== src/Tunnel/Controller/Absent.antt =====
-- When `select_agent` of agent/src/tunnel/main.cpp answers no session.
use webhook_ops.Common.{
  ℕ, ◌≡◌, ◌≢◌, refl, ap, true, false, Option, none, some, List, [], ◌∷◌, arith, Bytes, All, ◌⊎◌,
  inl, inr, Bool-cases, is_empty,
}
use webhook_ops.Tunnel.Controller.{
  AgentSession, Controller, find_agent, is_alive, first_alive, select_session, if_alive,
  select_agent,
}
use webhook_ops.Tunnel.Controller.Chosen.{select_session-answer}

-- No agent is selected and no session of the map is alive, or the selected agent is not in the map, or
-- its session is not alive.
abbrev pub NoAgent : Controller → Type 0
NoAgent ctl =
    ((ctl.selected_agent ≡ []) × All (λ entry. is_alive entry.1 ctl.sessions ≡ false) ctl.agents)
    ⊎ ((ctl.selected_agent ≢ []) × (find_agent ctl.selected_agent ctl.agents ≡ none))
    ⊎ ((ctl.selected_agent ≢ [])
        × ((h : ℕ) × (find_agent ctl.selected_agent ctl.agents ≡ some h)
            × (is_alive h ctl.sessions ≡ false)))

-- No entry of the map is alive.
first_alive-none :
    (sessions : List AgentSession) (agents : List (Bytes × ℕ))
    → first_alive sessions agents ≡ none
    → All (λ entry. is_alive entry.1 sessions ≡ false) agents
unfolding first_alive
first_alive-none sessions [] e = tt
first_alive-none sessions ((id, h) ∷ agents) e = elim (Bool-cases (is_alive h sessions)) [
  | inl alive ↦ absurd (ground arith)
  | inr dead ↦ (dead, first_alive-none sessions agents (rw dead at e))
]

select_session-none : (o : Option ℕ) (ctl : Controller) → (select_session o ctl).0 ≡ none → o ≡ none
select_session-none none ctl e = refl
select_session-none (some h) ctl e = absurd (let answer = select_session-answer h ctl in cc)

is_empty-nil : (s : Bytes) → is_empty s ≡ true → s ≡ []
is_empty-nil [] e = refl
is_empty-nil (c ∷ s) e = absurd (cc)

if_alive-none :
    (o : Option ℕ) (ctl : Controller)
    → (if_alive o ctl).0 ≡ none
    → (o ≡ none) ⊎ ((h : ℕ) × (o ≡ some h) × (is_alive h ctl.sessions ≡ false))
unfolding if_alive
if_alive-none none ctl e = inl refl
if_alive-none (some h) ctl e = elim (Bool-cases (is_alive h ctl.sessions)) [
  | inl alive ↦ absurd (ground arith)
  | inr dead ↦ inr (h, refl, dead)
]

-- `select_agent` answers no session only if there is none to answer.
pub select_agent-NoAgent : (ctl : Controller) → (select_agent ctl).0 ≡ none → NoAgent ctl
unfolding select_agent
select_agent-NoAgent ctl e = elim (Bool-cases (is_empty ctl.selected_agent)) [
  | inl nobody ↦ inl (
    is_empty-nil ctl.selected_agent nobody,
    first_alive-none ctl.sessions ctl.agents
        (select_session-none (first_alive ctl.sessions ctl.agents) ctl (rw nobody at e)),
  )
  | inr chosen ↦
      let named = λ (h : ctl.selected_agent ≡ []). let same = ap is_empty h in absurd (cc) in
      elim (if_alive-none (find_agent ctl.selected_agent ctl.agents) ctl (rw chosen at e)) [
        | inl missing ↦ inr (inl (named, missing))
        | inr (h, found, dead) ↦ inr (inr (named, (h, found, dead)))
      ]
]
