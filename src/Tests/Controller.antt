-- ===== src/Tests/Controller.antt =====
-- The tunnel's controller (agent/src/tunnel/main.cpp) at concrete inputs.
use webhook_ops.Common.{◌≡◌, refl, true, none, some, List, [], ◌∷◌, arith, codes}
use webhook_ops.Stdlib.{skip_spaces, is_space}
use webhook_ops.Text.{trim_end}
use webhook_ops.Tunnel.Controller.{
  Controller, find_agent, is_alive, session_id, register_agent, end_read_loop, save_selected_agent,
  load_selected_agent, Change, agent_admitted, client_came, reader_ended, apply_changes,
}
use webhook_ops.Tunnel.Controller.Names.{IsNamed}
use webhook_ops.Tunnel.Controller.Chosen.{apply_changes-IsNamed}
use webhook_ops.Tunnel.Controller.Reconnect.{end_read_loop-register_agent}
use webhook_ops.Tunnel.Controller.Selection.{
  IsSavable, letter-IsPlain, load_selected_agent-save_selected_agent,
}

-- One agent is there.
abbrev one : Controller
one = record {
  state_path = codes "f";
  initial_selected_agent = [];
  state_writable = true;
  state_file = none;
  sessions = record { id = codes "edge"; alive = true } ∷ [];
  agents = (codes "edge", 0) ∷ [];
  selected_agent = codes "edge";
}

one-IsNamed : IsNamed one
unfolding session_id
one-IsNamed = (refl, tt)

end_read_loop-register_agent_example :
    let after = end_read_loop 0 (register_agent (codes "edge") one) in
    (session_id 1 after.sessions ≡ some (codes "edge"))
    × (is_alive 1 after.sessions ≡ true)
    × (find_agent (codes "edge") after.agents ≡ none)
unfolding find_agent session_id
end_read_loop-register_agent_example = end_read_loop-register_agent (codes "edge") 0 one refl refl

abbrev changes : List Change
changes = agent_admitted (codes "edge") ∷ client_came ∷ reader_ended 0 ∷ []

apply_changes-IsNamed_example : IsNamed (apply_changes changes one)
apply_changes-IsNamed_example = apply_changes-IsNamed changes one one-IsNamed

edge-IsSavable : IsSavable (codes "edge")
unfolding skip_spaces trim_end is_space
edge-IsSavable = record {
  named = λ e. cc;
  first = refl;
  last = refl;
  plain = (
    letter-IsPlain b'e' (omega arith),
    (
      letter-IsPlain b'd' (omega arith),
      (letter-IsPlain b'g' (omega arith), (letter-IsPlain b'e' (omega arith), tt)),
    ),
  );
}

load_selected_agent-save_selected_agent_example :
    (load_selected_agent (save_selected_agent (codes "edge") one)).selected_agent ≡ codes "edge"
load_selected_agent-save_selected_agent_example =
    load_selected_agent-save_selected_agent (codes "edge") one edge-IsSavable (λ e. cc) refl
