-- ===== src/Tunnel/Admission/Composed.antt =====
-- A proxy client that is served: the reading and the parsing of its request and the choice of its agent
-- together (agent/src/tunnel/main.cpp).
use webhook_ops.Common.{
  ℕ, ◌≡◌, refl, sym, ap, subst, Bool, true, false, Option, none, some, ◌++◌, Bytes, codes, length,
  if◌then◌else◌, ◌⊎◌, inl, inr, ◌≢◌,
}
use webhook_ops.Net.Stream.{Stream}
use webhook_ops.Net.Endpoint.Accepts.{IsUsable}
use webhook_ops.Tunnel.Header.{
  HeaderRead, header, header_end, not_received, too_long, out_of_rounds, read_http_header,
}
use webhook_ops.Tunnel.Header.Reading.{read_http_header_sound}
use webhook_ops.Tunnel.Request.{ParsedProxyRequest, parse_proxy_request}
use webhook_ops.Tunnel.Request.Target.{endpoint_of, parse_proxy_request-IsUsable}
use webhook_ops.Tunnel.Request.Data.{HasData, parse_proxy_request-HasData}
use webhook_ops.Tunnel.Controller.{Controller, select_agent, is_alive, session_id}
use webhook_ops.Tunnel.Controller.Names.{IsNamed}
use webhook_ops.Tunnel.Controller.Chosen.{select_agent-IsChosen}
use webhook_ops.Tunnel.Controller.Absent.{NoAgent, select_agent-NoAgent}
use webhook_ops.Tunnel.Serving.{http_error}
use webhook_ops.Tunnel.Admission.{
  Admitted, dropped, turned_away, served, choose, with_request, with_read, admit_client,
}

-- The session is alive, and its id is the selected one.
pub record IsServing (h : ℕ) (ctl : Controller) : Type 0 where
  pub alive : is_alive h ctl.sessions ≡ true
  pub selected : session_id h ctl.sessions ≡ some ctl.selected_agent

-- Why a client whose header was read is turned away.
abbrev pub TurnedAway : ParsedProxyRequest → Controller → Bytes → Type 0
TurnedAway request ctl response =
    ((request.ok ≡ false) × (response ≡ http_error 400 request.error))
    ⊎ ((request.ok ≡ true) × NoAgent ctl × (response ≡ http_error 503 (codes "no agent online")))

abbrev Chosen : ParsedProxyRequest → Controller → Admitted × Controller → Type 0
Chosen request ctl (served h r, ctl') = (r ≡ request) × (request.ok ≡ true) × IsServing h ctl'
Chosen request ctl (dropped, ctl') = ⊥
Chosen request ctl (turned_away response, ctl') = TurnedAway request ctl response

choose-Chosen :
    (request : ParsedProxyRequest) (ctl : Controller) (picked : Option ℕ × Controller)
    → request.ok ≡ true
    → select_agent ctl ≡ picked
    → ((h : ℕ) → picked.0 ≡ some h → IsServing h picked.1)
    → Chosen request ctl (choose request picked)
choose-Chosen request ctl (none, ctl') ok picks serving =
    inr (ok, select_agent-NoAgent ctl (ap (λ r. r.0) picks), refl)
choose-Chosen request ctl (some h, ctl') ok picks serving = (refl, ok, serving h refl)

with_request-Chosen :
    (request : ParsedProxyRequest) (ctl : Controller)
    → IsNamed ctl
    → Chosen request ctl (with_request request ctl)
unfolding with_request
with_request-Chosen request ctl v = accepted request.ok refl
  where
    accepted :
        (b : Bool)
        → request.ok ≡ b
        → Chosen request ctl (
            if b
            then choose request (select_agent ctl)
            else (turned_away (http_error 400 request.error), ctl))
    accepted true e = choose-Chosen request ctl (select_agent ctl) e refl (λ h picked.
        let (alive, selected) = select_agent-IsChosen h ctl v picked in
        record { alive = alive; selected = selected })
    accepted false e = inl (e, refl)

module _ (stream : Stream) where
  open stream use {Conn, pending}

  -- What is known of a client that is served.
  pub record IsServed (c c' : Conn) (h : ℕ) (request : ParsedProxyRequest) (ctl' : Controller)
      : Type 0 where
    pub text : Bytes
    pub leftover : Bytes
    pub parsed : request ≡ parse_proxy_request text leftover
    pub came : pending c ≡ text ++ (leftover ++ pending c')
    pub ends : header_end (text ++ leftover) ≡ some (length text)
    pub behind : HasData leftover request
    pub usable : IsUsable (endpoint_of request)
    pub serving : IsServing h ctl'

  -- A client whose header was read.
  pub record IsTurnedAway (c c' : Conn) (ctl : Controller) (response : Bytes) : Type 0 where
    pub text : Bytes
    pub leftover : Bytes
    pub received : read_http_header stream c ≡ (header text leftover, c')
    pub reason : TurnedAway (parse_proxy_request text leftover) ctl response

  abbrev pub AdmitHolds : Conn → Controller → Admitted × Controller × Conn → Type 0
  AdmitHolds c ctl (served h request, ctl', c') = IsServed c c' h request ctl'
  AdmitHolds c ctl (turned_away response, ctl', c') = IsTurnedAway c c' ctl response
  AdmitHolds c ctl (dropped, ctl', c') =
      (text leftover : Bytes) → (read_http_header stream c).0 ≢ header text leftover

  served_holds :
      (c c' : Conn) (text leftover : Bytes) (ctl : Controller) (r : Admitted × Controller)
      → read_http_header stream c ≡ (header text leftover, c')
      → Chosen (parse_proxy_request text leftover) ctl r
      → AdmitHolds c ctl (r.0, r.1, c')
  served_holds c c' text leftover ctl (dropped, ctl') e k = elim k [ ]
  served_holds c c' text leftover ctl (turned_away response, ctl') e k = record {
    text = text;
    leftover = leftover;
    received = e;
    reason = k;
  }
  served_holds c c' text leftover ctl (served h request, ctl') e (same, ok, serving) =
      let (came, ends) = read_http_header_sound stream c c' text leftover e in
      record {
        text = text;
        leftover = leftover;
        parsed = same;
        came = came;
        ends = ends;
        behind = subst (HasData leftover) (sym same) (parse_proxy_request-HasData leftover text ok);
        usable =
            subst (λ r. IsUsable (endpoint_of r)) (sym same)
              (parse_proxy_request-IsUsable text leftover ok);
        serving = serving;
      }

  read_holds :
      (c c' : Conn) (received : HeaderRead) (ctl : Controller)
      → IsNamed ctl
      → read_http_header stream c ≡ (received, c')
      → AdmitHolds c ctl ((with_read received ctl).0, (with_read received ctl).1, c')
  unfolding with_read
  read_holds c c' (header text leftover) ctl v e =
      let request = parse_proxy_request text leftover in
      served_holds c c' text leftover ctl (with_request request ctl) e
        (with_request-Chosen request ctl v)
  read_holds c c' not_received ctl v e = λ text leftover h. let same = ap (λ r. r.0) e in cc
  read_holds c c' too_long ctl v e = λ text leftover h. let same = ap (λ r. r.0) e in cc
  read_holds c c' out_of_rounds ctl v e = λ text leftover h. let same = ap (λ r. r.0) e in cc

  -- When every entry of the map of agents is a session of its id, a proxy client is served only
  -- by a session that is alive and has the selected id, with the request that is parsed from the
  -- header up to its first empty line, which names a host and a port from 1 to 65535; the header
  -- and the bytes that were read behind it are the first that came from the client, in order, and
  -- with those bytes ends the data for the target if the request is not CONNECT, while for
  -- CONNECT there is no such data. The client is turned away with status 400 only for a request
  -- that is not accepted, and with status 503 only if no agent is selected and none of the map is
  -- alive, or if the selected one is not in the map or not alive; and it is dropped only if no
  -- header was read.
  pub admit_client-AdmitHolds :
      (c : Conn) (ctl : Controller) → IsNamed ctl → AdmitHolds c ctl (admit_client stream c ctl)
  unfolding admit_client
  admit_client-AdmitHolds c ctl v =
      read_holds c (read_http_header stream c).1 (read_http_header stream c).0 ctl v refl
