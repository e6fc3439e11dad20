-- ===== src/Tunnel/Admission.antt =====
-- The begin of `Controller::handle_proxy_client` of agent/src/tunnel/main.cpp: the request is read and
-- an agent is chosen, or the client is turned away.
pub mod Composed
use webhook_ops.Common.{ℕ, Bool, true, false, Option, none, some, Bytes, codes, if◌then◌else◌}
use webhook_ops.Net.Stream.{Stream}
use webhook_ops.Tunnel.Header.{
  HeaderRead, header, not_received, too_long, out_of_rounds, read_http_header,
}
use webhook_ops.Tunnel.Request.{ParsedProxyRequest, parse_proxy_request}
use webhook_ops.Tunnel.Controller.{Controller, select_agent}
use webhook_ops.Tunnel.Serving.{http_error}

-- The client's socket is closed, is closed behind an error response, or is served by a session.
pub data Admitted : Type 0 where
  dropped : Admitted
  turned_away : Bytes → Admitted
  served : ℕ → ParsedProxyRequest → Admitted

abbrev pub choose : ParsedProxyRequest → Option ℕ × Controller → Admitted × Controller
choose request (none, ctl) = (turned_away (http_error 503 (codes "no agent online")), ctl)
choose request (some h, ctl) = (served h request, ctl)

unfoldable pub with_request : ParsedProxyRequest → Controller → Admitted × Controller
unfolding select_agent http_error
with_request request ctl =
    if request.ok
    then choose request (select_agent ctl)
    else (turned_away (http_error 400 request.error), ctl)

unfoldable pub with_read : HeaderRead → Controller → Admitted × Controller
unfolding with_request parse_proxy_request
with_read (header text leftover) ctl = with_request (parse_proxy_request text leftover) ctl
with_read _ ctl = (dropped, ctl)

module _ (stream : Stream) where
  open stream use {Conn}

  unfoldable pub admit_client : Conn → Controller → Admitted × Controller × Conn
  unfolding with_read read_http_header
  admit_client c ctl =
      let (received, c') = read_http_header stream c in
      let (answer, ctl') = with_read received ctl in (answer, ctl', c')
