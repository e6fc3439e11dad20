-- ===== src/Tests/Serving.antt =====
-- The proxy clients of an agent's session (agent/src/tunnel/main.cpp) at concrete runs.
use webhook_ops.Common.{
  ◌⊎◌, ℕ, zero, suc, sym, false, ◌≡◌, refl, Bool, true, false, none, List, [], ◌∷◌, ◌++◌, codes,
}
use webhook_ops.Wire.{open_ok, stream_data, close}
use webhook_ops.Streams.{lookup, holds, count}
use webhook_ops.Streams.Store.{flag}
use webhook_ops.Tunnel.Request.{ParsedProxyRequest}
use webhook_ops.Tunnel.Session.{
  ProxyStream, Session, stream_frame, find_stream, Arrival, read_frames,
}
use webhook_ops.Tunnel.Session.Clean.{IsClean, is_closed, has_ended}
use webhook_ops.Tunnel.Serving.{
  new_stream, established, serve_client, Event, client_came, client_step, frame_came, reader_ended,
  run,
}
use webhook_ops.Tunnel.Serving.Kept.{run-IsClean}
use webhook_ops.Tunnel.Serving.Delivery.{written_to, frames_read, deliver_type, deliveries}
use webhook_ops.Tunnel.Serving.InOrder.{read_frames-deliveries}
use webhook_ops.Tunnel.Serving.Race.{
  IsWaiting, target_first, hang_up, target_first_lem, hang_up_lem,
}

abbrev start : Session
start = record {
  alive = true;
  sent = [];
  clients = [];
  streams = [];
  next_stream_id = 1;
  writes = [];
  closes = [];
}

abbrev request : ParsedProxyRequest
request = record {
  ok = true;
  is_connect = true;
  host = codes "db";
  port = 80;
  initial_data = [];
  error = [];
}

abbrev events : List Event
events =
    client_came true request
    ∷ frame_came true true (stream_frame open_ok 1 [])
    ∷ client_step true true none 0
    ∷ client_step true true none 0
    ∷ frame_came true true (stream_frame close 1 [])
    ∷ client_step true true none 0
    ∷ reader_ended
    ∷ []

start-IsClean : IsClean start
unfolding count flag holds
start-IsClean = record {
  once = λ n. refl;
  shut = λ n e. absurd (cc);
  gone = λ n e. refl;
  named = tt;
}

run-IsClean_example : IsClean (run events start)
unfolding count flag holds
run-IsClean_example = run-IsClean events start start-IsClean

abbrev served : Session
served = record start {
  clients = new_stream 1 request ∷ [];
  streams = (1, 0) ∷ [];
  next_stream_id = 2;
}

abbrev arrivals : List Arrival
arrivals =
    record { frame = stream_frame stream_data 1 (codes "ab"); delivered = true; forwarded = true }
    ∷ record { frame = stream_frame stream_data 2 (codes "x"); delivered = true; forwarded = true }
    ∷ record { frame = stream_frame stream_data 1 (codes "c"); delivered = true; forwarded = true }
    ∷ record { frame = stream_frame close 1 []; delivered = true; forwarded = true }
    ∷ record { frame = stream_frame stream_data 1 (codes "d"); delivered = true; forwarded = true }
    ∷ []

unended :
    (p : ProxyStream → Bool) (n : ℕ)
    → p (new_stream 1 request) ≡ false
    → flag p n served.clients ≡ false
unfolding flag
unended p zero e = e
unended p (suc n) e = refl

served-IsClean : IsClean served
unfolding count flag
served-IsClean = record {
  once = λ n. sym (rw (unended is_closed n refl) refl);
  shut = λ n e. absurd (let w = unended has_ended n refl in cc);
  gone = λ n e. absurd (let w = unended has_ended n refl in cc);
  named = (refl, tt);
}

read_frames-deliveries_example :
    (written_to 0 (read_frames arrivals served).writes
      ≡ written_to 0 served.writes ++ deliveries 1 (frames_read arrivals served))
    × ((frames_read arrivals served ≡ arrivals) ⊎ ((read_frames arrivals served).alive ≡ false))
unfolding find_stream lookup
read_frames-deliveries_example = read_frames-deliveries arrivals 1 0 served served-IsClean refl

delivered_bytes : deliveries 1 arrivals ≡ codes "abc"
unfolding deliveries deliver_type
delivered_bytes = refl

served-IsWaiting : IsWaiting 1 0 (new_stream 1 request) served
unfolding find_stream lookup
served-IsWaiting = record {
  alive = refl;
  found = refl;
  stored = refl;
  waits = refl;
  no_error = refl;
  connects = refl;
}

target_first_lem_example :
    (serve_client true true none 0
      (serve_client true true none 0 (read_frames (target_first 1 (codes "hi")) served))).writes
    ≡ (0, codes "hi") ∷ (0, established) ∷ []
target_first_lem_example =
    target_first_lem 1 0 (new_stream 1 request) (codes "hi") served served-IsWaiting

hang_up_lem_example :
    ((read_frames (hang_up 1) served).closes ≡ 0 ∷ [])
    × ((serve_client true true none 0
          (serve_client true true none 0 (read_frames (hang_up 1) served))).writes
        ≡ (0, established) ∷ [])
hang_up_lem_example = hang_up_lem 1 0 (new_stream 1 request) served served-IsWaiting refl
