-- ===== src/Tests/Net.antt =====
-- Endpoints and transfers (agent/src/common/net.cpp) at concrete inputs.
use webhook_ops.Common.{ℕ, ◌≡◌, ◌≢◌, refl, true, some, [], arith, codes, All, take}
use webhook_ops.Stdlib.{rfind}
use webhook_ops.Stdlib.Decimal.{stoi}
use webhook_ops.Net.Endpoint.{parse_host_port, endpoint_to_string}
use webhook_ops.Net.Endpoint.RoundTrip.{parse_host_port-endpoint_to_string}
use webhook_ops.Net.Endpoint.Accepts.{IsUsable, parse_host_port-IsUsable}
use webhook_ops.Net.Transfer.{send_all, send_loop, out_of_rounds}
use webhook_ops.Net.Transfer.Sending.{send_all-written}
use webhook_ops.Net.Scripted.{Script, scripted}

parse_host_port-endpoint_to_string_example :
    parse_host_port (endpoint_to_string (codes "db") 5432) 80
    ≡ some (record { host = codes "db"; port = 5432 })
parse_host_port-endpoint_to_string_example =
    parse_host_port-endpoint_to_string b'd' (codes "b") 5432 80 (λ e. omega arith) (omega arith)
      (omega arith)

parse_host_port-IsUsable_example :
    IsUsable (record { host = codes "a"; port = 80 }) × All (λ c. c ≢ b'\n') (codes "a")
unfolding parse_host_port rfind stoi
parse_host_port-IsUsable_example =
    parse_host_port-IsUsable (λ c. c ≢ b'\n') (codes "a:80") 9700 (omega arith)
      ((λ e. omega arith), ((λ e. omega arith), ((λ e. omega arith), ((λ e. omega arith), tt))))
      refl

abbrev fresh : Script
fresh = record { incoming = []; outgoing = []; piece = 1 }

send_all-written_example :
    (k : ℕ) × (scripted.written (send_all scripted fresh (codes "hello")).1
      ≡ take k (codes "hello"))
    × ((send_all scripted fresh (codes "hello")).0 ≡ true → k ≡ 5)
    × ((send_loop scripted 5 fresh (codes "hello")).0 ≢ out_of_rounds)
send_all-written_example = send_all-written scripted fresh (codes "hello")
