-- ===== src/Tests/Channel.antt =====
-- Channels with TLS (agent/src/common/channel.cpp) at concrete answers of OpenSSL.
use webhook_ops.Common.{refl, Bool, true, codes}
use webhook_ops.Tunnel.Settings.{TlsOptions, default_tls}
use webhook_ops.Channel.{Call, client, server}
use webhook_ops.Channel.Verified.{ClientHolds, client-ClientHolds, ServerHolds, server-ServerHolds}

abbrev tls : TlsOptions
tls = record default_tls { enabled = true; cert_path = codes "c.pem"; key_path = codes "k.pem" }

abbrev all_well : Call → Bool
all_well call = true

client-ClientHolds_example : ClientHolds all_well (codes "t") tls (client all_well (codes "t") tls)
client-ClientHolds_example = client-ClientHolds all_well (codes "t") tls refl refl

server-ServerHolds_example : ServerHolds all_well tls (server all_well tls)
server-ServerHolds_example = server-ServerHolds all_well tls refl
