-- ===== src/Tests/Sockets.antt =====
-- The opening of sockets (agent/src/common/net.cpp) at concrete addresses.
use webhook_ops.Common.{true, false, none, some, [], ◌∷◌, codes}
use webhook_ops.Net.Sockets.{Table, Found, found, LocalFound, local_found, connect_tcp, listen_tcp}
use webhook_ops.Net.Sockets.Kept.{Balanced, returned, open-Balanced}

abbrev remote : Found
remote = found (
    record { made = some 3; usable = false; failure = codes "refused" }
    ∷ record { made = none; usable = false; failure = codes "family" }
    ∷ record { made = some 4; usable = true; failure = [] }
    ∷ [])

abbrev local : LocalFound
local =
    local_found
      (record { made = some 5; bound = true; listening = false; failure = codes "in use" } ∷ [])

abbrev table : Table
table = record { opened = []; closed = [] }

open-Balanced_example :
    Balanced table (connect_tcp remote table).1 (returned (connect_tcp remote table).0)
    × Balanced table (listen_tcp local table).1 (returned (listen_tcp local table).0)
open-Balanced_example = open-Balanced remote local table
