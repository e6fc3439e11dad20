-- ===== src/Tests/Log.antt =====
-- A log line (agent/src/common/log.cpp) at concrete texts.
use webhook_ops.Common.{◌≡◌, refl, some, List, [], ◌∷◌, Bytes, codes, suc, ◌+◌}
use webhook_ops.Stdlib.{is_space}
use webhook_ops.Log.{info, warn, level_name, log, log_line, standard_error}
use webhook_ops.Log.Reader.{read_line}
use webhook_ops.Log.Reading.{read_line-log}
use webhook_ops.Log.Feeds.{feeds, all_feeds}

abbrev fields : List (Bytes × Bytes)
fields = (codes "peer", codes "a \"b\"\nc") ∷ (codes "stream", codes "1") ∷ []

abbrev line : Bytes
line = log_line (codes "T") warn (codes "tunnel") (codes "open") fields

read_line-log_example :
    (read_line line
      ≡ some (
          (codes "level", level_name warn)
          ∷ (codes "component", codes "tunnel")
          ∷ (codes "event", codes "open")
          ∷ fields))
    × (feeds line ≡ suc (feeds (codes "tunnel") + (feeds (codes "open") + all_feeds fields)))
unfolding log is_space
read_line-log_example =
    read_line-log info warn (codes "T") (codes "tunnel") (codes "open") fields
      {output = standard_error} (refl, tt) (refl, (refl, tt)) refl
