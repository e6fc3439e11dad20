-- ===== src/Tests/Text.antt =====
-- Texts, configuration files, OPEN payloads, JSON and digests at concrete inputs.
use webhook_ops.Common.{
  ℕ, ◌<◌, ◌≡◌, ◌≢◌, refl, Option, some, List, [], ◌∷◌, ◌++◌, arith, Bytes, codes,
}
use webhook_ops.Stdlib.{skip_spaces, is_space}
use webhook_ops.Stdlib.Decimal.{to_string}
use webhook_ops.Text.{lower_copy, trim_end}
use webhook_ops.Config.{loaded, load_config_file, config_get_all}
use webhook_ops.Config.Print.{print, IsEntry, values_of, config_get_all-print}
use webhook_ops.Open.{make_open_payload, parse_open_payload, parse_open_payload-newline}
use webhook_ops.Json.{make_auth_payload}
use webhook_ops.Json.Strings.{read_auth, read_auth-make_auth_payload}

parse_open_payload-newline_example :
    parse_open_payload (make_open_payload (codes "db" ++ b'\n' ∷ to_string 22) 80)
    ≡ some (record { host = codes "db"; port = 22 })
parse_open_payload-newline_example =
    parse_open_payload-newline b'd' (codes "b") 22 80 ((λ e. omega arith), ((λ e. omega arith), tt))
      (omega arith) (omega arith)

abbrev entries : List (Bytes × Bytes)
entries = (codes "a", codes "x") ∷ (codes "a", codes "y") ∷ []

abbrev files : Bytes → Option Bytes
files path = some (print entries)

is_plain : (c : ℕ) → 59 < c → (c ≢ b'\n') × (c ≢ b'#') × (c ≢ b';')
is_plain c h = ((λ e. omega arith), (λ e. omega arith), (λ e. omega arith))

x-IsEntry : IsEntry (codes "a") (codes "x")
unfolding skip_spaces trim_end lower_copy is_space
x-IsEntry = record {
  named = λ e. cc;
  key_first = refl;
  key_last = refl;
  key_lower = refl;
  key_plain = (is_plain b'a' (omega arith), tt);
  key_equals = ((λ e. omega arith), tt);
  value_first = refl;
  value_last = refl;
  value_plain = (is_plain b'x' (omega arith), tt);
}

y-IsEntry : IsEntry (codes "a") (codes "y")
unfolding skip_spaces trim_end lower_copy is_space
y-IsEntry = record {
  named = λ e. cc;
  key_first = refl;
  key_last = refl;
  key_lower = refl;
  key_plain = (is_plain b'a' (omega arith), tt);
  key_equals = ((λ e. omega arith), tt);
  value_first = refl;
  value_last = refl;
  value_plain = (is_plain b'y' (omega arith), tt);
}

config_get_all-print_example :
    ((load_config_file files (codes "f") []).0 ≡ loaded)
    × (config_get_all (load_config_file files (codes "f") []).1 (codes "A")
        ≡ values_of (lower_copy (codes "A")) entries)
config_get_all-print_example =
    config_get_all-print files (codes "f") (codes "A") entries refl (x-IsEntry, (y-IsEntry, tt))

read_auth-make_auth_payload_example :
    read_auth (make_auth_payload (codes "edge\"1") (codes "n") (codes "p") [])
    ≡ some (codes "edge\"1", codes "n", codes "p")
read_auth-make_auth_payload_example =
    read_auth-make_auth_payload (codes "edge\"1") (codes "n") (codes "p") []
