-- ===== src/CommandLine.antt =====
-- What the command lines of both programs share: `detect_command`, `load_config_arg` and the loop of
-- `parse_args` (agent/src/agent/main.cpp and agent/src/tunnel/main.cpp). What they print besides the
-- message of a refusal is left out.
pub mod Accepted
pub mod Options
use webhook_ops.Common.{
  ℕ, ◌≡◌, refl, Bool, true, false, ◌||◌, Option, none, some, List, [], ◌∷◌, ◌++◌, Bytes, codes, eqb,
  drop, if◌then◌else◌,
}
use webhook_ops.Config.{ConfigFile, Loaded, loaded, load_error, load_config_file}

-- `start` is `Run` in the tunnel and `Join` in the agent.
pub data Command : Type 0 where
  start show_config help version : Command

-- `true` with the configuration, or `false` with what was printed: a message, or the usage alone.
pub data Parsed {ℓ} (C : Type ℓ) : Type ℓ where
  accepted : C → Parsed C
  refused : Bytes → Parsed C
  helped : Parsed C

unfoldable pub and_then {ℓ ℓ'} : {C : Type ℓ} {D : Type ℓ'} → Parsed C → (C → Parsed D) → Parsed D
and_then (accepted c) f = f c
and_then (refused message) f = refused message
and_then helped f = helped

-- What an option did, and whether it took the argument behind it.
pub data Taken {ℓ} (C : Type ℓ) : Type ℓ where
  alone : C → Taken C
  with_value : C → Taken C
  stop : Parsed C → Taken C

-- `name` is the command that is also the default.
unfoldable pub command_of : Bytes → Bytes → Command × ℕ
command_of name arg =
    if eqb arg name
    then (start, 2)
    else if eqb arg (codes "show-config")
    then (show_config, 2)
    else if eqb arg (codes "version") || eqb arg (codes "--version")
    then (version, 2)
    else if eqb arg (codes "help") || eqb arg (codes "--help") || eqb arg (codes "-h")
    then (help, 2)
    else (start, 1)

-- The command, and where the options begin. `argv` begins with the program's name.
unfoldable pub detect_command : Bytes → List Bytes → Command × ℕ
unfolding command_of
detect_command name (program ∷ arg ∷ rest) = command_of name arg
detect_command name _ = (start, 1)

module _ {ℓ} {C : Type ℓ} where
  abbrev pub with_file : Loaded → Parsed C → Parsed C
  with_file loaded answer = answer
  with_file (load_error message) answer = refused message

  -- The file behind the first `--config`. `load` is `load_config_file` on an empty `ConfigFile`, and
  -- `apply` what the program does with its entries.
  unfoldable pub load_config_arg :
      (Bytes → Option Bytes) → (ConfigFile → C → Parsed C) → List Bytes → C → Parsed C
  load_config_arg files apply [] config = accepted config
  load_config_arg files apply (arg ∷ []) config =
      if eqb arg (codes "--config")
      then refused (codes "missing value for --config")
      else accepted config
  load_config_arg files apply (arg ∷ path ∷ rest) config =
      let later = load_config_arg files apply (path ∷ rest) config in
      let (answer, file) = load_config_file files path [] in
      if eqb arg (codes "--config") then with_file answer (apply file config) else later

  abbrev pub continue : (C → Parsed C) → (C → Parsed C) → Taken C → Parsed C
  continue on past (alone c) = on c
  continue on past (with_value c) = past c
  continue on past (stop answer) = answer

  -- The loop of `parse_args`: an option without the value that it asks for is given an empty one.
  unfoldable pub parse_options : (Bytes → Bytes → C → Taken C) → List Bytes → C → Parsed C
  parse_options option [] config = accepted config
  parse_options option (arg ∷ []) config = continue accepted accepted (option arg [] config)
  parse_options option (arg ∷ value ∷ rest) config =
      continue (parse_options option (value ∷ rest)) (parse_options option rest)
        (option arg value config)
