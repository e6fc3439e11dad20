-- ===== src/CommandLine/Options.antt =====
-- How the loop of `parse_args` takes its options (agent/src/agent/main.cpp, agent/src/tunnel/main.cpp).
use webhook_ops.Common.{◌≡◌, ap, List, [], ◌∷◌, Bytes, codes, Option}
use webhook_ops.Config.{ConfigFile, loaded, load_config_file}
use webhook_ops.CommandLine.{
  Parsed, accepted, Taken, alone, with_value, continue, parse_options, load_config_arg, with_file,
}

module _ {ℓ} {C : Type ℓ} where
  pub parse_options-alone :
      (option : Bytes → Bytes → C → Taken C) (arg : Bytes) (rest : List Bytes) (config : C)
      {changed : C}
      → ((value : Bytes) → option arg value config ≡ alone changed)
      → parse_options option (arg ∷ rest) config ≡ parse_options option rest changed
  unfolding parse_options
  parse_options-alone option arg [] config e = ap (continue accepted accepted) (e [])
  parse_options-alone option arg (value ∷ rest) config e =
      ap (continue (parse_options option (value ∷ rest)) (parse_options option rest)) (e value)

  pub parse_options-with_value :
      (option : Bytes → Bytes → C → Taken C) (arg value : Bytes) (rest : List Bytes) (config : C)
      {changed : C}
      → option arg value config ≡ with_value changed
      → parse_options option (arg ∷ value ∷ rest) config ≡ parse_options option rest changed
  unfolding parse_options
  parse_options-with_value option arg value rest config e =
      ap (continue (parse_options option (value ∷ rest)) (parse_options option rest)) e

  -- A configuration file that the options begin with.
  pub load_config_arg_first :
      (files : Bytes → Option Bytes) (apply : ConfigFile → C → Parsed C) (path : Bytes)
      (rest : List Bytes) (config : C) {file : ConfigFile}
      → load_config_file files path [] ≡ (loaded, file)
      → load_config_arg files apply (codes "--config" ∷ path ∷ rest) config ≡ apply file config
  unfolding load_config_arg
  load_config_arg_first files apply path rest config e =
      ap (λ r. with_file r.0 (apply r.1 config)) e
