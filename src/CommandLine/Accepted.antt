-- ===== src/CommandLine/Accepted.antt =====
-- What holds of every configuration that a command line is accepted with.
use webhook_ops.Common.{
  ◌≡◌, subst, Bool, true, false, Option, List, [], ◌∷◌, Bytes, codes, eqb, if◌then◌else◌,
}
use webhook_ops.Config.{ConfigFile, Loaded, loaded, load_error, load_config_file}
use webhook_ops.CommandLine.{
  Parsed, accepted, refused, helped, and_then, Taken, alone, with_value, stop, load_config_arg,
  parse_options, with_file, continue,
}

module _ {ℓ} {C : Type ℓ} (P : C → Type 0) where
  -- An answer that accepts a configuration accepts one with the property.
  abbrev pub Keeps : Parsed C → Type 0
  Keeps (accepted c) = P c
  Keeps (refused message) = Unit
  Keeps helped = Unit

  abbrev pub TakenKeeps : Taken C → Type 0
  TakenKeeps (alone c) = P c
  TakenKeeps (with_value c) = P c
  TakenKeeps (stop answer) = Keeps answer

  pub Keeps-accepted : (answer : Parsed C) {c : C} → Keeps answer → answer ≡ accepted c → P c
  Keeps-accepted answer k e = subst Keeps e k

  pub if-Keeps : (b : Bool) (x y : Parsed C) → Keeps x → Keeps y → Keeps (if b then x else y)
  if-Keeps true x y k l = k
  if-Keeps false x y k l = l

  pub if-holds : (b : Bool) (x y : C) → P x → P y → P (if b then x else y)
  if-holds true x y k l = k
  if-holds false x y k l = l

  with_file-Keeps :
      (read : Loaded) (answer : Parsed C) → Keeps answer → Keeps (with_file read answer)
  with_file-Keeps loaded answer k = k
  with_file-Keeps (load_error message) answer k = tt

  pub load_config_arg-Keeps :
      (files : Bytes → Option Bytes) (apply : ConfigFile → C → Parsed C) (args : List Bytes)
      (config : C)
      → ((file : ConfigFile) (c : C) → P c → Keeps (apply file c))
      → P config
      → Keeps (load_config_arg files apply args config)
  unfolding load_config_arg
  load_config_arg-Keeps files apply [] config keeps p = p
  load_config_arg-Keeps files apply (arg ∷ []) config keeps p =
      if-Keeps (eqb arg (codes "--config")) (refused (codes "missing value for --config"))
        (accepted config) tt p
  load_config_arg-Keeps files apply (arg ∷ path ∷ rest) config keeps p =
      let (answer, file) = load_config_file files path [] in
      if-Keeps (eqb arg (codes "--config")) (with_file answer (apply file config))
        (load_config_arg files apply (path ∷ rest) config)
        (with_file-Keeps answer (apply file config) (keeps file config p))
        (load_config_arg-Keeps files apply (path ∷ rest) config keeps p)

  continue-Keeps :
      (on past : C → Parsed C) (taken : Taken C)
      → ((c : C) → P c → Keeps (on c))
      → ((c : C) → P c → Keeps (past c))
      → TakenKeeps taken
      → Keeps (continue on past taken)
  continue-Keeps on past (alone c) k l p = k c p
  continue-Keeps on past (with_value c) k l p = l c p
  continue-Keeps on past (stop answer) k l p = p

  pub parse_options-Keeps :
      (option : Bytes → Bytes → C → Taken C) (args : List Bytes) (config : C)
      → ((arg value : Bytes) (c : C) → P c → TakenKeeps (option arg value c))
      → P config
      → Keeps (parse_options option args config)
  unfolding parse_options
  parse_options-Keeps option [] config keeps p = p
  parse_options-Keeps option (arg ∷ []) config keeps p =
      continue-Keeps accepted accepted (option arg [] config) (λ c k. k) (λ c k. k)
        (keeps arg [] config p)
  parse_options-Keeps option (arg ∷ value ∷ rest) config keeps p =
      continue-Keeps (parse_options option (value ∷ rest)) (parse_options option rest)
        (option arg value config) (λ c k. parse_options-Keeps option (value ∷ rest) c keeps k)
        (λ c k. parse_options-Keeps option rest c keeps k) (keeps arg value config p)

module _ {ℓ ℓ'} {C : Type ℓ} {D : Type ℓ'} (P : C → Type 0) (Q : D → Type 0) where
  pub and_then-Keeps :
      (answer : Parsed C) (f : C → Parsed D)
      → Keeps P answer
      → ((c : C) → P c → Keeps Q (f c))
      → Keeps Q (and_then answer f)
  unfolding and_then
  and_then-Keeps (accepted c) f k keeps = keeps c k
  and_then-Keeps (refused message) f k keeps = tt
  and_then-Keeps helped f k keeps = tt
