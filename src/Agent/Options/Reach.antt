-- ===== src/Agent/Options/Reach.antt =====
-- Where an agent with given settings can connect to: `parse_args` and the streams of class `Agent`
-- (agent/src/agent/main.cpp) together.
use webhook_ops.Common.{
  ◌≡◌, refl, sym, ap₂, ◌∙◌, subst, Bool, true, false, ◌||◌, Option, List, [], ◌∷◌, arith, Bytes,
  codes, eqb, eqb→eq, All, is_empty, ◌==◌, if◌then◌else◌, Bool-cases, ◌⊎◌, inl, inr,
}
use webhook_ops.Net.Endpoint.{Endpoint, endpoint_to_string}
use webhook_ops.Net.Endpoint.RoundTrip.{endpoint_to_string-injective}
use webhook_ops.Config.{ConfigFile, loaded, load_config_file}
use webhook_ops.CommandLine.{accepted, refused}
use webhook_ops.Agent.Session.{Agent, contains, Event, run}
use webhook_ops.Agent.Session.Allowlist.{run-IsAllowed}
use webhook_ops.Agent.Options.{
  Config, default_config, insert, apply_node_config, check_tunnel, parse_args,
}
use webhook_ops.Agent.Options.Settings.{
  Setting, allow, arguments, set_all, IsGiven, parse_args_file,
}

-- An agent that has connected, with nothing done yet.
unfoldable pub start_agent : Config → Agent
start_agent c = record {
  allowlist = c.allowlist;
  connected = true;
  channel_valid = true;
  sent = [];
  objects = [];
  streams = [];
  connects = [];
  closes = [];
}

-- The endpoint is given by an `--allow`.
abbrev pub Gives : List Setting → Endpoint → Type 0
Gives [] e = ⊥
Gives (allow a ∷ settings) e = (a ≡ e) ⊎ Gives settings e
Gives (_ ∷ settings) e = Gives settings e

abbrev text_of : Endpoint → Bytes
text_of e = endpoint_to_string e.host e.port

module _ (P : Bytes → Type 0) where
  insert-All :
      (text : Bytes) (members : List Bytes) → P text → All P members → All P (insert text members)
  unfolding insert
  insert-All text members h k = elim (Bool-cases (contains text members)) [
    | inl there ↦ rw there k
    | inr new ↦ rw new (h, k)
  ]

  contains-All :
      (text : Bytes) (members : List Bytes) → All P members → contains text members ≡ true → P text
  unfolding contains
  contains-All text [] k e = absurd (cc)
  contains-All text (m ∷ members) (h, k) e = elim (Bool-cases (eqb m text)) [
    | inl same ↦ subst P (eqb→eq m text same) h
    | inr other ↦ contains-All text members k (ground arith)
  ]

  set_all-allowlist :
      (settings : List Setting) (c : Config)
      → ((e : Endpoint) → Gives settings e → P (text_of e))
      → All P c.allowlist
      → All P (set_all settings c).allowlist
  unfolding set_all
  set_all-allowlist [] c gives k = k
  set_all-allowlist (allow e ∷ settings) c gives k =
      set_all-allowlist settings _ (λ a h. gives a (inr h))
        (insert-All (text_of e) c.allowlist (gives e (inl refl)) k)
  set_all-allowlist (_ ∷ settings) c gives k = set_all-allowlist settings _ gives k

record IsGivenText (settings : List Setting) (text : Bytes) : Type 0 where
  endpoint : Endpoint
  given : Gives settings endpoint
  written : text ≡ text_of endpoint

given_endpoint :
    (settings : List Setting) (e : Endpoint) → IsGivenText settings (text_of e) → Gives settings e
given_endpoint settings e h =
    let (hosts, ports) =
      endpoint_to_string-injective e.host h.endpoint.host e.port h.endpoint.port h.written in
    subst (Gives settings) (sym (ap₂ (λ x y. record { host = x; port = y }) hosts ports)) h.given

connects-Gives :
    (settings : List Setting) (allowlist : List Bytes) (connects : List Endpoint)
    → All (IsGivenText settings) allowlist
    → All (λ e. contains (text_of e) allowlist ≡ true) connects
    → All (Gives settings) connects
connects-Gives settings allowlist [] k h = tt
connects-Gives settings allowlist (e ∷ connects) k (there, h) = (
  given_endpoint settings e (contains-All (IsGivenText settings) (text_of e) allowlist k there),
  connects-Gives settings allowlist connects k h,
)

check_tunnel-accepted : (x c : Config) → check_tunnel x ≡ accepted c → x ≡ c
unfolding check_tunnel
check_tunnel-accepted x c e = chosen (is_empty x.controller_host || x.controller_port == 0) e
  where
    chosen :
        (b : Bool)
        → (if b then refused (codes "--tunnel is required") else accepted x) ≡ accepted c
        → x ≡ c
    chosen true h = absurd (cc)
    chosen false h = cc

-- An agent that is started with a configuration file that allows nothing, and well-formed settings
-- behind it, and accepts its command line, asks to connect only to endpoints that an `--allow` gave, whatever
-- frames come from the tunnel and whatever the targets do, in any order.
pub run-Gives :
    (files : Bytes → Option Bytes) (program path : Bytes) (settings : List Setting)
    (file_c : Config) {file : ConfigFile} {c : Config} (events : List Event)
    → load_config_file files path [] ≡ (loaded, file)
    → apply_node_config file default_config ≡ accepted file_c
    → file_c.allowlist ≡ []
    → All IsGiven settings
    → parse_args files
        (program ∷ codes "join" ∷ codes "--config" ∷ path ∷ arguments settings)
        default_config
      ≡ accepted c
    → All (Gives settings) (run events (start_agent c)).connects
unfolding start_agent
run-Gives files program path settings file_c {c = c} events read applied bare given parsed =
    let taken =
      parse_args_file files program path settings default_config file_c read applied given in
    let same = check_tunnel-accepted (set_all settings file_c) c (sym taken ∙ parsed) in
    let listed =
      set_all-allowlist (IsGivenText settings) settings file_c
        (λ e g. record { endpoint = e; given = g; written = refl })
        (subst (All (IsGivenText settings)) (sym bare) tt) in
    let kept =
      run-IsAllowed {l = c.allowlist} events (start_agent c)
        (record { same = refl; allowed = tt }) in
    connects-Gives settings c.allowlist (run events (start_agent c)).connects
      (subst (λ d. All (IsGivenText settings) d.allowlist) same listed) kept.allowed
