-- ===== src/Tunnel/Controller/Selection.antt =====
-- The selected agent outlives the tunnel in its state file (agent/src/tunnel/main.cpp).
use webhook_ops.Common.{
  ℕ, ◌<◌, ◌≡◌, ◌≢◌, refl, ap, true, false, some, [], ◌∷◌, ◌⊎◌, inl, inr, arith, Bytes, codes, All,
  is_empty,
}
use webhook_ops.Stdlib.{skip_spaces, is_space}
use webhook_ops.Text.{trim_end, lower_copy}
use webhook_ops.Config.{ConfigFile, Loaded, loaded, load_error, config_get, config_get_all, last_or}
use webhook_ops.Config.Print.{print, IsPlain, IsEntry, values_of, config_get_all-print}
use webhook_ops.Tunnel.Controller.{Controller, save_selected_agent, restore, load_selected_agent}

-- An id that a line of the state file can hold.
pub record IsSavable (id : Bytes) : Type 0 where
  pub named : id ≢ []
  pub first : skip_spaces id ≡ id
  pub last : trim_end id ≡ id
  pub plain : All IsPlain id

abbrev key : Bytes
key = codes "selected_agent"

pub letter-IsPlain : (c : ℕ) → 59 < c → IsPlain c
letter-IsPlain c h = ((λ e. omega arith), (λ e. omega arith), (λ e. omega arith))

key-IsEntry : (id : Bytes) → IsSavable id → IsEntry key id
unfolding skip_spaces trim_end lower_copy is_space
key-IsEntry id v = record {
  named = λ e. cc;
  key_first = refl;
  key_last = refl;
  key_lower = refl;
  key_plain = (
    letter-IsPlain b's' (omega arith),
    (
      letter-IsPlain b'e' (omega arith),
      (
        letter-IsPlain b'l' (omega arith),
        (
          letter-IsPlain b'e' (omega arith),
          (
            letter-IsPlain b'c' (omega arith),
            (
              letter-IsPlain b't' (omega arith),
              (
                letter-IsPlain b'e' (omega arith),
                (
                  letter-IsPlain b'd' (omega arith),
                  (
                    letter-IsPlain b'_' (omega arith),
                    (
                      letter-IsPlain b'a' (omega arith),
                      (
                        letter-IsPlain b'g' (omega arith),
                        (
                          letter-IsPlain b'e' (omega arith),
                          (
                            letter-IsPlain b'n' (omega arith),
                            (letter-IsPlain b't' (omega arith), tt),
                          ),
                        ),
                      ),
                    ),
                  ),
                ),
              ),
            ),
          ),
        ),
      ),
    ),
  );
  key_equals = (
    (λ e. omega arith),
    (
      (λ e. omega arith),
      (
        (λ e. omega arith),
        (
          (λ e. omega arith),
          (
            (λ e. omega arith),
            (
              (λ e. omega arith),
              (
                (λ e. omega arith),
                (
                  (λ e. omega arith),
                  (
                    (λ e. omega arith),
                    (
                      (λ e. omega arith),
                      (
                        (λ e. omega arith),
                        ((λ e. omega arith), ((λ e. omega arith), ((λ e. omega arith), tt))),
                      ),
                    ),
                  ),
                ),
              ),
            ),
          ),
        ),
      ),
    ),
  );
  value_first = v.first;
  value_last = v.last;
  value_plain = v.plain;
}

restored :
    (id : Bytes) (r : Loaded × ConfigFile) (c : Controller)
    → id ≢ []
    → r.0 ≡ loaded
    → config_get_all r.1 key ≡ id ∷ []
    → (restore r c).selected_agent ≡ id
unfolding restore config_get config_get_all last_or
restored [] r c named e f = absurd (named refl)
restored (b ∷ id) (load_error x, state) c named e f = cc
restored (b ∷ id) (loaded, state) c named e f =
    let saved : config_get state key [] ≡ b ∷ id = ap (last_or []) f in rw saved refl

is_empty-cases : (s : Bytes) → (s ≡ []) ⊎ (is_empty s ≡ false)
is_empty-cases [] = inl refl
is_empty-cases (c ∷ s) = inr refl

saved_file :
    (id : Bytes) (c : Controller)
    → c.state_path ≢ []
    → c.state_writable ≡ true
    → (save_selected_agent id c).state_file ≡ some (print ((key, id) ∷ []))
unfolding save_selected_agent print
saved_file id c path writable = elim (is_empty-cases c.state_path) [
  | inl e ↦ absurd (path e)
  | inr e ↦ rw (e, writable) refl
]

-- An id that was saved is selected again when the tunnel starts: for an id that is not empty, has no
-- outer spaces, no line feed and no comment sign, a state path, and a file that can be written,
-- whatever the configuration selects.
pub load_selected_agent-save_selected_agent :
    (id : Bytes) (c : Controller)
    → IsSavable id
    → c.state_path ≢ []
    → c.state_writable ≡ true
    → (load_selected_agent (save_selected_agent id c)).selected_agent ≡ id
unfolding load_selected_agent values_of lower_copy
load_selected_agent-save_selected_agent id c v path writable =
    let saved = save_selected_agent id c in
    let (e, f) =
      config_get_all-print (λ p. saved.state_file) saved.state_path key ((key, id) ∷ [])
        (saved_file id c path writable) (key-IsEntry id v, tt) in
    restored id _ _ v.named e f
