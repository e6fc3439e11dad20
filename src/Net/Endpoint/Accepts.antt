-- ===== src/Net/Endpoint/Accepts.antt =====
-- What `parse_host_port` of agent/src/common/net.cpp can return.
use webhook_ops.Common.{
  ℕ, ◌+◌, ◌-◌, ◌≤◌, ◌<◌, ◌≡◌, ◌≢◌, subst, sym, some, [], ◌∷◌, arith, Bytes, All, All-take, All-drop,
  take, drop, get_elem?, Option-cases, Bool-cases, inl, inr, ◌==◌,
}
use webhook_ops.Stdlib.{find, rfind}
use webhook_ops.Net.Endpoint.{Endpoint, parse_port, finish, bracketed, parse_host_port, max_port}

-- A host and a port that can be connected to.
pub record IsUsable (e : Endpoint) : Type 0 where
  pub named : e.host ≢ []
  pub positive : 0 < e.port
  pub fits : e.port ≤ max_port

parse_port_bounds : (text : Bytes) {p : ℕ} → parse_port text ≡ some p → (0 < p) × (p ≤ max_port)
unfolding parse_port
parse_port_bounds text h = ground arith

-- What is left behind a split into host and port.
finish-some :
    (host text : Bytes) (d : ℕ) {e : Endpoint}
    → d ≤ max_port
    → finish host text d ≡ some e
    → IsUsable e × (e.host ≡ host)
unfolding finish
finish-some [] text d k h = cc
finish-some (c ∷ host) [] d k h = ground arith
finish-some (c ∷ host) (t ∷ text) d {e} k h = elim (Option-cases (parse_port (t ∷ text))) [
  | inl bad ↦ absurd (ground arith)
  | inr (p, good) ↦ ground (arith, parse_port_bounds (t ∷ text) good)
]

module _ {κ} (P : ℕ → Type κ) where
  finish-All :
      (host text : Bytes) (d : ℕ) {e : Endpoint}
      → d ≤ max_port
      → All P host
      → finish host text d ≡ some e
      → IsUsable e × All P e.host
  finish-All host text d k all h =
      let (usable, same) = finish-some host text d k h in (usable, subst (All P) (sym same) all)

  bracketed-some :
      (value : Bytes) (d end : ℕ) {e : Endpoint}
      → d ≤ max_port
      → All P value
      → bracketed value d end ≡ some e
      → IsUsable e × All P e.host
  unfolding bracketed
  bracketed-some value d end k all h = elim (Option-cases (get_elem? value (end + 1))) [
    | inl last ↦ finish-All host [] d k inside (ground arith)
    | inr (c, next) ↦ finish-All host (drop (end + 2) value) d k inside (ground arith)
  ]
    where
      host : Bytes
      host = take (end - 1) (drop 1 value)

      inside : All P (take (end - 1) (drop 1 value))
      inside = All-take P (end - 1) _ (All-drop P 1 value all)

  -- Every endpoint that is accepted has a host that is not empty, made of bytes of the text, and a
  -- port from 1 to 65535.
  pub parse_host_port-IsUsable :
      (value : Bytes) (d : ℕ) {e : Endpoint}
      → d ≤ max_port
      → All P value
      → parse_host_port value d ≡ some e
      → IsUsable e × All P e.host
  unfolding parse_host_port
  parse_host_port-IsUsable [] d k all h = cc
  parse_host_port-IsUsable (c ∷ rest) d k all h = elim (Bool-cases (c == b'[')) [
    | inl bracket ↦ elim (Option-cases (find b']' (c ∷ rest))) [
      | inl missing ↦ absurd (ground arith)
      | inr (end, found) ↦ bracketed-some (c ∷ rest) d end k all (ground arith)
    ]
    | inr plain ↦ elim (Option-cases (rfind b':' (c ∷ rest))) [
      | inl missing ↦ finish-All (c ∷ rest) [] d k all (ground arith)
      | inr (colon, found) ↦
          finish-All (take colon (c ∷ rest)) (drop (colon + 1) (c ∷ rest)) d k
            (All-take P colon _ all) (ground arith)
    ]
  ]

abbrev Anything : ℕ → Type 0
Anything c = Unit

any_bytes : (s : Bytes) → All Anything s
any_bytes [] = tt
any_bytes (c ∷ s) = (tt, any_bytes s)

-- An endpoint that is accepted without a default port is usable.
pub endpoint-IsUsable : (text : Bytes) {e : Endpoint} → parse_host_port text 0 ≡ some e → IsUsable e
endpoint-IsUsable text h =
    (parse_host_port-IsUsable Anything text 0 (omega arith) (any_bytes text) h).0
