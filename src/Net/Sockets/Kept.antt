-- ===== src/Net/Sockets/Kept.antt =====
-- No socket is lost: agent/src/common/net.cpp closes what it opened and does not return.
use webhook_ops.Common.{
  ℕ, ◌≡◌, refl, sym, ◌∙◌, Option, none, some, List, [], ◌∷◌, ◌++◌, append_assoc, append-nil, Bytes,
  codes, Bool-cases, inl, inr, Option-cases,
}
use webhook_ops.Net.Sockets.{
  Table, Address, open_socket, close_socket, first_usable, Opened, socket, invalid, answer, Found,
  not_found, found, connect_tcp, LocalFound, local_not_found, local_found, listen_tcp, as_addresses,
}

abbrev pub returned : Opened → List ℕ
returned (socket sock) = sock ∷ []
returned (invalid message) = []

abbrev kept : Option ℕ → List ℕ
kept none = []
kept (some sock) = sock ∷ []

-- Some sockets were opened and closed again, and one that is returned was opened.
pub record Balanced (t t' : Table) (back : List ℕ) : Type 0 where
  pub tried : List ℕ
  pub opened : t'.opened ≡ t.opened ++ (tried ++ back)
  pub closed : t'.closed ≡ t.closed ++ tried

unchanged : (t : Table) → Balanced t t []
unchanged t = record {
  tried = [];
  opened = sym (append-nil t.opened);
  closed = sym (append-nil t.closed);
}

closed_one :
    (sock : ℕ) (t : Table) {t' : Table} {back : List ℕ}
    → Balanced (close_socket sock (open_socket sock t)) t' back
    → Balanced t t' back
closed_one sock t b = record {
  tried = sock ∷ b.tried;
  opened = b.opened ∙ append_assoc t.opened (sock ∷ []) _;
  closed = b.closed ∙ append_assoc t.closed (sock ∷ []) b.tried;
}

first_usable-Balanced :
    (addresses : List Address) (last_error : Bytes) (t : Table)
    → let r = first_usable addresses last_error t in Balanced t r.2 (kept r.0)
unfolding first_usable
first_usable-Balanced [] last_error t = unchanged t
first_usable-Balanced (a ∷ addresses) last_error t = elim (Option-cases a.made) [
  | inl e ↦ rw (first_usable, e) (first_usable-Balanced addresses a.failure t)
  | inr (sock, e) ↦ elim (Bool-cases a.usable) [
    | inl u ↦
        rw (first_usable, e, u)
          (record { tried = []; opened = refl; closed = sym (append-nil t.closed) })
    | inr u ↦
        rw (first_usable, e, u)
          (closed_one sock t
            (first_usable-Balanced addresses a.failure (close_socket sock (open_socket sock t))))
  ]
]

answer-Balanced :
    (fallback : Bytes) (r : Option ℕ × Bytes × Table) (t : Table)
    → Balanced t r.2 (kept r.0)
    → Balanced t (answer fallback r).1 (returned (answer fallback r).0)
answer-Balanced fallback (some sock, last_error, t') t b = b
answer-Balanced fallback (none, last_error, t') t b = b

connect_tcp-Balanced :
    (addresses : Found) (t : Table)
    → Balanced t (connect_tcp addresses t).1 (returned (connect_tcp addresses t).0)
unfolding connect_tcp
connect_tcp-Balanced (not_found message) t = unchanged t
connect_tcp-Balanced (found addresses) t =
    answer-Balanced (codes "connect failed") (first_usable addresses [] t) t
      (first_usable-Balanced addresses [] t)

listen_tcp-Balanced :
    (addresses : LocalFound) (t : Table)
    → Balanced t (listen_tcp addresses t).1 (returned (listen_tcp addresses t).0)
unfolding listen_tcp
listen_tcp-Balanced (local_not_found message) t = unchanged t
listen_tcp-Balanced (local_found addresses) t =
    answer-Balanced (codes "listen failed") (first_usable (as_addresses addresses) [] t) t
      (first_usable-Balanced (as_addresses addresses) [] t)

-- Whatever addresses are found and whatever the calls answer, each socket that `connect_tcp` or
-- `listen_tcp` opens is closed by it once, in order, but for the one that it returns.
pub open-Balanced :
    (remote : Found) (local : LocalFound) (t : Table)
    → Balanced t (connect_tcp remote t).1 (returned (connect_tcp remote t).0)
      × Balanced t (listen_tcp local t).1 (returned (listen_tcp local t).0)
open-Balanced remote local t = (connect_tcp-Balanced remote t, listen_tcp-Balanced local t)
