-- ===== src/Net/Sockets.antt =====
-- The opening of sockets: `connect_tcp`, `listen_tcp` and `accept_tcp` of agent/src/common/net.cpp. What
-- the operating system answers is an argument: the addresses that `getaddrinfo` found, with the answers
-- of the calls for each of them.
pub mod Kept
use webhook_ops.Common.{
  ℕ, ◌≡◌, refl, Bool, true, false, ◌&&◌, Option, none, some, List, [], ◌∷◌, ◌++◌, Bytes, codes,
  is_empty, if◌then◌else◌,
}

-- The sockets that were opened so far, and those that were closed.
pub record Table : Type 0 where
  pub opened : List ℕ
  pub closed : List ℕ

-- An address, with the answers of `socket` and of the calls that are to make the socket usable, and the
-- text of `last_socket_error` if one of them fails.
pub record Address : Type 0 where
  pub made : Option ℕ
  pub usable : Bool
  pub failure : Bytes

abbrev pub open_socket : ℕ → Table → Table
open_socket sock t = record t { opened = t.opened ++ sock ∷ [] }

-- `close_socket` on a valid socket.
abbrev pub close_socket : ℕ → Table → Table
close_socket sock t = record t { closed = t.closed ++ sock ∷ [] }

-- The loop over the addresses, with `last_error`.
unfoldable pub first_usable : List Address → Bytes → Table → Option ℕ × Bytes × Table
first_usable [] last_error t = (none, last_error, t)
first_usable (a ∷ addresses) last_error t = elim a.made [
  | none ↦ first_usable addresses a.failure t
  | some sock ↦
      let rest = first_usable addresses a.failure (close_socket sock (open_socket sock t)) in
      if a.usable then (some sock, last_error, open_socket sock t) else rest
]

-- The socket, or the error.
pub data Opened : Type 0 where
  socket : ℕ → Opened
  invalid : Bytes → Opened

abbrev pub answer : Bytes → Option ℕ × Bytes × Table → Opened × Table
answer fallback (some sock, last_error, t) = (socket sock, t)
answer fallback (none, last_error, t) =
    (invalid (if is_empty last_error then fallback else last_error), t)

-- What `getaddrinfo` answers.
pub data Found : Type 0 where
  not_found : Bytes → Found
  found : List Address → Found

unfoldable pub connect_tcp : Found → Table → Opened × Table
unfolding first_usable
connect_tcp (not_found message) t = (invalid message, t)
connect_tcp (found addresses) t = answer (codes "connect failed") (first_usable addresses [] t)

-- An address to listen on: a socket is usable if both `bind` and `listen` answer 0.
pub record LocalAddress : Type 0 where
  pub made : Option ℕ
  pub bound : Bool
  pub listening : Bool
  pub failure : Bytes

abbrev pub as_address : LocalAddress → Address
as_address a = record { made = a.made; usable = a.bound && a.listening; failure = a.failure }

abbrev pub as_addresses : List LocalAddress → List Address
as_addresses [] = []
as_addresses (a ∷ addresses) = as_address a ∷ as_addresses addresses

pub data LocalFound : Type 0 where
  local_not_found : Bytes → LocalFound
  local_found : List LocalAddress → LocalFound

unfoldable pub listen_tcp : LocalFound → Table → Opened × Table
unfolding first_usable
listen_tcp (local_not_found message) t = (invalid message, t)
listen_tcp (local_found addresses) t =
    answer (codes "listen failed") (first_usable (as_addresses addresses) [] t)

-- `accept`, and the name of the peer if `getnameinfo` finds it.
unfoldable pub accept_tcp :
    Option ℕ → Bytes → Option (Bytes × Bytes) → Table → Opened × Bytes × Table
accept_tcp none failure name t = (invalid failure, [], t)
accept_tcp (some sock) failure none t = (socket sock, [], open_socket sock t)
accept_tcp (some sock) failure (some (host, service)) t =
    (socket sock, host ++ b':' ∷ service, open_socket sock t)
