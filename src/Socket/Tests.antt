-- ===== src/Socket/Tests.antt =====
-- The sockets of node-manager/src/socket.rs at concrete inputs: a node with one peer.
use mutiny_web_poc.Prelude.{
  ℕ, zero, suc, Bool, true, false, Option, none, some, [], ◌∷◌, ◌++◌, if◌then◌else◌, length, take,
  drop, take-append, drop-append, Bytes, partial_eq_bytes, partial_eq_nat, ◌≡◌, refl, arith, ◌==◌,
}
use mutiny_web_poc.Prelude.Assoc.{get}
use mutiny_web_poc.Relay.{ProxyCommand, disconnect, Wire}
use mutiny_web_poc.Socket.{
  bytes, SubSocket, Multi, PeerManager, on_read, read, stopped, create_new_subsocket,
  disconnect_socket, connects, here, next_step,
}
use mutiny_web_poc.Socket.Demux.{inbox_at, on_read-delivers}
use mutiny_web_poc.Socket.Closing.{on_read-loses}
use mutiny_web_poc.Socket.Valid.{IsValid}
use mutiny_web_poc.Socket.Turns.{reachable-IsValid}

-- A wire format that meets the laws: the command's first field behind its length.
abbrev plain_from_str : Bytes → Option ProxyCommand
plain_from_str [] = none
plain_from_str (n ∷ rest) = some (disconnect (take n rest) (drop n rest))

abbrev plain_to_string : ProxyCommand → Bytes
plain_to_string (disconnect to from) = length to ∷ (to ++ from)

plain_law : (c : ProxyCommand) → plain_from_str (plain_to_string c) ≡ some c
plain_law (disconnect to from) = rw (take-append to from, drop-append to from) refl

abbrev plain : Wire
plain = record {
  from_hex = some;
  from_str = plain_from_str;
  to_string = plain_to_string;
  from_str-to_string = plain_law;
}

abbrev pm : Bool → PeerManager
pm b = record { accepts = λ n. b; reads = λ n m. b }

abbrev key : ℕ → ℕ → Bytes
key zero b = []
key (suc n) b = b ∷ key n b

abbrev alice : Bytes
alice = key 33 1

abbrev bob : Bytes
bob = key 33 2

abbrev hi : Bytes
hi = 7 ∷ 8 ∷ []

abbrev lonely : Multi
lonely = record {
  our_peer_pubkey = alice;
  socket_map = [];
  subsockets = [];
  to_multi_socket = [];
  connected = true;
  readers = [];
  calls = [];
  sent = [];
  next = 0;
}

abbrev fresh : SubSocket
fresh = record { peer_pubkey_bytes = bob; read_channel = []; stop = false }

abbrev with_bob : Multi
with_bob = record lonely { socket_map = (bob, 0) ∷ []; subsockets = (0, fresh) ∷ []; next = 1 }

on_read-delivers_example :
    (u : Multi) × (on_read plain (pm true) (some (some (bytes (bob ++ hi)))) with_bob ≡ u)
    × ((k : ℕ) → inbox_at k u ≡ (if 0 == k then some (bytes hi ∷ []) else inbox_at k with_bob))
    × (u.socket_map ≡ with_bob.socket_map)
    × (u.to_multi_socket ≡ [])
    × (u.calls ≡ [])
unfolding get
on_read-delivers_example = on_read-delivers plain (pm true) with_bob bob hi refl 0 fresh refl refl

on_read-loses_example :
    (u : Multi) × (on_read plain
        (pm true)
        (some (some (bytes (bob ++ hi))))
        (disconnect_socket plain 0 with_bob)
      ≡ u)
    × (get bob u.socket_map ≡ some 0)
    × (u.calls ≡ [])
    × (inbox_at 0 u ≡ some (bytes hi ∷ []))
    × ((read 0 u).0 ≡ stopped)
unfolding get
on_read-loses_example = on_read-loses plain (pm true) with_bob bob hi 0 fresh refl refl refl

lonely-IsValid : IsValid lonely
unfolding get
lonely-IsValid = record {
  mapped = λ id n h. absurd (ground arith);
  given = λ n r h. absurd (ground arith);
}

reachable-IsValid_example : IsValid (create_new_subsocket bob lonely)
reachable-IsValid_example =
    reachable-IsValid plain (pm true) lonely (create_new_subsocket bob lonely)
      (next_step here (connects bob refl)) lonely-IsValid
