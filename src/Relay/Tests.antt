-- ===== src/Relay/Tests.antt =====
-- The relay of ln-websocket-proxy at concrete inputs: two clients, and one of them coming twice.
use mutiny_web_poc.Prelude.{
  ℕ, zero, suc, true, Option, none, some, List, [], ◌∷◌, ◌++◌, length, take, drop, take-append,
  drop-append, Bytes, partial_eq_bytes, partial_eq_nat, ◌≡◌, refl, arith,
}
use mutiny_web_poc.Prelude.Assoc.{get, insert, remove}
use mutiny_web_poc.Relay.{
  send, done, channel_send, full, Task, Server, Wire, WsCommand, Listener, ProxyCommand, binary,
  disconnect_from, disconnect, blocked, on_binary, on_socket, open_ws, leave, Step, opens, here,
  next_step,
}
use mutiny_web_poc.Relay.Valid.{IsValid, set_task-IsValid, open_ws-IsValid}
use mutiny_web_poc.Relay.Turns.{Reach-IsValid, empty_server, empty_server-IsValid}
use mutiny_web_poc.Relay.Routing.{taken, sent_at, relay_delivers}
use mutiny_web_poc.Relay.Deadlock.{Waits, on_binary-deadlocks}
use mutiny_web_poc.Relay.Takeover.{takeover_orphans, on_socket-isolates}

-- A wire format that meets the laws: the command's first field behind its length.
abbrev plain_from_str : Bytes → Option ProxyCommand
plain_from_str [] = none
plain_from_str (n ∷ rest) = some (disconnect (take n rest) (drop n rest))

abbrev plain_to_string : ProxyCommand → Bytes
plain_to_string (disconnect to from) = length to ∷ (to ++ from)

plain_law : (c : ProxyCommand) → plain_from_str (plain_to_string c) ≡ some c
plain_law (disconnect to from) = rw (take-append to from, drop-append to from) refl

abbrev plain : Wire
plain = record {
  from_hex = some;
  from_str = plain_from_str;
  to_string = plain_to_string;
  from_str-to_string = plain_law;
}

abbrev copies : ℕ → ℕ → Bytes
copies zero b = []
copies (suc n) b = b ∷ copies n b

abbrev alice : Bytes
alice = copies 33 1

abbrev bob : Bytes
bob = copies 33 2

abbrev carol : Bytes
carol = copies 33 3

abbrev idle : Bytes → Task
idle id = record { owner = id; queue = []; connected_peers = []; sent = []; running = true }

abbrev two_clients : Server
two_clients = open_ws plain bob (open_ws plain alice empty_server)

two_clients-IsValid : IsValid two_clients
two_clients-IsValid =
    open_ws-IsValid plain bob _ (open_ws-IsValid plain alice _ empty_server-IsValid)

Reach-IsValid_example : IsValid two_clients
Reach-IsValid_example =
    Reach-IsValid plain (next_step (next_step here (opens alice refl)) (opens bob refl))

abbrev backlog : ℕ → List WsCommand
backlog zero = []
backlog (suc n) = disconnect_from bob ∷ backlog n

abbrev stuffed : Task
stuffed = record (idle alice) { queue = backlog 32 }

abbrev alice_stuffed : Server
alice_stuffed = record {
  state = (alice, 0) ∷ [];
  tasks = (0, stuffed) ∷ [];
  listeners = [];
  next = 1;
}

alice_stuffed-IsValid : IsValid alice_stuffed
unfolding open_ws get insert remove
alice_stuffed-IsValid =
    set_task-IsValid (open_ws plain alice empty_server) 0 (idle alice) stuffed refl refl refl
      (omega arith) (open_ws-IsValid plain alice _ empty_server-IsValid)

on_binary-deadlocks_example :
    (on_binary plain 0 alice (carol ++ 5 ∷ []) alice_stuffed ≡ blocked 0)
    × ((u : Server) (c : WsCommand) → Waits plain 0 alice_stuffed u → channel_send 0 c u ≡ full)
unfolding get
on_binary-deadlocks_example =
    on_binary-deadlocks plain 0 stuffed alice_stuffed alice carol (5 ∷ []) alice_stuffed-IsValid
      refl refl refl refl refl

relay_delivers_example :
    (u : Server) × (r' : Task) × (on_socket plain 0 alice
        (some (some (binary (bob ++ 5 ∷ []))))
        two_clients
      ≡ done u)
    × Step plain two_clients u
    × (get 1 u.tasks ≡ some r')
    × (r'.queue ≡ send alice (5 ∷ []) ∷ [])
    × Step plain u (taken plain 1 r' (send alice (5 ∷ [])) u)
    × (sent_at 1 (taken plain 1 r' (send alice (5 ∷ [])) u) ≡ some (binary (alice ++ 5 ∷ []) ∷ []))
unfolding open_ws get insert remove
relay_delivers_example =
    relay_delivers plain 0 1 (idle alice) (idle bob) two_clients bob (5 ∷ []) refl refl refl refl
      refl refl refl

takeover_orphans_example :
    (u v : Server) × (n : Task) × Step plain two_clients u
    × (get alice u.state ≡ some two_clients.next)
    × (get 0 u.tasks ≡ some (idle alice))
    × Step plain u v
    × (get alice v.state ≡ none)
    × (get two_clients.next v.tasks ≡ some n)
    × (n.running ≡ true)
    × (n.owner ≡ alice)
unfolding open_ws get insert remove
takeover_orphans_example =
    takeover_orphans plain alice alice 0 (idle alice) two_clients two_clients-IsValid refl (λ e. cc)
      refl refl refl

abbrev bob_left : Listener
bob_left = record { task = 0; peer = bob; source = 1 }

abbrev listening : Task
listening = record (idle alice) { connected_peers = bob ∷ [] }

abbrev after_bob : Server
after_bob = record {
  state = (alice, 0) ∷ [];
  tasks = (0, listening) ∷ [];
  listeners = [];
  next = 2;
}

on_socket-isolates_example : get bob (leave 0 alice two_clients).state ≡ get bob two_clients.state
unfolding on_socket
on_socket-isolates_example =
    on_socket-isolates plain 0 alice bob none two_clients (leave 0 alice two_clients) refl
      (λ e. grind (arith, e))
