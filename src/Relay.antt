-- ===== src/Relay.antt =====
-- The message relay between wallets: ln-websocket-proxy/src/main.rs and lib.rs.
-- A handler task of `handle_mutiny_ws` goes by a number. That number stands in the `WSMap` for the
-- pair of senders that the code stores there, the task's channel and its broadcast.
pub mod Valid
pub mod Turns
pub mod Routing
pub mod Takeover
pub mod Deadlock
pub mod Tests
use mutiny_web_poc.Prelude.{
  ℕ, suc, Bool, true, false, Option, none, some, List, [], ◌∷◌, ◌++◌, ltb, if◌then◌else◌, length,
  take, drop, Bytes, partial_eq_bytes, partial_eq_nat, ◌≡◌,
}
use mutiny_web_poc.Prelude.Assoc.{get, insert, remove, contains, delete}

-- `MutinyProxyCommand`
pub data ProxyCommand : Type 0 where
  disconnect : Bytes → Bytes → ProxyCommand

-- `MutinyWSCommand`
pub data WsCommand : Type 0 where
  send : Bytes → Bytes → WsCommand
  disconnect_from : Bytes → WsCommand

-- `Message` of axum; pings and the like are `other`.
pub data Message : Type 0 where
  text : Bytes → Message
  binary : Bytes → Message
  other : Message

-- The formats that libraries read and print: hex digits, and the JSON of a command.
pub record Wire : Type 0 where
  pub from_hex : Bytes → Option Bytes
  pub from_str : Bytes → Option ProxyCommand
  pub to_string : ProxyCommand → Bytes
  pub from_str-to_string : (c : ProxyCommand) → from_str (to_string c) ≡ some c

-- One running `handle_mutiny_ws`: what it owns, and what it has sent down its websocket.
pub record Task : Type 0 where
  pub owner : Bytes
  pub queue : List WsCommand
  pub connected_peers : List Bytes
  pub sent : List Message
  pub running : Bool

-- A task that `listen_for_disconnections` spawned: `task` waits for the broadcast of `source`,
-- which was registered under `peer`.
pub record Listener : Type 0 where
  pub task : ℕ
  pub peer : Bytes
  pub source : ℕ

pub record Server : Type 0 where
  pub state : List (Bytes × ℕ)
  pub tasks : List (ℕ × Task)
  pub listeners : List Listener
  pub next : ℕ

abbrev pub pubkey_bytes_len : ℕ
pubkey_bytes_len = 33

abbrev pub channel_capacity : ℕ
channel_capacity = 32

abbrev pub set_task : ℕ → Task → Server → Server
set_task h t s = record s { tasks = insert h t s.tasks }

-- A handler runs on to its next `select!`, or waits for room in the channel of a task.
pub data Flow : Type 0 where
  done : Server → Flow
  blocked : ℕ → Flow

infixl 5 ◌>>=◌
abbrev pub ◌>>=◌ : Flow → (Server → Flow) → Flow
done s >>= f = f s
blocked h >>= f = blocked h

-- `mpsc::Sender::send`: it fails if the receiver is gone, and waits if the channel is full.
pub data Delivery : Type 0 where
  delivered : Server → Delivery
  closed : Delivery
  full : Delivery

pub channel_send : ℕ → WsCommand → Server → Delivery
channel_send h c s = elim (get h s.tasks) [
  | none ↦ closed
  | some t ↦
      if t.running
      then if ltb (length t.queue) channel_capacity
        then delivered (set_task h (record t { queue = t.queue ++ c ∷ [] }) s)
        else full
      else closed
]

pub try_send_disconnect_ws_command : ℕ → Bytes → Server → Flow
try_send_disconnect_ws_command h other_peer s =
    elim (channel_send h (disconnect_from other_peer) s) [
      | delivered s' ↦ done s'
      | closed ↦ done s
      | full ↦ blocked h
    ]

-- `connected_peers.lock().await.remove(&peer)`
pub forget_peer : ℕ → Bytes → Server → Server
forget_peer h peer s = elim (get h s.tasks) [
  | none ↦ s
  | some t ↦ set_task h (record t { connected_peers = delete peer t.connected_peers }) s
]

pub listen_for_disconnections : ℕ → Bytes → ℕ → Server → Server
listen_for_disconnections h other_peer source s = elim (get h s.tasks) [
  | none ↦ s
  | some t ↦ if contains other_peer t.connected_peers then s else record s {
    tasks = insert h (record t { connected_peers = other_peer ∷ t.connected_peers }) s.tasks;
    listeners = s.listeners ++ record { task = h; peer = other_peer; source = source } ∷ [];
  }
]

-- The body of the spawned task, once `rx.recv()` has returned.
pub listener_fires : Listener → Server → Flow
listener_fires l s =
    try_send_disconnect_ws_command l.task l.peer s >>= λ s'. done (forget_peer l.task l.peer s')

-- The way out of the handler: `try_broadcast_disconnect`, the entry of the map removed, `return`.
-- The receiver is dropped, so that sends to the channel fail, and listeners wake.
pub leave : ℕ → Bytes → Server → Server
leave h owner s = elim (get h s.tasks) [
  | none ↦ record s { state = remove owner s.state }
  | some t ↦ record (set_task h (record t { running = false; queue = [] }) s) {
    state = remove owner s.state;
  }
]

module _ (w : Wire) where
  open w use {from_hex, from_str, to_string}

  -- The start of `handle_mutiny_ws`, up to its loop.
  pub open_ws : Bytes → Server → Server
  open_ws identifier s = elim (from_hex identifier) [
    | none ↦ s
    | some [] ↦ s
    | some (b ∷ bs) ↦ record {
      state = insert (b ∷ bs) s.next s.state;
      tasks =
          insert s.next
            (record { owner = b ∷ bs; queue = []; connected_peers = []; sent = []; running = true })
            s.tasks;
      listeners = s.listeners;
      next = suc s.next;
    }
  ]

  -- `Message::Text` from the websocket's owner.
  pub on_text : ℕ → Bytes → Bytes → Server → Flow
  on_text h owner msg s = elim (from_str msg) [
    | none ↦ done s
    | some (disconnect to from) ↦ elim (get to s.state) [
      | none ↦ done s
      | some peer_tx ↦
          try_send_disconnect_ws_command peer_tx owner s >>= λ s'. done (forget_peer h to s')
    ]
  ]

  -- `Message::Binary` from the websocket's owner, once it is split.
  pub forward : ℕ → Bytes → Bytes → Bytes → Server → Flow
  forward h owner id_bytes message_bytes s = elim (get id_bytes s.state) [
    | some peer_tx ↦ elim (channel_send peer_tx (send owner message_bytes) s) [
      | delivered s' ↦ done (listen_for_disconnections h id_bytes peer_tx s')
      | closed ↦ try_send_disconnect_ws_command h id_bytes s
      | full ↦ blocked peer_tx
    ]
    | none ↦ try_send_disconnect_ws_command h id_bytes s
  ]

  -- The first 33 bytes are the identifier to send to.
  pub on_binary : ℕ → Bytes → Bytes → Server → Flow
  on_binary h owner msg s =
      if ltb (length msg) pubkey_bytes_len
      then done s
      else forward h owner (take pubkey_bytes_len msg) (drop pubkey_bytes_len msg) s

  -- `res = socket.recv()`: the end of the stream, an error, or a message.
  pub on_socket : ℕ → Bytes → Option (Option Message) → Server → Flow
  on_socket h owner none s = done (leave h owner s)
  on_socket h owner (some none) s = done s
  on_socket h owner (some (some (text msg))) s = on_text h owner msg s
  on_socket h owner (some (some (binary msg))) s = on_binary h owner msg s
  on_socket h owner (some (some other)) s = done s

  -- The frame that a command becomes on the websocket of its receiver.
  pub frame : Bytes → WsCommand → Message
  frame owner (send id val) = binary (id ++ val)
  frame owner (disconnect_from id) = text (to_string (disconnect owner id))

  -- `socket.send`, whose success the environment decides.
  pub socket_send : ℕ → Bytes → Message → Bool → Server → Server
  socket_send h owner m false s = leave h owner s
  socket_send h owner m true s = elim (get h s.tasks) [
    | none ↦ s
    | some t ↦ set_task h (record t { sent = t.sent ++ m ∷ [] }) s
  ]

  -- `res = rx.recv()`
  pub on_channel : ℕ → Bytes → Option WsCommand → Bool → Server → Server
  on_channel h owner none up s = leave h owner s
  on_channel h owner (some c) up s = socket_send h owner (frame owner c) up s

  -- One turn of a task of the server. The environment chooses the task and what it receives.
  pub data Step (s : Server) (u : Server) : Type 0 where
    opens : (identifier : Bytes) → u ≡ open_ws identifier s → Step s u
    receives :
        (h : ℕ) (t : Task) (res : Option (Option Message))
        → get h s.tasks ≡ some t
        → t.running ≡ true
        → on_socket h t.owner res s ≡ done u
        → Step s u
    takes :
        (h : ℕ) (t : Task) (c : WsCommand) (rest : List WsCommand) (up : Bool)
        → get h s.tasks ≡ some t
        → t.running ≡ true
        → t.queue ≡ c ∷ rest
        → u ≡ on_channel h t.owner (some c) up (set_task h (record t { queue = rest }) s)
        → Step s u
    wakes :
        (l : Listener) (before after : List Listener) (t : Task)
        → s.listeners ≡ before ++ l ∷ after
        → get l.source s.tasks ≡ some t
        → t.running ≡ false
        → listener_fires l (record s { listeners = before ++ after }) ≡ done u
        → Step s u

  pub data Reach (s : Server) : Server → Type 0 where
    here : Reach s s
    next_step : {t u : Server} → Reach s t → Step t u → Reach s u
