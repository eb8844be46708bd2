-- ===== src/Socket.antt =====
-- The sockets of one node over one websocket to the relay: node-manager/src/socket.rs.
-- A subsocket goes by a number, for the channel and the stop flag that its clones share. The locks
-- are never held over a wait, so a turn of the code is a function.
pub mod Demux
pub mod Closing
pub mod Valid
pub mod Turns
pub mod Tests
use mutiny_web_poc.Prelude.{
  ◌==◌, ℕ, suc, Bool, true, false, Option, none, some, List, [], ◌∷◌, ◌++◌, ltb, if◌then◌else◌,
  length, take, drop, Bytes, partial_eq_bytes, partial_eq_nat, ◌≡◌,
}
use mutiny_web_poc.Prelude.Assoc.{get, insert, remove}
use mutiny_web_poc.Relay.{ProxyCommand, disconnect, Wire}

-- `Message` of gloo_net
pub data Message : Type 0 where
  text : Bytes → Message
  bytes : Bytes → Message

-- `SubWsSocketDescriptor`: the channel to it is kept as the messages that wait there.
pub record SubSocket : Type 0 where
  pub peer_pubkey_bytes : Bytes
  pub read_channel : List Message
  pub stop : Bool

-- What the node asks of its peer manager.
pub data Call : Type 0 where
  new_inbound_connection : ℕ → Call
  socket_disconnected : ℕ → Call
  read_event : ℕ → Bytes → Call
  process_events : Call

-- `MultiWsSocketDescriptor`, the subsockets, the readers that were scheduled, the calls of the peer
-- manager, and what the proxy was given to send.
pub record Multi : Type 0 where
  pub our_peer_pubkey : Bytes
  pub socket_map : List (Bytes × ℕ)
  pub subsockets : List (ℕ × SubSocket)
  pub to_multi_socket : List Message
  pub connected : Bool
  pub readers : List ℕ
  pub calls : List Call
  pub sent : List Message
  pub next : ℕ

-- The peer manager's answers: a connection accepted, an event read without an error.
pub record PeerManager : Type 0 where
  pub accepts : ℕ → Bool
  pub reads : ℕ → Bytes → Bool

abbrev pub pubkey_bytes_len : ℕ
pubkey_bytes_len = 33

abbrev pub set_subsocket : ℕ → SubSocket → Multi → Multi
set_subsocket n r s = record s { subsockets = insert n r s.subsockets }

abbrev pub call : Call → Multi → Multi
call c s = record s { calls = s.calls ++ c ∷ [] }

-- `Sender::send` on the channel of a subsocket, which has no bound.
unfoldable pub send_to_sub_socket : ℕ → Message → Multi → Multi
send_to_sub_socket n m s = elim (get n s.subsockets) [
  | none ↦ s
  | some r ↦ set_subsocket n (record r { read_channel = r.read_channel ++ m ∷ [] }) s
]

-- `SubWsSocketDescriptor::send_data`
unfoldable pub send_data : ℕ → Bytes → Multi → ℕ × Multi
send_data n data_bytes s = elim (get n s.subsockets) [
  | none ↦ (0, s)
  | some r ↦ if r.stop then (0, s) else (
    length data_bytes,
    record s {
      to_multi_socket = s.to_multi_socket ++ bytes (r.peer_pubkey_bytes ++ data_bytes) ∷ [];
    },
  )
]

-- The result of `read`, or one more round of its loop.
pub data SubRead : Type 0 where
  stopped : SubRead
  message : Message → SubRead
  waiting : SubRead

abbrev pub next_message : SubSocket → ℕ → Multi → SubRead × Multi
next_message r n s = elim r.read_channel [
  | [] ↦ (waiting, s)
  | m ∷ rest ↦ (message m, set_subsocket n (record r { read_channel = rest }) s)
]

-- `SubWsSocketDescriptor::read`
unfoldable pub read : ℕ → Multi → SubRead × Multi
read n s = elim (get n s.subsockets) [
  | none ↦ (waiting, s)
  | some r ↦ if r.stop then (stopped, s) else next_message r n s
]

-- `create_new_subsocket`
unfoldable pub create_new_subsocket : Bytes → Multi → Multi
create_new_subsocket peer_pubkey s = record s {
  socket_map = insert peer_pubkey s.next s.socket_map;
  subsockets =
      insert s.next (record { peer_pubkey_bytes = peer_pubkey; read_channel = []; stop = false })
        s.subsockets;
  next = suc s.next;
}

module _ (w : Wire) where
  -- `SubWsSocketDescriptor::disconnect_socket`
  unfoldable pub disconnect_socket : ℕ → Multi → Multi
  disconnect_socket n s = elim (get n s.subsockets) [
    | none ↦ s
    | some r ↦ record (set_subsocket n (record r { stop = true }) s) {
      to_multi_socket =
          s.to_multi_socket
          ++ text (w.to_string (disconnect r.peer_pubkey_bytes s.our_peer_pubkey)) ∷ [];
    }
  ]

  -- A subsocket is told to stop, and the peer manager that it is gone.
  unfoldable pub close_subsocket : ℕ → Multi → Multi
  unfolding disconnect_socket
  close_subsocket n s = call (socket_disconnected n) (disconnect_socket n s)

  -- `Message::Text` from the proxy.
  unfoldable pub on_text : Bytes → Multi → Multi
  unfolding close_subsocket
  on_text msg s = elim (w.from_str msg) [
    | none ↦ s
    | some (disconnect to from) ↦ elim (get from s.socket_map) [
      | none ↦ s
      | some n ↦
          let closed : Multi = close_subsocket n s in
          record closed { socket_map = remove from closed.socket_map }
    ]
  ]

  module _ (pm : PeerManager) where
    -- A message from a peer that has no subsocket.
    unfoldable pub open_inbound : Bytes → Bytes → Multi → Multi
    unfolding create_new_subsocket send_to_sub_socket close_subsocket
    open_inbound id_bytes message_bytes s =
        let inbound : ℕ = s.next in
        let offered : Multi =
          call (new_inbound_connection inbound) (create_new_subsocket id_bytes s) in
        let closed : Multi = close_subsocket inbound offered in
        if pm.accepts inbound
        then send_to_sub_socket inbound (bytes message_bytes)
            (record offered { readers = offered.readers ++ inbound ∷ [] })
        else record closed { socket_map = remove id_bytes closed.socket_map }

    -- The right subsocket for a message.
    unfoldable pub route : Bytes → Bytes → Multi → Multi
    unfolding send_to_sub_socket open_inbound
    route id_bytes message_bytes s = elim (get id_bytes s.socket_map) [
      | some n ↦ send_to_sub_socket n (bytes message_bytes) s
      | none ↦ open_inbound id_bytes message_bytes s
    ]

    -- `Message::Bytes` from the proxy: 33 bytes of a public key, and the message.
    unfoldable pub on_bytes : Bytes → Multi → Multi
    unfolding route
    on_bytes msg s =
        if ltb (length msg) pubkey_bytes_len
        then s
        else route (take pubkey_bytes_len msg) (drop pubkey_bytes_len msg) s

    -- One turn of the reader that `listen` spawns: the end of the stream, an error, or a message.
    unfoldable pub on_read : Option (Option Message) → Multi → Multi
    unfolding on_text on_bytes
    on_read none s = record s { connected = false }
    on_read (some none) s = s
    on_read (some (some (text msg))) s = on_text msg s
    on_read (some (some (bytes msg))) s = on_bytes msg s

    abbrev pub stop_reader : ℕ → List ℕ → List ℕ
    stop_reader n [] = []
    stop_reader n (m ∷ ms) = let rest = stop_reader n ms in if n == m then rest else m ∷ rest

    abbrev pub take_message : ℕ → SubRead → Multi → Multi
    take_message n stopped s = record s { readers = stop_reader n s.readers }
    take_message n waiting s = s
    take_message n (message (text msg)) s = s
    take_message n (message (bytes msg)) s =
        let told : Multi = call (read_event n msg) s in
        if pm.reads n msg then call process_events told else told

    -- One turn of the reader of a subsocket, in `schedule_descriptor_read`.
    unfoldable pub descriptor_turn : ℕ → Multi → Multi
    unfolding read
    descriptor_turn n s = take_message n (read n s).0 (read n s).1

  -- The loop of `reconnect` over the map.
  unfoldable pub close_all : List (Bytes × ℕ) → Multi → Multi
  unfolding close_subsocket
  close_all [] s = s
  close_all ((id, n) ∷ m) s = close_all m (close_subsocket n s)

  -- `reconnect`, up to the tasks that `listen` spawns.
  unfoldable pub reconnect : Multi → Multi
  unfolding close_all
  reconnect s = record (close_all s.socket_map s) { socket_map = []; connected = true }

-- One turn of the channel reader that `listen` spawns, and whether its loop goes on.
unfoldable pub forward_pending : Multi → Bool × Multi
forward_pending s = elim s.to_multi_socket [
  | [] ↦ (s.connected, s)
  | m ∷ rest ↦ (s.connected, record s { to_multi_socket = rest; sent = s.sent ++ m ∷ [] })
]

module _ (w : Wire) (pm : PeerManager) where
  -- One turn of the code: of a task of `listen`, of a subsocket's reader, or a call of the peer
  -- manager or of the node.
  pub data Step (s : Multi) (u : Multi) : Type 0 where
    hears : (m : Option (Option Message)) → u ≡ on_read w pm m s → Step s u
    forwards : u ≡ (forward_pending s).1 → Step s u
    turns : (n : ℕ) → u ≡ descriptor_turn w pm n s → Step s u
    sends : (n : ℕ) (data_bytes : Bytes) → u ≡ (send_data n data_bytes s).1 → Step s u
    disconnects : (n : ℕ) → u ≡ disconnect_socket w n s → Step s u
    connects : (peer_pubkey : Bytes) → u ≡ create_new_subsocket peer_pubkey s → Step s u
    reconnects : u ≡ reconnect w s → Step s u

  pub data Reach (s : Multi) : Multi → Type 0 where
    here : Reach s s
    next_step : {t u : Multi} → Reach s t → Step t u → Reach s u
