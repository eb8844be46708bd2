-- ===== src/Relay/Deadlock.antt =====
-- A handler of ln-websocket-proxy/src/main.rs that answers into its own full channel.
use mutiny_web_poc.Prelude.{
  ℕ, suc, ◌<◌, Bool, true, false, Option, none, some, List, [], ◌∷◌, ◌++◌, if◌then◌else◌, length,
  take, drop, Bytes, partial_eq_bytes, partial_eq_nat, ◌==◌, ◌≡◌, ◌≢◌, refl, ◌∙◌, subst, arith,
  nat_eqb_iff, Bool-cases, Option-cases, inl, inr,
}
use mutiny_web_poc.Prelude.Assoc.{get, insert, contains, delete, get-insert}
use mutiny_web_poc.Relay.{
  Task, Server, Wire, Message, WsCommand, Listener, ProxyCommand, text, binary, other, send,
  disconnect_from, disconnect, Flow, Delivery, closed, full, done, blocked, ◌>>=◌, delivered,
  set_task, channel_capacity, pubkey_bytes_len, channel_send, try_send_disconnect_ws_command,
  forget_peer, listen_for_disconnections, listener_fires, leave, open_ws, forward, on_text,
  on_binary, on_socket, on_channel, socket_send, frame, Step, opens, receives, takes, wakes,
}
use mutiny_web_poc.Relay.Valid.{IsValid}
use mutiny_web_poc.Relay.Turns.{Step-IsValid}
use mutiny_web_poc.Relay.Routing.{on_binary-blocks_self}

-- The channel of a handler that runs.
abbrev pub open_queue : ℕ → Server → Option (List WsCommand)
open_queue h s = elim (get h s.tasks) [
  | none ↦ none
  | some t ↦ if t.running then some t.queue else none
]

-- A turn that is not one of the handler h: it neither reads its websocket nor its channel.
abbrev pub IsOthers : {w : Wire} {s u : Server} → ℕ → Step w s u → Type 0
IsOthers h (opens identifier e) = Unit
IsOthers h (receives k t res at run e) = k ≢ h
IsOthers h (takes k t c rest up at run q e) = k ≢ h
IsOthers h (wakes l before after t split at run e) = Unit

-- What the server may come to while the handler h takes no turn.
pub data Waits (w : Wire) (h : ℕ) (s : Server) : Server → Type 0 where
  still : Waits w h s s
  goes_on : {t u : Server} → Waits w h s t → (st : Step w t u) → IsOthers h st → Waits w h s u

module _ (h : ℕ) (q : List WsCommand) (no_room : length q ≡ channel_capacity) where
  -- The handler runs, and its channel is full.
  abbrev IsStuck : Server → Type 0
  IsStuck s = open_queue h s ≡ some q

  set_task-open_queue :
      (k : ℕ) (t : Task) (s : Server)
      → open_queue h (set_task k t s)
        ≡ (if k == h then (if t.running then some t.queue else none) else open_queue h s)
  set_task-open_queue k t s = ground (arith, get-insert k h t s.tasks)

  same_task :
      (k : ℕ) (t t' : Task) (s : Server)
      → get k s.tasks ≡ some t
      → t'.queue ≡ t.queue
      → t'.running ≡ t.running
      → open_queue h (set_task k t' s) ≡ open_queue h s
  same_task k t t' s at queue running = ground (arith, set_task-open_queue k t' s, nat_eqb_iff k h)

  another_task :
      (k : ℕ) (t : Task) (s : Server) → k ≢ h → open_queue h (set_task k t s) ≡ open_queue h s
  another_task k t s apart = ground (arith, set_task-open_queue k t s, nat_eqb_iff k h)

  channel_send-IsStuck :
      (k : ℕ) (c : WsCommand) (s u : Server)
      → IsStuck s
      → channel_send k c s ≡ delivered u
      → IsStuck u
  unfolding channel_send
  channel_send-IsStuck k c s u stuck e = elim (Option-cases (get k s.tasks)) [
    | inl gone ↦ absurd (ground (arith, gone, e))
    | inr (t, at) ↦
        let t' : Task = record t { queue = t.queue ++ c ∷ [] } in
        ground (arith, at, e, set_task-open_queue k t' s, nat_eqb_iff k h)
  ]

  channel_send-stays_full : (c : WsCommand) (s : Server) → IsStuck s → channel_send h c s ≡ full
  unfolding channel_send
  channel_send-stays_full c s stuck = ground arith

  try_send-IsStuck :
      (k : ℕ) (id : Bytes) (s u : Server)
      → IsStuck s
      → try_send_disconnect_ws_command k id s ≡ done u
      → IsStuck u
  unfolding try_send_disconnect_ws_command
  try_send-IsStuck k id s u stuck e =
      ground (arith, channel_send-IsStuck k (disconnect_from id) s u)

  forget_peer-IsStuck : (k : ℕ) (id : Bytes) (s : Server) → IsStuck s → IsStuck (forget_peer k id s)
  unfolding forget_peer
  forget_peer-IsStuck k id s stuck = elim (Option-cases (get k s.tasks)) [
    | inl gone ↦ rw (forget_peer, gone) stuck
    | inr (t, at) ↦
        rw (forget_peer, at)
          (same_task k t (record t { connected_peers = delete id t.connected_peers }) s at refl refl
            ∙ stuck)
  ]

  leave-IsStuck :
      (k : ℕ) (owner : Bytes) (s : Server) → k ≢ h → IsStuck s → IsStuck (leave k owner s)
  unfolding leave
  leave-IsStuck k owner s apart stuck = elim (Option-cases (get k s.tasks)) [
    | inl gone ↦ rw (leave, gone) stuck
    | inr (t, at) ↦
        rw (leave, at) (another_task k (record t { running = false; queue = [] }) s apart ∙ stuck)
  ]

  socket_send-IsStuck :
      (w : Wire) (k : ℕ) (owner : Bytes) (m : Message) (up : Bool) (s : Server)
      → k ≢ h
      → IsStuck s
      → IsStuck (socket_send w k owner m up s)
  unfolding socket_send
  socket_send-IsStuck w k owner m false s apart stuck = leave-IsStuck k owner s apart stuck
  socket_send-IsStuck w k owner m true s apart stuck = elim (Option-cases (get k s.tasks)) [
    | inl gone ↦ rw (socket_send, gone) stuck
    | inr (t, at) ↦
        rw (socket_send, at) (another_task k (record t { sent = t.sent ++ m ∷ [] }) s apart ∙ stuck)
  ]

  listen-IsStuck :
      (k : ℕ) (id : Bytes) (source : ℕ) (s : Server)
      → IsStuck s
      → IsStuck (listen_for_disconnections k id source s)
  unfolding listen_for_disconnections
  listen-IsStuck k id source s stuck = elim (Option-cases (get k s.tasks)) [
    | inl gone ↦ rw (listen_for_disconnections, gone) stuck
    | inr (t, at) ↦ elim (Bool-cases (contains id t.connected_peers)) [
      | inl old ↦ rw (listen_for_disconnections, at, old) stuck
      | inr new ↦
          rw (listen_for_disconnections, at, new)
            (same_task k t (record t { connected_peers = id ∷ t.connected_peers }) s at refl refl
              ∙ stuck)
    ]
  ]

  then_forget-IsStuck :
      (m : Flow) (k : ℕ) (id : Bytes) (u : Server)
      → ((v : Server) → m ≡ done v → IsStuck v)
      → (m >>= λ s'. done (forget_peer k id s')) ≡ done u
      → IsStuck u
  then_forget-IsStuck (done v) k id u keeps e =
      let last : forget_peer k id v ≡ u = ground (arith, e) in
      subst IsStuck last (forget_peer-IsStuck k id v (keeps v refl))
  then_forget-IsStuck (blocked j) k id u keeps e = absurd (ground (arith, e))

  listener_fires-IsStuck :
      (l : Listener) (s u : Server) → IsStuck s → listener_fires l s ≡ done u → IsStuck u
  unfolding listener_fires
  listener_fires-IsStuck l s u stuck e =
      then_forget-IsStuck (try_send_disconnect_ws_command l.task l.peer s) l.task l.peer u
        (λ v. try_send-IsStuck l.task l.peer s v stuck) e

  on_text-IsStuck :
      (w : Wire) (k : ℕ) (owner msg : Bytes) (s u : Server)
      → IsStuck s
      → on_text w k owner msg s ≡ done u
      → IsStuck u
  unfolding on_text
  on_text-IsStuck w k owner msg s u stuck = go (w.from_str msg)
    where
      route :
          (to : Bytes) (o : Option ℕ)
          → (elim o [
            | none ↦ done s
            | some peer_tx ↦
                try_send_disconnect_ws_command peer_tx owner s >>= λ s'. done (forget_peer k to s')
          ])
            ≡ done u
          → IsStuck u
      route to none e = ground (arith, e, stuck)
      route to (some p) e =
          then_forget-IsStuck (try_send_disconnect_ws_command p owner s) k to u
            (λ v. try_send-IsStuck p owner s v stuck) e

      go :
          (o : Option ProxyCommand)
          → (elim o [
            | none ↦ done s
            | some (disconnect to from) ↦ elim (get to s.state) [
              | none ↦ done s
              | some peer_tx ↦ try_send_disconnect_ws_command peer_tx owner s >>= λ s'.
                  done (forget_peer k to s')
            ]
          ])
            ≡ done u
          → IsStuck u
      go none e = ground (arith, e, stuck)
      go (some (disconnect to from)) e = route to (get to s.state) e

  forward-IsStuck :
      (w : Wire) (k : ℕ) (owner id val : Bytes) (s u : Server)
      → IsStuck s
      → forward w k owner id val s ≡ done u
      → IsStuck u
  unfolding forward
  forward-IsStuck w k owner id val s u stuck = route (get id s.state)
    where
      sends :
          (p : ℕ) (d : Delivery)
          → ((v : Server) → d ≡ delivered v → IsStuck v)
          → (elim d [
            | delivered s' ↦ done (listen_for_disconnections k id p s')
            | closed ↦ try_send_disconnect_ws_command k id s
            | full ↦ blocked p
          ])
            ≡ done u
          → IsStuck u
      sends p (delivered v) keeps e =
          let last : listen_for_disconnections k id p v ≡ u = ground (arith, e) in
          subst IsStuck last (listen-IsStuck k id p v (keeps v refl))
      sends p closed keeps e = try_send-IsStuck k id s u stuck e
      sends p full keeps e = absurd (ground (arith, e))

      route :
          (o : Option ℕ)
          → (elim o [
            | some p ↦ elim (channel_send p (send owner val) s) [
              | delivered s' ↦ done (listen_for_disconnections k id p s')
              | closed ↦ try_send_disconnect_ws_command k id s
              | full ↦ blocked p
            ]
            | none ↦ try_send_disconnect_ws_command k id s
          ])
            ≡ done u
          → IsStuck u
      route none e = try_send-IsStuck k id s u stuck e
      route (some p) e =
          sends p (channel_send p (send owner val) s)
            (λ v. channel_send-IsStuck p (send owner val) s v stuck) e

  on_socket-IsStuck :
      (w : Wire) (k : ℕ) (owner : Bytes) (res : Option (Option Message)) (s u : Server)
      → k ≢ h
      → IsStuck s
      → on_socket w k owner res s ≡ done u
      → IsStuck u
  unfolding on_socket on_binary
  on_socket-IsStuck w k owner none s u apart stuck e =
      let last : leave k owner s ≡ u = ground (arith, e) in
      subst IsStuck last (leave-IsStuck k owner s apart stuck)
  on_socket-IsStuck w k owner (some none) s u apart stuck e = ground (arith, e, stuck)
  on_socket-IsStuck w k owner (some (some (text msg))) s u apart stuck e =
      on_text-IsStuck w k owner msg s u stuck e
  on_socket-IsStuck w k owner (some (some (binary msg))) s u apart stuck e = ground (
    arith,
    e,
    stuck,
    forward-IsStuck w k owner (take pubkey_bytes_len msg) (drop pubkey_bytes_len msg) s u,
  )
  on_socket-IsStuck w k owner (some (some other)) s u apart stuck e = ground (arith, e, stuck)

  open_ws-IsStuck :
      (w : Wire) (identifier : Bytes) (s : Server)
      → IsValid s
      → IsStuck s
      → IsStuck (open_ws w identifier s)
  unfolding open_ws
  open_ws-IsStuck w identifier s valid stuck = elim (Option-cases (w.from_hex identifier)) [
    | inl bad ↦ rw (open_ws, bad) stuck
    | inr (id, good) ↦ rw (open_ws, good) (opened id)
  ]
    where
      opened :
          (id : Bytes)
          → IsStuck (elim id [
            | [] ↦ s
            | b ∷ bs ↦ record {
              state = insert (b ∷ bs) s.next s.state;
              tasks =
                  insert s.next
                    (record {
                      owner = b ∷ bs;
                      queue = [];
                      connected_peers = [];
                      sent = [];
                      running = true;
                    })
                    s.tasks;
              listeners = s.listeners;
              next = suc s.next;
            }
          ])
      opened [] = stuck
      opened (b ∷ bs) = elim (Option-cases (get h s.tasks)) [
        | inl gone ↦ absurd (ground (arith, gone, stuck))
        | inr (t, at) ↦
            let there : h < s.next = valid.fresh h t at in
            let n : Task = record {
              owner = b ∷ bs;
              queue = [];
              connected_peers = [];
              sent = [];
              running = true;
            } in
            another_task s.next n s (λ same. omega (arith, same, there)) ∙ stuck
      ]

  Step-IsStuck :
      (w : Wire) {s u : Server} (st : Step w s u)
      → IsOthers h st
      → IsValid s
      → IsStuck s
      → IsStuck u
  unfolding on_channel
  Step-IsStuck w {s} {u} (opens identifier e) others valid stuck =
      rw e (open_ws-IsStuck w identifier s valid stuck)
  Step-IsStuck w {s} {u} (receives k t res at run e) others valid stuck =
      on_socket-IsStuck w k t.owner res s u others stuck e
  Step-IsStuck w {s} {u} (takes k t c rest up at run waiting e) others valid stuck = rw e (
      socket_send-IsStuck w k t.owner (frame w t.owner c) up
        (set_task k (record t { queue = rest }) s) others
        (another_task k (record t { queue = rest }) s others ∙ stuck))
  Step-IsStuck w {s} {u} (wakes l before after t split at run e) others valid stuck =
      listener_fires-IsStuck l (record s { listeners = before ++ after }) u stuck e

  Waits-IsStuck :
      (w : Wire) {s u : Server} → Waits w h s u → IsValid s → IsStuck s → IsValid u × IsStuck u
  Waits-IsStuck w still valid stuck = (valid, stuck)
  Waits-IsStuck w (goes_on run st others) valid stuck =
      let (valid', stuck') = Waits-IsStuck w run valid stuck in
      (Step-IsValid w st valid', Step-IsStuck w st others valid' stuck')

-- In a valid server, a frame to an identifier of 33 bytes that nobody has registered blocks the
-- running handler of the sender when its own channel is full: it waits for room in that channel.
-- However long the clients and the other handlers go on while it waits, there is no room in it, not
-- for the disconnection that it wants to send nor for any other command.
pub on_binary-deadlocks :
    (w : Wire) (h : ℕ) (t : Task) (s : Server) (owner peer payload : Bytes)
    → IsValid s
    → length peer ≡ pubkey_bytes_len
    → get peer s.state ≡ none
    → get h s.tasks ≡ some t
    → t.running ≡ true
    → length t.queue ≡ channel_capacity
    → (on_binary w h owner (peer ++ payload) s ≡ blocked h)
      × ((u : Server) (c : WsCommand) → Waits w h s u → channel_send h c u ≡ full)
on_binary-deadlocks w h t s owner peer payload valid len route at run no_room =
    let stuck : open_queue h s ≡ some t.queue = ground (arith, at, run) in
    (
      on_binary-blocks_self w h t s owner peer payload len route at run no_room,
      λ u c waits.
          channel_send-stays_full h t.queue no_room c u
            (Waits-IsStuck h t.queue no_room w waits valid stuck).1,
    )
