-- ===== src/Relay/Takeover.antt =====
-- Handlers that come and go under one identifier, and the listeners that learn of it:
-- the map entry and the broadcasts of ln-websocket-proxy/src/main.rs.
use mutiny_web_poc.Prelude.{
  ℕ, suc, ◌<◌, true, false, Option, none, some, [], ◌∷◌, ◌++◌, if◌then◌else◌, length, take, drop,
  Bytes, partial_eq_bytes, partial_eq_nat, ◌==◌, ◌≡◌, ◌≢◌, refl, arith, nat_eqb_iff, bytes_eqb_iff,
}
use mutiny_web_poc.Prelude.Assoc.{
  get, insert, remove, contains, delete, get-insert, get-remove, contains-delete,
}
use mutiny_web_poc.Relay.{
  Task, Server, Wire, Message, WsCommand, Listener, ProxyCommand, text, binary, other, send,
  disconnect_from, disconnect, Flow, Delivery, closed, full, done, blocked, ◌>>=◌, delivered,
  set_task, channel_capacity, pubkey_bytes_len, channel_send, try_send_disconnect_ws_command,
  forget_peer, listen_for_disconnections, listener_fires, leave, open_ws, forward, on_text,
  on_binary, on_socket, Step, opens, receives,
}
use mutiny_web_poc.Relay.Valid.{IsValid}
use mutiny_web_poc.Relay.Routing.{channel_send-room}

-- In a valid server, a second connection under an identifier, not empty, takes the map entry over
-- while the first handler still runs. When the first client then closes its websocket, the entry
-- goes, although the second handler runs on.
pub takeover_orphans :
    (w : Wire) (identifier id : Bytes) (h : ℕ) (t : Task) (s : Server)
    → IsValid s
    → w.from_hex identifier ≡ some id
    → id ≢ []
    → get h s.tasks ≡ some t
    → t.running ≡ true
    → t.owner ≡ id
    → (u v : Server) × (n : Task) × Step w s u
      × (get id u.state ≡ some s.next)
      × (get h u.tasks ≡ some t)
      × Step w u v
      × (get id v.state ≡ none)
      × (get s.next v.tasks ≡ some n)
      × (n.running ≡ true)
      × (n.owner ≡ id)
unfolding open_ws on_socket leave
takeover_orphans w identifier [] h t s valid hex full_id at run own = absurd (full_id refl)
takeover_orphans w identifier (b ∷ bs) h t s valid hex full_id at run own =
    let id : Bytes = b ∷ bs in
    let n : Task = record {
      owner = id;
      queue = [];
      connected_peers = [];
      sent = [];
      running = true;
    } in
    let u : Server = record {
      state = insert id s.next s.state;
      tasks = insert s.next n s.tasks;
      listeners = s.listeners;
      next = suc s.next;
    } in
    let old : get h (insert s.next n s.tasks) ≡ some t =
      ground (arith, get-insert s.next h n s.tasks, nat_eqb_iff s.next h, valid.fresh h t at) in
    let gone : Task = record t { running = false; queue = [] } in
    let v : Server = record (set_task h gone u) { state = remove t.owner u.state } in
    (
      u,
      v,
      n,
      opens identifier (rw (hex, open_ws)),
      ground (arith, get-insert id id s.next s.state, bytes_eqb_iff id id),
      old,
      receives h t none old run (rw (old, leave) refl),
      ground (arith, get-remove t.owner id (insert id s.next s.state), bytes_eqb_iff t.owner id),
      ground (
        arith,
        get-insert h s.next gone (insert s.next n s.tasks),
        get-insert s.next s.next n s.tasks,
        nat_eqb_iff h s.next,
        nat_eqb_iff s.next s.next,
        valid.fresh h t at,
      ),
      refl,
      refl,
    )

-- A listener whose task runs and has room in its channel tells it of the disconnection: a
-- disconnection from the peer joins the queue, the peer no longer counts as connected, and no
-- other task changes.
pub listener_fires-notifies :
    (l : Listener) (t : Task) (s : Server)
    → get l.task s.tasks ≡ some t
    → t.running ≡ true
    → length t.queue < channel_capacity
    → (u : Server) × (t' : Task) × (listener_fires l s ≡ done u)
      × (get l.task u.tasks ≡ some t')
      × (t'.queue ≡ t.queue ++ disconnect_from l.peer ∷ [])
      × ((j : Bytes)
          → contains j t'.connected_peers
            ≡ (if l.peer == j then false else contains j t.connected_peers))
      × ((k : ℕ) → k ≢ l.task → get k u.tasks ≡ get k s.tasks)
unfolding listener_fires try_send_disconnect_ws_command forget_peer
listener_fires-notifies l t s at run room =
    let t1 : Task = record t { queue = t.queue ++ disconnect_from l.peer ∷ [] } in
    let s1 : Server = set_task l.task t1 s in
    let at1 : get l.task s1.tasks ≡ some t1 =
      ground (arith, get-insert l.task l.task t1 s.tasks, nat_eqb_iff l.task l.task) in
    let t2 : Task = record t1 { connected_peers = delete l.peer t.connected_peers } in
    (
      set_task l.task t2 s1,
      t2,
      ground (arith, channel_send-room l.task (disconnect_from l.peer) s t at run room, at1),
      ground (arith, get-insert l.task l.task t2 s1.tasks, nat_eqb_iff l.task l.task),
      refl,
      λ j. contains-delete l.peer j t.connected_peers,
      λ k apart. ground (
        arith,
        get-insert l.task k t2 s1.tasks,
        get-insert l.task k t1 s.tasks,
        nat_eqb_iff l.task k,
      ),
    )

-- The map changes only where a handler starts or leaves.
try_send-state :
    (h : ℕ) (id : Bytes) (s u : Server)
    → try_send_disconnect_ws_command h id s ≡ done u
    → u.state ≡ s.state
unfolding try_send_disconnect_ws_command channel_send
try_send-state h id s u e = ground arith

forget_peer-state : (h : ℕ) (id : Bytes) (s : Server) → (forget_peer h id s).state ≡ s.state
unfolding forget_peer
forget_peer-state h id s = ground arith

listen-state :
    (h : ℕ) (id : Bytes) (source : ℕ) (s : Server)
    → (listen_for_disconnections h id source s).state ≡ s.state
unfolding listen_for_disconnections
listen-state h id source s = ground arith

channel_send-state :
    (h : ℕ) (c : WsCommand) (s u : Server) → channel_send h c s ≡ delivered u → u.state ≡ s.state
unfolding channel_send
channel_send-state h c s u e = ground arith

then_forget-state :
    (m : Flow) (h : ℕ) (id : Bytes) (s u : Server)
    → ((v : Server) → m ≡ done v → v.state ≡ s.state)
    → (m >>= λ s'. done (forget_peer h id s')) ≡ done u
    → u.state ≡ s.state
then_forget-state (done v) h id s u k e = ground (arith, k v, forget_peer-state h id v)
then_forget-state (blocked j) h id s u k e = cc

on_text-state :
    (w : Wire) (h : ℕ) (owner msg : Bytes) (s u : Server)
    → on_text w h owner msg s ≡ done u
    → u.state ≡ s.state
unfolding on_text
on_text-state w h owner msg s u = go (w.from_str msg)
  where
    route :
        (to : Bytes) (o : Option ℕ)
        → (elim o [
          | none ↦ done s
          | some peer_tx ↦
              try_send_disconnect_ws_command peer_tx owner s >>= λ s'. done (forget_peer h to s')
        ])
          ≡ done u
        → u.state ≡ s.state
    route to none e = cc
    route to (some p) e =
        then_forget-state (try_send_disconnect_ws_command p owner s) h to s u
          (λ v. try_send-state p owner s v) e

    go :
        (o : Option ProxyCommand)
        → (elim o [
          | none ↦ done s
          | some (disconnect to from) ↦ elim (get to s.state) [
            | none ↦ done s
            | some peer_tx ↦
                try_send_disconnect_ws_command peer_tx owner s >>= λ s'. done (forget_peer h to s')
          ]
        ])
          ≡ done u
        → u.state ≡ s.state
    go none e = cc
    go (some (disconnect to from)) e = route to (get to s.state) e

forward-state :
    (w : Wire) (h : ℕ) (owner id val : Bytes) (s u : Server)
    → forward w h owner id val s ≡ done u
    → u.state ≡ s.state
unfolding forward
forward-state w h owner id val s u = route (get id s.state)
  where
    sends :
        (p : ℕ) (d : Delivery)
        → ((v : Server) → d ≡ delivered v → v.state ≡ s.state)
        → (elim d [
          | delivered s' ↦ done (listen_for_disconnections h id p s')
          | closed ↦ try_send_disconnect_ws_command h id s
          | full ↦ blocked p
        ])
          ≡ done u
        → u.state ≡ s.state
    sends p (delivered s') k e = ground (arith, listen-state h id p s', k s')
    sends p closed k e = try_send-state h id s u e
    sends p full k e = cc

    route :
        (o : Option ℕ)
        → (elim o [
          | some p ↦ elim (channel_send p (send owner val) s) [
            | delivered s' ↦ done (listen_for_disconnections h id p s')
            | closed ↦ try_send_disconnect_ws_command h id s
            | full ↦ blocked p
          ]
          | none ↦ try_send_disconnect_ws_command h id s
        ])
          ≡ done u
        → u.state ≡ s.state
    route none e = try_send-state h id s u e
    route (some p) e =
        sends p (channel_send p (send owner val) s) (λ v. channel_send-state p (send owner val) s v)
          e

on_binary-state :
    (w : Wire) (h : ℕ) (owner msg : Bytes) (s u : Server)
    → on_binary w h owner msg s ≡ done u
    → u.state ≡ s.state
unfolding on_binary
on_binary-state w h owner msg s u e =
    ground
      (arith, forward-state w h owner (take pubkey_bytes_len msg) (drop pubkey_bytes_len msg) s u)

-- Whatever a client sends, and also when it goes, a turn that is not blocked keeps the map's entry
-- of every identifier but the client's own.
pub on_socket-isolates :
    (w : Wire) (h : ℕ) (owner id : Bytes) (res : Option (Option Message)) (s u : Server)
    → on_socket w h owner res s ≡ done u
    → id ≢ owner
    → get id u.state ≡ get id s.state
unfolding on_socket leave
on_socket-isolates w h owner id none s u e apart =
    ground (arith, get-remove owner id s.state, bytes_eqb_iff owner id)
on_socket-isolates w h owner id (some none) s u e apart = ground arith
on_socket-isolates w h owner id (some (some (text msg))) s u e apart =
    rw (on_text-state w h owner msg s u e)
on_socket-isolates w h owner id (some (some (binary msg))) s u e apart =
    rw (on_binary-state w h owner msg s u e)
on_socket-isolates w h owner id (some (some other)) s u e apart = ground arith
