-- ===== src/Relay/Turns.antt =====
-- The invariant of the relay of ln-websocket-proxy/src/main.rs, over all turns of its tasks.
use mutiny_web_poc.Prelude.{
  ℕ, Bool, true, false, Option, none, some, List, [], ◌∷◌, ◌++◌, ltb, length, Bytes,
  partial_eq_bytes, partial_eq_nat, ◌≡◌, refl, sym, subst, arith, nat_eqb_iff, Bool-cases, inl, inr,
  length-append,
}
use mutiny_web_poc.Prelude.Assoc.{get, contains, delete, get-insert}
use mutiny_web_poc.Relay.{
  text, binary, other, ProxyCommand, disconnect, pubkey_bytes_len, forward, Task, Server, Listener,
  Wire, Message, WsCommand, send, disconnect_from, Flow, done, blocked, ◌>>=◌, delivered, closed,
  full, Delivery, set_task, channel_capacity, channel_send, try_send_disconnect_ws_command,
  forget_peer, listen_for_disconnections, listener_fires, on_text, on_binary, on_socket, on_channel,
  socket_send, frame, Step, opens, receives, takes, wakes, Reach, here, next_step,
}
use mutiny_web_poc.Relay.Valid.{IsValid, set_task-IsValid, leave-IsValid, open_ws-IsValid}

-- What a turn of a task leaves behind: a valid server, whenever it goes on.
abbrev FlowIsValid : Flow → Type 0
FlowIsValid (done s) = IsValid s
FlowIsValid (blocked h) = Unit {0}

bind-IsValid :
    (m : Flow) (f : Server → Flow)
    → FlowIsValid m
    → ((s : Server) → IsValid s → FlowIsValid (f s))
    → FlowIsValid (m >>= f)
bind-IsValid (done s) f v k = k s v
bind-IsValid (blocked h) f v k = tt

abbrev DeliveryIsValid : Delivery → Type 0
DeliveryIsValid (delivered s) = IsValid s
DeliveryIsValid closed = Unit {0}
DeliveryIsValid full = Unit {0}

channel_send-IsValid :
    (h : ℕ) (c : WsCommand) (s : Server) → IsValid s → DeliveryIsValid (channel_send h c s)
unfolding channel_send
channel_send-IsValid h c s v = go (get h s.tasks) refl
  where
    go : (o : Option Task) → get h s.tasks ≡ o → DeliveryIsValid (channel_send h c s)
    go none e = rw (e, channel_send) tt
    go (some t) e = elim (Bool-cases t.running) [
      | inr r ↦ rw (e, channel_send, r) tt
      | inl r ↦ elim (Bool-cases (ltb (length t.queue) channel_capacity)) [
        | inr q ↦ rw (e, channel_send, r, q) tt
        | inl q ↦
            rw (e, channel_send, r, q)
              (set_task-IsValid s h t (record t { queue = t.queue ++ c ∷ []; running = true }) e
                refl (sym r) (ground (arith, length-append t.queue (c ∷ []))) v)
      ]
    ]

try_send-IsValid :
    (h : ℕ) (id : Bytes) (s : Server)
    → IsValid s
    → FlowIsValid (try_send_disconnect_ws_command h id s)
unfolding try_send_disconnect_ws_command
try_send-IsValid h id s v =
    go (channel_send h (disconnect_from id) s) (channel_send-IsValid h (disconnect_from id) s v)
  where
    go :
        (d : Delivery)
        → DeliveryIsValid d
        → FlowIsValid (elim d [ delivered s' ↦ done s' | closed ↦ done s | full ↦ blocked h ])
    go (delivered s') k = k
    go closed k = v
    go full k = tt

forget_peer-IsValid : (h : ℕ) (id : Bytes) (s : Server) → IsValid s → IsValid (forget_peer h id s)
unfolding forget_peer
forget_peer-IsValid h id s v = go (get h s.tasks) refl
  where
    go : (o : Option Task) → get h s.tasks ≡ o → IsValid (forget_peer h id s)
    go none e = rw (e, forget_peer) v
    go (some t) e =
        rw (e, forget_peer)
          (set_task-IsValid s h t (record t { connected_peers = delete id t.connected_peers }) e
            refl refl (v.bounded h t e) v)

listen-IsValid :
    (h : ℕ) (id : Bytes) (source : ℕ) (s : Server)
    → IsValid s
    → IsValid (listen_for_disconnections h id source s)
unfolding listen_for_disconnections
listen-IsValid h id source s v = go (get h s.tasks) refl
  where
    go : (o : Option Task) → get h s.tasks ≡ o → IsValid (listen_for_disconnections h id source s)
    go none e = rw (e, listen_for_disconnections) v
    go (some t) e = elim (Bool-cases (contains id t.connected_peers)) [
      | inl old ↦ rw (e, listen_for_disconnections, old) v
      | inr new ↦
          rw (e, listen_for_disconnections, new)
            (let u =
                set_task-IsValid s h t (record t { connected_peers = id ∷ t.connected_peers }) e
                  refl refl (v.bounded h t e) v in
              record {
                routes = λ j k q.
                    let r = u.routes j k q in
                    record { task = r.task; found = r.found; owned = r.owned; running = r.running };
                fresh = u.fresh;
                bounded = u.bounded;
              })
    ]

socket_send-IsValid :
    (w : Wire) (h : ℕ) (t : Task) (m : Message) (up : Bool) (s : Server)
    → get h s.tasks ≡ some t
    → IsValid s
    → IsValid (socket_send w h t.owner m up s)
unfolding socket_send
socket_send-IsValid w h t m false s e v = leave-IsValid h t s e v
socket_send-IsValid w h t m true s e v =
    rw (e, socket_send)
      (set_task-IsValid s h t (record t { sent = t.sent ++ m ∷ [] }) e refl refl (v.bounded h t e)
        v)

on_text-IsValid :
    (w : Wire) (h : ℕ) (owner msg : Bytes) (s : Server)
    → IsValid s
    → FlowIsValid (on_text w h owner msg s)
unfolding on_text
on_text-IsValid w h owner msg s v = go (w.from_str msg) refl
  where
    route :
        (to : Bytes) (o : Option ℕ)
        → FlowIsValid (elim o [
          | none ↦ done s
          | some peer_tx ↦
              try_send_disconnect_ws_command peer_tx owner s >>= λ s'. done (forget_peer h to s')
        ])
    route to none = v
    route to (some p) =
        bind-IsValid (try_send_disconnect_ws_command p owner s) _ (try_send-IsValid p owner s v)
          (λ s' v'. forget_peer-IsValid h to s' v')

    go : (o : Option ProxyCommand) → w.from_str msg ≡ o → FlowIsValid (on_text w h owner msg s)
    go none e = rw (e, on_text) v
    go (some (disconnect to from)) e = rw (e, on_text) (route to (get to s.state))

forward-IsValid :
    (w : Wire) (h : ℕ) (owner id val : Bytes) (s : Server)
    → IsValid s
    → FlowIsValid (forward w h owner id val s)
unfolding forward
forward-IsValid w h owner id val s v = route (get id s.state)
  where
    c : WsCommand
    c = send owner val

    sends :
        (p : ℕ) (d : Delivery)
        → DeliveryIsValid d
        → FlowIsValid (elim d [
          | delivered s' ↦ done (listen_for_disconnections h id p s')
          | closed ↦ try_send_disconnect_ws_command h id s
          | full ↦ blocked p
        ])
    sends p (delivered s') k = listen-IsValid h id p s' k
    sends p closed k = try_send-IsValid h id s v
    sends p full k = tt

    route :
        (o : Option ℕ)
        → FlowIsValid (elim o [
          | some p ↦ elim (channel_send p c s) [
            | delivered s' ↦ done (listen_for_disconnections h id p s')
            | closed ↦ try_send_disconnect_ws_command h id s
            | full ↦ blocked p
          ]
          | none ↦ try_send_disconnect_ws_command h id s
        ])
    route none = try_send-IsValid h id s v
    route (some p) = sends p (channel_send p c s) (channel_send-IsValid p c s v)

on_binary-IsValid :
    (w : Wire) (h : ℕ) (owner msg : Bytes) (s : Server)
    → IsValid s
    → FlowIsValid (on_binary w h owner msg s)
unfolding on_binary
on_binary-IsValid w h owner msg s v = elim (Bool-cases (ltb (length msg) pubkey_bytes_len)) [
  | inl short ↦ rw short v
  | inr long ↦ rw long (forward-IsValid w h owner _ _ s v)
]

on_socket-IsValid :
    (w : Wire) (h : ℕ) (t : Task) (res : Option (Option Message)) (s : Server)
    → get h s.tasks ≡ some t
    → IsValid s
    → FlowIsValid (on_socket w h t.owner res s)
unfolding on_socket
on_socket-IsValid w h t none s e v = leave-IsValid h t s e v
on_socket-IsValid w h t (some none) s e v = v
on_socket-IsValid w h t (some (some (text msg))) s e v = on_text-IsValid w h t.owner msg s v
on_socket-IsValid w h t (some (some (binary msg))) s e v = on_binary-IsValid w h t.owner msg s v
on_socket-IsValid w h t (some (some other)) s e v = v

-- Dropping an entry of the listeners touches nothing that the invariant speaks of.
listeners-IsValid :
    (s : Server) (ls : List Listener) → IsValid s → IsValid (record s { listeners = ls })
listeners-IsValid s ls v = record {
  routes = λ j k q.
      let r = v.routes j k q in
      record { task = r.task; found = r.found; owned = r.owned; running = r.running };
  fresh = v.fresh;
  bounded = v.bounded;
}

listener_fires-IsValid : (l : Listener) (s : Server) → IsValid s → FlowIsValid (listener_fires l s)
unfolding listener_fires
listener_fires-IsValid l s v =
    bind-IsValid (try_send_disconnect_ws_command l.task l.peer s) _
      (try_send-IsValid l.task l.peer s v) (λ s' v'. forget_peer-IsValid l.task l.peer s' v')

-- Every turn of any task keeps the invariant.
pub Step-IsValid : (w : Wire) {s u : Server} → Step w s u → IsValid s → IsValid u
unfolding on_channel
Step-IsValid w {s} {u} (opens identifier e) v = rw e (open_ws-IsValid w identifier s v)
Step-IsValid w {s} {u} (receives h t res at run e) v =
    subst FlowIsValid e (on_socket-IsValid w h t res s at v)
Step-IsValid w {s} {u} (takes h t c rest up at run q e) v = rw e (
    socket_send-IsValid w h (record t { queue = rest }) (frame w t.owner c) up
      (set_task h (record t { queue = rest }) s)
      (ground (arith, get-insert h h (record t { queue = rest }) s.tasks, nat_eqb_iff h h))
      (set_task-IsValid s h t (record t { queue = rest }) at refl refl
        (ground (arith, v.bounded h t at)) v))
Step-IsValid w {s} {u} (wakes l before after t split at run e) v =
    subst FlowIsValid e (listener_fires-IsValid l _ (listeners-IsValid s (before ++ after) v))

abbrev pub empty_server : Server
empty_server = record { state = []; tasks = []; listeners = []; next = 0 }

pub empty_server-IsValid : IsValid empty_server
unfolding get
empty_server-IsValid = record { routes = λ id h e. cc; fresh = λ h t e. cc; bounded = λ h t e. cc }

-- From the start of the server on, whatever clients do and in whatever order the tasks run: an
-- identifier in the map leads to a running handler that owns it, handler numbers are below the
-- next fresh one, and no channel holds more than its capacity.
pub Reach-IsValid : (w : Wire) {u : Server} → Reach w empty_server u → IsValid u
Reach-IsValid w here = empty_server-IsValid
Reach-IsValid w (next_step r st) = Step-IsValid w st (Reach-IsValid w r)
