-- ===== src/Relay/Routing.antt =====
-- What a message does to the channels of the relay: the binary branch of the handler in
-- ln-websocket-proxy/src/main.rs, and what the receiver puts on its websocket.
use mutiny_web_poc.Prelude.{
  ℕ, ◌<◌, true, false, Option, none, some, List, [], ◌∷◌, ◌++◌, ltb, ltb-false, if◌then◌else◌,
  length, length-append, take, drop, take-append, drop-append, Bytes, partial_eq_bytes,
  partial_eq_nat, ◌==◌, ◌≡◌, refl, subst, ◌∙◌, ap, arith, nat_eqb_iff, Bool-cases, inl, inr,
}
use mutiny_web_poc.Prelude.Assoc.{get, insert, contains, get-insert}
use mutiny_web_poc.Relay.{
  Task, Server, Wire, Message, WsCommand, send, disconnect_from, binary, done, blocked, delivered,
  full, set_task, channel_capacity, pubkey_bytes_len, channel_send, try_send_disconnect_ws_command,
  listen_for_disconnections, forward, on_binary, on_channel, on_socket, Step, receives, takes,
  socket_send, frame,
}

-- What a task has waiting in its channel, and what it has sent to its client.
abbrev pub queue_at : ℕ → Server → Option (List WsCommand)
queue_at h s = elim (get h s.tasks) [ none ↦ none | some t ↦ some t.queue ]

abbrev pub sent_at : ℕ → Server → Option (List Message)
sent_at h s = elim (get h s.tasks) [ none ↦ none | some t ↦ some t.sent ]

pub queue_at-set_task :
    (h k : ℕ) (t : Task) (s : Server)
    → queue_at k (set_task h t s) ≡ (if h == k then some t.queue else queue_at k s)
queue_at-set_task h k t s = ground (arith, get-insert h k t s.tasks)

queue_at-listen :
    (h k : ℕ) (id : Bytes) (source : ℕ) (s : Server)
    → queue_at k (listen_for_disconnections h id source s) ≡ queue_at k s
unfolding listen_for_disconnections
queue_at-listen h k id source s = go (get h s.tasks) refl
  where
    go :
        (o : Option Task)
        → get h s.tasks ≡ o
        → queue_at k (listen_for_disconnections h id source s) ≡ queue_at k s
    go none e = rw (e, listen_for_disconnections) refl
    go (some t) e = elim (Bool-cases (contains id t.connected_peers)) [
      | inl old ↦ rw (e, listen_for_disconnections, old) refl
      | inr new ↦
          rw (e, listen_for_disconnections, new)
            (ground (
              arith,
              get-insert h k (record t { connected_peers = id ∷ t.connected_peers }) s.tasks,
              nat_eqb_iff h k,
            ))
    ]

module _ (h : ℕ) (c : WsCommand) (s : Server) (t : Task) (at : get h s.tasks ≡ some t)
    (run : t.running ≡ true) where
  pub channel_send-room :
      length t.queue < channel_capacity
      → channel_send h c s ≡ delivered (set_task h (record t { queue = t.queue ++ c ∷ [] }) s)
  unfolding channel_send
  channel_send-room room = ground (arith, at, run)

  pub channel_send-full : length t.queue ≡ channel_capacity → channel_send h c s ≡ full
  unfolding channel_send
  channel_send-full no_room = ground (arith, at, run)

-- A frame of at least 33 bytes, taken apart.
module _ (peer payload : Bytes) (len : length peer ≡ pubkey_bytes_len) where
  pub take-frame : take pubkey_bytes_len (peer ++ payload) ≡ peer
  take-frame = subst (λ n. take n (peer ++ payload) ≡ peer) len (take-append peer payload)

  pub drop-frame : drop pubkey_bytes_len (peer ++ payload) ≡ payload
  drop-frame = subst (λ n. drop n (peer ++ payload) ≡ payload) len (drop-append peer payload)

  long-frame : ltb (length (peer ++ payload)) pubkey_bytes_len ≡ false
  long-frame = ltb-false _ _ (omega (arith, length-append peer payload))

on_binary-frame :
    (w : Wire) (h : ℕ) (owner peer payload : Bytes) (s : Server)
    → length peer ≡ pubkey_bytes_len
    → on_binary w h owner (peer ++ payload) s ≡ forward w h owner peer payload s
unfolding on_binary
on_binary-frame w h owner peer payload s len =
    rw (long-frame peer payload len, take-frame peer payload len, drop-frame peer payload len) refl

module _ (w : Wire) (h p : ℕ) (r : Task) (s : Server) (owner peer payload : Bytes)
    (len : length peer ≡ pubkey_bytes_len) where
  forward-found :
      get peer s.state ≡ some p
      → get p s.tasks ≡ some r
      → r.running ≡ true
      → length r.queue < channel_capacity
      → forward w h owner peer payload s
        ≡ done (
            listen_for_disconnections h peer p
              (set_task p (record r { queue = r.queue ++ send owner payload ∷ [] }) s))
  unfolding forward
  forward-found route at run room =
      ground (arith, route, channel_send-room p (send owner payload) s r at run room)

  -- A frame to a registered peer, an identifier of 33 bytes whose handler runs and has room in its
  -- channel, puts the payload, under the sender's own identifier, at the end of that channel, and
  -- changes no other channel.
  pub on_binary-forwards :
      get peer s.state ≡ some p
      → get p s.tasks ≡ some r
      → r.running ≡ true
      → length r.queue < channel_capacity
      → (u : Server) × (on_binary w h owner (peer ++ payload) s ≡ done u)
        × ((k : ℕ)
            → queue_at k u
              ≡ (if p == k then some (r.queue ++ send owner payload ∷ []) else queue_at k s))
  on_binary-forwards route at run room = (
    listen_for_disconnections h peer p
        (set_task p (record r { queue = r.queue ++ send owner payload ∷ [] }) s),
    on_binary-frame w h owner peer payload s len ∙ forward-found route at run room,
    λ k.
        queue_at-listen h k peer p _
        ∙ queue_at-set_task p k (record r { queue = r.queue ++ send owner payload ∷ [] }) s,
  )

-- A frame to an identifier of 33 bytes that nobody has registered comes back to the sender's own
-- channel as a disconnection from that identifier, if the sender's handler runs and its channel
-- has room, and no other channel changes.
pub on_binary-bounces :
    (w : Wire) (h : ℕ) (t : Task) (s : Server) (owner peer payload : Bytes)
    → length peer ≡ pubkey_bytes_len
    → get peer s.state ≡ none
    → get h s.tasks ≡ some t
    → t.running ≡ true
    → length t.queue < channel_capacity
    → (u : Server) × (on_binary w h owner (peer ++ payload) s ≡ done u)
      × (u.state ≡ s.state)
      × ((k : ℕ)
          → queue_at k u
            ≡ (if h == k then some (t.queue ++ disconnect_from peer ∷ []) else queue_at k s))
unfolding forward try_send_disconnect_ws_command
on_binary-bounces w h t s owner peer payload len route at run room = (
  set_task h (record t { queue = t.queue ++ disconnect_from peer ∷ [] }) s,
  on_binary-frame w h owner peer payload s len
      ∙ ground (arith, channel_send-room h (disconnect_from peer) s t at run room),
  refl,
  λ k. queue_at-set_task h k (record t { queue = t.queue ++ disconnect_from peer ∷ [] }) s,
)

-- A frame to an identifier of 33 bytes that nobody has registered blocks the running handler of
-- the sender when its own channel is full: it waits for room in a channel that only it empties.
pub on_binary-blocks_self :
    (w : Wire) (h : ℕ) (t : Task) (s : Server) (owner peer payload : Bytes)
    → length peer ≡ pubkey_bytes_len
    → get peer s.state ≡ none
    → get h s.tasks ≡ some t
    → t.running ≡ true
    → length t.queue ≡ channel_capacity
    → on_binary w h owner (peer ++ payload) s ≡ blocked h
unfolding forward try_send_disconnect_ws_command
on_binary-blocks_self w h t s owner peer payload len route at run no_room =
    on_binary-frame w h owner peer payload s len
    ∙ ground (arith, channel_send-full h (disconnect_from peer) s t at run no_room)

-- What a client reads out of the binary frame of a relayed message, by the same split at 33 bytes,
-- is the sender's identifier and the payload; sent back as a prefix it addresses the sender.
pub frame-send :
    (w : Wire) (owner id val : Bytes)
    → length id ≡ pubkey_bytes_len
    → (msg : Bytes) × (frame w owner (send id val) ≡ binary msg)
      × (take pubkey_bytes_len msg ≡ id)
      × (drop pubkey_bytes_len msg ≡ val)
unfolding frame
frame-send w owner id val len = (id ++ val, refl, take-frame id val len, drop-frame id val len)

-- A task after another, or itself, has begun to listen: only its connected peers may differ.
pub record SameTask (r r' : Task) : Type 0 where
  pub owner : r'.owner ≡ r.owner
  pub queue : r'.queue ≡ r.queue
  pub sent : r'.sent ≡ r.sent
  pub running : r'.running ≡ r.running

listen-SameTask :
    (h k : ℕ) (id : Bytes) (source : ℕ) (s : Server) (r : Task)
    → get k s.tasks ≡ some r
    → (r' : Task) × (get k (listen_for_disconnections h id source s).tasks ≡ some r')
      × SameTask r r'
unfolding listen_for_disconnections
listen-SameTask h k id source s r at = go (get h s.tasks) refl
  where
    same : SameTask r r
    same = record { owner = refl; queue = refl; sent = refl; running = refl }

    go :
        (o : Option Task)
        → get h s.tasks ≡ o
        → (r' : Task) × (get k (listen_for_disconnections h id source s).tasks ≡ some r')
          × SameTask r r'
    go none e = (r, rw (e, listen_for_disconnections) at, same)
    go (some t) e = elim (Bool-cases (contains id t.connected_peers)) [
      | inl old ↦ (r, rw (e, listen_for_disconnections, old) at, same)
      | inr new ↦ elim (Bool-cases (partial_eq_nat.eqb h k)) [
        | inr apart ↦ (
          r,
          rw (e, listen_for_disconnections, new)
              (ground (
                arith,
                get-insert h k (record t { connected_peers = id ∷ t.connected_peers }) s.tasks,
              )),
          same,
        )
        | inl eq ↦ (
          record t { connected_peers = id ∷ t.connected_peers },
          rw (e, listen_for_disconnections, new)
              (ground (
                arith,
                get-insert h k (record t { connected_peers = id ∷ t.connected_peers }) s.tasks,
              )),
          (let k' : t ≡ r = ground (arith, nat_eqb_iff h k) in
              record {
                owner = ap (λ x. x.owner) k';
                queue = ap (λ x. x.queue) k';
                sent = ap (λ x. x.sent) k';
                running = ap (λ x. x.running) k';
              }),
        )
      ]
    ]

-- The turn of a handler that takes the only command of its channel, while its websocket is up.
abbrev pub taken : Wire → ℕ → Task → WsCommand → Server → Server
taken w p r c u = on_channel w p r.owner (some c) true (set_task p (record r { queue = [] }) u)

-- A handler that takes a command and whose websocket is up sends the frame of that command.
takes-sent :
    (w : Wire) (p : ℕ) (r : Task) (c : WsCommand) (rest : List WsCommand) (u : Server)
    → sent_at p (on_channel w p r.owner (some c) true (set_task p (record r { queue = rest }) u))
      ≡ some (r.sent ++ frame w r.owner c ∷ [])
unfolding on_channel socket_send
takes-sent w p r c rest u =
    let r2 : Task = record r { queue = rest } in
    let at : get p (insert p r2 u.tasks) ≡ some r2 =
      ground (arith, get-insert p p r2 u.tasks, nat_eqb_iff p p) in
    let r3 : Task = record r2 { sent = r.sent ++ frame w r.owner c ∷ [] } in
    ground (arith, at, get-insert p p r3 (insert p r2 u.tasks), nat_eqb_iff p p)

-- End to end: when a running client sends the frame of a registered peer, an identifier of 33
-- bytes and the payload, and the handler of that peer runs with an empty channel, then the sender's
-- turn with this very frame leaves in that channel just the payload under the sender's identifier,
-- and a turn of the receiver, the first one with this command and with its websocket up, puts
-- exactly the payload behind the sender's identifier on the websocket of that peer.
pub relay_delivers :
    (w : Wire) (h p : ℕ) (t r : Task) (s : Server) (peer payload : Bytes)
    → length peer ≡ pubkey_bytes_len
    → get h s.tasks ≡ some t
    → t.running ≡ true
    → get peer s.state ≡ some p
    → get p s.tasks ≡ some r
    → r.running ≡ true
    → r.queue ≡ []
    → (u : Server) × (r' : Task) × (on_socket w h t.owner (some (some (binary (peer ++ payload)))) s
        ≡ done u)
      × Step w s u
      × (get p u.tasks ≡ some r')
      × (r'.queue ≡ send t.owner payload ∷ [])
      × Step w u (taken w p r' (send t.owner payload) u)
      × (sent_at p (taken w p r' (send t.owner payload) u)
          ≡ some (r.sent ++ binary (t.owner ++ payload) ∷ []))
unfolding on_socket frame
relay_delivers w h p t r s peer payload len own up route at run empty =
    let c : WsCommand = send t.owner payload in
    let r1 : Task = record r { queue = r.queue ++ c ∷ [] } in
    let s1 : Server = set_task p r1 s in
    let u : Server = listen_for_disconnections h peer p s1 in
    let at1 : get p s1.tasks ≡ some r1 =
      ground (arith, get-insert p p r1 s.tasks, nat_eqb_iff p p) in
    let (r', at', same) = listen-SameTask h p peer p s1 r1 at1 in
    let sends : on_socket w h t.owner (some (some (binary (peer ++ payload)))) s ≡ done u =
      on_binary-frame w h t.owner peer payload s len
      ∙ forward-found w h p r s t.owner peer payload len route at run (ground arith) in
    let waits : r'.queue ≡ c ∷ [] = same.queue ∙ ap (λ q. q ++ c ∷ []) empty in
    (
      u,
      r',
      sends,
      receives h t (some (some (binary (peer ++ payload)))) own up sends,
      at',
      waits,
      takes p r' c [] true at' (same.running ∙ run) waits refl,
      takes-sent w p r' c [] u ∙ ap (λ q. some (q ++ binary (t.owner ++ payload) ∷ [])) same.sent,
    )
