-- ===== src/Socket/Demux.antt =====
-- What the reader of node-manager/src/socket.rs does with the messages of the proxy.
use mutiny_web_poc.Prelude.{
  ℕ, true, false, Option, none, some, List, [], ◌∷◌, ◌++◌, ltb, if◌then◌else◌, length, Bytes,
  partial_eq_bytes, partial_eq_nat, ◌≡◌, ◌∙◌, refl, ap, arith, length-append, bytes_eqb_iff, ◌==◌,
}
use mutiny_web_poc.Prelude.Assoc.{get, insert, remove, get-insert, get-remove}
use mutiny_web_poc.Relay.{disconnect, Wire}
use mutiny_web_poc.Relay.Routing.{take-frame, drop-frame}
use mutiny_web_poc.Socket.{
  socket_disconnected, close_subsocket, call, create_new_subsocket, disconnect_socket,
  set_subsocket, new_inbound_connection, send_to_sub_socket, open_inbound, Message, text, bytes,
  SubSocket, Multi, PeerManager, pubkey_bytes_len, on_bytes, on_read, route,
}

-- The messages that wait for a subsocket.
abbrev pub inbox_at : ℕ → Multi → Option (List Message)
inbox_at n s = elim (get n s.subsockets) [ none ↦ none | some r ↦ some r.read_channel ]

pub send_to_sub_socket-ok :
    (n : ℕ) (m : Message) (s : Multi) (r : SubSocket)
    → get n s.subsockets ≡ some r
    → send_to_sub_socket n m s
      ≡ set_subsocket n (record r { read_channel = r.read_channel ++ m ∷ [] }) s
unfolding send_to_sub_socket
send_to_sub_socket-ok n m s r at = rw (send_to_sub_socket, at) refl

pub get-insert_self :
    {A : Type 0} (n : ℕ) (a : A) (m : List (ℕ × A)) → get n (insert n a m) ≡ some a
get-insert_self n a m = ground (arith, get-insert n n a m)

pub get-insert_bytes :
    {A : Type 0} (k : Bytes) (a : A) (m : List (Bytes × A)) → get k (insert k a m) ≡ some a
get-insert_bytes k a m = ground (arith, get-insert k k a m, bytes_eqb_iff k k)

-- A subsocket that was told to stop, and the message that its peer is sent.
abbrev pub stopped_at : Wire → ℕ → SubSocket → Multi → Multi
stopped_at w n r s = record (set_subsocket n (record r { stop = true }) s) {
  to_multi_socket =
      s.to_multi_socket
      ++ text (w.to_string (disconnect r.peer_pubkey_bytes s.our_peer_pubkey)) ∷ [];
}

pub disconnect_socket-ok :
    (w : Wire) (n : ℕ) (s : Multi) (r : SubSocket)
    → get n s.subsockets ≡ some r
    → disconnect_socket w n s ≡ stopped_at w n r s
unfolding disconnect_socket
disconnect_socket-ok w n s r at = rw (disconnect_socket, at) refl

module _ (w : Wire) (pm : PeerManager) (s : Multi) (peer payload : Bytes)
    (len : length peer ≡ pubkey_bytes_len) where
  on_bytes-frame : on_bytes w pm (peer ++ payload) s ≡ route w pm peer payload s
  unfolding on_bytes
  on_bytes-frame =
      let long : ltb (length (peer ++ payload)) pubkey_bytes_len ≡ false =
        ground (arith, length-append peer payload) in
      rw (long, take-frame peer payload len, drop-frame peer payload len) refl

  pub on_read-listed :
      (n : ℕ) (r : SubSocket)
      → get peer s.socket_map ≡ some n
      → get n s.subsockets ≡ some r
      → on_read w pm (some (some (bytes (peer ++ payload)))) s
        ≡ set_subsocket n (record r { read_channel = r.read_channel ++ bytes payload ∷ [] }) s
  unfolding on_read route
  on_read-listed n r listed at =
      on_bytes-frame ∙ routed ∙ send_to_sub_socket-ok n (bytes payload) s r at
    where
      routed : route w pm peer payload s ≡ send_to_sub_socket n (bytes payload) s
      routed = rw (route, listed) refl

  -- A message from a peer of 33 bytes that has a subsocket goes to the end of that subsocket's
  -- channel: no other channel and no entry of the map changes, nothing is sent, and the peer
  -- manager is not called.
  pub on_read-delivers :
      (n : ℕ) (r : SubSocket)
      → get peer s.socket_map ≡ some n
      → get n s.subsockets ≡ some r
      → (u : Multi) × (on_read w pm (some (some (bytes (peer ++ payload)))) s ≡ u)
        × ((k : ℕ)
            → inbox_at k u
              ≡ (if n == k then some (r.read_channel ++ bytes payload ∷ []) else inbox_at k s))
        × (u.socket_map ≡ s.socket_map)
        × (u.to_multi_socket ≡ s.to_multi_socket)
        × (u.calls ≡ s.calls)
  on_read-delivers n r listed at = (
    set_subsocket n (record r { read_channel = r.read_channel ++ bytes payload ∷ [] }) s,
    on_read-listed n r listed at,
    (λ k. ground (
      arith,
      get-insert n k (record r { read_channel = r.read_channel ++ bytes payload ∷ [] })
          s.subsockets,
    )),
    refl,
    refl,
    refl,
  )

  -- The new subsocket, before its first message and after it.
  abbrev offered : Multi
  offered = call (new_inbound_connection s.next) (create_new_subsocket peer s)

  abbrev new_subsocket : List Message → SubSocket
  new_subsocket ms = record { peer_pubkey_bytes = peer; read_channel = ms; stop = false }

  offered-at : get s.next offered.subsockets ≡ some (new_subsocket [])
  unfolding create_new_subsocket
  offered-at = get-insert_self s.next (new_subsocket []) s.subsockets

  -- A message from a peer without a subsocket, where the peer manager takes the connection: a new
  -- subsocket stands in the map for the peer, its reader is scheduled, and its channel holds this
  -- message alone. Other peers keep their entries, and nothing is sent.
  pub on_read-opens :
      get peer s.socket_map ≡ none
      → pm.accepts s.next ≡ true
      → (u : Multi) × (on_read w pm (some (some (bytes (peer ++ payload)))) s ≡ u)
        × (get peer u.socket_map ≡ some s.next)
        × (inbox_at s.next u ≡ some (bytes payload ∷ []))
        × (u.calls ≡ s.calls ++ new_inbound_connection s.next ∷ [])
        × (u.readers ≡ s.readers ++ s.next ∷ [])
        × (u.to_multi_socket ≡ s.to_multi_socket)
        × ((other : Bytes)
            → (peer == other) ≡ false
            → get other u.socket_map ≡ get other s.socket_map)
  unfolding on_read route open_inbound create_new_subsocket
  on_read-opens fresh accepted = (
    set_subsocket s.next (new_subsocket (bytes payload ∷ []))
        (record offered { readers = s.readers ++ s.next ∷ [] }),
    on_bytes-frame
        ∙ routed
        ∙ send_to_sub_socket-ok s.next (bytes payload)
            (record offered { readers = s.readers ++ s.next ∷ [] }) (new_subsocket []) offered-at,
    get-insert_bytes peer s.next s.socket_map,
    rw (inbox_at, get-insert_self s.next (new_subsocket (bytes payload ∷ [])) offered.subsockets)
        refl,
    refl,
    refl,
    refl,
    (λ other apart. ground (arith, get-insert peer other s.next s.socket_map)),
  )
    where
      routed :
          route w pm peer payload s
          ≡ send_to_sub_socket s.next
              (bytes payload)
              (record offered { readers = s.readers ++ s.next ∷ [] })
      routed = rw (route, fresh, accepted) refl

  -- Where the peer manager refuses the connection, the peer has no entry, the subsocket is stopped,
  -- the other side is told once, and the peer manager hears that the socket is gone.
  pub on_read-refuses :
      get peer s.socket_map ≡ none
      → pm.accepts s.next ≡ false
      → (u : Multi) × (r : SubSocket) × (on_read w pm (some (some (bytes (peer ++ payload)))) s ≡ u)
        × ((other : Bytes) → get other u.socket_map ≡ get other s.socket_map)
        × (get s.next u.subsockets ≡ some r)
        × (r.stop ≡ true)
        × (u.readers ≡ s.readers)
        × (u.to_multi_socket
            ≡ s.to_multi_socket ++ text (w.to_string (disconnect peer s.our_peer_pubkey)) ∷ [])
        × (u.calls
            ≡ (s.calls ++ new_inbound_connection s.next ∷ []) ++ socket_disconnected s.next ∷ [])
  unfolding on_read route open_inbound create_new_subsocket close_subsocket
  on_read-refuses fresh refused = (
    record closed { socket_map = remove peer closed.socket_map },
    record (new_subsocket []) { stop = true },
    on_bytes-frame ∙ routed,
    (λ other. ground (
      arith,
      get-remove peer other (insert peer s.next s.socket_map),
      get-insert peer other s.next s.socket_map,
      bytes_eqb_iff peer other,
      ap (λ k. get k s.socket_map),
    )),
    get-insert_self s.next (record (new_subsocket []) { stop = true }) offered.subsockets,
    refl,
    refl,
    refl,
    refl,
  )
    where
      closed : Multi
      closed = call (socket_disconnected s.next) (stopped_at w s.next (new_subsocket []) offered)

      routed :
          route w pm peer payload s ≡ record closed { socket_map = remove peer closed.socket_map }
      routed =
          rw
            (
              route,
              fresh,
              refused,
              disconnect_socket-ok w s.next offered (new_subsocket []) offered-at,
            )
            refl
