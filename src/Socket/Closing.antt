-- ===== src/Socket/Closing.antt =====
-- Sends and disconnections of the subsockets of node-manager/src/socket.rs.
use mutiny_web_poc.Prelude.{
  inr, inl, Bool-cases, ℕ, true, false, Option, none, some, List, [], ◌∷◌, ◌++◌, if◌then◌else◌,
  length, take, drop, Bytes, partial_eq_bytes, partial_eq_nat, ◌≡◌, ◌∙◌, refl, arith, ◌==◌,
}
use mutiny_web_poc.Prelude.Assoc.{get, remove, get-insert, get-remove}
use mutiny_web_poc.Relay.{disconnect, Wire}
use mutiny_web_poc.Relay.Routing.{take-frame, drop-frame}
use mutiny_web_poc.Socket.{
  reconnect, close_all, set_subsocket, call, stopped, socket_disconnected, text, bytes, SubSocket,
  Multi, PeerManager, pubkey_bytes_len, on_read, send_data, read, on_text, close_subsocket,
  disconnect_socket,
}
use mutiny_web_poc.Socket.Demux.{
  on_read-listed, inbox_at, disconnect_socket-ok, stopped_at, get-insert_self,
}

-- A subsocket of a peer of 33 bytes that is not stopped sends a frame that starts with these bytes
-- and goes on with the data, and tells the caller that all of it was taken. A stopped subsocket
-- takes nothing and changes nothing.
pub send_data-frame :
    (n : ℕ) (r : SubSocket) (data_bytes : Bytes) (s : Multi)
    → get n s.subsockets ≡ some r
    → length r.peer_pubkey_bytes ≡ pubkey_bytes_len
    → (u : Multi) × (msg : Bytes) × (send_data n data_bytes s
        ≡ (if r.stop then (0, s) else (length data_bytes, u)))
      × (u.to_multi_socket ≡ s.to_multi_socket ++ bytes msg ∷ [])
      × (take pubkey_bytes_len msg ≡ r.peer_pubkey_bytes)
      × (drop pubkey_bytes_len msg ≡ data_bytes)
unfolding send_data
send_data-frame n r data_bytes s at len = (
  record s {
    to_multi_socket = s.to_multi_socket ++ bytes (r.peer_pubkey_bytes ++ data_bytes) ∷ [];
  },
  r.peer_pubkey_bytes ++ data_bytes,
  rw (send_data, at) refl,
  refl,
  take-frame r.peer_pubkey_bytes data_bytes len,
  drop-frame r.peer_pubkey_bytes data_bytes len,
)

module _ (w : Wire) (pm : PeerManager) where
  -- A disconnection from the proxy, of a peer that has a subsocket: the subsocket stops, the peer has
  -- no entry and the others keep theirs, the peer manager hears of it, and the peer is told.
  pub on_read-disconnects :
      (s : Multi) (to from : Bytes) (n : ℕ) (r : SubSocket)
      → get from s.socket_map ≡ some n
      → get n s.subsockets ≡ some r
      → (u : Multi) × (v : SubSocket) × (on_read w pm
            (some (some (text (w.to_string (disconnect to from)))))
            s
          ≡ u)
        × ((other : Bytes)
            → get other u.socket_map ≡ (if from == other then none else get other s.socket_map))
        × (get n u.subsockets ≡ some v)
        × (v.stop ≡ true)
        × (u.calls ≡ s.calls ++ socket_disconnected n ∷ [])
        × (u.to_multi_socket
            ≡ s.to_multi_socket
              ++ text (w.to_string (disconnect r.peer_pubkey_bytes s.our_peer_pubkey)) ∷ [])
  unfolding on_read close_subsocket
  on_read-disconnects s to from n r listed at = (
    record closed { socket_map = remove from closed.socket_map },
    record r { stop = true },
    rw (on_text, w.from_str-to_string (disconnect to from), listed, disconnect_socket-ok w n s r at)
        refl,
    (λ other. get-remove from other s.socket_map),
    get-insert_self n (record r { stop = true }) s.subsockets,
    refl,
    refl,
    refl,
  )
    where
      closed : Multi
      closed = call (socket_disconnected n) (stopped_at w n r s)

  -- After the peer manager has disconnected a subsocket itself, the map still leads its peer, of
  -- 33 bytes, to it: a later message of the peer waits in the stopped channel, no connection is
  -- opened for it, the peer manager is not called, and a read of the subsocket gives the order to
  -- stop.
  pub on_read-loses :
      (s : Multi) (peer payload : Bytes) (n : ℕ) (r : SubSocket)
      → length peer ≡ pubkey_bytes_len
      → get peer s.socket_map ≡ some n
      → get n s.subsockets ≡ some r
      → (u : Multi) × (on_read w pm
            (some (some (bytes (peer ++ payload))))
            (disconnect_socket w n s)
          ≡ u)
        × (get peer u.socket_map ≡ some n)
        × (u.calls ≡ s.calls)
        × (inbox_at n u ≡ some (r.read_channel ++ bytes payload ∷ []))
        × ((read n u).0 ≡ stopped)
  unfolding read disconnect_socket
  on_read-loses s peer payload n r len listed at = (
    set_subsocket n lost halted,
    rw (disconnect_socket-ok w n s r at) (
        on_read-listed w pm halted peer payload len n (record r { stop = true }) listed
          (get-insert_self n (record r { stop = true }) s.subsockets)),
    listed,
    refl,
    rw (inbox_at, get-insert_self n lost halted.subsockets) refl,
    rw (read, get-insert_self n lost halted.subsockets) refl,
  )
    where
      halted : Multi
      halted = stopped_at w n r s

      lost : SubSocket
      lost = record r { stop = true; read_channel = r.read_channel ++ bytes payload ∷ [] }

module _ (w : Wire) where
  pub closed_one :
      (n : ℕ) (r : SubSocket) (s : Multi)
      → get n s.subsockets ≡ some r
      → close_subsocket w n s ≡ call (socket_disconnected n) (stopped_at w n r s)
  unfolding close_subsocket
  closed_one n r s at = rw (close_subsocket, disconnect_socket-ok w n s r at) refl

  pub closed_none :
      (n : ℕ) (s : Multi)
      → get n s.subsockets ≡ none
      → (close_subsocket w n s).subsockets ≡ s.subsockets
  unfolding close_subsocket disconnect_socket
  closed_none n s at = rw (disconnect_socket, at) refl

  close_subsocket-other :
      (n k : ℕ) (s : Multi)
      → (n == k) ≡ false
      → get k (close_subsocket w n s).subsockets ≡ get k s.subsockets
  close_subsocket-other n k s apart = go (get n s.subsockets) refl
    where
      go :
          (o : Option SubSocket)
          → get n s.subsockets ≡ o
          → get k (close_subsocket w n s).subsockets ≡ get k s.subsockets
      go none e = rw (closed_none n s e) refl
      go (some r) e =
          rw (closed_one n r s e)
            (ground (arith, get-insert n k (record r { stop = true }) s.subsockets))

  -- A subsocket that is closed stops; any other keeps its state.
  close_subsocket-get :
      (n k : ℕ) (s : Multi) (r : SubSocket)
      → get k s.subsockets ≡ some r
      → (v : SubSocket) × (get k (close_subsocket w n s).subsockets ≡ some v)
        × (r.stop ≡ true → v.stop ≡ true)
        × (n ≡ k → v.stop ≡ true)
  close_subsocket-get n k s r at = elim (Bool-cases (n == k)) [
    | inl same ↦
        let eq : n ≡ k = ground arith in
        let here : get n s.subsockets ≡ some r = rw eq at in
        (
          record r { stop = true },
          rw (closed_one n r s here)
              (ground (arith, get-insert n k (record r { stop = true }) s.subsockets)),
          (λ _. refl),
          (λ _. refl),
        )
    | inr other ↦
        (r, close_subsocket-other n k s other ∙ at, (λ h. h), (λ e. absurd (ground arith)))
  ]

  close_all-get :
      (m : List (Bytes × ℕ)) (k : ℕ) (s : Multi) (r : SubSocket)
      → get k s.subsockets ≡ some r
      → (v : SubSocket) × (get k (close_all w m s).subsockets ≡ some v)
        × (r.stop ≡ true → v.stop ≡ true)
        × ((id : Bytes) → get id m ≡ some k → v.stop ≡ true)
  unfolding close_all get
  close_all-get [] k s r at = (r, at, (λ h. h), (λ id h. absurd (ground arith)))
  close_all-get ((j, n) ∷ m) k s r at =
      let (r1, at1, keep1, stop1) = close_subsocket-get n k s r at in
      let (v, at2, keep2, stop2) = close_all-get m k (close_subsocket w n s) r1 at1 in
      (
        v,
        at2,
        (λ h. keep2 (keep1 h)),
        (λ id h. elim (Bool-cases (j == id)) [
          | inl same ↦ keep2 (stop1 (ground arith))
          | inr other ↦ stop2 id (ground arith)
        ]),
      )

  -- After `reconnect` the map is empty, every subsocket that it led to is stopped, and the
  -- descriptor counts as connected.
  pub reconnect-stops :
      (s : Multi) (id : Bytes) (n : ℕ) (r : SubSocket)
      → get id s.socket_map ≡ some n
      → get n s.subsockets ≡ some r
      → (v : SubSocket) × (get n (reconnect w s).subsockets ≡ some v)
        × (v.stop ≡ true)
        × ((reconnect w s).socket_map ≡ [])
        × ((reconnect w s).connected ≡ true)
  unfolding reconnect
  reconnect-stops s id n r listed at =
      let (v, stays, keep, stop) = close_all-get s.socket_map n s r at in
      (v, stays, stop id listed, refl, refl)
