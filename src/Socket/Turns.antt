-- ===== src/Socket/Turns.antt =====
-- The invariant of the sockets of node-manager/src/socket.rs, over every turn of the code.
use mutiny_web_poc.Prelude.{
  ltb, ℕ, false, Option, none, some, List, [], ◌∷◌, ◌++◌, length, take, drop, Bytes,
  partial_eq_bytes, partial_eq_nat, ◌≡◌, refl, Bool-cases, inl, inr,
}
use mutiny_web_poc.Prelude.Assoc.{get}
use mutiny_web_poc.Relay.{ProxyCommand, disconnect, Wire}
use mutiny_web_poc.Socket.{
  Step, Reach, hears, forwards, turns, sends, disconnects, connects, reconnects, here, next_step,
  SubRead, stopped, waiting, message, new_inbound_connection, call, pubkey_bytes_len,
  descriptor_turn, on_text, on_bytes, route, open_inbound, next_message, take_message,
  forward_pending, create_new_subsocket, Message, text, bytes, SubSocket, Multi, PeerManager,
  on_read, send_data, read, close_subsocket,
}
use mutiny_web_poc.Socket.Valid.{
  IsValid, set-IsValid, remove-IsValid, create-IsValid, send_to_sub_socket-IsValid,
  disconnect_socket-IsValid, close_subsocket-IsValid, reconnect-IsValid,
}

read-IsValid : (n : ℕ) (s : Multi) → IsValid s → IsValid (read n s).1
unfolding read
read-IsValid n s valid = go (get n s.subsockets) refl
  where
    waits :
        (r : SubSocket) (o : List Message)
        → r.read_channel ≡ o
        → get n s.subsockets ≡ some r
        → r.stop ≡ false
        → IsValid (read n s).1
    waits r [] q e live = rw (read, e, live, next_message, q) valid
    waits r (m ∷ rest) q e live =
        rw (read, e, live, next_message, q)
          (set-IsValid n r (record r { read_channel = rest }) s e refl valid)

    go : (o : Option SubSocket) → get n s.subsockets ≡ o → IsValid (read n s).1
    go none e = rw (read, e) valid
    go (some r) e = elim (Bool-cases r.stop) [
      | inl stop ↦ rw (read, e, stop) valid
      | inr live ↦ waits r r.read_channel refl e live
    ]

send_data-IsValid : (n : ℕ) (d : Bytes) (s : Multi) → IsValid s → IsValid (send_data n d s).1
unfolding send_data
send_data-IsValid n d s valid = go (get n s.subsockets) refl
  where
    go : (o : Option SubSocket) → get n s.subsockets ≡ o → IsValid (send_data n d s).1
    go none e = rw (send_data, e) valid
    go (some r) e = elim (Bool-cases r.stop) [
      | inl stop ↦ rw (send_data, e, stop) valid
      | inr live ↦ rw (send_data, e, live) valid
    ]

forward_pending-IsValid : (s : Multi) → IsValid s → IsValid (forward_pending s).1
unfolding forward_pending
forward_pending-IsValid s valid = go s.to_multi_socket refl
  where
    go : (o : List Message) → s.to_multi_socket ≡ o → IsValid (forward_pending s).1
    go [] e = rw (forward_pending, e) valid
    go (m ∷ rest) e = rw (forward_pending, e) valid

module _ (w : Wire) (pm : PeerManager) where
  on_text-IsValid : (msg : Bytes) (s : Multi) → IsValid s → IsValid (on_text w msg s)
  unfolding on_text
  on_text-IsValid msg s valid = go (w.from_str msg) refl
    where
      go : (o : Option ProxyCommand) → w.from_str msg ≡ o → IsValid (on_text w msg s)
      go none e = rw (on_text, e) valid
      go (some (disconnect to from)) e = entry (get from s.socket_map) refl
        where
          entry : (o : Option ℕ) → get from s.socket_map ≡ o → IsValid (on_text w msg s)
          entry none q = rw (on_text, e, q) valid
          entry (some n) q =
              rw (on_text, e, q)
                (remove-IsValid from (close_subsocket w n s) (close_subsocket-IsValid w n s valid))

  route-IsValid : (id payload : Bytes) (s : Multi) → IsValid s → IsValid (route w pm id payload s)
  unfolding route open_inbound
  route-IsValid id payload s valid = go (get id s.socket_map) refl
    where
      offered : Multi
      offered = call (new_inbound_connection s.next) (create_new_subsocket id s)

      go : (o : Option ℕ) → get id s.socket_map ≡ o → IsValid (route w pm id payload s)
      go (some n) e = rw (route, e) (send_to_sub_socket-IsValid n (bytes payload) s valid)
      go none e = elim (Bool-cases (pm.accepts s.next)) [
        | inl accepted ↦
            rw (route, e, accepted)
              (send_to_sub_socket-IsValid s.next (bytes payload)
                (record offered { readers = s.readers ++ s.next ∷ [] }) (create-IsValid id s valid))
        | inr refused ↦
            rw (route, e, refused)
              (remove-IsValid id (close_subsocket w s.next offered)
                (close_subsocket-IsValid w s.next offered (create-IsValid id s valid)))
      ]

  on_read-IsValid :
      (m : Option (Option Message)) (s : Multi) → IsValid s → IsValid (on_read w pm m s)
  unfolding on_read on_bytes
  on_read-IsValid none s valid = valid
  on_read-IsValid (some none) s valid = valid
  on_read-IsValid (some (some (text msg))) s valid = on_text-IsValid msg s valid
  on_read-IsValid (some (some (bytes msg))) s valid =
      elim (Bool-cases (ltb (length msg) pubkey_bytes_len)) [
        | inl short ↦ rw (on_bytes, short) valid
        | inr long ↦
            rw (on_bytes, long)
              (route-IsValid (take pubkey_bytes_len msg) (drop pubkey_bytes_len msg) s valid)
      ]

  take_message-IsValid :
      (n : ℕ) (m : SubRead) (s : Multi) → IsValid s → IsValid (take_message w pm n m s)
  take_message-IsValid n stopped s valid = valid
  take_message-IsValid n waiting s valid = valid
  take_message-IsValid n (message (text msg)) s valid = valid
  take_message-IsValid n (message (bytes msg)) s valid = elim (Bool-cases (pm.reads n msg)) [
    | inl good ↦ rw (take_message, good) valid
    | inr bad ↦ rw (take_message, bad) valid
  ]

  Step-IsValid : (s u : Multi) → Step w pm s u → IsValid s → IsValid u
  unfolding descriptor_turn
  Step-IsValid s u (hears m e) valid = rw e (on_read-IsValid m s valid)
  Step-IsValid s u (forwards e) valid = rw e (forward_pending-IsValid s valid)
  Step-IsValid s u (turns n e) valid =
      rw e (take_message-IsValid n (read n s).0 (read n s).1 (read-IsValid n s valid))
  Step-IsValid s u (sends n d e) valid = rw e (send_data-IsValid n d s valid)
  Step-IsValid s u (disconnects n e) valid = rw e (disconnect_socket-IsValid w n s valid)
  Step-IsValid s u (connects id e) valid = rw e (create-IsValid id s valid)
  Step-IsValid s u (reconnects e) valid = rw e (reconnect-IsValid w s valid)

  -- From a valid state, however the tasks, the peer manager and the node take turns, every entry
  -- of the map leads a public key to a subsocket of that peer, and the number of every subsocket
  -- is below the next one.
  pub reachable-IsValid : (s u : Multi) → Reach w pm s u → IsValid s → IsValid u
  reachable-IsValid s u here valid = valid
  reachable-IsValid s u (next_step {t = t} path e) valid =
      Step-IsValid t u e (reachable-IsValid s t path valid)
