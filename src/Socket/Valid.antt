-- ===== src/Socket/Valid.antt =====
-- The invariant of the sockets of node-manager/src/socket.rs, over changes of one subsocket.
use mutiny_web_poc.Prelude.{
  ℕ, ◌<◌, true, false, Option, none, some, List, [], ◌∷◌, ◌++◌, Bytes, partial_eq_bytes,
  partial_eq_nat, ◌≡◌, refl, arith, bytes_eqb_iff, ◌==◌, Bool-cases, inl, inr,
}
use mutiny_web_poc.Prelude.Assoc.{get, remove, get-insert, get-remove}
use mutiny_web_poc.Relay.{Wire}
use mutiny_web_poc.Socket.{
  close_all, reconnect, create_new_subsocket, set_subsocket, Message, SubSocket, Multi,
  close_subsocket, disconnect_socket, send_to_sub_socket,
}
use mutiny_web_poc.Socket.Demux.{disconnect_socket-ok, send_to_sub_socket-ok}

-- Every entry of the map leads a public key to a subsocket of that very peer, and a subsocket's
-- number has been given out.
pub record Consistent (m : List (Bytes × ℕ)) (subs : List (ℕ × SubSocket)) (next : ℕ) : Type 0 where
  pub mapped :
      (id : Bytes) (n : ℕ)
      → get id m ≡ some n
      → (r : SubSocket) × (get n subs ≡ some r) × (r.peer_pubkey_bytes ≡ id)
  pub given : (n : ℕ) (r : SubSocket) → get n subs ≡ some r → n < next

abbrev pub IsValid : Multi → Type 0
IsValid s = Consistent s.socket_map s.subsockets s.next

pub set-IsValid :
    (n : ℕ) (r v : SubSocket) (s : Multi)
    → get n s.subsockets ≡ some r
    → v.peer_pubkey_bytes ≡ r.peer_pubkey_bytes
    → IsValid s
    → IsValid (set_subsocket n v s)
set-IsValid n r v s at same valid = record {
  mapped = λ id k listed.
      let (q, found, peer) = valid.mapped id k listed in
      elim (Bool-cases (n == k)) [
        | inl eq ↦ (v, ground (arith, get-insert n k v s.subsockets), ground arith)
        | inr ne ↦ (q, ground (arith, get-insert n k v s.subsockets), peer)
      ];
  given = λ k q found. elim (Bool-cases (n == k)) [
    | inl eq ↦ ground (arith, valid.given n r at)
    | inr ne ↦ valid.given k q (ground (arith, get-insert n k v s.subsockets))
  ];
}

pub remove-IsValid :
    (id : Bytes) (s : Multi)
    → IsValid s
    → IsValid (record s { socket_map = remove id s.socket_map })
remove-IsValid id s valid = record {
  mapped = λ j n listed. valid.mapped j n (ground (arith, get-remove id j s.socket_map));
  given = valid.given;
}

pub create-IsValid : (id : Bytes) (s : Multi) → IsValid s → IsValid (create_new_subsocket id s)
unfolding create_new_subsocket
create-IsValid id s valid = record {
  mapped = λ j n listed. elim (Bool-cases (id == j)) [
    | inl same ↦ (
      record { peer_pubkey_bytes = id; read_channel = []; stop = false },
      ground (
        arith,
        get-insert id j s.next s.socket_map,
        get-insert s.next n (record { peer_pubkey_bytes = id; read_channel = []; stop = false })
            s.subsockets,
      ),
      (bytes_eqb_iff id j).0 same,
    )
    | inr apart ↦
        let (r, at, peer) =
          valid.mapped j n (ground (arith, get-insert id j s.next s.socket_map)) in
        (
          r,
          ground (
            arith,
            get-insert s.next n (record { peer_pubkey_bytes = id; read_channel = []; stop = false })
                s.subsockets,
            valid.given n r at,
          ),
          peer,
        )
  ];
  given = λ n r found. elim (Bool-cases (s.next == n)) [
    | inl same ↦ ground arith
    | inr apart ↦ ground (
      arith,
      valid.given n r (
          ground (
            arith,
            get-insert s.next n (record { peer_pubkey_bytes = id; read_channel = []; stop = false })
                s.subsockets,
          )),
    )
  ];
}

-- A change of a subsocket's channel or flag, or nothing where it does not exist.
pub send_to_sub_socket-IsValid :
    (n : ℕ) (m : Message) (s : Multi) → IsValid s → IsValid (send_to_sub_socket n m s)
unfolding send_to_sub_socket
send_to_sub_socket-IsValid n m s valid = go (get n s.subsockets) refl
  where
    go : (o : Option SubSocket) → get n s.subsockets ≡ o → IsValid (send_to_sub_socket n m s)
    go none e = rw (send_to_sub_socket, e) valid
    go (some r) e =
        rw (send_to_sub_socket-ok n m s r e)
          (set-IsValid n r (record r { read_channel = r.read_channel ++ m ∷ [] }) s e refl valid)

pub disconnect_socket-IsValid :
    (w : Wire) (n : ℕ) (s : Multi) → IsValid s → IsValid (disconnect_socket w n s)
unfolding disconnect_socket
disconnect_socket-IsValid w n s valid = go (get n s.subsockets) refl
  where
    go : (o : Option SubSocket) → get n s.subsockets ≡ o → IsValid (disconnect_socket w n s)
    go none e = rw (disconnect_socket, e) valid
    go (some r) e =
        rw (disconnect_socket-ok w n s r e)
          (set-IsValid n r (record r { stop = true }) s e refl valid)

pub close_subsocket-IsValid :
    (w : Wire) (n : ℕ) (s : Multi) → IsValid s → IsValid (close_subsocket w n s)
unfolding close_subsocket
close_subsocket-IsValid w n s valid = disconnect_socket-IsValid w n s valid

pub close_all-IsValid :
    (w : Wire) (m : List (Bytes × ℕ)) (s : Multi) → IsValid s → IsValid (close_all w m s)
unfolding close_all
close_all-IsValid w [] s valid = valid
close_all-IsValid w ((id, n) ∷ m) s valid =
    close_all-IsValid w m (close_subsocket w n s) (close_subsocket-IsValid w n s valid)

pub reconnect-IsValid : (w : Wire) (s : Multi) → IsValid s → IsValid (reconnect w s)
unfolding reconnect get
reconnect-IsValid w s valid = record {
  mapped = λ id n listed. absurd (ground arith);
  given = (close_all-IsValid w s.socket_map s valid).given;
}
