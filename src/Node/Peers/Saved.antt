-- ===== src/Node/Peers/Saved.antt =====
-- What connecting to a peer in node-manager/src/node.rs stores, and that it connects again.
use mutiny_web_poc.Prelude.{
  false, Option, none, some, List, Bytes, ◌≡◌, refl, ◌∙◌, ap, arith, ◌==◌, PartialEq,
  partial_eq_bytes, bytes_eqb_iff, Bool-cases, inl, inr, ◌⊎◌,
}
use mutiny_web_poc.Prelude.Assoc.{contains}
use mutiny_web_poc.Prelude.Outcome.{Outcome, ok, err, panic, ◌>>=◌, >>=-eq-ok, Outcome-cases}
use mutiny_web_poc.Storage.{KeyValue}
use mutiny_web_poc.Storage.Text.{starts_with, strip_prefix}
use mutiny_web_poc.Storage.Encrypt.{expect}
use mutiny_web_poc.Errors.{MutinyError}
use mutiny_web_poc.Address.{split_peer_connection_string, parse_peer_info}
use mutiny_web_poc.Payment.{Formats}
use mutiny_web_poc.Payment.Persister.{read_peer_connection_info, persist_peer_connection_info}
use mutiny_web_poc.Payment.Persister.Peers.{read-persist_peer}
use mutiny_web_poc.Node.{Lightning, Node}
use mutiny_web_poc.Node.Peers.{
  PubkeyConnectionInfo, ConnectionType, mutiny, tcp, is_empty, mutiny_prefix, connection_info,
  lowered_info, new_info, connect_peer_if_necessary, replace_saved, save_connection, connect_peer,
}

module _ {PublicKey : Type 0} (from_str : Bytes → Option PublicKey)
    (to_lowercase : Bytes → Bytes) where
  connection_info-original :
      (kind : Bytes → ConnectionType) (connection : Bytes)
      (r : Outcome MutinyError (PublicKey × Bytes)) (info : PubkeyConnectionInfo PublicKey)
      → r >>= connection_info from_str to_lowercase kind connection ≡ ok info
      → info.original_connection_string ≡ connection
  connection_info-original kind connection r info h =
      let ((pubkey, addr), e, same) =
        >>=-eq-ok r (connection_info from_str to_lowercase kind connection) h in
      ground (arith, same)

  lowered_info-original :
      (connection : Bytes) (info : PubkeyConnectionInfo PublicKey)
      → lowered_info from_str to_lowercase connection ≡ ok info
      → info.original_connection_string ≡ connection
  unfolding lowered_info
  lowered_info-original connection info h =
      elim (Bool-cases (starts_with mutiny_prefix connection)) [
        | inl e ↦
            let h' : (expect (strip_prefix mutiny_prefix connection) >>= λ stripped_connection.
            split_peer_connection_string from_str stripped_connection
            >>= connection_info from_str to_lowercase mutiny connection)
                ≡ ok info =
              rw (lowered_info, e) at h in
            let (stripped, _, rest) =
              >>=-eq-ok (expect (strip_prefix mutiny_prefix connection))
                (λ stripped_connection.
                  split_peer_connection_string from_str stripped_connection
                  >>= connection_info from_str to_lowercase mutiny connection)
                h' in
            connection_info-original mutiny connection
              (split_peer_connection_string from_str stripped) info rest
        | inr e ↦
            connection_info-original tcp connection (parse_peer_info from_str connection) info
              (rw (lowered_info, e) at h)
      ]

  -- The string that is stored of a connection gives the same connection again, where lower case is
  -- taken once for all and leaves no string empty.
  pub new_info-original :
      ((s : Bytes) → to_lowercase (to_lowercase s) ≡ to_lowercase s)
      → ((s : Bytes) → is_empty s ≡ false → is_empty (to_lowercase s) ≡ false)
      → (connection : Bytes) (info : PubkeyConnectionInfo PublicKey)
      → new_info from_str to_lowercase connection ≡ ok info
      → new_info from_str to_lowercase info.original_connection_string ≡ ok info
  unfolding new_info
  new_info-original once filled connection info h = elim (Bool-cases (is_empty connection)) [
    | inl e ↦ absurd (ground arith)
    | inr e ↦
        let lower : lowered_info from_str to_lowercase (to_lowercase connection) ≡ ok info =
          rw (new_info, e) at h in
        ap (new_info from_str to_lowercase)
          (lowered_info-original (to_lowercase connection) info lower)
        ∙ rw (new_info, filled connection e, once connection) lower
  ]

module _ (kv : KeyValue) (f : Formats) (l : Lightning f) (node : Node f l)
    ⦃pubkey_eq : PartialEq f.PublicKey⦄
    (dial : PubkeyConnectionInfo f.PublicKey → Outcome MutinyError (Unit {0})) where
  -- The string of a connection is stored already, or can be.
  abbrev pub CanSave : PubkeyConnectionInfo f.PublicKey → Option Bytes → kv.Store → Type 0
  CanSave info o s =
      (o ≡ some info.original_connection_string)
      ⊎ ((v : kv.Store) × (persist_peer_connection_info kv f node.node_id
              (l.pubkey_to_hex info.pubkey) info.original_connection_string s
            ≡ (ok tt, v)))

  saved-read :
      (info : PubkeyConnectionInfo f.PublicKey) (o : Option Bytes) (s : kv.Store)
      → read_peer_connection_info kv f node.node_id (l.pubkey_to_hex info.pubkey) s ≡ ok o
      → CanSave info o s
      → read_peer_connection_info kv f node.node_id
          (l.pubkey_to_hex info.pubkey)
          (replace_saved kv f l node dial info o s)
        ≡ ok (some info.original_connection_string)
  saved-read info none s read (inl same) = absurd (ground (arith, same))
  saved-read info none s read (inr (v, put)) =
      rw (replace_saved, put)
        (read-persist_peer kv f node.node_id (l.pubkey_to_hex info.pubkey)
          info.original_connection_string s v put)
  saved-read info (some saved) s read can =
      elim (Bool-cases (saved == info.original_connection_string)) [
        | inl e ↦ rw (replace_saved, e) (read ∙ ap (λ c. ok (some c)) ((bytes_eqb_iff saved _).0 e))
        | inr e ↦ elim can [
          | inl same ↦
              absurd (ground (arith, same, e, bytes_eqb_iff saved info.original_connection_string))
          | inr (v, put) ↦
              rw (replace_saved, e, put)
                (read-persist_peer kv f node.node_id (l.pubkey_to_hex info.pubkey)
                  info.original_connection_string s v put)
        ]
      ]

  -- Where the stored string of the peer can be read, and is the string of this connection or can be
  -- replaced by it: after a connection to a peer that LDK already has, or that is dialed, the stored
  -- string is the one that was connected to; where dialing a new peer fails or panics, nothing is
  -- stored and the call does the same.
  pub connect_peer-read :
      (peer_node_ids : List f.PublicKey) (info : PubkeyConnectionInfo f.PublicKey)
      (o : Option Bytes) (s : kv.Store)
      → read_peer_connection_info kv f node.node_id (l.pubkey_to_hex info.pubkey) s ≡ ok o
      → CanSave info o s
      → ((e : MutinyError) × (dial info ≡ err e)
          × (contains info.pubkey peer_node_ids ≡ false)
          × (connect_peer kv f l node dial peer_node_ids info s ≡ (err e, s)))
        ⊎ ((dial info ≡ panic)
            × (contains info.pubkey peer_node_ids ≡ false)
            × (connect_peer kv f l node dial peer_node_ids info s ≡ (panic, s)))
        ⊎ (((connect_peer kv f l node dial peer_node_ids info s).0 ≡ ok tt)
            × (read_peer_connection_info kv f node.node_id
                  (l.pubkey_to_hex info.pubkey)
                  (connect_peer kv f l node dial peer_node_ids info s).1
                ≡ ok (some info.original_connection_string)))
  unfolding connect_peer connect_peer_if_necessary save_connection
  connect_peer-read peer_node_ids info o s read can =
      elim (Bool-cases (contains info.pubkey peer_node_ids)) [
        | inl known ↦ inr (
            inr (
              rw (connect_peer, connect_peer_if_necessary, known, save_connection, read)
                (refl, saved-read info o s read can)))
        | inr new ↦ elim (Outcome-cases (dial info)) [
          | inl (done, e) ↦ inr (
              inr (
                rw (connect_peer, connect_peer_if_necessary, new, e, save_connection, read)
                  (refl, saved-read info o s read can)))
          | inr (inl (g, e)) ↦
              inl (g, e, new, rw (connect_peer, connect_peer_if_necessary, new, e) refl)
          | inr (inr e) ↦
              inr (inl (e, new, rw (connect_peer, connect_peer_if_necessary, new, e) refl))
        ]
      ]
