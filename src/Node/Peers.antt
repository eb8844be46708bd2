-- ===== src/Node/Peers.antt =====
-- The peers of a node: PubkeyConnectionInfo and Node::connect_peer of node-manager/src/node.rs. Log
-- lines are left out.
pub mod Saved
pub mod Tests
use mutiny_web_poc.Prelude.{
  Bool, true, false, Option, none, some, List, [], ◌∷◌, ◌++◌, Bytes, codes, ◌≡◌, refl, ◌∙◌, ap,
  arith, if◌then◌else◌, ◌==◌, PartialEq, partial_eq_bytes, bytes_eqb_iff, Bool-cases, inl, inr, ◌⊎◌,
}
use mutiny_web_poc.Prelude.Assoc.{contains}
use mutiny_web_poc.Prelude.Outcome.{
  Outcome, ok, err, panic, Action, ◌>>=◌, ◌>>>◌, >>=-eq-ok, Outcome-cases,
}
use mutiny_web_poc.Storage.{KeyValue}
use mutiny_web_poc.Storage.Text.{starts_with, strip_prefix}
use mutiny_web_poc.Storage.Encrypt.{expect}
use mutiny_web_poc.Errors
use mutiny_web_poc.Errors.{MutinyError}
use mutiny_web_poc.Address.{split_peer_connection_string, parse_peer_info}
use mutiny_web_poc.Payment.{Formats, IoError}
use mutiny_web_poc.Payment.Persister.{read_peer_connection_info, persist_peer_connection_info}
use mutiny_web_poc.Payment.Persister.Peers.{read-persist_peer}
use mutiny_web_poc.Node.{Lightning, Node}
use mutiny_web_poc.Node.Invoices.{from_io_error}

-- `ConnectionType`
pub data ConnectionType : Type 0 where
  tcp : Bytes → ConnectionType
  mutiny : Bytes → ConnectionType

-- `PubkeyConnectionInfo`
pub record PubkeyConnectionInfo (PublicKey : Type 0) : Type 0 where
  pub pubkey : PublicKey
  pub connection_type : ConnectionType
  pub original_connection_string : Bytes

abbrev pub is_empty : Bytes → Bool
is_empty [] = true
is_empty (c ∷ s) = false

abbrev pub mutiny_prefix : Bytes
mutiny_prefix = codes "mutiny:"

module _ {PublicKey : Type 0} (from_str : Bytes → Option PublicKey)
    (to_lowercase : Bytes → Bytes) where
  abbrev pub connection_info :
      (Bytes → ConnectionType)
      → Bytes
      → PublicKey × Bytes
      → Outcome MutinyError (PubkeyConnectionInfo PublicKey)
  connection_info kind connection (pubkey, peer_addr_str) = ok (record {
    pubkey = pubkey;
    connection_type = kind peer_addr_str;
    original_connection_string = connection;
  })

  -- The parts of a connection string in lower case.
  unfoldable pub lowered_info : Bytes → Outcome MutinyError (PubkeyConnectionInfo PublicKey)
  unfolding starts_with
  lowered_info connection =
      if starts_with mutiny_prefix connection
      then (expect (strip_prefix mutiny_prefix connection) >>= λ stripped_connection.
          split_peer_connection_string from_str stripped_connection
          >>= connection_info mutiny connection)
      else (parse_peer_info from_str connection >>= connection_info tcp connection)

  -- `PubkeyConnectionInfo::new`; the context makes another error of an empty string.
  unfoldable pub new_info : Bytes → Outcome MutinyError (PubkeyConnectionInfo PublicKey)
  unfolding lowered_info
  new_info connection =
      if is_empty connection
      then err (Errors.other (codes "connect_peer requires peer connection info"))
      else lowered_info (to_lowercase connection)

-- What a connection is made of: the websocket to the proxy, a new subsocket, how an address is read,
-- and what LDK answers when it is offered a descriptor, the bytes to send first.
pub record Dialing (PublicKey : Type 0) : Type 1 where
  pub Descriptor : Type 0
  pub NetAddress : Type 0
  pub proxy : PubkeyConnectionInfo PublicKey → Outcome MutinyError Descriptor
  pub create_new_subsocket : PublicKey → Descriptor
  pub try_get_net_addr_from_socket : Bytes → Option NetAddress
  pub new_outbound_connection :
      PublicKey → Descriptor → Option NetAddress → Outcome MutinyError Bytes

-- What was sent over descriptors, and those that a reader was scheduled on.
pub record Dialed {PublicKey : Type 0} (d : Dialing PublicKey) : Type 0 where
  pub sent : List (d.Descriptor × Bytes)
  pub readers : List d.Descriptor

module _ {PublicKey : Type 0} (d : Dialing PublicKey) where
  unfoldable pub make_descriptor :
      PubkeyConnectionInfo PublicKey
      → ConnectionType
      → Outcome MutinyError (d.Descriptor × Option d.NetAddress)
  make_descriptor info (tcp t) = d.proxy info >>= λ proxy.
      let made : d.Descriptor × Option d.NetAddress = (proxy, d.try_get_net_addr_from_socket t) in
      ok made
  make_descriptor info (mutiny t) = ok (d.create_new_subsocket info.pubkey, none)

  abbrev pub offer :
      PubkeyConnectionInfo PublicKey
      → d.Descriptor × Option d.NetAddress
      → Outcome MutinyError (d.Descriptor × Bytes)
  offer info (descriptor, addr) =
      d.new_outbound_connection info.pubkey descriptor addr >>= λ initial_bytes.
      let offered : d.Descriptor × Bytes = (descriptor, initial_bytes) in ok offered

  -- `connect_peer` of a peer that LDK does not have.
  unfoldable pub dial_peer :
      PubkeyConnectionInfo PublicKey → Action MutinyError (Dialed d) (Unit {0})
  unfolding make_descriptor
  dial_peer info s = elim (make_descriptor info info.connection_type >>= offer info) [
    | ok (descriptor, initial_bytes) ↦ (
      ok tt,
      record {
        sent = s.sent ++ (descriptor, initial_bytes) ∷ [];
        readers = s.readers ++ descriptor ∷ [];
      },
    )
    | err e ↦ (err e, s)
    | panic ↦ (panic, s)
  ]

-- `dial` is any answer of the dialing of a new peer, such as that of dial_peer.
module _ (kv : KeyValue) (f : Formats) (l : Lightning f) (node : Node f l)
    ⦃pubkey_eq : PartialEq f.PublicKey⦄
    (dial : PubkeyConnectionInfo f.PublicKey → Outcome MutinyError (Unit {0})) where
  unfoldable pub connect_peer_if_necessary :
      List f.PublicKey → PubkeyConnectionInfo f.PublicKey → Outcome MutinyError (Unit {0})
  connect_peer_if_necessary peer_node_ids info =
      if contains info.pubkey peer_node_ids then ok tt else dial info

  -- A stored string that differs is replaced; a failure to store is only logged.
  abbrev pub replace_saved : PubkeyConnectionInfo f.PublicKey → Option Bytes → kv.Store → kv.Store
  replace_saved info none s =
      (persist_peer_connection_info kv f node.node_id (l.pubkey_to_hex info.pubkey)
        info.original_connection_string s).1
  replace_saved info (some saved) s =
      if saved == info.original_connection_string
      then s
      else (persist_peer_connection_info kv f node.node_id (l.pubkey_to_hex info.pubkey)
          info.original_connection_string s).1

  unfoldable pub save_connection :
      PubkeyConnectionInfo f.PublicKey → Action MutinyError kv.Store (Unit {0})
  save_connection info s =
      elim (read_peer_connection_info kv f node.node_id (l.pubkey_to_hex info.pubkey) s) [
        | ok saved ↦ (ok tt, replace_saved info saved s)
        | err e ↦ (err (from_io_error e), s)
        | panic ↦ (panic, s)
      ]

  unfoldable pub connect_peer :
      List f.PublicKey → PubkeyConnectionInfo f.PublicKey → Action MutinyError kv.Store (Unit {0})
  unfolding connect_peer_if_necessary save_connection
  connect_peer peer_node_ids info s = elim (connect_peer_if_necessary peer_node_ids info) [
    | ok _ ↦ save_connection info s
    | err e ↦ (err e, s)
    | panic ↦ (panic, s)
  ]
