-- ===== src/Manager/Connections.antt =====
-- Peers that a node manager connects to and forgets: connect_to_peer, disconnect_peer and
-- delete_peer of node-manager/src/nodemanager.rs, and disconnect_peer of node.rs. Log lines are left
-- out.
use mutiny_web_poc.Prelude.{List, Bytes, PartialEq, partial_eq_bytes}
use mutiny_web_poc.Prelude.Assoc
use mutiny_web_poc.Prelude.Outcome.{Outcome, ok, err, panic, Action, ◌>>=◌, ◌>>>◌, map_err}
use mutiny_web_poc.Storage.{KeyValue}
use mutiny_web_poc.Errors.{MutinyError, js_from}
use mutiny_web_poc.Errors.Js
use mutiny_web_poc.Errors.Js.{MutinyJsError}
use mutiny_web_poc.Payment.{Formats}
use mutiny_web_poc.Payment.Persister.{delete_peer_connection_info}
use mutiny_web_poc.Node.{Lightning, Node}
use mutiny_web_poc.Node.Peers.{PubkeyConnectionInfo, new_info, connect_peer}
use mutiny_web_poc.Manager.Invoices.{or_err}

module _ (kv : KeyValue) (f : Formats) (l : Lightning f) (to_lowercase : Bytes → Bytes)
    ⦃pubkey_eq : PartialEq f.PublicKey⦄ (nodes : List (Bytes × Node f l)) where
  abbrev pub own_node : Bytes → Outcome MutinyJsError (Node f l)
  own_node self_node_pubkey = or_err Js.wallet_operation_failed (Assoc.get self_node_pubkey nodes)

  abbrev answer : {A : Type 0} → Outcome MutinyJsError A → Action MutinyJsError kv.Store A
  answer r s = (r, s)

  abbrev call_peer :
      Action MutinyError kv.Store (Unit {0}) → Action MutinyJsError kv.Store (Unit {0})
  call_peer m s = (map_err js_from (m s).0, (m s).1)

  -- `dial` and the list of connected peers are those of the node.
  unfoldable pub connect_to_peer :
      (Node f l → PubkeyConnectionInfo f.PublicKey → Outcome MutinyError (Unit {0}))
      → (Node f l → List f.PublicKey)
      → Bytes
      → Bytes
      → Action MutinyJsError kv.Store (Unit {0})
  unfolding new_info connect_peer
  connect_to_peer dial peer_node_ids self_node_pubkey connection_string =
      answer (own_node self_node_pubkey) >>> λ node.
      answer (map_err js_from (new_info f.pubkey_from_str to_lowercase connection_string))
      >>> λ connect_info.
          call_peer (connect_peer kv f l node (dial node) (peer_node_ids node) connect_info)

  -- The peer that LDK is asked to disconnect, by which node.
  unfoldable pub disconnect_peer : Bytes → Bytes → Outcome MutinyJsError (Node f l × f.PublicKey)
  disconnect_peer self_node_pubkey peer = own_node self_node_pubkey >>= λ node.
      or_err Js.pubkey_invalid (f.pubkey_from_str peer) >>= λ node_id.
      let asked : Node f l × f.PublicKey = (node, node_id) in ok asked

  unfoldable pub delete_peer : Bytes → Bytes → Action MutinyJsError kv.Store (Unit {0})
  delete_peer self_node_pubkey peer s = elim (own_node self_node_pubkey) [
    | ok node ↦ (ok tt, delete_peer_connection_info kv f node.node_id peer s)
    | err e ↦ (err e, s)
    | panic ↦ (panic, s)
  ]
