-- ===== src/Payment/Persister.antt =====
-- `MutinyNodePersister` of node-manager/src/ldkstorage.rs: payments and peers of one node.
pub mod Keys
pub mod Records
pub mod Peers
use mutiny_web_poc.Prelude.{
  ℕ, Bool, true, false, Option, none, some, List, [], ◌∷◌, ◌++◌, Bytes, codes, if◌then◌else◌,
}
use mutiny_web_poc.Prelude.Outcome.{Outcome, ok, err, panic, Action, ◌>>=◌, map_err, ok_of, unwrap}
use mutiny_web_poc.Storage.{Serde, KeyValue, MutinyStorageError}
use mutiny_web_poc.Storage.Text.{strip_prefix, strip_suffix}
use mutiny_web_poc.Storage.Encrypt.{expect}
use mutiny_web_poc.Payment.{PaymentInfo, IoError, other_error, Formats}

abbrev pub payment_inbound_prefix_key : Bytes
payment_inbound_prefix_key = codes "payment_inbound/"

abbrev pub payment_outbound_prefix_key : Bytes
payment_outbound_prefix_key = codes "payment_outbound/"

abbrev pub peer_prefix_key : Bytes
peer_prefix_key = codes "peer/"

-- `format!("{}_{}", key, self.node_id)`
unfoldable pub get_key : Bytes → Bytes → Bytes
get_key node_id key = key ++ (b'_' ∷ node_id)

unfoldable pub peer_key : Bytes → Bytes
peer_key pubkey = peer_prefix_key ++ pubkey

abbrev pub payment_prefix : Bool → Bytes
payment_prefix true = payment_inbound_prefix_key
payment_prefix false = payment_outbound_prefix_key

module _ (f : Formats) where
  unfoldable pub payment_key : Bool → Bytes → Bytes
  payment_key inbound payment_hash = payment_prefix inbound ++ f.to_hex payment_hash

  -- The key of a payment record of a node.
  unfoldable pub record_key : Bytes → Bool → Bytes → Bytes
  unfolding get_key payment_key
  record_key node_id inbound payment_hash = get_key node_id (payment_key inbound payment_hash)

module _ (kv : KeyValue) (f : Formats) (node_id : Bytes) where
  unfoldable pub persist_payment_info :
      Bytes → PaymentInfo → Bool → Action IoError kv.Store (Unit {0})
  persist_payment_info payment_hash payment_info inbound s =
      let key : Bytes = record_key f node_id inbound payment_hash in
      (
        map_err other_error (kv.set PaymentInfo f.info_serde key payment_info s).0,
        (kv.set PaymentInfo f.info_serde key payment_info s).1,
      )

  unfoldable pub read_payment_info : Bytes → Bool → kv.Store → Outcome IoError (Option PaymentInfo)
  read_payment_info payment_hash inbound s =
      ok_of (kv.get PaymentInfo f.info_serde (record_key f node_id inbound payment_hash) s)

  -- A `HashMap` of the scan, collected.
  unfoldable pub list_payment_info :
      Bool → kv.Store → Outcome MutinyStorageError (List (Bytes × PaymentInfo))
  list_payment_info inbound s = kv.scan PaymentInfo f.info_serde (payment_prefix inbound) none s

  unfoldable pub read_peer_connection_info : Bytes → kv.Store → Outcome IoError (Option Bytes)
  unfolding peer_key
  read_peer_connection_info peer_pubkey s =
      ok_of (kv.get Bytes f.string_serde (get_key node_id (peer_key peer_pubkey)) s)

  unfoldable pub persist_peer_connection_info : Bytes → Bytes → Action IoError kv.Store (Unit {0})
  unfolding peer_key
  persist_peer_connection_info peer_pubkey connection_string s =
      let key : Bytes = get_key node_id (peer_key peer_pubkey) in
      (
        map_err other_error (kv.set Bytes f.string_serde key connection_string s).0,
        (kv.set Bytes f.string_serde key connection_string s).1,
      )

  unfoldable pub delete_peer_connection_info : Bytes → kv.Store → kv.Store
  unfolding peer_key
  delete_peer_connection_info peer_pubkey s = kv.delete (get_key node_id (peer_key peer_pubkey)) s

  -- The public key inside a storage key: both ends are stripped, and each `unwrap` may panic.
  unfoldable pub pubkey_of_key : Bytes → Outcome MutinyStorageError f.PublicKey
  pubkey_of_key key = expect (strip_prefix peer_prefix_key key) >>= λ k.
      expect (strip_suffix node_id k) >>= λ k.
      expect (strip_suffix (b'_' ∷ []) k) >>= λ k. expect (f.pubkey_from_str k)

  unfoldable pub collect_peers :
      List (Bytes × Bytes) → Outcome MutinyStorageError (List (f.PublicKey × Bytes))
  unfolding pubkey_of_key
  collect_peers [] = ok []
  collect_peers ((k, v) ∷ m) =
      pubkey_of_key k >>= λ pubkey. collect_peers m >>= λ rest. ok ((pubkey, v) ∷ rest)

  unfoldable pub list_peer_connection_info :
      kv.Store → Outcome MutinyStorageError (List (f.PublicKey × Bytes))
  unfolding collect_peers
  list_peer_connection_info s =
      kv.scan Bytes f.string_serde peer_prefix_key (some node_id) s >>= collect_peers
