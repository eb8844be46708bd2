-- ===== src/Bdk/Key.antt =====
-- `MapKey` of node-manager/src/bdkstorage.rs: the key under which a value is stored.
pub mod Injective
use mutiny_web_poc.Prelude.{
  ℕ, ◌+◌, ◌*◌, ◌/◌, ◌%◌, ◌^◌, ◌<◌, Option, none, some, List, [], ◌∷◌, ◌++◌, Bytes, ◌≡◌, refl,
  length,
}
use mutiny_web_poc.Storage.{Serde}

-- `bdk::TransactionDetails`: the fields that the code reads, and the rest.
pub record TransactionDetails (Txid Transaction Rest : Type 0) : Type 0 where
  pub txid : Txid
  pub transaction : Option Transaction
  pub rest : Rest

-- `bdk::LocalUtxo`
pub record LocalUtxo (OutPoint Rest : Type 0) : Type 0 where
  pub outpoint : OutPoint
  pub rest : Rest

-- `ScriptPubKeyInfo`
pub record ScriptPubKeyInfo (KeychainKind : Type 0) : Type 0 where
  pub keychain : KeychainKind
  pub path : ℕ

-- The types of bdk and bitcoin, their formats, and the hex digits of bitcoin_hashes.
pub record Bitcoin : Type 1 where
  pub KeychainKind : Type 0
  pub Script : Type 0
  pub OutPoint : Type 0
  pub Txid : Type 0
  pub Transaction : Type 0
  pub SyncTime : Type 0
  pub DetailsRest : Type 0
  pub UtxoRest : Type 0
  pub as_byte : KeychainKind → ℕ
  pub as_ref : KeychainKind → Bytes
  pub serialize_script : Script → Bytes
  pub serialize_outpoint : OutPoint → Bytes
  pub serialize_txid : Txid → Bytes
  pub txid_of : Transaction → Txid
  pub to_hex : Bytes → Bytes
  pub script_serde : Serde Script
  pub info_serde : Serde (ScriptPubKeyInfo KeychainKind)
  pub utxo_serde : Serde (LocalUtxo OutPoint UtxoRest)
  pub tx_serde : Serde Transaction
  pub details_serde : Serde (TransactionDetails Txid Transaction DetailsRest)
  pub u32_serde : Serde ℕ
  pub sync_serde : Serde SyncTime
  pub bytes_serde : Serde Bytes
  -- The two keychains have different bytes, encodings are unambiguous, and so are hex digits.
  pub as_byte_injective : (a b : KeychainKind) → as_byte a ≡ as_byte b → a ≡ b
  pub as_ref-as_byte : (a : KeychainKind) → as_ref a ≡ as_byte a ∷ []
  pub serialize_script_injective : (a b : Script) → serialize_script a ≡ serialize_script b → a ≡ b
  pub serialize_outpoint_injective :
      (a b : OutPoint) → serialize_outpoint a ≡ serialize_outpoint b → a ≡ b
  pub serialize_txid_injective : (a b : Txid) → serialize_txid a ≡ serialize_txid b → a ≡ b
  pub to_hex_injective : (a b : Bytes) → to_hex a ≡ to_hex b → a ≡ b

-- `u32::to_be_bytes`
unfoldable pub to_be_bytes : ℕ → Bytes
to_be_bytes n = (n / 2 ^ 24 % 256) ∷ (n / 2 ^ 16 % 256) ∷ (n / 2 ^ 8 % 256) ∷ (n % 256) ∷ []

module _ (x : Bitcoin) where
  open x use {
    KeychainKind, Script, OutPoint, Txid, as_byte, as_ref, serialize_script, serialize_outpoint,
    serialize_txid, to_hex,
  }

  pub data MapKey : Type 0 where
    path : Option KeychainKind → Option ℕ → MapKey
    script : Option Script → MapKey
    utxo : Option OutPoint → MapKey
    raw_tx : Option Txid → MapKey
    transaction : Option Txid → MapKey
    last_index : KeychainKind → MapKey
    sync_time : MapKey
    descriptor_checksum : KeychainKind → MapKey

  unfoldable pub as_prefix : MapKey → Bytes
  as_prefix (path none c) = b'p' ∷ []
  as_prefix (path (some st) c) = b'p' ∷ as_byte st ∷ []
  as_prefix (script s) = b's' ∷ []
  as_prefix (utxo o) = b'u' ∷ []
  as_prefix (raw_tx t) = b'r' ∷ []
  as_prefix (transaction t) = b't' ∷ []
  as_prefix (last_index st) = b'c' ∷ as_ref st
  as_prefix sync_time = b'l' ∷ []
  as_prefix (descriptor_checksum st) = b'd' ∷ as_ref st

  unfoldable pub serialize_content : MapKey → Bytes
  unfolding to_be_bytes
  serialize_content (path st (some child)) = to_be_bytes child
  serialize_content (script (some s)) = serialize_script s
  serialize_content (utxo (some o)) = serialize_outpoint o
  serialize_content (raw_tx (some t)) = serialize_txid t
  serialize_content (transaction (some t)) = serialize_txid t
  serialize_content _ = []

  unfoldable pub as_map_key : MapKey → Bytes
  unfolding as_prefix serialize_content
  as_map_key k = to_hex (as_prefix k ++ serialize_content k)
