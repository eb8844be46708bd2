-- ===== src/Payment.antt =====
-- Payment records of a Lightning node: the data of node-manager/src/event.rs, their storage in
-- ldkstorage.rs, the event handler, and the invoices of node.rs.
pub mod Sample
pub mod Tests
pub mod Persister
pub mod Events
use mutiny_web_poc.Prelude.{ℕ, Option, Bytes, ◌≡◌}
use mutiny_web_poc.Storage.{Serde, MutinyStorageError}

-- `HTLCStatus`
pub data HtlcStatus : Type 0 where
  pending : HtlcStatus
  in_flight : HtlcStatus
  succeeded : HtlcStatus
  failed : HtlcStatus

-- `MillisatAmount`
pub record MillisatAmount : Type 0 where
  pub msat : Option ℕ

-- `PaymentInfo`
pub record PaymentInfo : Type 0 where
  pub preimage : Option Bytes
  pub secret : Option Bytes
  pub status : HtlcStatus
  pub amt_msat : MillisatAmount
  pub fee_paid_msat : Option ℕ
  pub bolt11 : Option Bytes
  pub last_update : ℕ

-- `io::Error::other`
pub data IoError : Type 0 where
  other_error : MutinyStorageError → IoError

-- What the libraries print and read: hex digits, public keys, and the JSON of records and texts.
pub record Formats : Type 1 where
  pub PublicKey : Type 0
  pub pubkey_from_str : Bytes → Option PublicKey
  pub to_hex : Bytes → Bytes
  pub info_serde : Serde PaymentInfo
  pub string_serde : Serde Bytes
  pub to_hex_injective : (a b : Bytes) → to_hex a ≡ to_hex b → a ≡ b
