-- ===== src/Errors.antt =====
-- The errors of node-manager/src/error.rs and their conversions.
pub mod Js
pub mod Kept
use mutiny_web_poc.Prelude.{Bytes, codes}
use mutiny_web_poc.Storage.{MutinyStorageError}
use mutiny_web_poc.Errors.Js
use mutiny_web_poc.Errors.Js.{MutinyJsError}

-- `MutinyError`; an error of `anyhow` is its text.
pub data MutinyError : Type 0 where
  already_running : MutinyError
  not_running : MutinyError
  funding_tx_creation_failed : MutinyError
  connection_failed : MutinyError
  incorrect_network : MutinyError
  non_unique_payment_hash : MutinyError
  invoice_invalid : MutinyError
  invoice_creation_failed : MutinyError
  routing_failed : MutinyError
  peer_info_parse_failed : MutinyError
  channel_creation_failed : MutinyError
  channel_closing_failed : MutinyError
  persistence_failed : MutinyStorageError → MutinyError
  read_error : MutinyStorageError → MutinyError
  ln_decode_error : MutinyError
  seed_generation_failed : MutinyError
  invalid_mnemonic : MutinyError
  wallet_operation_failed : MutinyError
  wallet_signing_failed : MutinyError
  chain_access_failed : MutinyError
  dlc_manager_error : MutinyError
  other : Bytes → MutinyError

-- The text of an error.
unfoldable pub to_string : MutinyError → Bytes
to_string already_running = codes "Mutiny is already running."
to_string not_running = codes "Mutiny is not running."
to_string funding_tx_creation_failed = codes "Funding transaction could not be created."
to_string connection_failed = codes "Network connection closed."
to_string incorrect_network = codes "The invoice or address is on a different network."
to_string non_unique_payment_hash = codes "An invoice must not get payed twice."
to_string invoice_invalid = codes "The given invoice is invalid."
to_string invoice_creation_failed = codes "Failed to create invoice."
to_string routing_failed = codes "Failed to find route."
to_string peer_info_parse_failed = codes "Failed to parse the given peer information."
to_string channel_creation_failed = codes "Failed to create channel."
to_string channel_closing_failed = codes "Failed to close channel."
to_string (persistence_failed source) = codes "Failed to persist data."
to_string (read_error source) = codes "Failed to read data from storage."
to_string ln_decode_error = codes "Failed to decode lightning data."
to_string seed_generation_failed = codes "Failed to generate seed"
to_string invalid_mnemonic = codes "Invalid mnemonic"
to_string wallet_operation_failed = codes "Failed to conduct wallet operation."
to_string wallet_signing_failed = codes "Failed to sign given transaction."
to_string chain_access_failed = codes "Failed to conduct chain access operation."
to_string dlc_manager_error = codes "Failed to execute a dlc function"
to_string (other source) = source

-- `From<MutinyError>`
unfoldable pub js_from : MutinyError → MutinyJsError
js_from already_running = Js.already_running
js_from not_running = Js.not_running
js_from funding_tx_creation_failed = Js.funding_tx_creation_failed
js_from connection_failed = Js.connection_failed
js_from incorrect_network = Js.incorrect_network
js_from non_unique_payment_hash = Js.non_unique_payment_hash
js_from invoice_invalid = Js.invoice_invalid
js_from invoice_creation_failed = Js.invoice_creation_failed
js_from routing_failed = Js.routing_failed
js_from peer_info_parse_failed = Js.peer_info_parse_failed
js_from channel_creation_failed = Js.channel_creation_failed
js_from channel_closing_failed = Js.channel_closing_failed
js_from (persistence_failed source) = Js.persistence_failed
js_from (read_error source) = Js.read_error
js_from ln_decode_error = Js.ln_decode_error
js_from seed_generation_failed = Js.seed_generation_failed
js_from wallet_operation_failed = Js.wallet_operation_failed
js_from invalid_mnemonic = Js.invalid_mnemonic
js_from wallet_signing_failed = Js.wallet_signing_failed
js_from chain_access_failed = Js.chain_access_failed
js_from dlc_manager_error = Js.dlc_manager_error
js_from (other source) = Js.unknown_error

-- `PaymentError` of lightning_invoice
pub data PaymentError : Type 0 where
  invoice : PaymentError
  routing : PaymentError
  sending : PaymentError

-- `From<PaymentError>`
unfoldable pub from_payment_error : PaymentError → MutinyError
from_payment_error invoice = invoice_invalid
from_payment_error routing = routing_failed
from_payment_error sending = routing_failed

unfoldable pub js_from_payment_error : PaymentError → MutinyJsError
unfolding js_from from_payment_error
js_from_payment_error e = js_from (from_payment_error e)

-- `bdk::Error`, as far as the conversion tells its cases apart.
pub data BdkError : Type 0 where
  signer : BdkError
  another : BdkError

-- `From<bdk::Error>`
unfoldable pub from_bdk_error : BdkError → MutinyError
from_bdk_error signer = wallet_signing_failed
from_bdk_error another = wallet_operation_failed
