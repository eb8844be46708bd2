-- ===== src/Errors/Js.antt =====
-- `MutinyJsError` of node-manager/src/error.rs, and the text that JavaScript gets.
use mutiny_web_poc.Prelude.{Bytes, codes}

-- `MutinyJsError`
pub data MutinyJsError : Type 0 where
  already_running : MutinyJsError
  not_running : MutinyJsError
  funding_tx_creation_failed : MutinyJsError
  connection_failed : MutinyJsError
  incorrect_network : MutinyJsError
  non_unique_payment_hash : MutinyJsError
  invoice_invalid : MutinyJsError
  invoice_creation_failed : MutinyJsError
  routing_failed : MutinyJsError
  peer_info_parse_failed : MutinyJsError
  channel_creation_failed : MutinyJsError
  channel_closing_failed : MutinyJsError
  persistence_failed : MutinyJsError
  read_error : MutinyJsError
  ln_decode_error : MutinyJsError
  seed_generation_failed : MutinyJsError
  invalid_mnemonic : MutinyJsError
  wallet_operation_failed : MutinyJsError
  wallet_signing_failed : MutinyJsError
  chain_access_failed : MutinyJsError
  json_read_write_error : MutinyJsError
  pubkey_invalid : MutinyJsError
  bitcoin_price_error : MutinyJsError
  bad_amount_error : MutinyJsError
  dlc_manager_error : MutinyJsError
  unknown_error : MutinyJsError

-- The text of an error, which `JsValue::from` hands over.
unfoldable pub to_js_value : MutinyJsError → Bytes
to_js_value already_running = codes "Mutiny is already running."
to_js_value not_running = codes "Mutiny is not running."
to_js_value funding_tx_creation_failed = codes "Funding transaction could not be created."
to_js_value connection_failed = codes "Network connection closed."
to_js_value incorrect_network = codes "The invoice or address is on a different network."
to_js_value non_unique_payment_hash = codes "An invoice must not get payed twice."
to_js_value invoice_invalid = codes "The given invoice is invalid."
to_js_value invoice_creation_failed = codes "Failed to create invoice."
to_js_value routing_failed = codes "Failed to find route."
to_js_value peer_info_parse_failed = codes "Failed to parse the given peer information."
to_js_value channel_creation_failed = codes "Failed to create channel."
to_js_value channel_closing_failed = codes "Failed to close channel."
to_js_value persistence_failed = codes "Failed to persist data."
to_js_value read_error = codes "Failed to read data from storage."
to_js_value ln_decode_error = codes "Failed to decode lightning data."
to_js_value seed_generation_failed = codes "Failed to generate seed"
to_js_value invalid_mnemonic = codes "Invalid mnemonic"
to_js_value wallet_operation_failed = codes "Failed to conduct wallet operation."
to_js_value wallet_signing_failed = codes "Failed to sign given transaction."
to_js_value chain_access_failed = codes "Failed to conduct chain access operation."
to_js_value json_read_write_error = codes "Failed to read or write json from the front end"
to_js_value pubkey_invalid = codes "The given node pubkey is invalid."
to_js_value bitcoin_price_error = codes "Failed to get the bitcoin price."
to_js_value bad_amount_error = codes "Failed to convert to satoshis"
to_js_value dlc_manager_error = codes "Failed to execute a dlc function"
to_js_value unknown_error = codes "Unknown Error"
