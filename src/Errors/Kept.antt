-- ===== src/Errors/Kept.antt =====
-- The texts of node-manager/src/error.rs on their way to JavaScript.
use mutiny_web_poc.Prelude.{Bytes, codes, ◌≡◌, refl}
use mutiny_web_poc.Errors.{
  MutinyError, to_string, js_from, already_running, not_running, funding_tx_creation_failed,
  connection_failed, incorrect_network, non_unique_payment_hash, invoice_invalid,
  invoice_creation_failed, routing_failed, peer_info_parse_failed, channel_creation_failed,
  channel_closing_failed, persistence_failed, read_error, ln_decode_error, seed_generation_failed,
  invalid_mnemonic, wallet_operation_failed, wallet_signing_failed, chain_access_failed,
  dlc_manager_error, other,
}
use mutiny_web_poc.Errors.Js.{to_js_value}

-- The text of an error that JavaScript may get: an error of another library is withheld.
abbrev pub shown : MutinyError → Bytes
shown (other source) = codes "Unknown Error"
shown e = to_string e

-- Every error reaches JavaScript with its own text, but for an error of another library, whose text
-- is withheld.
pub to_js_value-js_from : (e : MutinyError) → to_js_value (js_from e) ≡ shown e
unfolding to_js_value js_from to_string
to_js_value-js_from already_running = refl
to_js_value-js_from not_running = refl
to_js_value-js_from funding_tx_creation_failed = refl
to_js_value-js_from connection_failed = refl
to_js_value-js_from incorrect_network = refl
to_js_value-js_from non_unique_payment_hash = refl
to_js_value-js_from invoice_invalid = refl
to_js_value-js_from invoice_creation_failed = refl
to_js_value-js_from routing_failed = refl
to_js_value-js_from peer_info_parse_failed = refl
to_js_value-js_from channel_creation_failed = refl
to_js_value-js_from channel_closing_failed = refl
to_js_value-js_from (persistence_failed source) = refl
to_js_value-js_from (read_error source) = refl
to_js_value-js_from ln_decode_error = refl
to_js_value-js_from seed_generation_failed = refl
to_js_value-js_from invalid_mnemonic = refl
to_js_value-js_from wallet_operation_failed = refl
to_js_value-js_from wallet_signing_failed = refl
to_js_value-js_from chain_access_failed = refl
to_js_value-js_from dlc_manager_error = refl
to_js_value-js_from (other source) = refl
