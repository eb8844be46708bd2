-- ===== src/Wallet.antt =====
-- The wallet of node-manager/src/wallet.rs, and the calls of nodemanager.rs that send from it. Log
-- lines are left out.
pub mod Sends
pub mod Tests
use mutiny_web_poc.Prelude.{
  ℕ, Bool, true, false, Option, none, some, List, [], ◌∷◌, ◌++◌, Bytes, codes, if◌then◌else◌, ◌==◌,
  partial_eq_bytes, not,
}
use mutiny_web_poc.Prelude.Outcome.{Outcome, ok, err, panic, Action, ◌>>=◌, ◌>>>◌, map_err}
use mutiny_web_poc.Storage.Encrypt.{expect}
use mutiny_web_poc.Errors.{MutinyError, incorrect_network, BdkError, from_bdk_error, js_from}
use mutiny_web_poc.Errors.Js
use mutiny_web_poc.Errors.Js.{MutinyJsError}
use mutiny_web_poc.Node.{Network, bitcoin, testnet, signet, regtest}

-- `PartialEq` of `Network`
unfoldable pub is_network : Network → Network → Bool
is_network bitcoin bitcoin = true
is_network testnet testnet = true
is_network signet signet = true
is_network regtest regtest = true
is_network _ _ = false

-- What a transaction pays: an amount to a script, or all that the wallet has.
pub data Recipient : Type 0 where
  add_recipient : Bytes → ℕ → Recipient
  drain_to : Bytes → Recipient

-- The answers of bdk for a wallet. `Rate` is the number that the caller gives for the fee.
pub record Bdk : Type 1 where
  pub Address : Type 0
  pub Rate : Type 0
  pub FeeRate : Type 0
  pub Psbt : Type 0
  pub Tx : Type 0
  pub Details : Type 0
  pub network : Network
  pub address_from_str : Bytes → Option Address
  pub address_network : Address → Network
  pub script_pubkey : Address → Bytes
  -- `none` where the assertion on the rate fails.
  pub from_sat_per_vb : Rate → Option FeeRate
  pub estimate_fee : ℕ → Outcome BdkError FeeRate
  pub build_tx : Recipient → FeeRate → Outcome BdkError Psbt
  -- The signed transaction, and whether it is final.
  pub sign : Psbt → Outcome BdkError (Psbt × Bool)
  pub extract_tx : Psbt → Tx
  pub txid : Tx → Bytes
  pub broadcast : Tx → Outcome BdkError (Unit {0})
  pub list_transactions : Bool → Outcome BdkError (List Details)
  pub details_txid : Details → Bytes

-- The coin type of a derivation path.
unfoldable pub coin_type : Network → ℕ
coin_type bitcoin = 0
coin_type testnet = 1
coin_type signet = 1
coin_type regtest = 1

-- The block explorer of a network.
unfoldable pub esplora_url : Network → Option Bytes → Bytes
esplora_url network (some url) = url
esplora_url bitcoin none = codes "https://blockstream.info/api"
esplora_url testnet none = codes "https://blockstream.info/testnet/api"
esplora_url signet none = codes "https://mempool.space/signet/api"
esplora_url regtest none = codes "http://localhost:3003"

module _ (b : Bdk) where
  -- The transactions that were broadcast, also where the broadcast failed.
  abbrev pub Call {ℓ κ} : Type ℓ → Type κ → Type (ℓ ⊔ κ)
  Call E A = Action E (List b.Tx) A

  unfoldable pub return {ℓ κ} : {E : Type ℓ} {A : Type κ} → Outcome E A → Call E A
  return r w = (r, w)

  abbrev pub chosen_rate : Option b.Rate → Outcome MutinyError b.FeeRate
  chosen_rate (some rate) = expect (b.from_sat_per_vb rate)
  chosen_rate none = map_err from_bdk_error (b.estimate_fee 1)

  -- A transaction that was built and signed; whether it is final is only logged.
  unfoldable pub signed_psbt : Recipient → Option b.Rate → Outcome MutinyError b.Psbt
  signed_psbt recipient fee_rate = chosen_rate fee_rate >>= λ rate.
      map_err from_bdk_error (b.build_tx recipient rate) >>= λ psbt.
      map_err from_bdk_error (b.sign psbt) >>= λ finalized. ok finalized.0

  unfoldable pub create_signed_psbt : b.Address → ℕ → Option b.Rate → Outcome MutinyError b.Psbt
  unfolding signed_psbt is_network
  create_signed_psbt send_to amount fee_rate =
      if is_network (b.address_network send_to) b.network
      then signed_psbt (add_recipient (b.script_pubkey send_to) amount) fee_rate
      else err incorrect_network

  unfoldable pub create_sweep_psbt : b.Address → Option b.Rate → Outcome MutinyError b.Psbt
  unfolding signed_psbt is_network
  create_sweep_psbt destination_address fee_rate =
      if is_network (b.address_network destination_address) b.network
      then signed_psbt (drain_to (b.script_pubkey destination_address)) fee_rate
      else err incorrect_network

  unfoldable pub broadcast_tx : b.Tx → Call MutinyError Bytes
  broadcast_tx tx w =
      (map_err from_bdk_error (b.broadcast tx) >>= λ _. ok (b.txid tx), w ++ tx ∷ [])

  unfoldable pub send : b.Address → ℕ → Option b.Rate → Call MutinyError Bytes
  unfolding create_signed_psbt broadcast_tx return
  send destination_address amount fee_rate =
      return (create_signed_psbt destination_address amount fee_rate) >>> λ psbt.
      broadcast_tx (b.extract_tx psbt)

  unfoldable pub sweep : b.Address → Option b.Rate → Call MutinyError Bytes
  unfolding create_sweep_psbt broadcast_tx return
  sweep destination_address fee_rate =
      return (create_sweep_psbt destination_address fee_rate) >>> λ psbt.
      broadcast_tx (b.extract_tx psbt)

  abbrev pub find_details : Bytes → List b.Details → Option b.Details
  find_details txid [] = none
  find_details txid (tx ∷ txs) =
      if b.details_txid tx == txid then some tx else find_details txid txs

  unfoldable pub get_transaction : Bytes → Bool → Outcome MutinyError (Option b.Details)
  get_transaction txid include_raw =
      map_err from_bdk_error (b.list_transactions include_raw) >>= λ txs. ok (find_details txid txs)

  unfoldable pub parse_address : Bytes → Outcome MutinyJsError b.Address
  parse_address destination_address = elim (b.address_from_str destination_address) [
    | none ↦ err Js.json_read_write_error
    | some send_to ↦ ok send_to
  ]

  unfoldable pub in_network : Network → b.Address → Outcome MutinyJsError b.Address
  unfolding is_network
  in_network network send_to =
      if is_network (b.address_network send_to) network
      then ok send_to
      else err Js.incorrect_network

  -- The address of a text, on the network of the node manager.
  unfoldable pub own_address : Network → Bytes → Outcome MutinyJsError b.Address
  unfolding parse_address in_network
  own_address network destination_address = parse_address destination_address >>= in_network network

  unfoldable pub call_wallet {ℓ} : {A : Type ℓ} → Call MutinyError A → Call MutinyJsError A
  call_wallet m w = (map_err js_from (m w).0, (m w).1)

  unfoldable pub send_to_address : Network → Bytes → ℕ → Option b.Rate → Call MutinyJsError Bytes
  unfolding own_address send call_wallet return
  send_to_address network destination_address amount fee_rate =
      return (own_address network destination_address) >>> λ send_to.
      call_wallet (send send_to amount fee_rate)

  unfoldable pub sweep_wallet : Network → Bytes → Option b.Rate → Call MutinyJsError Bytes
  unfolding own_address sweep call_wallet return
  sweep_wallet network destination_address fee_rate =
      return (own_address network destination_address) >>> λ send_to.
      call_wallet (sweep send_to fee_rate)
