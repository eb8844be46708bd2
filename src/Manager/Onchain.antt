-- ===== src/Manager/Onchain.antt =====
-- Addresses of a node manager: get_new_address, get_wallet_balance, create_bip21 and check_address
-- of node-manager/src/nodemanager.rs. What bdk and the explorer answer is an argument; the
-- conversion to values of JavaScript is left out.
use mutiny_web_poc.Prelude.{
  ℕ, ◌+◌, ◌%◌, ◌^◌, Option, none, some, List, [], ◌∷◌, Bytes, if◌then◌else◌, ◌==◌, partial_eq_bytes,
}
use mathlib.Core.Option
use mutiny_web_poc.Prelude.Outcome.{Outcome, ok, Action, ◌>>=◌, ◌>>>◌, map_err}
use mutiny_web_poc.Storage.{KeyValue}
use mutiny_web_poc.Errors.{BdkError}
use mutiny_web_poc.Errors.Js
use mutiny_web_poc.Errors.Js.{MutinyJsError}
use mutiny_web_poc.Payment.{Formats}
use mutiny_web_poc.Node.{Network, Lightning, Node, MutinyInvoice}
use mutiny_web_poc.Node.Invoices.{NodeWorld}
use mutiny_web_poc.Wallet.{Bdk, own_address}
use mutiny_web_poc.Manager.Channels.{Balance}
use mutiny_web_poc.Manager.Invoices.{answer, or_err, create_invoice}

-- `MutinyBip21RawMaterials`
pub record MutinyBip21RawMaterials : Type 0 where
  pub address : Bytes
  pub invoice : Bytes
  pub btc_amount : Option Bytes
  pub description : Option Bytes

-- Every error is this one.
unfoldable pub or_wallet_failed : {E A : Type 0} → Outcome E A → Outcome MutinyJsError A
or_wallet_failed r = map_err (λ e. Js.wallet_operation_failed) r

unfoldable pub get_new_address : Outcome BdkError Bytes → Outcome MutinyJsError Bytes
unfolding or_wallet_failed
get_new_address addr = or_wallet_failed addr

unfoldable pub get_wallet_balance : Outcome BdkError Balance → Outcome MutinyJsError ℕ
unfolding or_wallet_failed
get_wallet_balance balance = or_wallet_failed balance >>= λ b.
    ok ((b.confirmed + b.trusted_pending + b.untrusted_pending + b.immature) % 2 ^ 64)

module _ (kv : KeyValue) (f : Formats) (l : Lightning f) (network : Network)
    (nodes : List (Bytes × Node f l)) (btc_text : ℕ → Bytes) where
  abbrev text_of : Option Bytes → Bytes
  text_of none = []
  text_of (some d) = d

  unfoldable pub invoice_for :
      l.Duration
      → l.Duration
      → Option ℕ
      → Option Bytes
      → Action MutinyJsError (NodeWorld kv f l) MutinyInvoice
  unfolding create_invoice or_wallet_failed
  invoice_for now later amount description w =
      let r = create_invoice kv f l network nodes now later amount (text_of description) w in
      (or_wallet_failed r.0, r.1)

  -- `addr` is what bdk answers for a new address.
  unfoldable pub create_bip21 :
      Outcome BdkError Bytes
      → l.Duration
      → l.Duration
      → Option ℕ
      → Option Bytes
      → Action MutinyJsError (NodeWorld kv f l) MutinyBip21RawMaterials
  unfolding answer get_new_address invoice_for or_wallet_failed
  create_bip21 addr now later amount description =
      answer kv f l network nodes (or_wallet_failed (get_new_address addr)) >>> λ address.
      invoice_for now later amount description >>> λ invoice.
      answer kv f l network nodes (or_err Js.wallet_operation_failed invoice.bolt11) >>> λ bolt11.
      answer kv f l network nodes (
        ok (record {
          address = address;
          invoice = bolt11;
          btc_amount = Option.map btc_text amount;
          description = description;
        }))

-- What the explorer gives of a transaction: its outputs are scripts and values.
pub record EsploraTx (Tx : Type 0) : Type 0 where
  pub txid : Bytes
  pub vout : List (Bytes × ℕ)
  pub confirmation_time : Option (ℕ × ℕ)
  pub to_tx : Tx

-- bdk's `TransactionDetails`, as check_address fills it.
pub record AddressDetails (Tx : Type 0) : Type 0 where
  pub transaction : Option Tx
  pub txid : Bytes
  pub received : ℕ
  pub sent : ℕ
  pub fee : Option ℕ
  pub confirmation_time : Option (ℕ × ℕ)

-- The values of the outputs of a script; the sum wraps around.
unfoldable pub received_by : Bytes → List (Bytes × ℕ) → ℕ
received_by script [] = 0
received_by script ((scriptpubkey, value) ∷ vout) =
    let rest = received_by script vout in
    if scriptpubkey == script then (value + rest) % 2 ^ 64 else rest

abbrev pub first_details : {Tx : Type 0} → Bytes → List (EsploraTx Tx) → Option (AddressDetails Tx)
first_details script [] = none
first_details script (tx ∷ txs) = some (record {
  transaction = some tx.to_tx;
  txid = tx.txid;
  received = received_by script tx.vout;
  sent = 0;
  fee = none;
  confirmation_time = tx.confirmation_time;
})

unfoldable pub check_address :
    {Tx : Type 0} (b : Bdk)
    → (Bytes → Outcome MutinyJsError (List (EsploraTx Tx)))
    → Network
    → Bytes
    → Outcome MutinyJsError (Option (AddressDetails Tx))
unfolding own_address received_by
check_address b scripthash_txs network address = own_address b network address >>= λ a.
    scripthash_txs (b.script_pubkey a) >>= λ txs. ok (first_details (b.script_pubkey a) txs)
