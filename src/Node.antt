-- ===== src/Node.antt =====
-- The invoices of a node: what node-manager/src/node.rs, nodemanager.rs and utils.rs read of
-- lightning_invoice and LDK, and the invoices that they show.
pub mod Invoices
pub mod Payments
pub mod Created
pub mod Sending
pub mod Paying
pub mod Listed
pub mod Peers
pub mod Tests
use mutiny_web_poc.Prelude.{
  ℕ, ◌+◌, ◌*◌, ◌/◌, ◌%◌, ◌^◌, Bool, false, Option, none, some, List, [], ◌∷◌, Bytes, ◌≡◌,
}
use mathlib.Core.Option
use mutiny_web_poc.Payment.{Formats}

-- `bitcoin::Network`
pub data Network : Type 0 where
  bitcoin : Network
  testnet : Network
  signet : Network
  regtest : Network

-- `lightning_invoice::Currency`
pub data Currency : Type 0 where
  bitcoin_currency : Currency
  bitcoin_testnet : Currency
  regtest_currency : Currency
  simnet_currency : Currency
  signet_currency : Currency

unfoldable pub currency_from_network : Network → Currency
currency_from_network bitcoin = bitcoin_currency
currency_from_network testnet = bitcoin_testnet
currency_from_network signet = signet_currency
currency_from_network regtest = regtest_currency

-- `InvoiceDescription`
pub data InvoiceDescription : Type 0 where
  direct : Bytes → InvoiceDescription
  hash : Bytes → InvoiceDescription

-- What lightning_invoice reads of an invoice, and the clock that it compares an expiry with.
pub record Lightning (f : Formats) : Type 1 where
  pub Invoice : Type 0
  pub Duration : Type 0
  pub RouteHints : Type 0
  pub as_secs : Duration → ℕ
  pub from_str : Bytes → Option Invoice
  pub to_string : Invoice → Bytes
  pub payment_hash : Invoice → Bytes
  pub payment_secret : Invoice → Bytes
  pub amount_milli_satoshis : Invoice → Option ℕ
  pub description : Invoice → InvoiceDescription
  pub duration_since_epoch : Invoice → Duration
  pub expiry_time : Invoice → Duration
  pub payee_pub_key : Invoice → Option f.PublicKey
  pub currency : Invoice → Currency
  pub would_expire : Invoice → Duration → Bool
  pub pubkey_to_hex : f.PublicKey → Bytes
  pub sha256 : Bytes → Bytes
  pub from_str-to_string : (i : Invoice) → from_str (to_string i) ≡ some i

-- `MutinyInvoice`
pub record MutinyInvoice : Type 0 where
  pub bolt11 : Option Bytes
  pub description : Option Bytes
  pub payment_hash : Bytes
  pub preimage : Option Bytes
  pub payee_pubkey : Option Bytes
  pub amount_sats : Option ℕ
  pub expire : ℕ
  pub paid : Bool
  pub fees_paid : Option ℕ
  pub is_send : Bool

-- The products of `u64` wrap around.
unfoldable pub to_msats : ℕ → ℕ
to_msats sats = (sats * 1000) % 2 ^ 64

unfoldable pub to_sats : ℕ → ℕ
to_sats msats = msats / 1000

abbrev pub direct_description : InvoiceDescription → Option Bytes
direct_description (direct a) = some a
direct_description (hash h) = none

-- `From<Invoice>` for `MutinyInvoice`
unfoldable pub from_invoice : {f : Formats} (l : Lightning f) → l.Invoice → MutinyInvoice
unfolding to_sats
from_invoice {f} l value = record {
  bolt11 = some (l.to_string value);
  description = direct_description (l.description value);
  payment_hash = f.to_hex (l.payment_hash value);
  preimage = none;
  payee_pubkey = Option.map l.pubkey_to_hex (l.payee_pub_key value);
  amount_sats = Option.map to_sats (l.amount_milli_satoshis value);
  expire = (l.as_secs (l.duration_since_epoch value) + l.as_secs (l.expiry_time value)) % 2 ^ 64;
  paid = false;
  fees_paid = none;
  is_send = false;
}

-- What a payment asks of LDK's invoice payer.
pub data Payment (f : Formats) (l : Lightning f) : Type 0 where
  pay_invoice : l.Invoice → Payment f l
  pay_zero_value_invoice : l.Invoice → ℕ → Payment f l
  pay_pubkey : f.PublicKey → Bytes → ℕ → ℕ → Payment f l

-- `Node`: its identifier, its network, and the answers of LDK's invoice builders and payer. An
-- invoice is made of the amount, the description, the time and its life.
pub record Node (f : Formats) (l : Lightning f) : Type 0 where
  pub node_id : Bytes
  pub network : Network
  pub phantom_route_hints : l.RouteHints
  pub create_invoice_from_channelmanager :
      Currency → Option ℕ → Bytes → l.Duration → ℕ → Option l.Invoice
  pub create_phantom_invoice :
      Option ℕ → Bytes → ℕ → List l.RouteHints → Currency → Option l.Invoice
  pub is_sent : Payment f l → Bool
