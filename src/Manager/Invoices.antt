-- ===== src/Manager/Invoices.antt =====
-- Invoices and payments of a node manager: create_invoice, pay_invoice, keysend, decode_invoice,
-- get_invoice, get_invoice_by_hash and list_invoices of node-manager/src/nodemanager.rs. The
-- conversion of a list to a value of JavaScript is left out.
use mutiny_web_poc.Prelude.{
  ℕ, Bool, true, false, Option, none, some, List, [], ◌∷◌, ◌++◌, Bytes, ltb, if◌then◌else◌,
  partial_eq_bytes, ◌==◌, length, map,
}
use mutiny_web_poc.Prelude.Assoc
use mutiny_web_poc.Prelude.Outcome.{Outcome, ok, err, panic, Action, ◌>>=◌, ◌>>>◌, map_err}
use mutiny_web_poc.Storage.{KeyValue}
use mutiny_web_poc.Errors.{MutinyError, js_from}
use mutiny_web_poc.Errors.Js
use mutiny_web_poc.Errors.Js.{MutinyJsError}
use mutiny_web_poc.Payment.{Formats}
use mutiny_web_poc.Node.{
  Currency, Network, Lightning, MutinyInvoice, Node, from_invoice, currency_from_network,
  bitcoin_currency, bitcoin_testnet, regtest_currency, simnet_currency, signet_currency,
}
use mutiny_web_poc.Node.Invoices
use mutiny_web_poc.Node.Invoices.{NodeWorld}
use mutiny_web_poc.Node.Payments

-- `PartialEq` of `Currency`
unfoldable pub is_currency : Currency → Currency → Bool
is_currency bitcoin_currency bitcoin_currency = true
is_currency bitcoin_testnet bitcoin_testnet = true
is_currency regtest_currency regtest_currency = true
is_currency simnet_currency simnet_currency = true
is_currency signet_currency signet_currency = true
is_currency _ _ = false

module _ {A : Type 0} where
  -- `expect` and `?` on what a library answers.
  abbrev pub or_err : {E : Type 0} → E → Option A → Outcome E A
  or_err e none = err e
  or_err e (some a) = ok a

  abbrev pub or_panic : {E : Type 0} → Option A → Outcome E A
  or_panic none = panic
  or_panic (some a) = ok a

  abbrev pub find : (A → Bool) → List A → Option A
  find test [] = none
  find test (x ∷ xs) = if test x then some x else find test xs

module _ (kv : KeyValue) (f : Formats) (l : Lightning f) (network : Network)
    (nodes : List (Bytes × Node f l)) where
  abbrev pub Call {ℓ} : Type ℓ → Type ℓ
  Call A = Action MutinyJsError (NodeWorld kv f l) A

  unfoldable pub answer {ℓ} : {A : Type ℓ} → Outcome MutinyJsError A → Call A
  answer r w = (r, w)

  -- A call of a node, with the conversion of its error.
  unfoldable pub call_node {ℓ} : {A : Type ℓ} → Action MutinyError (NodeWorld kv f l) A → Call A
  call_node m w = (map_err js_from (m w).0, (m w).1)

  -- The hints of all nodes, where there are several.
  abbrev pub route_hints : Option (List l.RouteHints)
  route_hints =
      if ltb 1 (length nodes) then some (map (λ n. n.1.phantom_route_hints) nodes) else none

  -- The first node makes the invoice.
  unfoldable pub first_invoice :
      l.Duration → l.Duration → Option ℕ → Bytes → List (Bytes × Node f l) → Call MutinyInvoice
  unfolding answer call_node
  first_invoice now later amount description [] = answer (err Js.invoice_creation_failed)
  first_invoice now later amount description ((k, first_node) ∷ rest) =
      call_node (Invoices.create_invoice kv f l first_node now later amount description route_hints)
      >>> λ invoice. answer (ok (from_invoice l invoice))

  unfoldable pub create_invoice : l.Duration → l.Duration → Option ℕ → Bytes → Call MutinyInvoice
  unfolding first_invoice
  create_invoice now later amount description = first_invoice now later amount description nodes

  -- The text of an invoice, of the network of the wallet.
  unfoldable pub parse_invoice : Bytes → Outcome MutinyJsError l.Invoice
  unfolding is_currency
  parse_invoice invoice_str = or_err Js.invoice_invalid (l.from_str invoice_str) >>= λ invoice.
      if is_currency (l.currency invoice) (currency_from_network network)
      then ok invoice
      else err Js.incorrect_network

  unfoldable pub decode_invoice : Bytes → Outcome MutinyJsError MutinyInvoice
  unfolding parse_invoice
  decode_invoice invoice = parse_invoice invoice >>= λ i. ok (from_invoice l i)

  unfoldable pub pay_invoice : l.Duration → Bytes → Bytes → Option ℕ → Call MutinyInvoice
  unfolding answer call_node parse_invoice
  pay_invoice now from_node invoice_str amt_sats = answer (parse_invoice invoice_str) >>> λ invoice.
      answer (or_panic (Assoc.get from_node nodes)) >>> λ node.
      call_node (Payments.pay kv f l node now invoice amt_sats)

  unfoldable pub keysend : Option Bytes → l.Duration → Bytes → Bytes → ℕ → Call MutinyInvoice
  unfolding answer call_node
  keysend entropy now from_node to_node amt_sats =
      answer (or_panic (Assoc.get from_node nodes)) >>> λ node.
      answer (or_err Js.pubkey_invalid (f.pubkey_from_str to_node)) >>> λ node_id.
      call_node (Payments.keysend kv f l node entropy now node_id amt_sats)

  -- The first node that knows an invoice.
  unfoldable pub find_invoice :
      l.Invoice → List (Bytes × Node f l) → kv.Store → Outcome MutinyJsError MutinyInvoice
  find_invoice invoice [] s = err Js.invoice_invalid
  find_invoice invoice ((k, node) ∷ rest) s = elim (Invoices.get_invoice kv f l node invoice s) [
    | ok i ↦ ok i
    | err e ↦ find_invoice invoice rest s
    | panic ↦ panic
  ]

  unfoldable pub get_invoice : Bytes → kv.Store → Outcome MutinyJsError MutinyInvoice
  unfolding find_invoice
  get_invoice invoice s =
      or_err Js.invoice_invalid (l.from_str invoice) >>= λ i. find_invoice i nodes s

  abbrev has_hash : Bytes → MutinyInvoice → Bool
  has_hash hash i = i.payment_hash == hash

  -- The first invoice of a hash in the lists of the nodes; a list that fails is passed over.
  unfoldable pub find_by_hash :
      l.Duration → Bytes → List (Bytes × Node f l) → kv.Store → Outcome MutinyJsError MutinyInvoice
  find_by_hash now hash [] s = err Js.invoice_invalid
  find_by_hash now hash ((k, node) ∷ rest) s = elim (Invoices.list_invoices kv f l node now s) [
    | ok invs ↦ elim (find (has_hash hash) invs) [
      | some i ↦ ok i
      | none ↦ find_by_hash now hash rest s
    ]
    | err e ↦ find_by_hash now hash rest s
    | panic ↦ panic
  ]

  unfoldable pub get_invoice_by_hash :
      l.Duration → Bytes → kv.Store → Outcome MutinyJsError MutinyInvoice
  unfolding find_by_hash
  get_invoice_by_hash now hash s = find_by_hash now hash nodes s

  unfoldable pub collect_invoices :
      l.Duration → List (Bytes × Node f l) → kv.Store → Outcome MutinyJsError (List MutinyInvoice)
  collect_invoices now [] s = ok []
  collect_invoices now ((k, node) ∷ rest) s = elim (Invoices.list_invoices kv f l node now s) [
    | ok invs ↦ collect_invoices now rest s >>= λ invoices. ok (invs ++ invoices)
    | err e ↦ collect_invoices now rest s
    | panic ↦ panic
  ]

  unfoldable pub list_invoices : l.Duration → kv.Store → Outcome MutinyJsError (List MutinyInvoice)
  unfolding collect_invoices
  list_invoices now s = collect_invoices now nodes s
