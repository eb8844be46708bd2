-- ===== src/Node/Invoices.antt =====
-- Invoices and payments of a node: create_invoice, get_invoice, list_invoices, pay_invoice and
-- keysend of node-manager/src/node.rs. Log lines are left out.
use mutiny_web_poc.Prelude.{
  partial_eq_nat, ℕ, Bool, true, false, Option, none, some, List, [], ◌∷◌, ◌++◌, Bytes, ◌==◌,
  if◌then◌else◌, not, ◌&&◌,
}
use mathlib.Core.Option
use mutiny_web_poc.Prelude.Outcome.{Outcome, ok, err, Action, ◌>>=◌, ◌>>>◌, map_err, unwrap}
use mutiny_web_poc.Storage.{KeyValue}
use mutiny_web_poc.Storage
use mutiny_web_poc.Errors.{
  MutinyError, invoice_invalid, invoice_creation_failed, persistence_failed,
}
use mutiny_web_poc.Payment.{
  PaymentInfo, HtlcStatus, pending, in_flight, succeeded, IoError, Formats,
}
use mutiny_web_poc.Payment.Persister.{persist_payment_info, read_payment_info, list_payment_info}
use mutiny_web_poc.Node.{
  Lightning, MutinyInvoice, Payment, Node, to_msats, to_sats, from_invoice, currency_from_network,
}

-- `From<io::Error>` for `MutinyError`
abbrev pub from_io_error : IoError → MutinyError
from_io_error e = persistence_failed Storage.other

abbrev pub is_succeeded : HtlcStatus → Bool
is_succeeded succeeded = true
is_succeeded _ = false

-- `HTLCStatus::Succeeded | HTLCStatus::InFlight`
abbrev pub is_kept : HtlcStatus → Bool
is_kept succeeded = true
is_kept in_flight = true
is_kept _ = false

module _ {A B : Type 0} where
  abbrev pub filter_map : (A → Option B) → List A → List B
  filter_map g [] = []
  filter_map g (x ∷ xs) = elim (g x) [ none ↦ filter_map g xs | some y ↦ y ∷ filter_map g xs ]

module _ (kv : KeyValue) (f : Formats) (l : Lightning f) where
  -- The persister's storage, and the payments that were asked of LDK.
  pub record NodeWorld : Type 0 where
    pub store : kv.Store
    pub payments : List (Payment f l)

  abbrev pub Method {ℓ} : Type ℓ → Type ℓ
  Method A = Action MutinyError NodeWorld A

module _ (kv : KeyValue) (f : Formats) (l : Lightning f) (node : Node f l) where
  unfoldable pub return {ℓ} : {A : Type ℓ} → Outcome MutinyError A → Method kv f l A
  return r w = (r, w)

  unfoldable pub persist :
      (IoError → MutinyError) → Bytes → PaymentInfo → Bool → Method kv f l (Unit {0})
  persist convert payment_hash info inbound w =
      let r = persist_payment_info kv f node.node_id payment_hash info inbound w.store in
      (map_err convert r.0, record w { store = r.1 })

  -- LDK's answer to a payment.
  unfoldable pub send : Payment f l → Method kv f l Bool
  send payment w = (ok (node.is_sent payment), record w { payments = w.payments ++ payment ∷ [] })

  -- The record of an invoice that was created.
  unfoldable pub created_info : l.Duration → Option ℕ → l.Invoice → PaymentInfo
  created_info now amount_msat invoice = record {
    preimage = none;
    secret = some (l.payment_secret invoice);
    status = pending;
    amt_msat = record { msat = amount_msat };
    fee_paid_msat = none;
    bolt11 = some (l.to_string invoice);
    last_update = l.as_secs now;
  }

  abbrev pub built_invoice :
      l.Duration → Option ℕ → Bytes → Option (List l.RouteHints) → Option l.Invoice
  built_invoice now amount_msat description none =
      node.create_invoice_from_channelmanager (currency_from_network node.network) amount_msat
        description now 1500
  built_invoice now amount_msat description (some r) =
      node.create_phantom_invoice amount_msat description 1500 r
        (currency_from_network node.network)

  -- The record of a new invoice is persisted before the invoice is returned.
  unfoldable pub keep_created : l.Duration → Option ℕ → Option l.Invoice → Method kv f l l.Invoice
  unfolding persist return created_info
  keep_created now amount_msat none = return (err invoice_creation_failed)
  keep_created now amount_msat (some invoice) =
      persist (λ _. invoice_creation_failed) (l.payment_hash invoice)
        (created_info now amount_msat invoice) true
      >>> λ _. return (ok invoice)

  -- The clock is read for the invoice, and later for its record.
  unfoldable pub create_invoice :
      l.Duration
      → l.Duration
      → Option ℕ
      → Bytes
      → Option (List l.RouteHints)
      → Method kv f l l.Invoice
  unfolding keep_created
  create_invoice now later amount_sat description route_hints =
      keep_created later (Option.map to_msats amount_sat)
        (built_invoice now (Option.map to_msats amount_sat) description route_hints)

  -- The saved record of a hash and whether it is inbound: inbound is tried first.
  unfoldable pub get_payment_info_from_persisters :
      Bytes → kv.Store → Outcome MutinyError (PaymentInfo × Bool)
  get_payment_info_from_persisters payment_hash s =
      map_err from_io_error (read_payment_info kv f node.node_id payment_hash true s) >>= λ inbound.
      elim inbound [
        | some info ↦ ok (info, true)
        | none ↦
            map_err from_io_error (read_payment_info kv f node.node_id payment_hash false s)
            >>= λ outbound. elim outbound [
              | some info ↦ ok (info, false)
              | none ↦ err invoice_invalid
            ]
      ]

  -- An invoice with what a record says of it.
  unfoldable pub shown : l.Invoice → PaymentInfo × Bool → MutinyInvoice
  unfolding from_invoice
  shown invoice saved = record (from_invoice l invoice) {
    is_send = not saved.1;
    paid = is_succeeded saved.0.status;
  }

  unfoldable pub get_invoice : l.Invoice → kv.Store → Outcome MutinyError MutinyInvoice
  unfolding get_payment_info_from_persisters shown
  get_invoice invoice s = get_payment_info_from_persisters (l.payment_hash invoice) s >>= λ saved.
      ok (shown invoice saved)

  -- The amount of an invoice in a list: the record's, where the invoice has none or zero.
  unfoldable pub listed_amount : Option ℕ → Option ℕ → Option ℕ
  unfolding to_sats
  listed_amount (some inv_amt) amt_msat =
      if inv_amt == 0 then Option.map to_sats amt_msat else some (to_sats inv_amt)
  listed_amount none amt_msat = Option.map to_sats amt_msat

  -- A record without an invoice, under its storage key.
  unfoldable pub without_invoice : Bool → Bytes → PaymentInfo → MutinyInvoice
  unfolding to_sats
  without_invoice inbound h i = record {
    bolt11 = none;
    description = none;
    payment_hash = h;
    preimage = Option.map f.to_hex i.preimage;
    payee_pubkey = none;
    amount_sats = Option.map to_sats i.amt_msat.msat;
    expire = i.last_update;
    paid = is_succeeded i.status;
    fees_paid = Option.map to_sats i.fee_paid_msat;
    is_send = not inbound;
  }

  unfoldable pub with_invoice :
      l.Duration → Bool → PaymentInfo → Option l.Invoice → Option MutinyInvoice
  unfolding shown listed_amount
  with_invoice now inbound i none = none
  with_invoice now inbound i (some invoice) =
      if l.would_expire invoice now && not (is_kept i.status)
      then none
      else some (record (shown invoice (i, inbound)) {
        amount_sats = listed_amount (l.amount_milli_satoshis invoice) i.amt_msat.msat;
      })

  unfoldable pub list_entry : l.Duration → Bool → Bytes × PaymentInfo → Option MutinyInvoice
  unfolding with_invoice without_invoice
  list_entry now inbound (h, i) = elim i.bolt11 [
    | some bolt11 ↦ with_invoice now inbound i (l.from_str bolt11)
    | none ↦ some (without_invoice inbound h i)
  ]

  unfoldable pub list_payment_info_from_persisters :
      l.Duration → Bool → kv.Store → Outcome MutinyError (List MutinyInvoice)
  unfolding list_entry
  list_payment_info_from_persisters now inbound s =
      unwrap (list_payment_info kv f node.node_id inbound s) >>= λ m.
      ok (filter_map (list_entry now inbound) m)

  unfoldable pub list_invoices : l.Duration → kv.Store → Outcome MutinyError (List MutinyInvoice)
  unfolding list_payment_info_from_persisters
  list_invoices now s = list_payment_info_from_persisters now true s >>= λ inbound_invoices.
      list_payment_info_from_persisters now false s >>= λ outbound_invoices.
      ok (inbound_invoices ++ outbound_invoices)
