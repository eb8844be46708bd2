-- ===== src/Node/Payments.antt =====
-- Payments of a node: pay_invoice and keysend of node-manager/src/node.rs.
use mutiny_web_poc.Prelude.{ℕ, true, false, Option, none, some, Bytes, if◌then◌else◌}
use mutiny_web_poc.Prelude.Outcome.{ok, err, ◌>>>◌}
use mutiny_web_poc.Storage.{KeyValue}
use mutiny_web_poc.Errors.{invoice_invalid, routing_failed, seed_generation_failed}
use mutiny_web_poc.Payment.{PaymentInfo, HtlcStatus, in_flight, failed, Formats}
use mutiny_web_poc.Node.{
  Lightning, MutinyInvoice, Payment, Node, to_msats, from_invoice, pay_invoice,
  pay_zero_value_invoice, pay_pubkey,
}
use mutiny_web_poc.Node.Invoices.{Method, return, persist, send, from_io_error}

module _ (kv : KeyValue) (f : Formats) (l : Lightning f) (node : Node f l) where
  -- The record of a payment of an invoice.
  unfoldable pub outbound_info : l.Duration → ℕ → l.Invoice → HtlcStatus → PaymentInfo
  outbound_info now amt_msat invoice status = record {
    preimage = none;
    secret = none;
    status = status;
    amt_msat = record { msat = some amt_msat };
    fee_paid_msat = none;
    bolt11 = some (l.to_string invoice);
    last_update = l.as_secs now;
  }

  -- The payment is sent, and only then stored: in flight, and after an error as failed.
  unfoldable pub send_and_persist :
      Payment f l → Bytes → (HtlcStatus → PaymentInfo) → MutinyInvoice → Method kv f l MutinyInvoice
  unfolding persist return send
  send_and_persist payment payment_hash info result = send kv f l node payment >>> λ sent.
      persist kv f l node from_io_error payment_hash (info in_flight) false >>> λ _.
      if sent
      then return kv f l node (ok result)
      else (persist kv f l node from_io_error payment_hash (info failed) false >>> λ _.
          return kv f l node (err routing_failed))

  abbrev pub sent_invoice : l.Invoice → MutinyInvoice
  sent_invoice invoice = record (from_invoice l invoice) { paid = false; is_send = true }

  unfoldable pub pay : l.Duration → l.Invoice → Option ℕ → Method kv f l MutinyInvoice
  unfolding send_and_persist outbound_info return
  pay now invoice amt_sats = elim (l.amount_milli_satoshis invoice) [
    | none ↦ elim amt_sats [
      | none ↦ return kv f l node (err invoice_invalid)
      | some sats ↦
          send_and_persist (pay_zero_value_invoice invoice (to_msats sats)) (l.payment_hash invoice)
            (outbound_info now (to_msats sats) invoice) (sent_invoice invoice)
    ]
    | some amt_msat ↦ elim amt_sats [
      | some sats ↦ return kv f l node (err invoice_invalid)
      | none ↦
          send_and_persist (pay_invoice invoice) (l.payment_hash invoice)
            (outbound_info now amt_msat invoice) (sent_invoice invoice)
    ]
  ]

  -- The record of a spontaneous payment.
  unfoldable pub keysend_info : l.Duration → ℕ → Bytes → HtlcStatus → PaymentInfo
  keysend_info now amt_msats preimage status = record {
    preimage = some preimage;
    secret = none;
    status = status;
    amt_msat = record { msat = some amt_msats };
    fee_paid_msat = none;
    bolt11 = none;
    last_update = l.as_secs now;
  }

  unfoldable pub keysend_invoice : l.Duration → f.PublicKey → ℕ → Bytes → MutinyInvoice
  keysend_invoice now to_node amt_sats preimage = record {
    bolt11 = none;
    description = none;
    payment_hash = f.to_hex (l.sha256 preimage);
    preimage = some (f.to_hex preimage);
    payee_pubkey = some (l.pubkey_to_hex to_node);
    amount_sats = some amt_sats;
    expire = l.as_secs now;
    paid = false;
    fees_paid = none;
    is_send = true;
  }

  -- The entropy is `getrandom`'s answer.
  unfoldable pub keysend : Option Bytes → l.Duration → f.PublicKey → ℕ → Method kv f l MutinyInvoice
  unfolding send_and_persist keysend_info keysend_invoice return
  keysend none now to_node amt_sats = return kv f l node (err seed_generation_failed)
  keysend (some preimage) now to_node amt_sats =
      send_and_persist (pay_pubkey to_node preimage (to_msats amt_sats) 40) (l.sha256 preimage)
        (keysend_info now (to_msats amt_sats) preimage)
        (keysend_invoice now to_node amt_sats preimage)
