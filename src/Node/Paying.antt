-- ===== src/Node/Paying.antt =====
-- The branches of pay_invoice and keysend of node-manager/src/node.rs.
use mutiny_web_poc.Prelude.{
  sym, ℕ, ◌*◌, ◌%◌, ◌^◌, true, false, Option, none, some, List, [], ◌∷◌, ◌++◌, Bytes, ◌≡◌, refl,
  ◌∙◌, inl, inr, Option-cases, ap,
}
use mathlib.Core.List.{append-nil}
use mutiny_web_poc.Prelude.Outcome.{Outcome, ok, err}
use mutiny_web_poc.Storage.{KeyValue}
use mutiny_web_poc.Errors.{MutinyError, invoice_invalid, routing_failed, seed_generation_failed}
use mutiny_web_poc.Payment.{in_flight, failed, Formats}
use mutiny_web_poc.Payment.Persister.{persist_payment_info, read_payment_info}
use mutiny_web_poc.Node.{
  Lightning, MutinyInvoice, Node, from_invoice, to_msats, Payment, pay_invoice, pay_pubkey,
  pay_zero_value_invoice,
}
use mutiny_web_poc.Node.Invoices.{NodeWorld, return}
use mutiny_web_poc.Node.Payments.{
  pay, send_and_persist, outbound_info, sent_invoice, keysend, keysend_info, keysend_invoice,
}
use mutiny_web_poc.Node.Sending.{after, sends_once, send-accepted, send-refused}

module _ {f : Formats} (l : Lightning f) where
  -- The payment that the amount of an invoice and the given one ask for, with its millisatoshis, if
  -- exactly one of the two is given.
  abbrev pub asked : l.Invoice → Option ℕ → Option ℕ → Option (Payment f l × ℕ)
  asked invoice none (some sats) =
      some (pay_zero_value_invoice invoice ((sats * 1000) % 2 ^ 64), (sats * 1000) % 2 ^ 64)
  asked invoice (some msats) none = some (pay_invoice invoice, msats)
  asked invoice _ _ = none

  abbrev pub payments_of : Option (Payment f l × ℕ) → List (Payment f l)
  payments_of none = []
  payments_of (some (payment, msats)) = payment ∷ []

module _ (kv : KeyValue) (f : Formats) (l : Lightning f) (node : Node f l) (w : NodeWorld kv f l)
    (now : l.Duration) (invoice : l.Invoice) where
  abbrev pay_asked : Option (Payment f l × ℕ) → Outcome MutinyError MutinyInvoice × NodeWorld kv f l
  pay_asked none = (err invoice_invalid, w)
  pay_asked (some (payment, msats)) =
      send_and_persist kv f l node payment (l.payment_hash invoice)
        (outbound_info kv f l node now msats invoice) (sent_invoice kv f l node invoice) w

  pay-asked :
      (amt_sats : Option ℕ)
      → pay kv f l node now invoice amt_sats w
        ≡ pay_asked (asked l invoice (l.amount_milli_satoshis invoice) amt_sats)
  unfolding pay return to_msats
  pay-asked none = elim (Option-cases (l.amount_milli_satoshis invoice)) [
    | inl e ↦ rw (pay, e) refl
    | inr (a, e) ↦ rw (pay, e) refl
  ]
  pay-asked (some sats) = elim (Option-cases (l.amount_milli_satoshis invoice)) [
    | inl e ↦ rw (pay, e) refl
    | inr (a, e) ↦ rw (pay, e) refl
  ]

  -- Whatever the storage and LDK answer, pay_invoice asks LDK for one payment, of the invoice and
  -- for the amount that the invoice or else the caller names, where exactly one of them names one,
  -- and for none otherwise.
  pub pay-payments :
      (amt_sats : Option ℕ)
      → (pay kv f l node now invoice amt_sats w).1.payments
        ≡ w.payments ++ payments_of l (asked l invoice (l.amount_milli_satoshis invoice) amt_sats)
  pay-payments amt_sats =
      ap (λ r. r.1.payments) (pay-asked amt_sats)
      ∙ go (asked l invoice (l.amount_milli_satoshis invoice) amt_sats)
    where
      go : (o : Option (Payment f l × ℕ)) → (pay_asked o).1.payments ≡ w.payments ++ payments_of l o
      go none = sym (append-nil w.payments)
      go (some (payment, msats)) =
          sends_once kv f l node w payment (l.payment_hash invoice)
            (outbound_info kv f l node now msats invoice) (sent_invoice kv f l node invoice)

  -- Where the invoice and the caller both name an amount or both name none, pay_invoice returns
  -- InvoiceInvalid, and neither sends nor stores.
  pub pay-refuses :
      (amt_sats : Option ℕ)
      → asked l invoice (l.amount_milli_satoshis invoice) amt_sats ≡ none
      → pay kv f l node now invoice amt_sats w ≡ (err invoice_invalid, w)
  pay-refuses amt_sats h = pay-asked amt_sats ∙ ap pay_asked h

  -- A payment that LDK takes and whose record can be written is returned as sent and unpaid, and
  -- is stored as in flight with the invoice and the amount.
  pub pay-accepted :
      (amt_sats : Option ℕ) (payment : Payment f l) (msats : ℕ) (u : kv.Store)
      → asked l invoice (l.amount_milli_satoshis invoice) amt_sats ≡ some (payment, msats)
      → node.is_sent payment ≡ true
      → persist_payment_info kv f node.node_id
          (l.payment_hash invoice)
          (outbound_info kv f l node now msats invoice in_flight)
          false
          w.store
        ≡ (ok tt, u)
      → (pay kv f l node now invoice amt_sats w ≡ (
        ok (record (from_invoice l invoice) { paid = false; is_send = true }),
        after kv f l node w u payment,
      ))
        × (read_payment_info kv f node.node_id (l.payment_hash invoice) false u
            ≡ ok (
                some (record {
                  preimage = none;
                  secret = none;
                  status = in_flight;
                  amt_msat = record { msat = some msats };
                  fee_paid_msat = none;
                  bolt11 = some (l.to_string invoice);
                  last_update = l.as_secs now;
                })))
  unfolding outbound_info
  pay-accepted amt_sats payment msats u h sent stored =
      let (ran, read) =
        send-accepted kv f l node w payment (l.payment_hash invoice)
          (outbound_info kv f l node now msats invoice) (sent_invoice kv f l node invoice) u stored
          sent in
      (pay-asked amt_sats ∙ ap pay_asked h ∙ ran, read)

  -- A payment that LDK refuses, and whose records can be written, fails with RoutingFailed, and
  -- whatever was stored of the hash, also a payment that succeeded, is replaced by a failed record
  -- without a preimage.
  pub pay-refused :
      (amt_sats : Option ℕ) (payment : Payment f l) (msats : ℕ) (u v : kv.Store)
      → asked l invoice (l.amount_milli_satoshis invoice) amt_sats ≡ some (payment, msats)
      → node.is_sent payment ≡ false
      → persist_payment_info kv f node.node_id
          (l.payment_hash invoice)
          (outbound_info kv f l node now msats invoice in_flight)
          false
          w.store
        ≡ (ok tt, u)
      → persist_payment_info kv f node.node_id
          (l.payment_hash invoice)
          (outbound_info kv f l node now msats invoice failed)
          false
          u
        ≡ (ok tt, v)
      → (pay kv f l node now invoice amt_sats w
          ≡ (err routing_failed, after kv f l node w v payment))
        × (read_payment_info kv f node.node_id (l.payment_hash invoice) false v
            ≡ ok (
                some (record {
                  preimage = none;
                  secret = none;
                  status = failed;
                  amt_msat = record { msat = some msats };
                  fee_paid_msat = none;
                  bolt11 = some (l.to_string invoice);
                  last_update = l.as_secs now;
                })))
  unfolding outbound_info
  pay-refused amt_sats payment msats u v h sent stored again =
      let (ran, read) =
        send-refused kv f l node w payment (l.payment_hash invoice)
          (outbound_info kv f l node now msats invoice) (sent_invoice kv f l node invoice) u v
          stored again sent in
      (pay-asked amt_sats ∙ ap pay_asked h ∙ ran, read)

  -- A spontaneous payment asks LDK for one payment, of the wrapped amount and under the preimage of
  -- the entropy, and for none without entropy; if LDK takes it and its record can be written, the
  -- returned invoice carries the hash of the preimage and the unwrapped amount, and the record is
  -- stored as in flight with the preimage.
  pub keysend-accepted :
      (preimage : Bytes) (to_node : f.PublicKey) (amt_sats : ℕ) (u : kv.Store)
      → node.is_sent (pay_pubkey to_node preimage ((amt_sats * 1000) % 2 ^ 64) 40) ≡ true
      → persist_payment_info kv f node.node_id
          (l.sha256 preimage)
          (keysend_info kv f l node now ((amt_sats * 1000) % 2 ^ 64) preimage in_flight)
          false
          w.store
        ≡ (ok tt, u)
      → (keysend kv f l node (some preimage) now to_node amt_sats w ≡ (
        ok (keysend_invoice kv f l node now to_node amt_sats preimage),
        after kv f l node w u (pay_pubkey to_node preimage ((amt_sats * 1000) % 2 ^ 64) 40),
      ))
        × (read_payment_info kv f node.node_id (l.sha256 preimage) false u
            ≡ ok (
                some
                  (keysend_info kv f l node now ((amt_sats * 1000) % 2 ^ 64) preimage in_flight)))
        × (keysend kv f l node none now to_node amt_sats w ≡ (err seed_generation_failed, w))
  unfolding keysend to_msats return
  keysend-accepted preimage to_node amt_sats u sent stored =
      let (ran, read) =
        send-accepted kv f l node w (pay_pubkey to_node preimage ((amt_sats * 1000) % 2 ^ 64) 40)
          (l.sha256 preimage) (keysend_info kv f l node now ((amt_sats * 1000) % 2 ^ 64) preimage)
          (keysend_invoice kv f l node now to_node amt_sats preimage) u stored sent in
      (ran, read, refl)
