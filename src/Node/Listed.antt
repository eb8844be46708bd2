-- ===== src/Node/Listed.antt =====
-- What list_invoices of node-manager/src/node.rs shows of a stored payment.
use mutiny_web_poc.Prelude.{
  ◌⊎◌, ℕ, Bool, true, false, Option, none, some, List, [], ◌∷◌, ◌++◌, Bytes, ◌≡◌, ◌≢◌, refl, ◌∙◌,
  sym, subst, arith, inl, inr, ◌↔◌, length, length-append, ap, Bool-cases, Option-cases, ◌==◌,
  partial_eq_bytes, bytes_eqb_iff,
}
use mathlib.Core.List.{Mem, mem-cons_self, mem-cons_of_mem}
use mutiny_web_poc.Prelude.Assoc
use mutiny_web_poc.Prelude.Outcome.{Outcome, ok, err, panic, >>=-eq-ok, unwrap}
use mutiny_web_poc.Storage.{KeyValue, MutinyStorageError}
use mutiny_web_poc.Errors.{MutinyError}
use mutiny_web_poc.Payment.{PaymentInfo, HtlcStatus, pending, in_flight, succeeded, failed, Formats}
use mutiny_web_poc.Payment.Persister.{
  record_key, get_key, payment_key, payment_prefix, list_payment_info, persist_payment_info,
}
use mutiny_web_poc.Payment.Persister.Records.{list-persist}
use mutiny_web_poc.Node.{Lightning, MutinyInvoice, Node, to_msats, pay_pubkey}
use mutiny_web_poc.Node.Invoices.{
  NodeWorld, list_entry, with_invoice, without_invoice, is_kept, filter_map,
  list_payment_info_from_persisters,
}
use mutiny_web_poc.Node.Payments.{keysend_info, keysend_invoice, keysend}
use mutiny_web_poc.Node.Sending.{send-accepted}

module _ (kv : KeyValue) (f : Formats) (l : Lightning f) (node : Node f l) (now : l.Duration) where
  is_kept_iff : (s : HtlcStatus) → (is_kept s ≡ false) ↔ ((s ≡ pending) ⊎ (s ≡ failed))
  is_kept_iff pending = ((λ e. inl refl), (λ e. refl))
  is_kept_iff failed = ((λ e. inr refl), (λ e. refl))
  is_kept_iff in_flight = ground arith
  is_kept_iff succeeded = ground arith

  -- A record of an invoice is left out of the list exactly when the invoice has expired and the
  -- payment is pending or failed.
  pub list_entry-eq-none :
      (inbound : Bool) (key : Bytes) (info : PaymentInfo) (invoice : l.Invoice)
      → info.bolt11 ≡ some (l.to_string invoice)
      → (list_entry kv f l node now inbound (key, info) ≡ none)
        ↔ ((l.would_expire invoice now ≡ true) × ((info.status ≡ pending) ⊎ (info.status ≡ failed)))
  unfolding list_entry with_invoice
  list_entry-eq-none inbound key info invoice h =
      rw (h, l.from_str-to_string invoice)
        (ground (arith, is_kept_iff info.status, Bool-cases (l.would_expire invoice now)))

  record_key-longer :
      (inbound : Bool) (payment_hash : Bytes)
      → record_key f node.node_id inbound payment_hash ≢ f.to_hex payment_hash
  unfolding record_key get_key payment_key
  record_key-longer inbound payment_hash same = absurd (
      omega (
        arith,
        ap length same,
        length-append (payment_prefix inbound ++ f.to_hex payment_hash) (b'_' ∷ node.node_id),
        length-append (payment_prefix inbound) (f.to_hex payment_hash),
      ))

  unwrap-ok :
      {A : Type 0} (r : Outcome MutinyStorageError A) (a : A)
      → unwrap {F = MutinyError} r ≡ ok a
      → r ≡ ok a
  unwrap-ok (ok b) a h = ground (arith, h)
  unwrap-ok (err e) a h = absurd (ground (arith, h))
  unwrap-ok panic a h = absurd (ground (arith, h))

  mem-filter_map :
      (g : Bytes × PaymentInfo → Option MutinyInvoice) (m : List (Bytes × PaymentInfo)) (k : Bytes)
      (info : PaymentInfo) (shown : MutinyInvoice)
      → Assoc.get k m ≡ some info
      → g (k, info) ≡ some shown
      → Mem shown (filter_map g m)
  unfolding Assoc.get
  mem-filter_map g [] k info shown got gives = absurd (ground (arith, got))
  mem-filter_map g ((j, v) ∷ m) k info shown got gives = elim (Bool-cases (j == k)) [
    | inl eq ↦
        let value : v ≡ info = ground (arith, got, eq) in
        let first : g (j, v) ≡ some shown =
          ap (λ x. g (x, v)) ((bytes_eqb_iff j k).0 eq) ∙ ap (λ x. g (k, x)) value ∙ gives in
        rw (filter_map, first) mem-cons_self
    | inr ne ↦
        let later = mem-filter_map g m k info shown (ground (arith, got, ne)) gives in
        elim (Option-cases (g (j, v))) [
          | inl skipped ↦ rw (filter_map, skipped) later
          | inr (y, kept) ↦ rw (filter_map, kept) (mem-cons_of_mem y later)
        ]
  ]

  -- After a spontaneous payment that LDK takes and whose record can be written, the outbound list,
  -- where it can be read, has an entry with the payment's preimage whose payment hash is the whole
  -- storage key of the record, not the hash of the invoice that keysend returned, which is the
  -- payment's hash in hex digits.
  pub keysend-list :
      (preimage : Bytes) (to_node : f.PublicKey) (sats : ℕ) (sent_at : l.Duration)
      (w : NodeWorld kv f l) (u : kv.Store) (listed : List MutinyInvoice)
      → persist_payment_info kv f node.node_id
          (l.sha256 preimage)
          (keysend_info kv f l node sent_at (to_msats sats) preimage in_flight)
          false
          w.store
        ≡ (ok tt, u)
      → node.is_sent (pay_pubkey to_node preimage (to_msats sats) 40) ≡ true
      → list_payment_info_from_persisters kv f l node now false
          (keysend kv f l node (some preimage) sent_at to_node sats w).1.store
        ≡ ok listed
      → (shown i : MutinyInvoice) × ((keysend kv f l node (some preimage) sent_at to_node sats w).0
          ≡ ok shown)
        × (shown.payment_hash ≡ f.to_hex (l.sha256 preimage))
        × Mem i listed
        × (i.payment_hash ≡ record_key f node.node_id false (l.sha256 preimage))
        × (i.payment_hash ≢ shown.payment_hash)
        × (i.preimage ≡ some (f.to_hex preimage))
  unfolding keysend keysend_info keysend_invoice without_invoice list_entry
      list_payment_info_from_persisters
  keysend-list preimage to_node sats sent_at w u listed stored sent lists =
      let hash : Bytes = l.sha256 preimage in
      let key : Bytes = record_key f node.node_id false hash in
      let info : HtlcStatus → PaymentInfo =
        keysend_info kv f l node sent_at (to_msats sats) preimage in
      let shown : MutinyInvoice = keysend_invoice kv f l node sent_at to_node sats preimage in
      let i : MutinyInvoice = without_invoice kv f l node false key (info in_flight) in
      let (ran, _) =
        send-accepted kv f l node w (pay_pubkey to_node preimage (to_msats sats) 40) hash info shown
          u stored sent in
      let after_it : list_payment_info_from_persisters kv f l node now false u ≡ ok listed =
        ap (λ r. list_payment_info_from_persisters kv f l node now false r.1.store) (sym ran)
        ∙ lists in
      let (m, read, filtered) =
        >>=-eq-ok (unwrap (list_payment_info kv f node.node_id false u))
          (λ m. ok (filter_map (list_entry kv f l node now false) m)) after_it in
      let got : Assoc.get key m ≡ some (info in_flight) =
        list-persist kv f node.node_id hash (info in_flight) false w.store u node.node_id m stored
          (unwrap-ok (list_payment_info kv f node.node_id false u) m read) in
      let same : filter_map (list_entry kv f l node now false) m ≡ listed =
        ground (arith, filtered) in
      (
        shown,
        i,
        ap (λ r. r.0) ran,
        refl,
        subst (λ x. Mem i x) same
            (mem-filter_map (list_entry kv f l node now false) m key (info in_flight) i got refl),
        refl,
        record_key-longer false hash,
        refl,
      )
