-- ===== src/Node/Created.antt =====
-- An invoice that create_invoice of node-manager/src/node.rs made, as get_invoice shows it before
-- and after event.rs claims its payment.
use mutiny_web_poc.Prelude.{
  ◌↔◌, ap, ℕ, ◌*◌, ◌/◌, ◌%◌, ◌^◌, ◌<◌, ◌↔◌, Bool, true, Option, none, some, List, Bytes, ◌≡◌, refl,
  ◌∙◌, arith,
}
use mathlib.Core.Option
use mutiny_web_poc.Prelude.Outcome.{Outcome, ok, err, panic, >>>-eq-ok, map_err}
use mutiny_web_poc.Storage.{KeyValue}
use mutiny_web_poc.Errors.{MutinyError, invoice_creation_failed}
use mutiny_web_poc.Payment.{PaymentInfo, IoError, Formats, pending, succeeded}
use mutiny_web_poc.Payment.Persister.{persist_payment_info, read_payment_info}
use mutiny_web_poc.Payment.Persister.Records.{read-persist}
use mutiny_web_poc.Payment.Events.{
  Services, PaymentPurpose, World, claimed_info, payment_claimed, handle_event,
}
use mutiny_web_poc.Payment.Events.Effects.{payment_claimed-records}
use mutiny_web_poc.Node.{to_sats, [], Lightning, Node, from_invoice, to_msats}
use mutiny_web_poc.Node.Invoices.{
  keep_created, NodeWorld, built_invoice, create_invoice, created_info, get_invoice, persist,
  return, shown, get_payment_info_from_persisters,
}

wrapped_iff : (sats : ℕ) → ((sats * 1000) % 2 ^ 64 / 1000 ≡ sats) ↔ (sats * 1000 < 2 ^ 64)
wrapped_iff sats = (λ e. omega arith, λ h. omega arith)

wrapped-some_iff :
    (sats : ℕ) → (some ((sats * 1000) % 2 ^ 64 / 1000) ≡ some sats) ↔ (sats * 1000 < 2 ^ 64)
wrapped-some_iff sats = ground (arith, wrapped_iff sats)

module _ (kv : KeyValue) (f : Formats) (l : Lightning f) (node : Node f l) where
  map_err-ok :
      {F : Type 0} (convert : IoError → F) (r : Outcome IoError (Unit {0}))
      → map_err convert r ≡ ok tt
      → r ≡ ok tt
  map_err-ok convert (ok a) h = ground arith
  map_err-ok convert (err e) h = absurd (ground arith)
  map_err-ok convert panic h = absurd (ground arith)

  -- A record that was persisted is in the store.
  pub persist-ok :
      (convert : IoError → MutinyError) (hash : Bytes) (info : PaymentInfo) (inbound : Bool)
      (w u : NodeWorld kv f l)
      → persist kv f l node convert hash info inbound w ≡ (ok tt, u)
      → (persist_payment_info kv f node.node_id hash info inbound w.store ≡ (ok tt, u.store))
        × (u.payments ≡ w.payments)
  unfolding persist
  persist-ok convert hash info inbound w u h = (
    ground (
      arith,
      map_err-ok convert (persist_payment_info kv f node.node_id hash info inbound w.store).0,
    ),
    ground arith,
  )

  pub get_invoice-inbound :
      (invoice : l.Invoice) (info : PaymentInfo) (s : kv.Store)
      → read_payment_info kv f node.node_id (l.payment_hash invoice) true s ≡ ok (some info)
      → get_invoice kv f l node invoice s ≡ ok (shown kv f l node invoice (info, true))
  unfolding get_invoice get_payment_info_from_persisters
  get_invoice-inbound invoice info s h = rw h refl

  shown-pending :
      (invoice : l.Invoice) (now : l.Duration) (amount : Option ℕ)
      → shown kv f l node invoice (created_info kv f l node now amount invoice, true)
        ≡ from_invoice l invoice
  unfolding shown created_info from_invoice
  shown-pending invoice now amount = refl

  shown-succeeded :
      (invoice : l.Invoice) (info : PaymentInfo)
      → info.status ≡ succeeded
      → shown kv f l node invoice (info, true) ≡ record (from_invoice l invoice) { paid = true }
  unfolding shown from_invoice
  shown-succeeded invoice info h = rw h refl

  created_from :
      (now : l.Duration) (amount : Option ℕ) (built : Option l.Invoice) (w u : NodeWorld kv f l)
      (invoice : l.Invoice)
      → keep_created kv f l node now amount built w ≡ (ok invoice, u)
      → (built ≡ some invoice)
        × (persist kv f l node
              (λ _. invoice_creation_failed)
              (l.payment_hash invoice)
              (created_info kv f l node now amount invoice)
              true
              w
            ≡ (ok tt, u))
  unfolding keep_created return
  created_from now amount none w u invoice h = absurd (ground arith)
  created_from now amount (some built) w u invoice h =
      let (_, v, written, rest) =
        >>>-eq-ok
          (persist kv f l node (λ _. invoice_creation_failed) (l.payment_hash built)
            (created_info kv f l node now amount built) true)
          (λ _. return kv f l node (ok built)) w h in
      let same : built ≡ invoice = ground (arith, rest) in
      let ends : v ≡ u = ground (arith, rest) in (rw same, rw (← same, ← ends) written)

  -- The first two results of a creation: the builder made the invoice, and its record is stored.
  pub created :
      (now later : l.Duration) (amount_sat : Option ℕ) (description : Bytes)
      (hints : Option (List l.RouteHints)) (w u : NodeWorld kv f l) (invoice : l.Invoice)
      → create_invoice kv f l node now later amount_sat description hints w ≡ (ok invoice, u)
      → (built_invoice kv f l node now (Option.map to_msats amount_sat) description hints
          ≡ some invoice)
        × (persist_payment_info kv f node.node_id
              (l.payment_hash invoice)
              (created_info kv f l node later (Option.map to_msats amount_sat) invoice)
              true
              w.store
            ≡ (ok tt, u.store))
        × (u.payments ≡ w.payments)
  unfolding create_invoice
  created now later amount_sat description hints w u invoice h =
      let (built, written) =
        created_from later (Option.map to_msats amount_sat)
          (built_invoice kv f l node now (Option.map to_msats amount_sat) description hints) w u
          invoice h in
      let (stored, same) =
        persist-ok (λ _. invoice_creation_failed) (l.payment_hash invoice)
          (created_info kv f l node later (Option.map to_msats amount_sat) invoice) true w u
          written in
      (built, stored, same)

  -- An invoice that was created is shown as received and unpaid by get_invoice; its record is
  -- pending with its secret, its text and the amount asked for; no payment was made.
  pub create_invoice-get_invoice :
      (now later : l.Duration) (amount_sat : Option ℕ) (description : Bytes)
      (hints : Option (List l.RouteHints)) (w u : NodeWorld kv f l) (invoice : l.Invoice)
      → create_invoice kv f l node now later amount_sat description hints w ≡ (ok invoice, u)
      → (get_invoice kv f l node invoice u.store ≡ ok (from_invoice l invoice))
        × (read_payment_info kv f node.node_id (l.payment_hash invoice) true u.store
            ≡ ok (
                some (record {
                  preimage = none;
                  secret = some (l.payment_secret invoice);
                  status = pending;
                  amt_msat = record { msat = Option.map to_msats amount_sat };
                  fee_paid_msat = none;
                  bolt11 = some (l.to_string invoice);
                  last_update = l.as_secs later;
                })))
        × (u.payments ≡ w.payments)
  unfolding created_info
  create_invoice-get_invoice now later amount_sat description hints w u invoice h =
      let amount : Option ℕ = Option.map to_msats amount_sat in
      let (_, stored, same) = created now later amount_sat description hints w u invoice h in
      let reads =
        (read-persist kv f node.node_id (l.payment_hash invoice)
          (created_info kv f l node later amount invoice) true w.store u.store stored).0 in
      (
        get_invoice-inbound invoice (created_info kv f l node later amount invoice) u.store reads
            ∙ ap ok (shown-pending invoice later amount),
        reads,
        same,
      )

  abbrev at_store : (sv : Services) → kv.Store → World sv kv f node.node_id
  at_store sv s = record { store = s; calls = [] }

  -- When the payment of an invoice that was created is claimed, and its record can be written, the
  -- handler succeeds and get_invoice shows the invoice as paid, with nothing else of it changed.
  pub create_invoice-payment_claimed :
      (now later : l.Duration) (amount_sat : Option ℕ) (description : Bytes)
      (hints : Option (List l.RouteHints)) (w u : NodeWorld kv f l) (invoice : l.Invoice)
      (sv : Services) (purpose : PaymentPurpose) (amount_msat : ℕ) (paid_store : kv.Store)
      → create_invoice kv f l node now later amount_sat description hints w ≡ (ok invoice, u)
      → persist_payment_info kv f node.node_id
          (l.payment_hash invoice)
          (claimed_info sv kv f node.node_id
            (some (created_info kv f l node later (Option.map to_msats amount_sat) invoice))
            purpose
            amount_msat)
          true
          u.store
        ≡ (ok tt, paid_store)
      → (handle_event sv kv f node.node_id
            (payment_claimed (l.payment_hash invoice) purpose amount_msat)
            (at_store sv u.store)
          ≡ (ok tt, at_store sv paid_store))
        × (get_invoice kv f l node invoice paid_store
            ≡ ok (record (from_invoice l invoice) { paid = true }))
  create_invoice-payment_claimed now later amount_sat description hints w u invoice sv purpose
        amount_msat paid_store h claims =
      let amount : Option ℕ = Option.map to_msats amount_sat in
      let (_, stored, same) = created now later amount_sat description hints w u invoice h in
      let reads =
        (read-persist kv f node.node_id (l.payment_hash invoice)
          (created_info kv f l node later amount invoice) true w.store u.store stored).0 in
      let (info, handled, read, status, _, _, _, _, _) =
        payment_claimed-records sv kv f node.node_id (at_store sv u.store) (l.payment_hash invoice)
          purpose amount_msat (some (created_info kv f l node later amount invoice)) paid_store
          reads claims in
      (
        handled,
        get_invoice-inbound invoice info paid_store read
            ∙ ap ok (shown-succeeded invoice info status),
      )

  -- Where LDK's builders put the amount that they are given into the invoice, an invoice that was
  -- created for an amount shows this amount exactly when its millisatoshis fit 64 bits.
  pub create_invoice-amount :
      ((now : l.Duration) (amount : Option ℕ) (description : Bytes)
          (hints : Option (List l.RouteHints)) (built : l.Invoice)
        → built_invoice kv f l node now amount description hints ≡ some built
        → l.amount_milli_satoshis built ≡ amount)
      → (now later : l.Duration) (sats : ℕ) (description : Bytes)
        (hints : Option (List l.RouteHints)) (w u : NodeWorld kv f l) (invoice : l.Invoice)
      → create_invoice kv f l node now later (some sats) description hints w ≡ (ok invoice, u)
      → ((from_invoice l invoice).amount_sats ≡ some sats) ↔ (sats * 1000 < 2 ^ 64)
  unfolding from_invoice to_sats to_msats
  create_invoice-amount carries now later sats description hints w u invoice h =
      let (built, _, _) = created now later (some sats) description hints w u invoice h in
      rw (carries now (some (to_msats sats)) description hints invoice built)
        (wrapped-some_iff sats)
