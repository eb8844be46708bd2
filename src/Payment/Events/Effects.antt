-- ===== src/Payment/Events/Effects.antt =====
-- What the events of payments in node-manager/src/event.rs leave in the store and ask for.
use mutiny_web_poc.Prelude.{ℕ, Bool, true, false, Option, none, some, Bytes, ◌≡◌, refl, ◌∙◌}
use mutiny_web_poc.Prelude.Outcome.{ok, ◌>>>◌, >>>-ok}
use mutiny_web_poc.Storage.{KeyValue}
use mutiny_web_poc.Payment.{PaymentInfo, succeeded, failed, Formats}
use mutiny_web_poc.Payment.Persister.{persist_payment_info, read_payment_info}
use mutiny_web_poc.Payment.Persister.Records.{read-persist}
use mutiny_web_poc.Payment.Events.{
  payment_secret, claim_preimage, payment_claimed, payment_failed, payment_sent, sent_info, done,
  claimed_info, failed_info, on_payment_sent, on_payment_failed, on_payment_claimed, update_saved,
  read_info, persist_info, handle_event, Services, PaymentPurpose, World,
}

module _ (sv : Services) (kv : KeyValue) (f : Formats) (node_id : Bytes)
    (w : World sv kv f node_id) where
  -- The world after a record was written.
  abbrev with_store : kv.Store → World sv kv f node_id
  with_store u = record w { store = u }

  persist_info-ok :
      (hash : Bytes) (info : PaymentInfo) (inbound : Bool) (u : kv.Store)
      → persist_payment_info kv f node_id hash info inbound w.store ≡ (ok tt, u)
      → persist_info sv kv f node_id hash info inbound w ≡ (ok tt, with_store u)
  unfolding persist_info
  persist_info-ok hash info inbound u h = rw h refl

  read_info-ok :
      (hash : Bytes) (inbound : Bool) (saved : Option PaymentInfo)
      → read_payment_info kv f node_id hash inbound w.store ≡ ok saved
      → read_info sv kv f node_id hash inbound w ≡ (ok saved, w)
  unfolding read_info
  read_info-ok hash inbound saved h = rw h refl

  abbrev pub bolt11_of : Option PaymentInfo → Option Bytes
  bolt11_of none = none
  bolt11_of (some saved) = saved.bolt11

  claimed_info-fields :
      (saved : Option PaymentInfo) (purpose : PaymentPurpose) (amount : ℕ)
      → ((claimed_info sv kv f node_id saved purpose amount).status ≡ succeeded)
        × ((claimed_info sv kv f node_id saved purpose amount).preimage
            ≡ claim_preimage sv kv f node_id purpose)
        × ((claimed_info sv kv f node_id saved purpose amount).secret
            ≡ payment_secret sv kv f node_id purpose)
        × ((claimed_info sv kv f node_id saved purpose amount).amt_msat.msat ≡ some amount)
        × ((claimed_info sv kv f node_id saved purpose amount).bolt11 ≡ bolt11_of saved)
        × ((claimed_info sv kv f node_id saved purpose amount).last_update ≡ sv.now)
  unfolding claimed_info
  claimed_info-fields none purpose amount = (refl, refl, refl, refl, refl, refl)
  claimed_info-fields (some saved) purpose amount = (refl, refl, refl, refl, refl, refl)

  -- A claimed payment that can be written is stored as inbound and succeeded, with the preimage and
  -- the secret of its purpose, its amount and the time; a saved record keeps its invoice.
  pub payment_claimed-records :
      (hash : Bytes) (purpose : PaymentPurpose) (amount : ℕ) (saved : Option PaymentInfo)
      (u : kv.Store)
      → read_payment_info kv f node_id hash true w.store ≡ ok saved
      → persist_payment_info kv f node_id hash
          (claimed_info sv kv f node_id saved purpose amount)
          true
          w.store
        ≡ (ok tt, u)
      → (info : PaymentInfo) × (handle_event sv kv f node_id (payment_claimed hash purpose amount) w
          ≡ (ok tt, with_store u))
        × (read_payment_info kv f node_id hash true u ≡ ok (some info))
        × (info.status ≡ succeeded)
        × (info.preimage ≡ claim_preimage sv kv f node_id purpose)
        × (info.secret ≡ payment_secret sv kv f node_id purpose)
        × (info.amt_msat.msat ≡ some amount)
        × (info.bolt11 ≡ bolt11_of saved)
        × (info.last_update ≡ sv.now)
  unfolding handle_event on_payment_claimed
  payment_claimed-records hash purpose amount saved u reads writes =
      let (status, preimage, secret, amt, invoice, updated) =
        claimed_info-fields saved purpose amount in
      (
        claimed_info sv kv f node_id saved purpose amount,
        >>>-ok (read_info sv kv f node_id hash true)
              (λ o.
                persist_info sv kv f node_id hash (claimed_info sv kv f node_id o purpose amount)
                  true)
              w w saved (read_info-ok hash true saved reads)
            ∙ persist_info-ok hash (claimed_info sv kv f node_id saved purpose amount) true u
                writes,
        (read-persist kv f node_id hash (claimed_info sv kv f node_id saved purpose amount) true
            w.store u writes).0,
        status,
        preimage,
        secret,
        amt,
        invoice,
        updated,
      )

  outbound :
      (hash : Bytes) (change : PaymentInfo → PaymentInfo) (saved : PaymentInfo) (u : kv.Store)
      → read_payment_info kv f node_id hash false w.store ≡ ok (some saved)
      → persist_payment_info kv f node_id hash (change saved) false w.store ≡ (ok tt, u)
      → ((read_info sv kv f node_id hash false >>> update_saved sv kv f node_id hash change) w
          ≡ (ok tt, with_store u))
        × (read_payment_info kv f node_id hash false u ≡ ok (some (change saved)))
  unfolding update_saved
  outbound hash change saved u reads writes = (
    >>>-ok (read_info sv kv f node_id hash false) (update_saved sv kv f node_id hash change) w w
          (some saved) (read_info-ok hash false (some saved) reads)
        ∙ persist_info-ok hash (change saved) false u writes,
    (read-persist kv f node_id hash (change saved) false w.store u writes).0,
  )

  -- A payment that was sent, of a saved record that can be written, is stored as succeeded with its
  -- preimage, its fee and the time, and keeps its amount and its invoice.
  pub payment_sent-records :
      (preimage hash : Bytes) (fee : Option ℕ) (saved : PaymentInfo) (u : kv.Store)
      → read_payment_info kv f node_id hash false w.store ≡ ok (some saved)
      → persist_payment_info kv f node_id hash
          (sent_info sv kv f node_id saved preimage fee)
          false
          w.store
        ≡ (ok tt, u)
      → (info : PaymentInfo) × (handle_event sv kv f node_id (payment_sent preimage hash fee) w
          ≡ (ok tt, with_store u))
        × (read_payment_info kv f node_id hash false u ≡ ok (some info))
        × (info.status ≡ succeeded)
        × (info.preimage ≡ some preimage)
        × (info.fee_paid_msat ≡ fee)
        × (info.amt_msat ≡ saved.amt_msat)
        × (info.bolt11 ≡ saved.bolt11)
        × (info.last_update ≡ sv.now)
  unfolding handle_event on_payment_sent sent_info
  payment_sent-records preimage hash fee saved u reads writes =
      let (run, stored) =
        outbound hash (λ info. sent_info sv kv f node_id info preimage fee) saved u reads writes in
      (
        sent_info sv kv f node_id saved preimage fee,
        run,
        stored,
        refl,
        refl,
        refl,
        refl,
        refl,
        refl,
      )

  -- A payment that failed, of a saved record that can be written, is stored as failed whatever its
  -- status was, and keeps its preimage, its fee, its amount and its invoice.
  pub payment_failed-records :
      (hash : Bytes) (saved : PaymentInfo) (u : kv.Store)
      → read_payment_info kv f node_id hash false w.store ≡ ok (some saved)
      → persist_payment_info kv f node_id hash (failed_info sv kv f node_id saved) false w.store
        ≡ (ok tt, u)
      → (info : PaymentInfo) × (handle_event sv kv f node_id (payment_failed hash) w
          ≡ (ok tt, with_store u))
        × (read_payment_info kv f node_id hash false u ≡ ok (some info))
        × (info.status ≡ failed)
        × (info.preimage ≡ saved.preimage)
        × (info.fee_paid_msat ≡ saved.fee_paid_msat)
        × (info.amt_msat ≡ saved.amt_msat)
        × (info.bolt11 ≡ saved.bolt11)
        × (info.last_update ≡ sv.now)
  unfolding handle_event on_payment_failed failed_info
  payment_failed-records hash saved u reads writes =
      let (run, stored) = outbound hash (failed_info sv kv f node_id) saved u reads writes in
      (failed_info sv kv f node_id saved, run, stored, refl, refl, refl, refl, refl, refl)

  -- An outbound payment that is not stored leaves the world as it was, sent or failed.
  pub unknown_payment-ignored :
      (hash preimage : Bytes) (fee : Option ℕ)
      → read_payment_info kv f node_id hash false w.store ≡ ok none
      → (handle_event sv kv f node_id (payment_sent preimage hash fee) w ≡ (ok tt, w))
        × (handle_event sv kv f node_id (payment_failed hash) w ≡ (ok tt, w))
  unfolding handle_event on_payment_sent on_payment_failed update_saved done
  unknown_payment-ignored hash preimage fee reads = (
    >>>-ok (read_info sv kv f node_id hash false)
        (update_saved sv kv f node_id hash (λ info. sent_info sv kv f node_id info preimage fee)) w
        w none (read_info-ok hash false none reads),
    >>>-ok (read_info sv kv f node_id hash false)
        (update_saved sv kv f node_id hash (failed_info sv kv f node_id)) w w none
        (read_info-ok hash false none reads),
  )
