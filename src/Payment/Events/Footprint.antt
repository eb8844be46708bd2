-- ===== src/Payment/Events/Footprint.antt =====
-- Which payment record an event of node-manager/src/event.rs may change.
use mutiny_web_poc.Prelude.{
  ℕ, Bool, true, false, Option, none, some, Bytes, ◌==◌, ◌≡◌, ◌≢◌, arith, refl, partial_eq_bytes,
  if◌then◌else◌,
}
use mutiny_web_poc.Prelude.Outcome.{Outcome, ◌>>>◌, >>>-keeps}
use mutiny_web_poc.Storage.{KeyValue}
use mutiny_web_poc.Payment.{PaymentInfo, IoError, Formats}
use mutiny_web_poc.Payment.Persister.{record_key, persist_payment_info, read_payment_info}
use mutiny_web_poc.Payment.Persister.Keys.{record_key-ne, record_key-ne_direction}
use mutiny_web_poc.Payment.Events.{
  on_pending_htlcs_forwardable, on_payment_failed, on_payment_sent, spendable_outputs,
  payment_claimable, spontaneous_payment, funding_generation_ready, failed_info, claimed_info,
  invoice_payment, update_saved, broadcast_tx, on_payment_claimable, on_payment_claimed, sent_info,
  fund_with, expect_answer, call, on_spendable_outputs, handle_event, on_funding_generation_ready,
  payment_failed, payment_sent, read_info, persist_info, payment_claimed, Services, PaymentPurpose,
  Event, Call, World, Handler,
}

abbrev pub payment : Bool → Bytes → Option (Bool × Bytes)
payment inbound hash = some (inbound, hash)

-- The direction and the hash of the only record that an event may write.
unfoldable pub record_of : {sv : Services} → Event sv → Option (Bool × Bytes)
record_of (payment_claimed hash purpose amount) = payment true hash
record_of (payment_sent preimage hash fee) = payment false hash
record_of (payment_failed hash) = payment false hash
record_of _ = none

module _ (sv : Services) (kv : KeyValue) (f : Formats) (node_id : Bytes) where
  -- The record of a direction and a hash, as the handler reads it.
  abbrev view : Bool → Bytes → World sv kv f node_id → Outcome IoError (Option PaymentInfo)
  view inbound hash w = read_payment_info kv f node_id hash inbound w.store

  key-apart :
      (hash other : Bytes) (inbound direction : Bool)
      → payment inbound hash ≢ payment direction other
      → (record_key f node_id inbound hash == record_key f node_id direction other) ≡ false
  key-apart hash other true true apart =
      record_key-ne f node_id hash other (λ e. apart (rw e refl)) true
  key-apart hash other false false apart =
      record_key-ne f node_id hash other (λ e. apart (rw e refl)) false
  key-apart hash other true false apart =
      record_key-ne_direction f node_id node_id hash other true false (λ e. absurd (ground arith))
  key-apart hash other false true apart =
      record_key-ne_direction f node_id node_id hash other false true (λ e. absurd (ground arith))

  module _ (inbound direction : Bool) (hash other : Bytes)
      (apart : payment direction hash ≢ payment inbound other) where
    persist_info-keeps :
        (info : PaymentInfo) (w : World sv kv f node_id)
        → view inbound other (persist_info sv kv f node_id hash info direction w).1
          ≡ view inbound other w
    unfolding persist_info persist_payment_info read_payment_info
    persist_info-keeps info w =
        rw
          (kv.get-set_other PaymentInfo PaymentInfo f.info_serde f.info_serde
            (record_key f node_id direction hash) (record_key f node_id inbound other) info w.store
            (key-apart hash other direction inbound apart))
          refl

    update-keeps :
        (change : Option PaymentInfo → Handler sv kv f node_id (Unit {0}))
        → ((o : Option PaymentInfo) (w : World sv kv f node_id)
            → view inbound other (change o w).1 ≡ view inbound other w)
        → (w : World sv kv f node_id)
        → view inbound other ((read_info sv kv f node_id hash direction >>> change) w).1
          ≡ view inbound other w
    unfolding read_info
    update-keeps change keeps w =
        >>>-keeps (view inbound other) (read_info sv kv f node_id hash direction) change (λ v. refl)
          keeps w

  module _ (hash : Bytes) (inbound : Bool) (other : Bytes) where
    claimed-keeps :
        (purpose : PaymentPurpose) (amount : ℕ) (w : World sv kv f node_id)
        → payment true hash ≢ payment inbound other
        → view inbound other (on_payment_claimed sv kv f node_id hash purpose amount w).1
          ≡ view inbound other w
    unfolding on_payment_claimed
    claimed-keeps purpose amount w apart =
        update-keeps inbound true hash other apart
          (λ saved.
            persist_info sv kv f node_id hash (claimed_info sv kv f node_id saved purpose amount)
              true)
          (λ o v.
            persist_info-keeps inbound true hash other apart
              (claimed_info sv kv f node_id o purpose amount) v)
          w

    known-keeps :
        (info : PaymentInfo → PaymentInfo) (w : World sv kv f node_id)
        → payment false hash ≢ payment inbound other
        → view inbound other
            ((read_info sv kv f node_id hash false >>> update_saved sv kv f node_id hash info) w).1
          ≡ view inbound other w
    unfolding update_saved
    known-keeps info w apart =
        update-keeps inbound false hash other apart (update_saved sv kv f node_id hash info) go w
      where
        go :
            (o : Option PaymentInfo) (v : World sv kv f node_id)
            → view inbound other (update_saved sv kv f node_id hash info o v).1
              ≡ view inbound other v
        go none v = refl
        go (some saved) v = persist_info-keeps inbound false hash other apart (info saved) v

  expect_answer-keeps :
      {A : Type 0} (o : Option A) (w : World sv kv f node_id)
      → (expect_answer sv kv f node_id o w).1 ≡ w
  unfolding expect_answer
  expect_answer-keeps none w = refl
  expect_answer-keeps (some a) w = refl

  call-keeps :
      (c : Call sv) (w : World sv kv f node_id) → (call sv kv f node_id c w).1.store ≡ w.store
  unfolding call
  call-keeps c w = refl

  fund_with-keeps :
      (t c : Bytes) (o : Option sv.Tx) (w : World sv kv f node_id)
      → (fund_with sv kv f node_id t c o w).1.store ≡ w.store
  unfolding fund_with
  fund_with-keeps t c none w = refl
  fund_with-keeps t c (some tx) w = refl

  claimable-keeps :
      (purpose : PaymentPurpose) (w : World sv kv f node_id)
      → (on_payment_claimable sv kv f node_id purpose w).1.store ≡ w.store
  unfolding on_payment_claimable
  claimable-keeps (invoice_payment none secret) w = refl
  claimable-keeps (invoice_payment (some preimage) secret) w = refl
  claimable-keeps (spontaneous_payment preimage) w = refl

  on_funding-keeps :
      (t c : Bytes) (value : ℕ) (script : sv.Script) (w : World sv kv f node_id)
      → (on_funding_generation_ready sv kv f node_id t c value script w).1.store ≡ w.store
  unfolding on_funding_generation_ready
  on_funding-keeps t c value script w =
      >>>-keeps (λ v. v.store) (expect_answer sv kv f node_id (sv.address_of script))
        (λ address. fund_with sv kv f node_id t c (sv.create_signed_psbt address value))
        (λ v. rw (expect_answer-keeps (sv.address_of script) v) refl)
        (λ address v. fund_with-keeps t c (sv.create_signed_psbt address value) v) w

  on_spendable-keeps :
      (outputs : sv.Outputs) (w : World sv kv f node_id)
      → (on_spendable_outputs sv kv f node_id outputs w).1.store ≡ w.store
  unfolding on_spendable_outputs
  on_spendable-keeps outputs w =
      >>>-keeps (λ v. v.store) (expect_answer sv kv f node_id sv.get_internal_address) _
        (λ v. rw (expect_answer-keeps sv.get_internal_address v) refl)
        (λ destination.
          >>>-keeps (λ v. v.store)
            (expect_answer sv kv f node_id
              (sv.spend_spendable_outputs outputs destination sv.get_est_sat_per_1000_weight))
            _
            (λ v.
              rw
                (expect_answer-keeps
                  (sv.spend_spendable_outputs outputs destination sv.get_est_sat_per_1000_weight) v)
                refl)
            (λ spending_tx.
              >>>-keeps (λ v. v.store) (call sv kv f node_id (broadcast_tx spending_tx))
                (λ _.
                  expect_answer sv kv f node_id
                    (if sv.broadcast spending_tx then some tt else none))
                (call-keeps (broadcast_tx spending_tx))
                (λ _ v.
                  rw (expect_answer-keeps (if sv.broadcast spending_tx then some tt else none) v)
                    refl)))
        w

  -- An event changes no payment record but the one it is about, whether or not the write succeeds.
  pub handle_event-keeps :
      (e : Event sv) (inbound : Bool) (hash : Bytes) (w : World sv kv f node_id)
      → record_of e ≢ payment inbound hash
      → read_payment_info kv f node_id hash inbound (handle_event sv kv f node_id e w).1.store
        ≡ read_payment_info kv f node_id hash inbound w.store
  unfolding handle_event record_of on_payment_sent on_payment_failed read_payment_info
      on_pending_htlcs_forwardable ◌>>>◌
  handle_event-keeps (payment_claimed h purpose amount) inbound hash w apart =
      claimed-keeps h inbound hash purpose amount w apart
  handle_event-keeps (payment_sent preimage h fee) inbound hash w apart =
      known-keeps h inbound hash (λ info. sent_info sv kv f node_id info preimage fee) w apart
  handle_event-keeps (payment_failed h) inbound hash w apart =
      known-keeps h inbound hash (failed_info sv kv f node_id) w apart
  handle_event-keeps (funding_generation_ready t c value script) inbound hash w apart =
      rw (on_funding-keeps t c value script w) refl
  handle_event-keeps (payment_claimable h purpose amount) inbound hash w apart =
      rw (claimable-keeps purpose w) refl
  handle_event-keeps (spendable_outputs outputs) inbound hash w apart =
      rw (on_spendable-keeps outputs w) refl
  handle_event-keeps _ inbound hash w apart = refl
