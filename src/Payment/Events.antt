-- ===== src/Payment/Events.antt =====
-- `EventHandler::handle_event` of node-manager/src/event.rs. Log lines are left out.
pub mod Footprint
pub mod Effects
use mathlib.Core.Option
use mutiny_web_poc.Prelude.{
  ℕ, ◌%◌, ◌^◌, Bool, true, false, Option, none, some, List, [], ◌∷◌, ◌++◌, Bytes, if◌then◌else◌,
}
use mutiny_web_poc.Prelude.Outcome.{Outcome, ok, err, panic, Action, ◌>>>◌}
use mutiny_web_poc.Storage.{KeyValue}
use mutiny_web_poc.Payment.{
  PaymentInfo, HtlcStatus, succeeded, failed, MillisatAmount, IoError, Formats,
}
use mutiny_web_poc.Payment.Persister.{persist_payment_info, read_payment_info}

-- `PaymentPurpose`
pub data PaymentPurpose : Type 0 where
  invoice_payment : Option Bytes → Bytes → PaymentPurpose
  spontaneous_payment : Bytes → PaymentPurpose

-- The answers of LDK, the wallet and the chain to the calls of one event, and the clock.
pub record Services : Type 1 where
  pub Script : Type 0
  pub Address : Type 0
  pub Tx : Type 0
  pub Outputs : Type 0
  pub address_of : Script → Option Address
  pub create_signed_psbt : Address → ℕ → Option Tx
  pub get_internal_address : Option Address
  pub get_est_sat_per_1000_weight : ℕ
  pub spend_spendable_outputs : Outputs → Address → ℕ → Option Tx
  pub broadcast : Tx → Bool
  pub now : ℕ

module _ (sv : Services) where
  -- `Event` of LDK, with the fields that the handler reads.
  pub data Event : Type 0 where
    funding_generation_ready : Bytes → Bytes → ℕ → sv.Script → Event
    payment_claimable : Bytes → PaymentPurpose → ℕ → Event
    payment_claimed : Bytes → PaymentPurpose → ℕ → Event
    payment_sent : Bytes → Bytes → Option ℕ → Event
    payment_failed : Bytes → Event
    pending_htlcs_forwardable : ℕ → Event
    spendable_outputs : sv.Outputs → Event
    open_channel_request : Event
    payment_path_successful : Event
    payment_path_failed : Event
    probe_successful : Event
    probe_failed : Event
    payment_forwarded : Event
    htlc_handling_failed : Event
    channel_closed : Event
    discard_funding : Event
    channel_ready : Event
    htlc_intercepted : Event

  -- What the handler asks of the channel manager, the runtime and the chain.
  pub data Call : Type 0 where
    fund_channel : Bytes → Bytes → sv.Tx → Call
    claim_funds : Bytes → Call
    sleep : ℕ → Call
    process_pending_htlc_forwards : Call
    broadcast_tx : sv.Tx → Call

  module _ (kv : KeyValue) (f : Formats) (node_id : Bytes) where
    -- The persister's storage, and the calls that were made.
    pub record World : Type 0 where
      pub store : kv.Store
      pub calls : List Call

    abbrev pub Handler {ℓ} : Type ℓ → Type ℓ
    Handler A = Action IoError World A

    unfoldable pub done : Handler (Unit {0})
    done w = (ok tt, w)

    unfoldable pub call : Call → Handler (Unit {0})
    call c w = (ok tt, record w { calls = w.calls ++ c ∷ [] })

    -- `expect` on an answer.
    unfoldable pub expect_answer : {A : Type 0} → Option A → Handler A
    expect_answer none w = (panic, w)
    expect_answer (some a) w = (ok a, w)

    unfoldable pub read_info : Bytes → Bool → Handler (Option PaymentInfo)
    read_info payment_hash inbound w =
        (read_payment_info kv f node_id payment_hash inbound w.store, w)

    -- A record is persisted; a failure is only logged.
    abbrev pub logged : Outcome IoError (Unit {0}) → Outcome IoError (Unit {0})
    logged (ok a) = ok a
    logged (err e) = ok tt
    logged panic = panic

    unfoldable pub persist_info : Bytes → PaymentInfo → Bool → Handler (Unit {0})
    persist_info payment_hash info inbound w =
        let r = persist_payment_info kv f node_id payment_hash info inbound w.store in
        (logged r.0, record w { store = r.1 })

    -- The calls of the funding of a channel, where the wallet could sign a transaction.
    unfoldable pub fund_with : Bytes → Bytes → Option sv.Tx → Handler (Unit {0})
    unfolding call done
    fund_with temporary_channel_id counterparty_node_id none = done
    fund_with temporary_channel_id counterparty_node_id (some tx) =
        call (fund_channel temporary_channel_id counterparty_node_id tx)

    unfoldable pub on_funding_generation_ready : Bytes → Bytes → ℕ → sv.Script → Handler (Unit {0})
    unfolding expect_answer fund_with
    on_funding_generation_ready temporary_channel_id counterparty_node_id value script =
        expect_answer (sv.address_of script) >>> λ address.
        fund_with temporary_channel_id counterparty_node_id (sv.create_signed_psbt address value)

    abbrev pub claim_preimage : PaymentPurpose → Option Bytes
    claim_preimage (invoice_payment preimage secret) = preimage
    claim_preimage (spontaneous_payment preimage) = some preimage

    abbrev pub payment_secret : PaymentPurpose → Option Bytes
    payment_secret (invoice_payment preimage secret) = some secret
    payment_secret (spontaneous_payment preimage) = none

    unfoldable pub on_payment_claimable : PaymentPurpose → Handler (Unit {0})
    unfolding call done
    on_payment_claimable (invoice_payment none secret) = done
    on_payment_claimable (invoice_payment (some preimage) secret) = call (claim_funds preimage)
    on_payment_claimable (spontaneous_payment preimage) = call (claim_funds preimage)

    -- The record after a claim: the saved one brought up to date, or a new one.
    unfoldable pub claimed_info : Option PaymentInfo → PaymentPurpose → ℕ → PaymentInfo
    claimed_info (some saved) purpose amount_msat = record saved {
      status = succeeded;
      preimage = claim_preimage purpose;
      secret = payment_secret purpose;
      amt_msat = record { msat = some amount_msat };
      last_update = sv.now;
    }
    claimed_info none purpose amount_msat = record {
      preimage = claim_preimage purpose;
      secret = payment_secret purpose;
      status = succeeded;
      amt_msat = record { msat = some amount_msat };
      fee_paid_msat = none;
      bolt11 = none;
      last_update = sv.now;
    }

    unfoldable pub on_payment_claimed : Bytes → PaymentPurpose → ℕ → Handler (Unit {0})
    unfolding read_info persist_info
    on_payment_claimed payment_hash purpose amount_msat = read_info payment_hash true >>> λ saved.
        persist_info payment_hash (claimed_info saved purpose amount_msat) true

    -- The two arms of an outbound payment: a saved record is changed and persisted, a payment that
    -- was not saved is only logged.
    unfoldable pub update_saved :
        Bytes → (PaymentInfo → PaymentInfo) → Option PaymentInfo → Handler (Unit {0})
    unfolding persist_info done
    update_saved payment_hash change none = done
    update_saved payment_hash change (some saved) = persist_info payment_hash (change saved) false

    unfoldable pub sent_info : PaymentInfo → Bytes → Option ℕ → PaymentInfo
    sent_info saved payment_preimage fee_paid_msat = record saved {
      status = succeeded;
      preimage = some payment_preimage;
      fee_paid_msat = fee_paid_msat;
      last_update = sv.now;
    }

    unfoldable pub on_payment_sent : Bytes → Bytes → Option ℕ → Handler (Unit {0})
    unfolding read_info update_saved
    on_payment_sent payment_preimage payment_hash fee_paid_msat =
        read_info payment_hash false
        >>> update_saved payment_hash (λ info. sent_info info payment_preimage fee_paid_msat)

    unfoldable pub failed_info : PaymentInfo → PaymentInfo
    failed_info saved = record saved { status = failed; last_update = sv.now }

    unfoldable pub on_payment_failed : Bytes → Handler (Unit {0})
    unfolding read_info update_saved
    on_payment_failed payment_hash =
        read_info payment_hash false >>> update_saved payment_hash failed_info

    -- `as_millis() as i32`, given by its bit pattern.
    unfoldable pub on_pending_htlcs_forwardable : ℕ → Handler (Unit {0})
    unfolding call
    on_pending_htlcs_forwardable millis =
        call (sleep (millis % 2 ^ 32)) >>> λ _. call process_pending_htlc_forwards

    unfoldable pub on_spendable_outputs : sv.Outputs → Handler (Unit {0})
    unfolding expect_answer call
    on_spendable_outputs outputs = expect_answer sv.get_internal_address >>> λ destination.
        expect_answer
          (sv.spend_spendable_outputs outputs destination sv.get_est_sat_per_1000_weight)
        >>> λ spending_tx. call (broadcast_tx spending_tx) >>> λ _.
            expect_answer (if sv.broadcast spending_tx then some tt else none)

    unfoldable pub handle_event : Event → Handler (Unit {0})
    unfolding done
    handle_event (funding_generation_ready t c v s) = on_funding_generation_ready t c v s
    handle_event (payment_claimable hash purpose amount) = on_payment_claimable purpose
    handle_event (payment_claimed hash purpose amount) = on_payment_claimed hash purpose amount
    handle_event (payment_sent preimage hash fee) = on_payment_sent preimage hash fee
    handle_event (payment_failed hash) = on_payment_failed hash
    handle_event (pending_htlcs_forwardable millis) = on_pending_htlcs_forwardable millis
    handle_event (spendable_outputs outputs) = on_spendable_outputs outputs
    handle_event _ = done
