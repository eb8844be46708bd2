-- ===== src/Node/Tests.antt =====
-- Invoices and payments of node-manager/src/node.rs at concrete inputs: a node over an encrypted
-- browser in memory, with invoices that are an amount and a description.
use mutiny_web_poc.Prelude.{
  ℕ, zero, suc, ◌*◌, ◌^◌, ◌<◌, ◌↔◌, Bool, true, false, Option, none, some, List, [], ◌∷◌, Bytes,
  ◌≡◌, ◌≢◌, refl, codes, arith,
}
use mathlib.Core.List.{Mem}
use mutiny_web_poc.Prelude.Outcome.{Outcome, ok, err, ◌>>>◌}
use mutiny_web_poc.Storage.Local
use mutiny_web_poc.Prelude.Assoc
use mutiny_web_poc.Prelude.Lists.{take, drop}
use mutiny_web_poc.Storage.Text.{key_matches, starts_with, ends_with, strip_prefix, strip_suffix}
use mutiny_web_poc.Storage.Encrypt.{
  encrypt, cipher_for, derive_key, decrypt, split_buffer, open_sealed, slice,
}
use mutiny_web_poc.Storage.Local.Tests.{wallet_store, fresh_store}
use mutiny_web_poc.Errors.{MutinyError, routing_failed}
use mutiny_web_poc.Payment.{HtlcStatus, pending, in_flight, failed, IoError}
use mutiny_web_poc.Payment.Sample.{sample_formats}
use mutiny_web_poc.Payment.Tests.{services, claim}
use mutiny_web_poc.Payment.Events.{claimed_info, payment_claimed, handle_event}
use mutiny_web_poc.Payment.Persister.{
  persist_payment_info, read_payment_info, list_payment_info, record_key,
}
use mutiny_web_poc.Node.{
  Lightning, Node, MutinyInvoice, testnet, bitcoin_testnet, direct, from_invoice, Payment,
  pay_zero_value_invoice, to_msats,
}
use mutiny_web_poc.Node.Invoices.{
  list_payment_info_from_persisters, NodeWorld, create_invoice, get_invoice, created_info,
  built_invoice,
}
use mutiny_web_poc.Node.Payments.{keysend, pay, outbound_info, keysend_info}
use mutiny_web_poc.Node.Created.{
  create_invoice-get_invoice, create_invoice-payment_claimed, create_invoice-amount,
}
use mutiny_web_poc.Node.Sending.{after}
use mutiny_web_poc.Node.Paying.{pay-payments, pay-refused}
use mutiny_web_poc.Node.Listed.{keysend-list}

abbrev pub sample_amount : Bytes → Option ℕ
sample_amount [] = none
sample_amount (zero ∷ d) = none
sample_amount (suc a ∷ d) = some a

abbrev pub build : Option ℕ → Bytes → Option Bytes
build none d = some (0 ∷ d)
build (some a) d = some (suc a ∷ d)

abbrev pub sample_lightning : Lightning sample_formats
sample_lightning = record {
  Invoice = Bytes;
  Duration = ℕ;
  RouteHints = Unit {0};
  as_secs = λ t. t;
  from_str = some;
  to_string = λ i. i;
  payment_hash = λ i. i;
  payment_secret = λ i. codes "secret";
  amount_milli_satoshis = sample_amount;
  description = direct;
  duration_since_epoch = λ i. 10;
  expiry_time = λ i. 1500;
  payee_pub_key = λ i. none;
  currency = λ i. bitcoin_testnet;
  would_expire = λ i t. true;
  pubkey_to_hex = λ k. k;
  sha256 = λ b. 7 ∷ b;
  from_str-to_string = λ i. refl;
}

abbrev pub accepts : Payment sample_formats sample_lightning → Bool
accepts (pay_zero_value_invoice i a) = false
accepts _ = true

abbrev pub sample_node : Node sample_formats sample_lightning
sample_node = record {
  node_id = codes "n1";
  network = testnet;
  phantom_route_hints = tt;
  create_invoice_from_channelmanager = λ currency amount d now life. build amount d;
  create_phantom_invoice = λ amount d life hints currency. build amount d;
  is_sent = accepts;
}

abbrev pub AnyWorld : Type 0
AnyWorld = NodeWorld wallet_store sample_formats sample_lightning

abbrev pub start : AnyWorld
start = record { store = fresh_store; payments = [] }

abbrev creation : Outcome MutinyError Bytes × AnyWorld
creation =
    create_invoice wallet_store sample_formats sample_lightning sample_node 20 21 (some 3)
      (codes "tea") none start

abbrev pub tea : Bytes
tea = 3001 ∷ codes "tea"

creation_ok : creation.0 ≡ ok tea
unfolding create_invoice to_msats ◌>>>◌ persist_payment_info Local.set encrypt cipher_for derive_key
creation_ok = refl

create_invoice-get_invoice_example :
    (get_invoice wallet_store sample_formats sample_lightning sample_node tea creation.1.store
      ≡ ok (from_invoice sample_lightning tea))
    × (read_payment_info wallet_store sample_formats (codes "n1") tea true creation.1.store
        ≡ ok (
            some (record {
              preimage = none;
              secret = some (codes "secret");
              status = pending;
              amt_msat = record { msat = some 3000 };
              fee_paid_msat = none;
              bolt11 = some tea;
              last_update = 21;
            })))
    × (creation.1.payments ≡ [])
unfolding create_invoice to_msats ◌>>>◌ persist_payment_info Local.set encrypt cipher_for derive_key
create_invoice-get_invoice_example =
    create_invoice-get_invoice wallet_store sample_formats sample_lightning sample_node 20 21
      (some 3) (codes "tea") none start creation.1 tea refl

abbrev paid : Outcome IoError (Unit {0}) × wallet_store.Store
paid =
    persist_payment_info wallet_store sample_formats (codes "n1") tea
      (claimed_info services wallet_store sample_formats (codes "n1")
        (some (
          created_info wallet_store sample_formats sample_lightning sample_node 21 (some 3000) tea))
        claim 3000)
      true creation.1.store

create_invoice-payment_claimed_example :
    (handle_event services wallet_store sample_formats
        (codes "n1")
        (payment_claimed tea claim 3000)
        (record { store = creation.1.store; calls = [] })
      ≡ (ok tt, record { store = paid.1; calls = [] }))
    × (get_invoice wallet_store sample_formats sample_lightning sample_node tea paid.1
        ≡ ok (record (from_invoice sample_lightning tea) { paid = true }))
unfolding create_invoice to_msats ◌>>>◌ persist_payment_info Local.set encrypt cipher_for derive_key
create_invoice-payment_claimed_example =
    create_invoice-payment_claimed wallet_store sample_formats sample_lightning sample_node 20 21
      (some 3) (codes "tea") none start creation.1 tea services claim 3000 paid.1 refl refl

sample-carries :
    (now : ℕ) (amount : Option ℕ) (description : Bytes) (hints : Option (List (Unit {0})))
    (built : Bytes)
    → built_invoice wallet_store sample_formats sample_lightning sample_node now amount description
        hints
      ≡ some built
    → sample_amount built ≡ amount
sample-carries now none description none built h = ground arith
sample-carries now none description (some r) built h = ground arith
sample-carries now (some a) description none built h = ground arith
sample-carries now (some a) description (some r) built h = ground arith

create_invoice-amount_example :
    ((from_invoice sample_lightning tea).amount_sats ≡ some 3) ↔ (3 * 1000 < 2 ^ 64)
unfolding create_invoice to_msats ◌>>>◌ persist_payment_info Local.set encrypt cipher_for derive_key
create_invoice-amount_example =
    create_invoice-amount wallet_store sample_formats sample_lightning sample_node sample-carries 20
      21 3 (codes "tea") none start creation.1 tea refl

abbrev coffee : Bytes
coffee = 0 ∷ codes "coffee"

pay-payments_example :
    (pay wallet_store sample_formats sample_lightning sample_node 30 coffee
      (some 5)
      start).1.payments
    ≡ pay_zero_value_invoice coffee 5000 ∷ []
pay-payments_example =
    pay-payments wallet_store sample_formats sample_lightning sample_node start 30 coffee (some 5)

abbrev attempt :
    ℕ → Bytes → HtlcStatus → wallet_store.Store → Outcome IoError (Unit {0}) × wallet_store.Store
attempt msats invoice status s =
    persist_payment_info wallet_store sample_formats (codes "n1") invoice
      (outbound_info wallet_store sample_formats sample_lightning sample_node 30 msats invoice
        status)
      false s

pay-refused_example :
    (pay wallet_store sample_formats sample_lightning sample_node 30 coffee (some 5) start ≡ (
      err routing_failed,
      after wallet_store sample_formats sample_lightning sample_node start
          (attempt 5000 coffee failed (attempt 5000 coffee in_flight fresh_store).1).1
          (pay_zero_value_invoice coffee 5000),
    ))
    × (read_payment_info wallet_store sample_formats
          (codes "n1")
          coffee
          false
          (attempt 5000 coffee failed (attempt 5000 coffee in_flight fresh_store).1).1
        ≡ ok (
            some (record {
              preimage = none;
              secret = none;
              status = failed;
              amt_msat = record { msat = some 5000 };
              fee_paid_msat = none;
              bolt11 = some coffee;
              last_update = 30;
            })))
unfolding create_invoice to_msats ◌>>>◌ persist_payment_info Local.set encrypt cipher_for derive_key
pay-refused_example =
    pay-refused wallet_store sample_formats sample_lightning sample_node start 30 coffee (some 5)
      (pay_zero_value_invoice coffee 5000) 5000 (attempt 5000 coffee in_flight fresh_store).1
      (attempt 5000 coffee failed (attempt 5000 coffee in_flight fresh_store).1).1 refl refl refl
      refl

abbrev spent : Outcome IoError (Unit {0}) × wallet_store.Store
spent =
    persist_payment_info wallet_store sample_formats (codes "n1") (7 ∷ codes "pre")
      (keysend_info wallet_store sample_formats sample_lightning sample_node 30 (to_msats 4)
        (codes "pre") in_flight)
      false fresh_store

abbrev kept : AnyWorld
kept =
    (keysend wallet_store sample_formats sample_lightning sample_node (some (codes "pre")) 30
      (codes "02a") 4 start).1

abbrev listed_spent : List MutinyInvoice
listed_spent =
    elim (list_payment_info_from_persisters wallet_store sample_formats sample_lightning sample_node
      99 false kept.store) [ ok is ↦ is | _ ↦ [] ]

keysend-list_example :
    (shown i : MutinyInvoice) × ((keysend wallet_store sample_formats sample_lightning sample_node
        (some (codes "pre"))
        30
        (codes "02a")
        4
        start).0
      ≡ ok shown)
    × (shown.payment_hash ≡ 7 ∷ codes "pre")
    × Mem i listed_spent
    × (i.payment_hash ≡ record_key sample_formats (codes "n1") false (7 ∷ codes "pre"))
    × (i.payment_hash ≢ shown.payment_hash)
    × (i.preimage ≡ some (codes "pre"))
unfolding persist_payment_info Local.set ◌>>>◌ encrypt cipher_for derive_key keysend
    list_payment_info_from_persisters list_payment_info Local.scan Local.scan_keys Local.get decrypt
    split_buffer open_sealed slice Local.open_text Local.seal_text Local.write Assoc.insert
    Assoc.remove Assoc.get key_matches starts_with ends_with strip_prefix strip_suffix record_key
    drop take
keysend-list_example =
    keysend-list wallet_store sample_formats sample_lightning sample_node 99 (codes "pre")
      (codes "02a") 4 30 start spent.1 listed_spent refl refl refl
