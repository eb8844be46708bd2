-- ===== src/Payment/Tests.antt =====
-- Payment records and peers of node-manager/src/ldkstorage.rs and the events of event.rs at concrete
-- inputs: an encrypted browser in memory, one node, and the records of a few payments.
use mutiny_web_poc.Prelude.Lists.{drop, drop, take}
use mutiny_web_poc.Storage.Encrypt.{
  open_sealed, open_sealed, split_buffer, decrypt, derive_key, derive_key, cipher_for, encrypt,
}
use mutiny_web_poc.Storage.Local
use mutiny_web_poc.Prelude.{
  partial_eq_bytes, Bool, true, false, none, some, List, [], ◌∷◌, ◌++◌, Bytes, ◌≡◌, ◌≢◌, refl,
  codes, arith,
}
use mutiny_web_poc.Prelude.Assoc
use mutiny_web_poc.Prelude.Outcome.{Outcome, ok, ◌>>>◌}
use mutiny_web_poc.Prelude.Lists.{take, drop}
use mutiny_web_poc.Storage.Text.{key_matches, starts_with, ends_with, strip_prefix, strip_suffix}
use mutiny_web_poc.Storage.Encrypt.{open_sealed, slice}
use mutiny_web_poc.Payment.Persister.{payment_key}
use mutiny_web_poc.Storage.Local.{open_text, seal_text, write, Local}
use mutiny_web_poc.Storage.Local.Tests.{wallet_store, fresh_store}
use mutiny_web_poc.Payment.{PaymentInfo, in_flight, IoError}
use mutiny_web_poc.Payment.Sample.{sample_formats}
use mutiny_web_poc.Payment.Persister.{
  record_key, get_key, persist_payment_info, read_payment_info, list_payment_info,
  persist_peer_connection_info,
}
use mutiny_web_poc.Payment.Persister.Records.{read-persist, list-persist}
use mutiny_web_poc.Payment.Events.{
  on_payment_claimable, claim_funds, claimed_info, invoice_payment, payment_claimable, sent_info,
  failed_info, payment_claimed, Services, PaymentPurpose, Event, World, handle_event,
}
use mutiny_web_poc.Payment.Events.Footprint.{payment, record_of, handle_event-keeps}

abbrev node : Bytes
node = codes "n1"

abbrev hash : Bytes
hash = codes "h1"

abbrev invoice : PaymentInfo
invoice = record {
  preimage = none;
  secret = some (codes "s");
  status = in_flight;
  amt_msat = record { msat = some 1000 };
  fee_paid_msat = none;
  bolt11 = some (codes "lnbc1");
  last_update = 5;
}

abbrev stored : Bool → Outcome IoError (Unit {0}) × wallet_store.Store
stored inbound =
    persist_payment_info wallet_store sample_formats node hash invoice inbound fresh_store

stored_ok : (stored false).0 ≡ ok tt
unfolding persist_payment_info Local.set ◌>>>◌ encrypt cipher_for derive_key
stored_ok = refl

read-persist_example :
    (read_payment_info wallet_store sample_formats node hash false (stored false).1
      ≡ ok (some invoice))
    × ((other : Bytes)
        → hash ≢ other
        → read_payment_info wallet_store sample_formats node other false (stored false).1
          ≡ read_payment_info wallet_store sample_formats node other false fresh_store)
    × ((other : Bytes) (direction : Bool)
        → false ≢ direction
        → read_payment_info wallet_store sample_formats node other direction (stored false).1
          ≡ read_payment_info wallet_store sample_formats node other direction fresh_store)
unfolding persist_payment_info Local.set ◌>>>◌ encrypt cipher_for derive_key
read-persist_example =
    read-persist wallet_store sample_formats node hash invoice false fresh_store (stored false).1
      refl

abbrev listed : List (Bytes × PaymentInfo)
listed = elim (list_payment_info wallet_store sample_formats (codes "n2") true (stored true).1) [
  | ok m ↦ m
  | _ ↦ []
]

list-persist_example : Assoc.get (record_key sample_formats node true hash) listed ≡ some invoice
unfolding persist_payment_info Local.set ◌>>>◌ encrypt cipher_for derive_key list_payment_info
    Local.scan Local.scan_keys Assoc.insert Assoc.remove key_matches starts_with ends_with
    strip_prefix strip_suffix record_key Local.get Assoc.get decrypt split_buffer open_sealed
    get_key payment_key drop take slice open_text seal_text write
list-persist_example =
    list-persist wallet_store sample_formats node hash invoice true fresh_store (stored true).1
      (codes "n2") listed refl refl

abbrev peered : Outcome IoError (Unit {0}) × wallet_store.Store
peered =
    persist_peer_connection_info wallet_store sample_formats node (codes "02a") (codes "tcp")
      fresh_store

abbrev pub services : Services
services = record {
  Script = Bytes;
  Address = Bytes;
  Tx = Bytes;
  Outputs = Bytes;
  address_of = some;
  create_signed_psbt = λ address value. some (value ∷ address);
  get_internal_address = some (codes "bc1");
  get_est_sat_per_1000_weight = 253;
  spend_spendable_outputs = λ outputs destination feerate. some (outputs ++ destination);
  broadcast = λ tx. true;
  now = 99;
}

abbrev AnyWorld : Type 0
AnyWorld = World services wallet_store sample_formats node

abbrev world : wallet_store.Store → AnyWorld
world s = record { store = s; calls = [] }

abbrev pub claim : PaymentPurpose
claim = invoice_payment (some (codes "pre")) (codes "sec")

abbrev handled : Event services → AnyWorld → Outcome IoError (Unit {0}) × AnyWorld
handled e w = handle_event services wallet_store sample_formats node e w

payment_claimable_calls :
    (handled (payment_claimable hash claim 7) (world fresh_store)).1.calls
    ≡ claim_funds (codes "pre") ∷ []
unfolding handle_event on_payment_claimable
payment_claimable_calls = refl

abbrev claimed : Outcome IoError (Unit {0}) × wallet_store.Store
claimed =
    persist_payment_info wallet_store sample_formats node hash
      (claimed_info services wallet_store sample_formats node (some invoice) claim 7) true
      (stored true).1

abbrev sent : Outcome IoError (Unit {0}) × wallet_store.Store
sent =
    persist_payment_info wallet_store sample_formats node hash
      (sent_info services wallet_store sample_formats node invoice (codes "pre") (some 2)) false
      (stored false).1

abbrev lost : Outcome IoError (Unit {0}) × wallet_store.Store
lost =
    persist_payment_info wallet_store sample_formats node hash
      (failed_info services wallet_store sample_formats node invoice) false (stored false).1

claim-IsApart : record_of {sv = services} (payment_claimed hash claim 7) ≢ payment false hash
unfolding record_of
claim-IsApart e = absurd (ground arith)

handle_event-keeps_example :
    read_payment_info wallet_store sample_formats node hash false
      (handle_event services wallet_store sample_formats node
        (payment_claimed hash claim 7)
        (world (stored false).1)).1.store
    ≡ read_payment_info wallet_store sample_formats node hash false (stored false).1
handle_event-keeps_example =
    handle_event-keeps services wallet_store sample_formats node (payment_claimed hash claim 7)
      false hash (world (stored false).1) claim-IsApart
