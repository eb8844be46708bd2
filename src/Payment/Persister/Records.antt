-- ===== src/Payment/Persister/Records.antt =====
-- Payment records read back, listed, and kept apart: node-manager/src/ldkstorage.rs.
use mutiny_web_poc.Prelude.{
  Bool, true, none, some, List, ◌∷◌, ◌++◌, Bytes, ◌≡◌, ◌≢◌, arith, refl, ◌∙◌, partial_eq_bytes,
}
use mathlib.Core.List.{append_assoc}
use mutiny_web_poc.Prelude.Assoc
use mutiny_web_poc.Prelude.Outcome.{Outcome, ok, err, panic, map_err}
use mutiny_web_poc.Storage.{KeyValue, MutinyStorageError}
use mutiny_web_poc.Storage.Text.{key_matches, key_matches-prefix}
use mutiny_web_poc.Payment.{PaymentInfo, other_error, Formats}
use mutiny_web_poc.Payment.Persister.{
  record_key, payment_prefix, persist_payment_info, read_payment_info, list_payment_info,
}
use mutiny_web_poc.Payment.Persister.Keys.{record_key-ne, record_key-ne_direction}

module _ (kv : KeyValue) (f : Formats) (node_id : Bytes) where
  map_err-eq-ok :
      (r : Outcome MutinyStorageError (Unit {0})) → map_err other_error r ≡ ok tt → r ≡ ok tt
  map_err-eq-ok (ok a) h = ground arith
  map_err-eq-ok (err e) h = cc
  map_err-eq-ok panic h = cc

  persist-set :
      (hash : Bytes) (info : PaymentInfo) (inbound : Bool) (s u : kv.Store)
      → persist_payment_info kv f node_id hash info inbound s ≡ (ok tt, u)
      → kv.set PaymentInfo f.info_serde (record_key f node_id inbound hash) info s ≡ (ok tt, u)
  unfolding persist_payment_info
  persist-set hash info inbound s u h = ground (
    arith,
    map_err-eq-ok (kv.set PaymentInfo f.info_serde (record_key f node_id inbound hash) info s).0,
  )

  -- A stored record is read back, and no record of another hash, or of the other direction for any
  -- hash, changes.
  pub read-persist :
      (hash : Bytes) (info : PaymentInfo) (inbound : Bool) (s u : kv.Store)
      → persist_payment_info kv f node_id hash info inbound s ≡ (ok tt, u)
      → (read_payment_info kv f node_id hash inbound u ≡ ok (some info))
        × ((other : Bytes)
            → hash ≢ other
            → read_payment_info kv f node_id other inbound u
              ≡ read_payment_info kv f node_id other inbound s)
        × ((other : Bytes) (direction : Bool)
            → inbound ≢ direction
            → read_payment_info kv f node_id other direction u
              ≡ read_payment_info kv f node_id other direction s)
  unfolding read_payment_info
  read-persist hash info inbound s u h =
      let put = persist-set hash info inbound s u h in
      let key : Bytes = record_key f node_id inbound hash in
      (
        rw (kv.get-set_self PaymentInfo f.info_serde key info s u put) refl,
        λ other apart.
            rw
              (kv.get-set_ne PaymentInfo PaymentInfo f.info_serde f.info_serde key
                (record_key f node_id inbound other) info s u put
                (record_key-ne f node_id hash other apart inbound))
              refl,
        λ other direction apart.
            rw
              (kv.get-set_ne PaymentInfo PaymentInfo f.info_serde f.info_serde key
                (record_key f node_id direction other) info s u put
                (record_key-ne_direction f node_id node_id hash other inbound direction apart))
              refl,
      )

  matches-key :
      (hash : Bytes) (inbound : Bool)
      → key_matches (payment_prefix inbound) none (record_key f node_id inbound hash) ≡ true
  unfolding record_key
  matches-key hash inbound =
      rw (append_assoc (payment_prefix inbound) (f.to_hex hash) (b'_' ∷ node_id))
        (key_matches-prefix (payment_prefix inbound) (f.to_hex hash ++ (b'_' ∷ node_id)))

  -- What one node stores every node lists: the scan of a direction takes no notice of the node, and
  -- gives the record under its whole storage key.
  pub list-persist :
      (hash : Bytes) (info : PaymentInfo) (inbound : Bool) (s u : kv.Store) (other_node : Bytes)
      (m : List (Bytes × PaymentInfo))
      → persist_payment_info kv f node_id hash info inbound s ≡ (ok tt, u)
      → list_payment_info kv f other_node inbound u ≡ ok m
      → Assoc.get (record_key f node_id inbound hash) m ≡ some info
  unfolding list_payment_info
  list-persist hash info inbound s u other_node m h listed =
      kv.scan-matches PaymentInfo f.info_serde (payment_prefix inbound) none u m
        (record_key f node_id inbound hash) listed (matches-key hash inbound)
      ∙ rw
          (kv.get-set_self PaymentInfo f.info_serde (record_key f node_id inbound hash) info s u
            (persist-set hash info inbound s u h))
          refl
