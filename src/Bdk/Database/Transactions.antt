-- ===== src/Bdk/Database/Transactions.antt =====
-- Transactions in the database of node-manager/src/bdkstorage.rs: the raw transaction stands under
-- a key of its own, and the details without it.
use mutiny_web_poc.Prelude.{none, some, ◌≡◌, refl, sym, ap, subst, ◌∙◌, true, false}
use mutiny_web_poc.Prelude.Outcome.{ok, ◌>>>◌, >>>-eq-ok, >>>-ok}
use mutiny_web_poc.Storage.{KeyValue}
use mutiny_web_poc.Bdk.Key.{Bitcoin, raw_tx, transaction, as_map_key}
use mutiny_web_poc.Bdk.Database.{
  Details, put, fetch, take_key, pure, set_raw_if_present, set_tx, get_tx, get_raw_tx, del_tx,
  del_raw_tx, with_transaction,
}
use mutiny_web_poc.Bdk.Database.Scripts.{
  fetch-put_self, fetch-put_ne, fetch-delete_ne, fetch-eq, take_key_lem,
}

module _ (kv : KeyValue) (x : Bitcoin) (d : Details kv x) (tx : x.Transaction)
    (has_raw : d.transaction ≡ some tx) (named : x.txid_of tx ≡ d.txid) (a b : kv.Store)
    (h : set_tx kv x d a ≡ (ok tt, b)) where
  bare : Details kv x
  bare = record d { transaction = none }

  -- What the two writes of `set_tx` leave behind.
  set_tx-stored :
      (fetch kv x x.details_serde (transaction (some d.txid)) b
        ≡ (ok (some (record d { transaction = none })), b))
      × (fetch kv x x.tx_serde (raw_tx (some d.txid)) b ≡ (ok (some tx), b))
  unfolding set_tx set_raw_if_present
  set_tx-stored =
      let (_, m, first, second) = >>>-eq-ok (set_raw_if_present kv x d.transaction) _ a h in
      let raw : put kv x x.tx_serde (raw_tx (some (x.txid_of tx))) tx a ≡ (ok tt, m) =
        subst (λ o. set_raw_if_present kv x o a ≡ (ok tt, m)) has_raw first in
      let was : fetch kv x x.tx_serde (raw_tx (some d.txid)) m ≡ (ok (some tx), m) =
        subst (λ i. fetch kv x x.tx_serde (raw_tx (some i)) m ≡ (ok (some tx), m)) named
          (fetch-put_self kv x x.tx_serde (raw_tx (some (x.txid_of tx))) tx a m raw) in
      let kept : (fetch kv x x.tx_serde (raw_tx (some d.txid)) b).0
          ≡ (fetch kv x x.tx_serde (raw_tx (some d.txid)) m).0 =
        fetch-put_ne kv x x.details_serde x.tx_serde (transaction (some d.txid))
          (raw_tx (some d.txid)) (record d { transaction = none }) m b tt tt (λ e. cc) second in
      (
        fetch-put_self kv x x.details_serde (transaction (some d.txid))
            (record d { transaction = none }) m b second,
        fetch-eq kv x x.tx_serde (raw_tx (some d.txid)) b (some tx) (kept ∙ ap (λ r. r.0) was),
      )

  whole : with_transaction kv x (some tx) (record d { transaction = none }) ≡ d
  whole = λ i. record d { transaction = sym has_raw i }

  -- Details that were stored with their transaction, the one with their id, come back as they were
  -- when the raw transaction is asked for, and without it when it is not.
  pub set_tx-get :
      (get_tx kv x d.txid true b ≡ (ok (some d), b))
      × (get_tx kv x d.txid false b ≡ (ok (some (record d { transaction = none })), b))
  unfolding get_tx ◌>>>◌ pure get_raw_tx
  set_tx-get =
      let (details, raw) = set_tx-stored in
      (
        >>>-ok (fetch kv x x.details_serde (transaction (some d.txid))) _ b b
              (some (record d { transaction = none })) details
            ∙ >>>-ok (fetch kv x x.tx_serde (raw_tx (some d.txid))) _ b b (some tx) raw
            ∙ ap (λ (r : Details kv x). (ok (some r), b)) whole,
        >>>-ok (fetch kv x x.details_serde (transaction (some d.txid))) _ b b
              (some (record d { transaction = none })) details
            ∙ refl,
      )

  -- Deleting such details with the raw transaction returns them whole, and neither they nor the
  -- raw transaction are found afterwards.
  pub set_tx-del :
      (c : kv.Store) × (del_tx kv x d.txid true b ≡ (ok (some d), c))
      × (get_tx kv x d.txid true c ≡ (ok none, c))
      × (get_raw_tx kv x d.txid c ≡ (ok none, c))
  unfolding del_tx get_tx get_raw_tx del_raw_tx pure ◌>>>◌
  set_tx-del =
      let (details, raw) = set_tx-stored in
      let (took, free) = take_key_lem kv x x.tx_serde (raw_tx (some d.txid)) (some tx) b raw in
      let m : kv.Store = kv.delete (as_map_key x (raw_tx (some d.txid))) b in
      let kept : fetch kv x x.details_serde (transaction (some d.txid)) m
          ≡ (ok (some (record d { transaction = none })), m) =
        fetch-eq kv x x.details_serde (transaction (some d.txid)) m _ (
          fetch-delete_ne kv x x.details_serde (raw_tx (some d.txid)) (transaction (some d.txid)) b
            tt tt (λ e. cc)
          ∙ ap (λ r. r.0) details) in
      let (took2, free2) = take_key_lem kv x x.details_serde (transaction (some d.txid)) _ m kept in
      let c : kv.Store = kv.delete (as_map_key x (transaction (some d.txid))) m in
      (
        c,
        >>>-ok (take_key kv x x.tx_serde (raw_tx (some d.txid))) _ b m (some tx) took
            ∙ >>>-ok (take_key kv x x.details_serde (transaction (some d.txid))) _ m c _ took2
            ∙ ap (λ (r : Details kv x). (ok (some r), c)) whole,
        >>>-ok (fetch kv x x.details_serde (transaction (some d.txid))) _ c c none free2 ∙ refl,
        fetch-eq kv x x.tx_serde (raw_tx (some d.txid)) c none (
            fetch-delete_ne kv x x.tx_serde (transaction (some d.txid)) (raw_tx (some d.txid)) m tt
              tt (λ e. cc)
            ∙ ap (λ r. r.0) free),
      )
