-- ===== src/Bdk/Database/Listed.antt =====
-- iter_txs of node-manager/src/bdkstorage.rs: the stored transactions, with their raw ones where
-- asked.
use mutiny_web_poc.Prelude.{
  ℕ, Bool, true, false, Option, none, some, List, [], ◌∷◌, Bytes, ◌≡◌, refl, ◌∙◌, ap, arith, ◌==◌,
  if◌then◌else◌, Bool-cases, inl, inr, partial_eq_bytes, bytes_eqb_iff,
}
use mathlib.Core.List.{Mem, mem-cons_self, mem-cons_of_mem}
use mutiny_web_poc.Prelude.Assoc
use mutiny_web_poc.Prelude.Outcome.{
  Outcome, ok, err, panic, ◌>>=◌, >>=-eq-ok, map_err, ok_of, ◌>>>◌, Outcome-cases,
}
use mutiny_web_poc.Storage.{found, KeyValue, MutinyStorageError}
use mutiny_web_poc.Storage.Text.{starts_with, key_matches, key_matches-prefix}
use mutiny_web_poc.Bdk.Key.{Bitcoin, as_map_key, as_prefix, serialize_content, transaction, raw_tx}
use mutiny_web_poc.Bdk.Database.{
  BdkError, generic_txid, invalid_hex, invalid_encoding, Details, pure, fetch, get_tx, get_raw_tx,
  with_transaction, to_bdk_error,
}

-- `key.get(2..key.len())`, of hex digits.
abbrev pub after_prefix : Bytes → Option Bytes
after_prefix (a ∷ b ∷ rest) = some rest
after_prefix _ = none

module _ (kv : KeyValue) (x : Bitcoin) (from_hex : Bytes → Option Bytes)
    (deserialize : Bytes → Option x.Txid) where
  -- The id of a transaction, inside its key.
  unfoldable pub txid_of_key : Bytes → Outcome BdkError x.Txid
  txid_of_key key = elim (after_prefix key) [
    | none ↦ err generic_txid
    | some rm_prefix ↦ elim (from_hex rm_prefix) [
      | none ↦ err invalid_hex
      | some k_bytes ↦ elim (deserialize k_bytes) [
        | none ↦ err invalid_encoding
        | some txid ↦ ok txid
      ]
    ]
  ]

  abbrev pub raw_of : x.Txid → kv.Store → Outcome BdkError (Option x.Transaction)
  raw_of txid s = ok_of (kv.get x.Transaction x.tx_serde (as_map_key x (raw_tx (some txid))) s)

  unfoldable pub iter_tx : Bool → Bytes × Details kv x → kv.Store → Outcome BdkError (Details kv x)
  unfolding txid_of_key
  iter_tx include_raw (key, tx_details) s =
      if include_raw
      then (txid_of_key key >>= λ txid.
          raw_of txid s >>= λ raw. ok (with_transaction kv x raw tx_details))
      else ok tx_details

  -- `collect`: the first error is the result.
  unfoldable pub collect_txs :
      Bool → List (Bytes × Details kv x) → kv.Store → Outcome BdkError (List (Details kv x))
  unfolding iter_tx
  collect_txs include_raw [] s = ok []
  collect_txs include_raw (entry ∷ entries) s = iter_tx include_raw entry s >>= λ tx.
      collect_txs include_raw entries s >>= λ rest. ok (tx ∷ rest)

  unfoldable pub iter_txs : Bool → kv.Store → Outcome BdkError (List (Details kv x))
  unfolding collect_txs
  iter_txs include_raw s =
      map_err to_bdk_error
        (kv.scan (Details kv x) x.details_serde (as_map_key x (transaction none)) none s)
      >>= λ entries. collect_txs include_raw entries s

  map_err-eq-ok :
      {A : Type 0} (r : Outcome MutinyStorageError A) (a : A)
      → map_err to_bdk_error r ≡ ok a
      → r ≡ ok a
  map_err-eq-ok (ok b) a h = ground (arith, h)
  map_err-eq-ok (err e) a h = absurd (ground (arith, h))
  map_err-eq-ok panic a h = absurd (ground (arith, h))

  -- `digits` are the two hex digits of a byte.
  module _ (digits : ℕ → ℕ × ℕ) (to_hex_nil : x.to_hex [] ≡ [])
      (to_hex_cons : (b : ℕ) (c : Bytes)
        → x.to_hex (b ∷ c) ≡ (digits b).0 ∷ (digits b).1 ∷ x.to_hex c)
      (from_hex-to_hex : (c : Bytes) → from_hex (x.to_hex c) ≡ some c)
      (deserialize-serialize : (t : x.Txid) → deserialize (x.serialize_txid t) ≡ some t) where
    txid_of_key-as_map_key : (t : x.Txid) → txid_of_key (as_map_key x (transaction (some t))) ≡ ok t
    unfolding txid_of_key as_map_key as_prefix serialize_content
    txid_of_key-as_map_key t =
        rw
          (
            to_hex_cons b't' (x.serialize_txid t),
            from_hex-to_hex (x.serialize_txid t),
            deserialize-serialize t,
          )
          refl

    matches-transaction :
        (t : x.Txid)
        → key_matches (as_map_key x (transaction none)) none (as_map_key x (transaction (some t)))
          ≡ true
    unfolding as_map_key as_prefix serialize_content key_matches starts_with
    matches-transaction t =
        rw (to_hex_cons b't' (x.serialize_txid t), to_hex_cons b't' [], to_hex_nil)
          (key_matches-prefix ((digits b't').0 ∷ (digits b't').1 ∷ [])
            (x.to_hex (x.serialize_txid t)))

    abbrev shown : Bool → x.Txid → Details kv x → kv.Store → Outcome BdkError (Details kv x)
    shown include_raw t d s =
        if include_raw then (raw_of t s >>= λ raw. ok (with_transaction kv x raw d)) else ok d

    iter_tx-shown :
        (include_raw : Bool) (t : x.Txid) (d : Details kv x) (s : kv.Store)
        → iter_tx include_raw (as_map_key x (transaction (some t)), d) s ≡ shown include_raw t d s
    unfolding iter_tx
    iter_tx-shown true t d s = rw (txid_of_key-as_map_key t) refl
    iter_tx-shown false t d s = refl

    shown_result :
        (include_raw : Bool) (t : x.Txid) (d tx : Details kv x) (s : kv.Store)
        → kv.get (Details kv x) x.details_serde (as_map_key x (transaction (some t))) s ≡ ok d
        → (get_tx kv x t include_raw s).0 ≡ ok (some tx)
        → shown include_raw t d s ≡ ok tx
    unfolding get_tx fetch pure get_raw_tx ◌>>>◌
    shown_result true t d tx s got h = ground (arith, rw (get_tx, fetch, got) at h)
    shown_result false t d tx s got h = ground (arith, rw (get_tx, fetch, got) at h)

    -- What get_tx gives is stored.
    get_tx-shown :
        (include_raw : Bool) (t : x.Txid) (tx : Details kv x) (s : kv.Store)
        → (get_tx kv x t include_raw s).0 ≡ ok (some tx)
        → (d : Details kv x) × (kv.get
              (Details kv x)
              x.details_serde
              (as_map_key x (transaction (some t)))
              s
            ≡ ok d)
          × (shown include_raw t d s ≡ ok tx)
    unfolding get_tx fetch pure get_raw_tx ◌>>>◌
    get_tx-shown include_raw t tx s h =
        elim (Outcome-cases
          (kv.get (Details kv x) x.details_serde (as_map_key x (transaction (some t))) s)) [
            | inl (d, got) ↦ (d, got, shown_result include_raw t d tx s got h)
            | inr (inl (e, failed)) ↦ absurd (ground (arith, rw (get_tx, fetch, failed) at h))
            | inr (inr failed) ↦ absurd (ground (arith, rw (get_tx, fetch, failed) at h))
          ]

    collect_txs-mem :
        (include_raw : Bool) (entries : List (Bytes × Details kv x)) (s : kv.Store) (t : x.Txid)
        (d tx : Details kv x) (txs : List (Details kv x))
        → Assoc.get (as_map_key x (transaction (some t))) entries ≡ some d
        → shown include_raw t d s ≡ ok tx
        → collect_txs include_raw entries s ≡ ok txs
        → Mem tx txs
    unfolding Assoc.get collect_txs
    collect_txs-mem include_raw [] s t d tx txs got same h = absurd (ground arith)
    collect_txs-mem include_raw ((j, e) ∷ entries) s t d tx txs got same h =
        let (m, first, h1) = >>=-eq-ok (iter_tx include_raw (j, e) s) _ h in
        let (rest, tail, h2) = >>=-eq-ok (collect_txs include_raw entries s) _ h1 in
        let whole : txs ≡ m ∷ rest = ground arith in
        rw whole (elim (Bool-cases (j == as_map_key x (transaction (some t)))) [
          | inl eq ↦
              let key : j ≡ as_map_key x (transaction (some t)) =
                (bytes_eqb_iff j (as_map_key x (transaction (some t)))).0 eq in
              let value : e ≡ d = ground arith in
              let made : iter_tx include_raw (j, e) s ≡ ok tx =
                ap (λ k. iter_tx include_raw (k, e) s) key
                ∙ ap (λ v. iter_tx include_raw (as_map_key x (transaction (some t)), v) s) value
                ∙ iter_tx-shown include_raw t d s
                ∙ same in
              let here : m ≡ tx = ground (arith, first, made) in rw here mem-cons_self
          | inr ne ↦
              mem-cons_of_mem m
                (collect_txs-mem include_raw entries s t d tx rest (ground arith) same tail)
        ])

    -- Each transaction that get_tx finds, with its raw one or without, is among those that iter_txs
    -- lists in the same way, where it can list them.
    pub iter_txs-get_tx :
        (include_raw : Bool) (t : x.Txid) (tx : Details kv x) (s : kv.Store)
        (txs : List (Details kv x))
        → iter_txs include_raw s ≡ ok txs
        → (get_tx kv x t include_raw s).0 ≡ ok (some tx)
        → Mem tx txs
    unfolding iter_txs
    iter_txs-get_tx include_raw t tx s txs h there =
        let (d, got, same) = get_tx-shown include_raw t tx s there in
        let (entries, scanned, rest) =
          >>=-eq-ok
            (map_err to_bdk_error
              (kv.scan (Details kv x) x.details_serde (as_map_key x (transaction none)) none s))
            _ h in
        let listed =
          kv.scan-matches (Details kv x) x.details_serde (as_map_key x (transaction none)) none s
            entries (as_map_key x (transaction (some t))) (map_err-eq-ok _ entries scanned)
            (matches-transaction t) in
        collect_txs-mem include_raw entries s t d tx txs (listed ∙ ap found got) same rest
