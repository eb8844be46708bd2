-- ===== src/Bdk/Database.antt =====
-- `BatchOperations` and `Database` of node-manager/src/bdkstorage.rs over the wallet's storage.
pub mod Scripts
pub mod Transactions
pub mod Counters
pub mod Listed
use mathlib.Core.Option
use mutiny_web_poc.Prelude.{
  ℕ, ◌+◌, ◌%◌, ◌^◌, Bool, true, false, Option, none, some, List, [], ◌∷◌, map, Bytes, ◌==◌,
  if◌then◌else◌, partial_eq_bytes,
}
use mutiny_web_poc.Prelude.Outcome.{Outcome, ok, err, panic, Action, ◌>>=◌, ◌>>>◌, map_err, ok_of}
use mutiny_web_poc.Storage.{
  Serde, KeyValue, StorageError, MutinyStorageError, storage_error, serde_error, other,
}
use mutiny_web_poc.Bdk.Key.{
  Bitcoin, MapKey, path, script, utxo, raw_tx, transaction, last_index, sync_time,
  descriptor_checksum, as_map_key, TransactionDetails, LocalUtxo, ScriptPubKeyInfo,
}

-- `bdk::Error`, as far as the code makes it; the text of a generic error without its source.
pub data BdkError : Type 0 where
  generic_storage : BdkError
  generic_serde : BdkError
  generic_unexpected : BdkError
  checksum_mismatch : BdkError
  generic_txid : BdkError
  invalid_hex : BdkError
  invalid_encoding : BdkError

-- `impl From<MutinyStorageError> for bdk::Error`
pub to_bdk_error : MutinyStorageError → BdkError
to_bdk_error (storage_error e) = generic_storage
to_bdk_error serde_error = generic_serde
to_bdk_error other = generic_unexpected

-- `increment_last_index` adds one to a `u32`; the release build of the wasm wraps around.
abbrev pub add_u32 : ℕ → ℕ → ℕ
add_u32 a b = (a + b) % 2 ^ 32

-- `current_opt.map(|s| s + 1).unwrap_or_else(|| 0)`
abbrev pub next_index : Option ℕ → ℕ
next_index none = 0
next_index (some n) = add_u32 n 1

module _ (kv : KeyValue) (x : Bitcoin) where
  open x use {
    KeychainKind, Script, OutPoint, Txid, Transaction, SyncTime, DetailsRest, UtxoRest,
    script_serde, info_serde, utxo_serde, tx_serde, details_serde, u32_serde, sync_serde,
    bytes_serde, txid_of,
  }

  abbrev pub Details : Type 0
  Details = TransactionDetails Txid Transaction DetailsRest

  abbrev pub Utxo : Type 0
  Utxo = LocalUtxo OutPoint UtxoRest

  abbrev pub Db {ℓ} : Type ℓ → Type ℓ
  Db A = Action BdkError kv.Store A

  -- `self.set(key, value)?`
  unfoldable pub put : {T : Type 0} → Serde T → MapKey x → T → Db (Unit {0})
  put {T} c k v s = (
    map_err to_bdk_error (kv.set T c (as_map_key x k) v s).0,
    (kv.set T c (as_map_key x k) v s).1,
  )

  -- `self.get(key).ok()`
  unfoldable pub fetch : {T : Type 0} → Serde T → MapKey x → Db (Option T)
  fetch {T} c k s = (ok_of (kv.get T c (as_map_key x k) s), s)

  -- `LocalStorage::delete(&key)`
  unfoldable pub drop_key : MapKey x → Db (Unit {0})
  drop_key k s = (ok tt, kv.delete (as_map_key x k) s)

  unfoldable pub pure : {A : Type 0} → A → Db A
  pure a s = (ok a, s)

  unfoldable pub fail : {A : Type 0} → BdkError → Db A
  fail e s = (err e, s)

  -- A read followed by the removal of the same key, as each `del` function does.
  unfoldable pub take_key : {T : Type 0} → Serde T → MapKey x → Db (Option T)
  unfolding fetch drop_key pure
  take_key c k = fetch c k >>> λ res. drop_key k >>> λ _. pure res

  unfoldable pub set_script_pubkey : Script → KeychainKind → ℕ → Db (Unit {0})
  unfolding put
  set_script_pubkey s keychain child =
      put script_serde (path (some keychain) (some child)) s >>> λ _.
      put info_serde (script (some s)) (record { keychain = keychain; path = child })

  unfoldable pub set_utxo : Utxo → Db (Unit {0})
  unfolding put
  set_utxo u = put utxo_serde (utxo (some u.outpoint)) u

  unfoldable pub set_raw_tx : Transaction → Db (Unit {0})
  unfolding put
  set_raw_tx tx = put tx_serde (raw_tx (some (txid_of tx))) tx

  -- insert the raw_tx if present
  unfoldable pub set_raw_if_present : Option Transaction → Db (Unit {0})
  unfolding set_raw_tx pure
  set_raw_if_present none = pure tt
  set_raw_if_present (some tx) = set_raw_tx tx

  unfoldable pub set_tx : Details → Db (Unit {0})
  unfolding put set_raw_if_present
  set_tx details = set_raw_if_present details.transaction >>> λ _.
      put details_serde (transaction (some details.txid)) (record details { transaction = none })

  unfoldable pub set_last_index : KeychainKind → ℕ → Db (Unit {0})
  unfolding put
  set_last_index keychain value = put u32_serde (last_index keychain) value

  pub set_sync_time : SyncTime → Db (Unit {0})
  unfolding put
  set_sync_time time = put sync_serde sync_time time

  pub del_script_pubkey_from_path : KeychainKind → ℕ → Db (Option Script)
  unfolding take_key
  del_script_pubkey_from_path keychain child =
      take_key script_serde (path (some keychain) (some child))

  abbrev pub info_pair : ScriptPubKeyInfo KeychainKind → KeychainKind × ℕ
  info_pair i = (i.keychain, i.path)

  pub del_path_from_script_pubkey : Script → Db (Option (KeychainKind × ℕ))
  unfolding take_key pure
  del_path_from_script_pubkey s =
      take_key info_serde (script (some s)) >>> λ res. pure (Option.map info_pair res)

  pub del_utxo : OutPoint → Db (Option Utxo)
  unfolding take_key
  del_utxo o = take_key utxo_serde (utxo (some o))

  pub del_raw_tx : Txid → Db (Option Transaction)
  unfolding take_key
  del_raw_tx t = take_key tx_serde (raw_tx (some t))

  abbrev pub with_transaction : Option Transaction → Details → Details
  with_transaction tx d = record d { transaction = tx }

  pub del_tx : Txid → Bool → Db (Option Details)
  unfolding del_raw_tx take_key pure
  del_tx t include_raw = (if include_raw then del_raw_tx t else pure none) >>> λ raw.
      take_key details_serde (transaction (some t)) >>> λ res.
      pure (Option.map (with_transaction raw) res)

  pub del_last_index : KeychainKind → Db (Option ℕ)
  unfolding take_key
  del_last_index keychain = take_key u32_serde (last_index keychain)

  pub del_sync_time : Db (Option SyncTime)
  unfolding take_key
  del_sync_time = take_key sync_serde sync_time

  unfoldable pub check_descriptor_checksum : KeychainKind → Bytes → Db (Unit {0})
  unfolding fetch put pure fail
  check_descriptor_checksum keychain bytes =
      fetch bytes_serde (descriptor_checksum keychain) >>> λ prev. elim prev [
        | some val ↦ if val == bytes then pure tt else fail checksum_mismatch
        | none ↦ put bytes_serde (descriptor_checksum keychain) bytes
      ]

  pub get_script_pubkey_from_path : KeychainKind → ℕ → Db (Option Script)
  unfolding fetch
  get_script_pubkey_from_path keychain child =
      fetch script_serde (path (some keychain) (some child))

  pub get_path_from_script_pubkey : Script → Db (Option (KeychainKind × ℕ))
  unfolding fetch pure
  get_path_from_script_pubkey s =
      fetch info_serde (script (some s)) >>> λ res. pure (Option.map info_pair res)

  pub get_utxo : OutPoint → Db (Option Utxo)
  unfolding fetch
  get_utxo o = fetch utxo_serde (utxo (some o))

  unfoldable pub get_raw_tx : Txid → Db (Option Transaction)
  unfolding fetch
  get_raw_tx t = fetch tx_serde (raw_tx (some t))

  unfoldable pub get_tx : Txid → Bool → Db (Option Details)
  unfolding fetch get_raw_tx pure
  get_tx t include_raw = fetch details_serde (transaction (some t)) >>> λ res. elim res [
    | none ↦ pure none
    | some d ↦
        if include_raw
        then (get_raw_tx t >>> λ raw. pure (some (with_transaction raw d)))
        else (pure (some d))
  ]

  unfoldable pub get_last_index : KeychainKind → Db (Option ℕ)
  unfolding fetch
  get_last_index keychain = fetch u32_serde (last_index keychain)

  pub get_sync_time : Db (Option SyncTime)
  unfolding fetch
  get_sync_time = fetch sync_serde sync_time

  -- inserts 0 if not present
  unfoldable pub increment_last_index : KeychainKind → Db ℕ
  unfolding fetch put pure
  increment_last_index keychain = fetch u32_serde (last_index keychain) >>> λ current.
      put u32_serde (last_index keychain) (next_index current) >>> λ _. pure (next_index current)

  -- The values of a scan under the prefix of a kind of key, `scan(key, None).into_values()`.
  pub iter_values : {T : Type 0} → Serde T → MapKey x → Db (List T)
  iter_values {T} c k s =
      (map_err to_bdk_error (kv.scan T c (as_map_key x k) none s >>= λ m. ok (map (λ e. e.1) m)), s)

  pub iter_script_pubkeys : Option KeychainKind → Db (List Script)
  unfolding iter_values
  iter_script_pubkeys keychain = iter_values script_serde (path keychain none)

  pub iter_utxos : Db (List Utxo)
  unfolding iter_values
  iter_utxos = iter_values utxo_serde (utxo none)

  pub iter_raw_txs : Db (List Transaction)
  unfolding iter_values
  iter_raw_txs = iter_values tx_serde (raw_tx none)

  -- A batch is the database again: it has the same storage, and there is nothing to commit.
  pub commit_batch : Db (Unit {0})
  unfolding pure
  commit_batch = pure tt
