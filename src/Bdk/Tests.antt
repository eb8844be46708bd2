-- ===== src/Bdk/Tests.antt =====
-- The wallet's database of node-manager/src/bdkstorage.rs at concrete inputs, over an encrypted
-- storage in memory.
use mutiny_web_poc.Prelude.Lists.{drop, take}
use mutiny_web_poc.Storage.Text.{starts_with, key_matches}
use mutiny_web_poc.Prelude.Assoc
use mutiny_web_poc.Storage.Local
use mutiny_web_poc.Storage.Encrypt.{
  open_sealed, split_buffer, decrypt, derive_key, cipher_for, encrypt,
}
use mathlib.Core.List.{Mem}
use mutiny_web_poc.Bdk.Database.Listed.{iter_txs, iter_txs-get_tx}
use mutiny_web_poc.Prelude.{
  ap, ◌+◌, ◌%◌, ◌∙◌, sym, ◌/◌, ◌*◌, subst, partial_eq_nat, ℕ, Option, none, some, [], ◌∷◌, ◌++◌,
  Bytes, ◌==◌, ◌≡◌, refl, arith, true, false, length, take, drop, take-append, drop-append,
}
use mutiny_web_poc.Prelude.Outcome.{Outcome, ok, ◌>>>◌}
use mutiny_web_poc.Storage.{Serde}
use mutiny_web_poc.Storage.Memory.{bytes_serde}
use mutiny_web_poc.Storage.Local.Tests.{wallet_store, fresh_store}
use mutiny_web_poc.Bdk.Key.{
  as_map_key, Bitcoin, MapKey, path, TransactionDetails, LocalUtxo, ScriptPubKeyInfo,
}
use mutiny_web_poc.Bdk.Key.Injective.{as_map_key_injective}
use mutiny_web_poc.Bdk.Database.{
  BdkError, set_script_pubkey, set_utxo, set_tx, get_tx, increment_last_index,
  check_descriptor_checksum,
}
use mutiny_web_poc.Bdk.Database.Transactions.{set_tx-get}

data Keychain : Type 0 where
  external : Keychain
  internal : Keychain

abbrev byte_of : Keychain → ℕ
byte_of external = 101
byte_of internal = 105

byte_of_injective : (a b : Keychain) → byte_of a ≡ byte_of b → a ≡ b
byte_of_injective external external h = refl
byte_of_injective internal internal h = refl
byte_of_injective _ _ h = absurd (omega arith)

abbrev number_text : ℕ → Option Bytes
number_text n = some (n ∷ [])

abbrev number_of : Bytes → Option ℕ
number_of [] = none
number_of (n ∷ b) = some n

number_law : (v : ℕ) (b : Bytes) → number_text v ≡ some b → number_of b ≡ some v
number_law v [] h = absurd (ground arith)
number_law v (n ∷ b) h = ground arith

abbrev number_serde : Serde ℕ
number_serde = record {
  to_string = number_text;
  from_str = number_of;
  from_str-to_string = number_law;
}

abbrev Info : Type 0
Info = ScriptPubKeyInfo Keychain

abbrev info_text : Info → Option Bytes
info_text i = some (byte_of i.keychain ∷ i.path ∷ [])

abbrev info_of : Bytes → Option Info
info_of (k ∷ p ∷ b) =
    some (record { keychain = elim (k == 101) [ true ↦ external | false ↦ internal ]; path = p })
info_of _ = none

info_law : (v : Info) (b : Bytes) → info_text v ≡ some b → info_of b ≡ some v
info_law v b h = rw (← some_bytes h) (go v.keychain v.path)
  where
    some_bytes : {a c : Bytes} → some a ≡ some c → a ≡ c
    some_bytes e = ground arith

    go :
        (k : Keychain) (p : ℕ)
        → info_of (byte_of k ∷ p ∷ []) ≡ some (record { keychain = k; path = p })
    go external p = refl
    go internal p = refl

abbrev Utxo : Type 0
Utxo = LocalUtxo Bytes ℕ

abbrev utxo_text : Utxo → Option Bytes
utxo_text u = some (u.rest ∷ u.outpoint)

abbrev utxo_of : Bytes → Option Utxo
utxo_of [] = none
utxo_of (r ∷ o) = some (record { outpoint = o; rest = r })

utxo_law : (v : Utxo) (b : Bytes) → utxo_text v ≡ some b → utxo_of b ≡ some v
utxo_law v [] h = absurd (ground arith)
utxo_law v (r ∷ o) h = ground arith

abbrev Details : Type 0
Details = TransactionDetails Bytes Bytes ℕ

abbrev raw_text : Option Bytes → Bytes
raw_text none = []
raw_text (some tx) = 1 ∷ tx

abbrev raw_of : Bytes → Option Bytes
raw_of [] = none
raw_of (c ∷ tx) = some tx

raw_law : (o : Option Bytes) → raw_of (raw_text o) ≡ o
raw_law none = refl
raw_law (some tx) = refl

abbrev details_text : Details → Option Bytes
details_text d = some (d.rest ∷ length d.txid ∷ (d.txid ++ raw_text d.transaction))

abbrev details_of : Bytes → Option Details
details_of (r ∷ n ∷ b) =
    some (record { txid = take n b; transaction = raw_of (drop n b); rest = r })
details_of _ = none

details_law : (v : Details) (b : Bytes) → details_text v ≡ some b → details_of b ≡ some v
details_law v b h =
    subst (λ c. details_of c ≡ some v) (some_bytes h)
      (rw
        (
          take-append v.txid (raw_text v.transaction),
          drop-append v.txid (raw_text v.transaction),
          raw_law v.transaction,
        )
        refl)
  where
    some_bytes : {a c : Bytes} → some a ≡ some c → a ≡ c
    some_bytes e = ground arith

abbrev bitcoin : Bitcoin
bitcoin = record {
  KeychainKind = Keychain;
  Script = Bytes;
  OutPoint = Bytes;
  Txid = Bytes;
  Transaction = Bytes;
  SyncTime = ℕ;
  DetailsRest = ℕ;
  UtxoRest = ℕ;
  as_byte = byte_of;
  as_ref = λ k. byte_of k ∷ [];
  serialize_script = λ b. b;
  serialize_outpoint = λ b. b;
  serialize_txid = λ b. b;
  txid_of = λ tx. tx;
  to_hex = λ b. b;
  script_serde = bytes_serde;
  info_serde = record { to_string = info_text; from_str = info_of; from_str-to_string = info_law };
  utxo_serde = record { to_string = utxo_text; from_str = utxo_of; from_str-to_string = utxo_law };
  tx_serde = bytes_serde;
  details_serde = record {
    to_string = details_text;
    from_str = details_of;
    from_str-to_string = details_law;
  };
  u32_serde = number_serde;
  sync_serde = number_serde;
  bytes_serde = bytes_serde;
  as_byte_injective = byte_of_injective;
  as_ref-as_byte = λ k. refl;
  serialize_script_injective = λ a b h. h;
  serialize_outpoint_injective = λ a b h. h;
  serialize_txid_injective = λ a b h. h;
  to_hex_injective = λ a b h. h;
}

abbrev a_path : MapKey bitcoin
a_path = path (some internal) (some 42)

abbrev same_path : MapKey bitcoin
same_path = path (some internal) (some 42)

as_map_key_injective_example : a_path ≡ same_path
as_map_key_injective_example =
    as_map_key_injective bitcoin a_path same_path (omega arith) (omega arith) refl

abbrev stored_script : Outcome BdkError (Unit {0}) × wallet_store.Store
stored_script = set_script_pubkey wallet_store bitcoin (9 ∷ []) external 42 fresh_store

abbrev coin : Utxo
coin = record { outpoint = 3 ∷ 4 ∷ []; rest = 50 }

abbrev stored_coin : Outcome BdkError (Unit {0}) × wallet_store.Store
stored_coin = set_utxo wallet_store bitcoin coin fresh_store

abbrev payment : Details
payment = record { txid = 5 ∷ 6 ∷ []; transaction = some (5 ∷ 6 ∷ []); rest = 1 }

abbrev stored_payment : Outcome BdkError (Unit {0}) × wallet_store.Store
stored_payment = set_tx wallet_store bitcoin payment fresh_store

set_tx-get_example :
    (get_tx wallet_store bitcoin (5 ∷ 6 ∷ []) true stored_payment.1
      ≡ (ok (some payment), stored_payment.1))
    × (get_tx wallet_store bitcoin (5 ∷ 6 ∷ []) false stored_payment.1
        ≡ (ok (some (record payment { transaction = none })), stored_payment.1))
unfolding set_tx ◌>>>◌ encrypt cipher_for derive_key Local.set
set_tx-get_example =
    set_tx-get wallet_store bitcoin payment (5 ∷ 6 ∷ []) refl refl fresh_store stored_payment.1 refl

abbrev counted : Outcome BdkError ℕ × wallet_store.Store
counted = increment_last_index wallet_store bitcoin external fresh_store

abbrev checked : Outcome BdkError (Unit {0}) × wallet_store.Store
checked = check_descriptor_checksum wallet_store bitcoin external (8 ∷ []) fresh_store

-- Hex digits as numbers.
abbrev digits : ℕ → ℕ × ℕ
digits b = (b / 16, b % 16)

abbrev hex_of : Bytes → Bytes
hex_of [] = []
hex_of (b ∷ c) = (digits b).0 ∷ (digits b).1 ∷ hex_of c

abbrev bytes_of : Bytes → Bytes
bytes_of (h ∷ k ∷ c) = (h * 16 + k) ∷ bytes_of c
bytes_of _ = []

bytes_of-hex_of : (c : Bytes) → bytes_of (hex_of c) ≡ c
bytes_of-hex_of [] = refl
bytes_of-hex_of (b ∷ c) =
    let whole : b / 16 * 16 + b % 16 ≡ b = omega arith in λ i. whole i ∷ bytes_of-hex_of c i

hex_of_injective : (a b : Bytes) → hex_of a ≡ hex_of b → a ≡ b
hex_of_injective a b h = sym (bytes_of-hex_of a) ∙ ap bytes_of h ∙ bytes_of-hex_of b

abbrev in_hex : Bitcoin
in_hex = record bitcoin { to_hex = hex_of; to_hex_injective = hex_of_injective }

abbrev hex_payment : Outcome BdkError (Unit {0}) × wallet_store.Store
hex_payment = set_tx wallet_store in_hex payment fresh_store

iter_txs-get_tx_example : Mem payment (payment ∷ [])
unfolding iter_txs get_tx set_tx ◌>>>◌ encrypt cipher_for derive_key Local.set Local.scan
    Assoc.insert key_matches starts_with as_map_key Local.get Assoc.get decrypt split_buffer
    open_sealed take drop
iter_txs-get_tx_example =
    iter_txs-get_tx wallet_store in_hex (λ b. some (bytes_of b)) some digits refl (λ b c. refl)
      (λ c. ap some (bytes_of-hex_of c)) (λ t. refl) true (5 ∷ 6 ∷ []) payment hex_payment.1
      (payment ∷ []) refl refl
