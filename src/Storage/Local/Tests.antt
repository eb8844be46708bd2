-- ===== src/Storage/Local/Tests.antt =====
-- Encryption and storage of node-manager/src/encrypt.rs and localstorage.rs at concrete inputs: a
-- browser in memory, a password, and keys of the wallet.
use mutiny_web_poc.Prelude.{
  none, List, [], Bytes, ◌≡◌, refl, codes, partial_eq_bytes, if◌then◌else◌,
}
use mutiny_web_poc.Prelude.Assoc
use mutiny_web_poc.Prelude.Outcome.{Outcome, ok, ◌>>>◌}
use mutiny_web_poc.Storage.{KeyValue, MutinyStorageError, found}
use mutiny_web_poc.Storage.Text.{starts_with, key_matches}
use mutiny_web_poc.Storage.Encrypt.{
  open_sealed, split_buffer, derive_key, derive_key, cipher_for, encrypt, decrypt, decrypt-encrypt,
}
use mutiny_web_poc.Storage.Local.{scan_keys, Local, set, get, scan}
use mutiny_web_poc.Storage.Local.Laws.{key_value, get-set_self, scan-get}
use mutiny_web_poc.Storage.Memory.{memory, plain, bytes_serde}

abbrev password : Bytes
password = codes "pw"

abbrev pub wallet_store : KeyValue
wallet_store = key_value memory plain password (λ T c v text h. refl)

abbrev pub fresh_store : Local memory
fresh_store = ([], 0)

abbrev written : Outcome MutinyStorageError (Unit {0}) × Local memory
written = set memory plain password bytes_serde (codes "peer/a") (codes "tcp") fresh_store

abbrev secret : Bytes
secret = elim (encrypt plain {E = MutinyStorageError} (codes "hi") password 0) [ ok b ↦ b | _ ↦ [] ]

decrypt-encrypt_example : decrypt plain {E = MutinyStorageError} secret password ≡ ok (codes "hi")
unfolding encrypt cipher_for derive_key
decrypt-encrypt_example =
    decrypt-encrypt {E = MutinyStorageError} plain (codes "hi") password 0 secret refl refl

get-set_self_example :
    get memory plain password bytes_serde (codes "peer/a") written.1 ≡ ok (codes "tcp")
unfolding set ◌>>>◌ encrypt cipher_for derive_key
get-set_self_example =
    get-set_self memory plain password (λ T c v text h. refl) bytes_serde (codes "peer/a")
      (codes "tcp") fresh_store written.1 refl

abbrev listed : List (Bytes × Bytes)
listed = elim (scan memory plain password bytes_serde (codes "peer/") none written.1) [
  | ok m ↦ m
  | _ ↦ []
]

scan-get_example : Assoc.get (codes "peer/a") listed ≡ (
    if key_matches (codes "peer/") none (codes "peer/a")
    then found (get memory plain password bytes_serde (codes "peer/a") written.1)
    else none)
unfolding scan scan_keys set get ◌>>>◌ encrypt decrypt key_matches Assoc.get Assoc.insert
    Assoc.remove cipher_for derive_key split_buffer open_sealed starts_with
scan-get_example =
    scan-get memory plain password (λ T c v text h. refl) bytes_serde (codes "peer/") none written.1
      listed (codes "peer/a") refl
