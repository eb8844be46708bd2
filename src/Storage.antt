-- ===== src/Storage.antt =====
-- What the wallet's stores ask of the browser's storage: node-manager/src/localstorage.rs as its
-- clients, bdkstorage.rs and ldkstorage.rs, see it.
pub mod Text
pub mod Encrypt
pub mod Local
pub mod Memory
pub mod Seed
use mutiny_web_poc.Prelude.{
  ℕ, Bool, true, false, Option, none, some, List, [], ◌∷◌, Bytes, ◌==◌, ◌≡◌, partial_eq_bytes,
}
use mutiny_web_poc.Prelude.Assoc
use mutiny_web_poc.Prelude.Outcome.{Outcome, ok, err, panic, Action}
use Text.{key_matches}

-- `Serialize` and `Deserialize` of a type, through the JSON of serde_json.
pub record Serde (T : Type 0) : Type 0 where
  pub to_string : T → Option Bytes
  pub from_str : Bytes → Option T
  pub from_str-to_string : (v : T) (b : Bytes) → to_string v ≡ some b → from_str b ≡ some v

-- `gloo_storage::errors::StorageError`, as far as the code tells its cases apart.
pub data StorageError : Type 0 where
  key_not_found : StorageError
  other_error : StorageError

-- `MutinyStorageError`
pub data MutinyStorageError : Type 0 where
  storage_error : StorageError → MutinyStorageError
  serde_error : MutinyStorageError
  other : MutinyStorageError

-- The answer of a read, as an option.
abbrev pub found {ℓ κ} : {E : Type ℓ} {A : Type κ} → Outcome E A → Option A
found (ok a) = some a
found (err e) = none
found panic = none

-- The operations of `MutinyBrowserStorage`, and what its clients may rely on.
pub record KeyValue : Type 1 where
  pub Store : Type 0
  pub set : (T : Type 0) → Serde T → Bytes → T → Action MutinyStorageError Store (Unit {0})
  pub get : (T : Type 0) → Serde T → Bytes → Store → Outcome MutinyStorageError T
  pub delete : Bytes → Store → Store
  pub scan :
      (T : Type 0)
      → Serde T
      → Bytes
      → Option Bytes
      → Store
      → Outcome MutinyStorageError (List (Bytes × T))
  pub get-set_self :
      (T : Type 0) (c : Serde T) (k : Bytes) (v : T) (s u : Store)
      → set T c k v s ≡ (ok tt, u)
      → get T c k u ≡ ok v
  pub get-set_ne :
      (T U : Type 0) (c : Serde T) (d : Serde U) (k j : Bytes) (v : T) (s u : Store)
      → set T c k v s ≡ (ok tt, u)
      → (k == j) ≡ false
      → get U d j u ≡ get U d j s
  -- Also a write that fails leaves the other keys.
  pub get-set_other :
      (T U : Type 0) (c : Serde T) (d : Serde U) (k j : Bytes) (v : T) (s : Store)
      → (k == j) ≡ false
      → get U d j (set T c k v s).1 ≡ get U d j s
  pub get-delete_self :
      (T : Type 0) (c : Serde T) (k : Bytes) (s : Store)
      → get T c k (delete k s) ≡ err (storage_error key_not_found)
  pub get-delete_ne :
      (T : Type 0) (c : Serde T) (k j : Bytes) (s : Store)
      → (k == j) ≡ false
      → get T c j (delete k s) ≡ get T c j s
  pub scan-matches :
      (T : Type 0) (c : Serde T) (prefix : Bytes) (suffix : Option Bytes) (s : Store)
      (m : List (Bytes × T)) (k : Bytes)
      → scan T c prefix suffix s ≡ ok m
      → key_matches prefix suffix k ≡ true
      → Assoc.get k m ≡ found (get T c k s)
  pub scan-differs :
      (T : Type 0) (c : Serde T) (prefix : Bytes) (suffix : Option Bytes) (s : Store)
      (m : List (Bytes × T)) (k : Bytes)
      → scan T c prefix suffix s ≡ ok m
      → key_matches prefix suffix k ≡ false
      → Assoc.get k m ≡ none
