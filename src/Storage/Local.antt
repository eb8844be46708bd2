-- ===== src/Storage/Local.antt =====
-- `MutinyBrowserStorage` over the browser: node-manager/src/localstorage.rs.
pub mod Laws
pub mod Tests
use mutiny_web_poc.Prelude.{
  ℕ, ◌+◌, Bool, true, false, Option, none, some, List, [], ◌∷◌, Bytes, ◌==◌, ◌≡◌, partial_eq_bytes,
  if◌then◌else◌,
}
use mutiny_web_poc.Prelude.Assoc.{contains, insert}
use mutiny_web_poc.Prelude.Outcome.{Outcome, ok, err, panic, ◌>>=◌, Action, ◌>>>◌, map_err}
use mutiny_web_poc.Storage.{
  Serde, StorageError, key_not_found, MutinyStorageError, storage_error, serde_error,
}
use mutiny_web_poc.Storage.Text.{key_matches}
use mutiny_web_poc.Storage.Encrypt.{Crypto, encrypt, decrypt}

-- `gloo_storage::LocalStorage` over `window.localStorage`: typed reads and writes, and the keys
-- that `raw().key(0)` up to `length()` list.
pub record Browser : Type 1 where
  pub Items : Type 0
  pub string : Serde Bytes
  pub set : (T : Type 0) → Serde T → Bytes → T → Action StorageError Items (Unit {0})
  pub get : (T : Type 0) → Serde T → Bytes → Items → Outcome StorageError T
  pub delete : Bytes → Items → Items
  pub keys : Items → List Bytes
  pub get-set_self :
      (T : Type 0) (c : Serde T) (k : Bytes) (v : T) (s u : Items)
      → set T c k v s ≡ (ok tt, u)
      → get T c k u ≡ ok v
  pub get-set_ne :
      (T U : Type 0) (c : Serde T) (d : Serde U) (k j : Bytes) (v : T) (s u : Items)
      → set T c k v s ≡ (ok tt, u)
      → (k == j) ≡ false
      → get U d j u ≡ get U d j s
  -- Also a write that fails leaves the other keys.
  pub get-set_other :
      (T U : Type 0) (c : Serde T) (d : Serde U) (k j : Bytes) (v : T) (s : Items)
      → (k == j) ≡ false
      → get U d j (set T c k v s).1 ≡ get U d j s
  pub get-delete_self :
      (T : Type 0) (c : Serde T) (k : Bytes) (s : Items)
      → get T c k (delete k s) ≡ err key_not_found
  pub get-delete_ne :
      (T : Type 0) (c : Serde T) (k j : Bytes) (s : Items)
      → (k == j) ≡ false
      → get T c j (delete k s) ≡ get T c j s
  pub get-unlisted :
      (T : Type 0) (c : Serde T) (k : Bytes) (s : Items)
      → contains k (keys s) ≡ false
      → get T c k s ≡ err key_not_found

abbrev is_empty : Bytes → Bool
is_empty [] = true
is_empty (c ∷ p) = false

-- The browser's items, and how often the generator of random bytes was read.
abbrev pub Local : Browser → Type 0
Local b = b.Items × ℕ

module _ (b : Browser) (x : Crypto) (password : Bytes) where
  -- Only bother encrypting if a password is set.
  unfoldable pub seal_text : Bytes → Action MutinyStorageError (Local b) Bytes
  seal_text plain (s, i) =
      if is_empty password then (ok plain, (s, i)) else (encrypt x plain password i, (s, i + 2))

  unfoldable pub open_text : Bytes → Outcome MutinyStorageError Bytes
  open_text stored = if is_empty password then ok stored else decrypt x stored password

  unfoldable pub write : Bytes → Bytes → Action MutinyStorageError (Local b) (Unit {0})
  write key value (s, i) = (
    map_err storage_error (b.set Bytes b.string key value s).0,
    ((b.set Bytes b.string key value s).1, i),
  )

  module _ {T : Type 0} (c : Serde T) where
    abbrev pub serialize : T → Action MutinyStorageError (Local b) Bytes
    serialize v s = elim (c.to_string v) [ none ↦ (err serde_error, s) | some text ↦ (ok text, s) ]

    abbrev pub deserialize : Bytes → Outcome MutinyStorageError T
    deserialize text = elim (c.from_str text) [ none ↦ err serde_error | some v ↦ ok v ]

    unfoldable pub set : Bytes → T → Action MutinyStorageError (Local b) (Unit {0})
    unfolding seal_text write
    set key value = (serialize value >>> seal_text) >>> write key

    unfoldable pub get : Bytes → Local b → Outcome MutinyStorageError T
    unfolding open_text
    get key (s, i) =
        (map_err storage_error (b.get Bytes b.string key s) >>= open_text) >>= deserialize

    -- The loop of `scan` over the keys of the browser.
    unfoldable pub scan_keys :
        Bytes
        → Option Bytes
        → Local b
        → List Bytes
        → List (Bytes × T)
        → Outcome MutinyStorageError (List (Bytes × T))
    scan_keys prefix suffix s [] m = ok m
    scan_keys prefix suffix s (key ∷ keys) m = elim (key_matches prefix suffix key) [
      | true ↦ elim (get key s) [
        | ok v ↦ scan_keys prefix suffix s keys (insert key v m)
        | err e ↦ panic
        | panic ↦ panic
      ]
      | false ↦ scan_keys prefix suffix s keys m
    ]

    unfoldable pub scan :
        Bytes → Option Bytes → Local b → Outcome MutinyStorageError (List (Bytes × T))
    unfolding scan_keys
    scan prefix suffix s = scan_keys prefix suffix s (b.keys s.0) []

  unfoldable pub delete : Bytes → Local b → Local b
  delete key (s, i) = (b.delete key s, i)
