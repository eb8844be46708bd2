-- ===== src/Storage/Seed.antt =====
-- The mnemonic and the list of nodes in the browser: node-manager/src/localstorage.rs.
pub mod Laws
pub mod Tests
use mutiny_web_poc.Prelude.{
  ℕ, Bool, true, false, Option, none, some, List, [], ◌∷◌, Bytes, codes, ◌≡◌,
}
use mutiny_web_poc.Prelude.Outcome.{Outcome, ok, err, panic, ◌>>=◌, Action, ◌>>>◌, unwrap, map_err}
use mutiny_web_poc.Storage.{
  Serde, StorageError, key_not_found, other_error, MutinyStorageError, storage_error,
}
use mutiny_web_poc.Storage.Encrypt.{Crypto, expect}
use mutiny_web_poc.Storage.Local
use mutiny_web_poc.Storage.Local.{Browser, Local}

abbrev pub mnemonic_key : Bytes
mnemonic_key = codes "mnemonic"

abbrev pub nodes_key : Bytes
nodes_key = codes "nodes"

-- `bip39::Mnemonic`, its words, and the JSON of a string.
pub record Bip39 : Type 1 where
  pub Mnemonic : Type 0
  pub to_string : Mnemonic → Bytes
  pub from_str : Bytes → Option Mnemonic
  pub json : Serde Bytes
  pub from_str-to_string : (m : Mnemonic) → from_str (to_string m) ≡ some m

-- `NodeIndex`
pub record NodeIndex : Type 0 where
  pub uuid : Bytes
  pub child_index : ℕ

-- `NodeStorage`
pub record NodeStorage : Type 0 where
  pub nodes : List (Bytes × NodeIndex)

-- `expect` on a write, and the value that was written.
abbrev pub expect_written :
    {M : Type 0} → M → Outcome MutinyStorageError (Unit {0}) → Outcome MutinyStorageError M
expect_written m r = unwrap {F = MutinyStorageError} r >>= λ _. ok m

module _ (b : Browser) where
  module _ (x : Crypto) (password : Bytes) (p : Bip39) where
    unfoldable pub insert_mnemonic :
        p.Mnemonic → Local b → Outcome MutinyStorageError p.Mnemonic × Local b
    insert_mnemonic m s =
        let r = Local.set b x password p.json mnemonic_key (p.to_string m) s in
        (expect_written m r.0, r.1)

    unfoldable pub get_mnemonic : Local b → Outcome MutinyStorageError p.Mnemonic
    get_mnemonic s =
        Local.get b x password p.json mnemonic_key s >>= λ text. expect (p.from_str text)

  abbrev is_ok : {A : Type 0} → Outcome StorageError A → Bool
  is_ok (ok a) = true
  is_ok (err e) = false
  is_ok panic = false

  unfoldable pub has_mnemonic : Local b → Bool
  has_mnemonic (s, i) = is_ok (b.get Bytes b.string mnemonic_key s)

  unfoldable pub delete_mnemonic : Local b → Local b
  delete_mnemonic (s, i) = (b.delete mnemonic_key s, i)

  -- No nodes where none were stored.
  abbrev pub or_no_nodes : Outcome StorageError NodeStorage → Outcome MutinyStorageError NodeStorage
  or_no_nodes (ok k) = ok k
  or_no_nodes (err key_not_found) = ok (record { nodes = [] })
  or_no_nodes (err other_error) = err (storage_error other_error)
  or_no_nodes panic = panic

  module _ (c : Serde NodeStorage) where
    unfoldable pub get_nodes : Local b → Outcome MutinyStorageError NodeStorage
    get_nodes (s, i) = or_no_nodes (b.get NodeStorage c nodes_key s)

    unfoldable pub insert_nodes :
        NodeStorage → Local b → Outcome MutinyStorageError (Unit {0}) × Local b
    insert_nodes nodes (s, i) = (
      map_err storage_error (b.set NodeStorage c nodes_key nodes s).0,
      ((b.set NodeStorage c nodes_key nodes s).1, i),
    )
