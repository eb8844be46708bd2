-- ===== src/Storage/Seed/Laws.antt =====
-- The mnemonic and the nodes of node-manager/src/localstorage.rs are found again.
use mutiny_web_poc.Prelude.{true, false, some, [], Bytes, ◌≡◌, refl, arith}
use mutiny_web_poc.Prelude.Outcome.{Outcome, ok, err, panic, map_err}
use mutiny_web_poc.Storage.{Serde, StorageError, key_not_found, MutinyStorageError, storage_error}
use mutiny_web_poc.Storage.Encrypt.{Crypto, expect}
use mutiny_web_poc.Storage.Local
use mutiny_web_poc.Storage.Local.{Browser, Local}
use mutiny_web_poc.Storage.Local.Laws.{get-set_self, set-eq-ok}
use mutiny_web_poc.Storage.Seed.{
  expect_written, Bip39, NodeStorage, mnemonic_key, nodes_key, insert_mnemonic, get_mnemonic,
  has_mnemonic, delete_mnemonic, get_nodes, insert_nodes,
}

module _ (b : Browser) (x : Crypto) (password : Bytes)
    (utf8 : (T : Type 0) (c : Serde T) (v : T) (text : Bytes)
      → c.to_string v ≡ some text
      → x.from_utf8 text ≡ some text) where
  -- A mnemonic that was stored, encrypted or not, is there and is read back, where texts of JSON
  -- are UTF-8; storing the nodes does not change it; deleting it takes it away.
  pub insert_mnemonic-get_mnemonic :
      (p : Bip39) (c : Serde NodeStorage) (m m' : p.Mnemonic) (nodes : NodeStorage) (s u : Local b)
      → insert_mnemonic b x password p m s ≡ (ok m', u)
      → (m' ≡ m)
        × (get_mnemonic b x password p u ≡ ok m)
        × (has_mnemonic b u ≡ true)
        × (get_mnemonic b x password p (insert_nodes b c nodes u).1 ≡ ok m)
        × (has_mnemonic b (delete_mnemonic b u) ≡ false)
  unfolding insert_mnemonic get_mnemonic has_mnemonic delete_mnemonic insert_nodes Local.get
  insert_mnemonic-get_mnemonic p c m m' nodes s u h =
      let (done, same) =
        unwrapped m (Local.set b x password p.json mnemonic_key (p.to_string m) s).0
          (ground arith) in
      let put : Local.set b x password p.json mnemonic_key (p.to_string m) s ≡ (ok tt, u) =
        ground (arith, done) in
      let (text, stored, printed, opened, raw) =
        set-eq-ok b x password utf8 p.json mnemonic_key (p.to_string m) s u put in
      let got : Local.get b x password p.json mnemonic_key u ≡ ok (p.to_string m) =
        get-set_self b x password utf8 p.json mnemonic_key (p.to_string m) s u put in
      (
        same,
        rw (got, expect, p.from_str-to_string m) refl,
        rw (b.get-set_self Bytes b.string mnemonic_key stored s.0 u.0 raw) refl,
        rw
            (
              b.get-set_other NodeStorage Bytes c b.string nodes_key mnemonic_key nodes u.0 refl,
              got,
              expect,
              p.from_str-to_string m,
            )
            refl,
        rw (b.get-delete_self Bytes b.string mnemonic_key u.0) refl,
      )
    where
      unwrapped :
          {M : Type 0} (a : M) {a' : M} (r : Outcome MutinyStorageError (Unit {0}))
          → expect_written a r ≡ ok a'
          → (r ≡ ok tt) × (a' ≡ a)
      unwrapped a (ok _) e = (refl, ground arith)
      unwrapped a (err g) e = absurd (ground arith)
      unwrapped a panic e = absurd (ground arith)

pub insert_nodes-stored :
    (b : Browser) (c : Serde NodeStorage) (nodes : NodeStorage) (s u : Local b)
    → insert_nodes b c nodes s ≡ (ok tt, u)
    → get_nodes b c u ≡ ok nodes
unfolding insert_nodes get_nodes
insert_nodes-stored b c nodes s u h =
    let put : b.set NodeStorage c nodes_key nodes s.0 ≡ (ok tt, u.0) =
      ground (arith, map_err-eq-ok (b.set NodeStorage c nodes_key nodes s.0).0) in
    rw (b.get-set_self NodeStorage c nodes_key nodes s.0 u.0 put) refl
  where
    map_err-eq-ok :
        (r : Outcome StorageError (Unit {0})) → map_err storage_error r ≡ ok tt → r ≡ ok tt
    map_err-eq-ok (ok a) e = ground arith
    map_err-eq-ok (err g) e = cc
    map_err-eq-ok panic e = cc

-- Nodes that were stored are read back; where nothing is stored there are no nodes.
pub insert_nodes-get_nodes :
    (b : Browser) (c : Serde NodeStorage) (nodes : NodeStorage) (s u empty : Local b)
    → insert_nodes b c nodes s ≡ (ok tt, u)
    → b.get NodeStorage c nodes_key empty.0 ≡ err key_not_found
    → (get_nodes b c u ≡ ok nodes) × (get_nodes b c empty ≡ ok (record { nodes = [] }))
unfolding get_nodes
insert_nodes-get_nodes b c nodes s u empty h missing =
    (insert_nodes-stored b c nodes s u h, rw missing refl)
