-- ===== src/Bdk/Database/Scripts.antt =====
-- Reads after writes in the database of node-manager/src/bdkstorage.rs: scripts and outputs.
use mutiny_web_poc.Prelude.{ℕ, ◌^◌, ◌<◌, Option, none, some, ◌≡◌, ◌≢◌, refl, ap, ◌∙◌, arith}
use mutiny_web_poc.Prelude.Outcome.{Outcome, ok, err, panic, ◌>>>◌, >>>-eq-ok, >>>-ok, map_err}
use mutiny_web_poc.Storage.{Serde, KeyValue, MutinyStorageError}
use mutiny_web_poc.Bdk.Key.{Bitcoin, MapKey, path, script, utxo, as_map_key, ScriptPubKeyInfo}
use mutiny_web_poc.Bdk.Key.Injective.{IsFull, as_map_key-ne}
use mutiny_web_poc.Bdk.Database.{
  to_bdk_error, Utxo, put, fetch, take_key, pure, set_script_pubkey, set_utxo, get_utxo, del_utxo,
  get_script_pubkey_from_path, get_path_from_script_pubkey, del_script_pubkey_from_path,
}

map_err-eq-ok :
    (r : Outcome MutinyStorageError (Unit {0})) → map_err to_bdk_error r ≡ ok tt → r ≡ ok tt
map_err-eq-ok (ok a) h = ground arith
map_err-eq-ok (err e) h = cc
map_err-eq-ok panic h = cc

module _ (kv : KeyValue) (x : Bitcoin) {T : Type 0} (c : Serde T) where
  put-eq-ok :
      (k : MapKey x) (v : T) (s u : kv.Store)
      → put kv x c k v s ≡ (ok tt, u)
      → kv.set T c (as_map_key x k) v s ≡ (ok tt, u)
  unfolding put
  put-eq-ok k v s u h = ground (arith, map_err-eq-ok (kv.set T c (as_map_key x k) v s).0)

  pub fetch-put_self :
      (k : MapKey x) (v : T) (s u : kv.Store)
      → put kv x c k v s ≡ (ok tt, u)
      → fetch kv x c k u ≡ (ok (some v), u)
  unfolding fetch
  fetch-put_self k v s u h =
      rw (kv.get-set_self T c (as_map_key x k) v s u (put-eq-ok k v s u h)) refl

  pub fetch-put_ne :
      {U : Type 0} (d : Serde U) (k j : MapKey x) (v : T) (s u : kv.Store)
      → IsFull x k
      → IsFull x j
      → k ≢ j
      → put kv x c k v s ≡ (ok tt, u)
      → (fetch kv x d j u).0 ≡ (fetch kv x d j s).0
  unfolding fetch
  fetch-put_ne {U} d k j v s u fk fj apart h =
      rw
        (kv.get-set_ne T U c d (as_map_key x k) (as_map_key x j) v s u (put-eq-ok k v s u h)
          (as_map_key-ne x k j fk fj apart))
        refl

  pub fetch-delete_ne :
      (k j : MapKey x) (s : kv.Store)
      → IsFull x k
      → IsFull x j
      → k ≢ j
      → (fetch kv x c j (kv.delete (as_map_key x k) s)).0 ≡ (fetch kv x c j s).0
  unfolding fetch
  fetch-delete_ne k j s fk fj apart =
      rw
        (kv.get-delete_ne T c (as_map_key x k) (as_map_key x j) s (as_map_key-ne x k j fk fj apart))
        refl

  pub fetch-eq :
      (k : MapKey x) (s : kv.Store) (o : Option T)
      → (fetch kv x c k s).0 ≡ ok o
      → fetch kv x c k s ≡ (ok o, s)
  unfolding fetch
  fetch-eq k s o h = ground arith

  -- Taking a value out: what was there comes back, and the key is free afterwards.
  pub take_key_lem :
      (k : MapKey x) (o : Option T) (s : kv.Store)
      → fetch kv x c k s ≡ (ok o, s)
      → (take_key kv x c k s ≡ (ok o, kv.delete (as_map_key x k) s))
        × (fetch kv x c k (kv.delete (as_map_key x k) s) ≡ (ok none, kv.delete (as_map_key x k) s))
  unfolding take_key ◌>>>◌
  take_key_lem k o s h = (
    >>>-ok (fetch kv x c k) _ s s o h ∙ refl,
    (unfold fetch in rw (kv.get-delete_self T c (as_map_key x k) s) refl),
  )

module _ (kv : KeyValue) (x : Bitcoin) where
  -- What the two writes of `set_script_pubkey` leave behind.
  set_script_pubkey-stored :
      (s : x.Script) (keychain : x.KeychainKind) (child : ℕ) (a b : kv.Store)
      → child < 2 ^ 32
      → set_script_pubkey kv x s keychain child a ≡ (ok tt, b)
      → (fetch kv x x.script_serde (path (some keychain) (some child)) b ≡ (ok (some s), b))
        × (fetch kv x x.info_serde (script (some s)) b
            ≡ (ok (some (record { keychain = keychain; path = child })), b))
  unfolding set_script_pubkey
  set_script_pubkey-stored s keychain child a b fits h =
      let (_, m, first, second) =
        >>>-eq-ok (put kv x x.script_serde (path (some keychain) (some child)) s) _ a h in
      let info : ScriptPubKeyInfo x.KeychainKind = record { keychain = keychain; path = child } in
      let kept : (fetch kv x x.script_serde (path (some keychain) (some child)) b).0
          ≡ (fetch kv x x.script_serde (path (some keychain) (some child)) m).0 =
        fetch-put_ne kv x x.info_serde x.script_serde (script (some s))
          (path (some keychain) (some child)) info m b tt fits (λ e. cc) second in
      let was : fetch kv x x.script_serde (path (some keychain) (some child)) m ≡ (ok (some s), m) =
        fetch-put_self kv x x.script_serde (path (some keychain) (some child)) s a m first in
      (
        fetch-eq kv x x.script_serde (path (some keychain) (some child)) b (some s)
            (kept ∙ ap (λ r. r.0) was),
        fetch-put_self kv x x.info_serde (script (some s)) info m b second,
      )

  -- A script that was stored under a path of a `u32` is found by its path, and its path by the
  -- script.
  pub set_script_pubkey-get :
      (s : x.Script) (keychain : x.KeychainKind) (child : ℕ) (a b : kv.Store)
      → child < 2 ^ 32
      → set_script_pubkey kv x s keychain child a ≡ (ok tt, b)
      → (get_script_pubkey_from_path kv x keychain child b ≡ (ok (some s), b))
        × (get_path_from_script_pubkey kv x s b ≡ (ok (some (keychain, child)), b))
  unfolding get_script_pubkey_from_path get_path_from_script_pubkey pure ◌>>>◌
  set_script_pubkey-get s keychain child a b fits h =
      let (by_path, by_script) = set_script_pubkey-stored s keychain child a b fits h in
      (
        by_path,
        >>>-ok (fetch kv x x.info_serde (script (some s))) _ b b
              (some (record { keychain = keychain; path = child })) by_script
            ∙ refl,
      )

  -- After a script was stored under a path of a `u32`, forgetting the path returns the script and
  -- leaves the other direction: the path is still found under the script.
  pub del_script_pubkey_from_path-keeps :
      (s : x.Script) (keychain : x.KeychainKind) (child : ℕ) (a b : kv.Store)
      → child < 2 ^ 32
      → set_script_pubkey kv x s keychain child a ≡ (ok tt, b)
      → (c : kv.Store) × (del_script_pubkey_from_path kv x keychain child b ≡ (ok (some s), c))
        × (get_script_pubkey_from_path kv x keychain child c ≡ (ok none, c))
        × (get_path_from_script_pubkey kv x s c ≡ (ok (some (keychain, child)), c))
  unfolding del_script_pubkey_from_path get_script_pubkey_from_path get_path_from_script_pubkey pure
      ◌>>>◌
  del_script_pubkey_from_path-keeps s keychain child a b fits h =
      let (by_path, by_script) = set_script_pubkey-stored s keychain child a b fits h in
      let (gone, free) =
        take_key_lem kv x x.script_serde (path (some keychain) (some child)) (some s) b by_path in
      let c : kv.Store = kv.delete (as_map_key x (path (some keychain) (some child))) b in
      let info : ScriptPubKeyInfo x.KeychainKind = record { keychain = keychain; path = child } in
      let kept : (fetch kv x x.info_serde (script (some s)) c).0 ≡ ok (some info) =
        fetch-delete_ne kv x x.info_serde (path (some keychain) (some child)) (script (some s)) b
          fits tt (λ e. cc)
        ∙ ap (λ r. r.0) by_script in
      (
        c,
        gone,
        free,
        >>>-ok (fetch kv x x.info_serde (script (some s))) _ c c (some info)
              (fetch-eq kv x x.info_serde (script (some s)) c (some info) kept)
            ∙ refl,
      )

  -- An output that was stored is found under its outpoint, taken out once, and gone afterwards.
  pub set_utxo-del :
      (u : Utxo kv x) (a b : kv.Store)
      → set_utxo kv x u a ≡ (ok tt, b)
      → (c : kv.Store) × (get_utxo kv x u.outpoint b ≡ (ok (some u), b))
        × (del_utxo kv x u.outpoint b ≡ (ok (some u), c))
        × (get_utxo kv x u.outpoint c ≡ (ok none, c))
  unfolding set_utxo get_utxo del_utxo
  set_utxo-del u a b h =
      let there = fetch-put_self kv x x.utxo_serde (utxo (some u.outpoint)) u a b h in
      let (gone, free) = take_key_lem kv x x.utxo_serde (utxo (some u.outpoint)) (some u) b there in
      (kv.delete (as_map_key x (utxo (some u.outpoint))) b, there, gone, free)
