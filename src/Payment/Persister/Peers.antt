-- ===== src/Payment/Persister/Peers.antt =====
-- Peers of a node in node-manager/src/ldkstorage.rs: what was stored for a peer is read, listed
-- under its public key, and deleted.
use mutiny_web_poc.Prelude.{
  true, none, some, List, [], ◌∷◌, ◌++◌, Bytes, ◌==◌, ◌≡◌, ap, arith, refl, sym, ◌∙◌,
  partial_eq_bytes,
}
use mathlib.Core.List.{append_assoc}
use mathlib.Core.List.{Mem, mem-cons_self, mem-cons_of_mem}
use mutiny_web_poc.Prelude.{Bool-cases, inl, inr, bytes_eqb_iff}
use mutiny_web_poc.Prelude.Assoc
use mutiny_web_poc.Prelude.Outcome.{>>=-eq-ok, Outcome, ok, err, panic, map_err}
use mutiny_web_poc.Storage.{KeyValue, MutinyStorageError}
use mutiny_web_poc.Storage.Text.{
  strip_prefix-append, strip_suffix-append, key_matches-both, key_matches,
}
use mutiny_web_poc.Payment.{other_error, Formats}
use mutiny_web_poc.Payment.Persister.{
  get_key, peer_key, peer_prefix_key, read_peer_connection_info, persist_peer_connection_info,
  delete_peer_connection_info, pubkey_of_key, collect_peers, list_peer_connection_info,
}

module _ (node_id pubkey : Bytes) where
  -- The storage key of a peer, split after its prefix and before its suffix.
  key_front : get_key node_id (peer_key pubkey) ≡ peer_prefix_key ++ (pubkey ++ (b'_' ∷ node_id))
  unfolding get_key peer_key
  key_front = append_assoc peer_prefix_key pubkey (b'_' ∷ node_id)

  key_back :
      get_key node_id (peer_key pubkey) ≡ ((peer_prefix_key ++ pubkey) ++ (b'_' ∷ [])) ++ node_id
  unfolding get_key peer_key
  key_back = sym (append_assoc (peer_prefix_key ++ pubkey) (b'_' ∷ []) node_id)

  matches-peer_key :
      key_matches peer_prefix_key (some node_id) (get_key node_id (peer_key pubkey)) ≡ true
  matches-peer_key =
      key_matches-both peer_prefix_key (pubkey ++ (b'_' ∷ node_id)) node_id _ key_front
        ((peer_prefix_key ++ pubkey) ++ (b'_' ∷ [])) key_back

  -- The public key comes out of the storage key that was made from its text, and no `unwrap` fails.
  pub pubkey_of_key-get_key :
      (kv : KeyValue) (f : Formats) (p : f.PublicKey)
      → f.pubkey_from_str pubkey ≡ some p
      → pubkey_of_key kv f node_id (get_key node_id (peer_key pubkey)) ≡ ok p
  unfolding pubkey_of_key
  pubkey_of_key-get_key kv f p parses =
      rw
        (
          key_front,
          strip_prefix-append peer_prefix_key (pubkey ++ (b'_' ∷ node_id)),
          ← append_assoc pubkey (b'_' ∷ []) node_id,
          strip_suffix-append (pubkey ++ (b'_' ∷ [])) node_id,
          strip_suffix-append pubkey (b'_' ∷ []),
          parses,
        )
        refl

module _ (kv : KeyValue) (f : Formats) (node_id : Bytes) where
  collect_peers-mem :
      (m : List (Bytes × Bytes)) (ps : List (f.PublicKey × Bytes)) (k v : Bytes) (p : f.PublicKey)
      → Assoc.get k m ≡ some v
      → pubkey_of_key kv f node_id k ≡ ok p
      → collect_peers kv f node_id m ≡ ok ps
      → Mem (p, v) ps
  unfolding Assoc.get collect_peers
  collect_peers-mem [] ps k v p got named h = cc
  collect_peers-mem ((j, w) ∷ m) ps k v p got named h =
      let (q, first, h1) = >>=-eq-ok (pubkey_of_key kv f node_id j) _ h in
      let (rest, tail, h2) = >>=-eq-ok (collect_peers kv f node_id m) _ h1 in
      let whole : ps ≡ (q, w) ∷ rest = ground arith in
      rw whole (elim (Bool-cases (j == k)) [
        | inl eq ↦
            let same : j ≡ k = (bytes_eqb_iff j k).0 eq in
            let value : w ≡ v = ground arith in
            let key : q ≡ p = ground (arith, first, named, ap (pubkey_of_key kv f node_id) same) in
            rw (key, value) mem-cons_self
        | inr ne ↦ mem-cons_of_mem (q, w) (collect_peers-mem m rest k v p (ground arith) named tail)
      ])

  pub read-persist_peer :
      (pubkey conn : Bytes) (s u : kv.Store)
      → persist_peer_connection_info kv f node_id pubkey conn s ≡ (ok tt, u)
      → read_peer_connection_info kv f node_id pubkey u ≡ ok (some conn)
  unfolding persist_peer_connection_info read_peer_connection_info
  read-persist_peer pubkey conn s u h =
      let key : Bytes = get_key node_id (peer_key pubkey) in
      let put : kv.set Bytes f.string_serde key conn s ≡ (ok tt, u) =
        ground (arith, map_err-eq-ok (kv.set Bytes f.string_serde key conn s).0) in
      rw (kv.get-set_self Bytes f.string_serde key conn s u put) refl
    where
      map_err-eq-ok :
          (r : Outcome MutinyStorageError (Unit {0})) → map_err other_error r ≡ ok tt → r ≡ ok tt
      map_err-eq-ok (ok a) e = ground arith
      map_err-eq-ok (err e) q = cc
      map_err-eq-ok panic e = cc

  -- After a connection string was stored for a peer it is read back, and every list of the node's
  -- peers that is given pairs the peer's public key with it; deleting the peer ends both.
  pub persist_peer_connection_info-list :
      (pubkey conn : Bytes) (p : f.PublicKey) (s u : kv.Store)
      → f.pubkey_from_str pubkey ≡ some p
      → persist_peer_connection_info kv f node_id pubkey conn s ≡ (ok tt, u)
      → (read_peer_connection_info kv f node_id pubkey u ≡ ok (some conn))
        × ((ps : List (f.PublicKey × Bytes))
            → list_peer_connection_info kv f node_id u ≡ ok ps
            → Mem (p, conn) ps)
        × (read_peer_connection_info kv f node_id pubkey
              (delete_peer_connection_info kv f node_id pubkey u)
            ≡ ok none)
  unfolding persist_peer_connection_info read_peer_connection_info list_peer_connection_info
      delete_peer_connection_info
  persist_peer_connection_info-list pubkey conn p s u parses h =
      let key : Bytes = get_key node_id (peer_key pubkey) in
      let put : kv.set Bytes f.string_serde key conn s ≡ (ok tt, u) =
        ground (arith, map_err-eq-ok (kv.set Bytes f.string_serde key conn s).0) in
      let got : kv.get Bytes f.string_serde key u ≡ ok conn =
        kv.get-set_self Bytes f.string_serde key conn s u put in
      (
        rw got refl,
        (λ ps listed.
            let (m, scanned, collected) =
              >>=-eq-ok (kv.scan Bytes f.string_serde peer_prefix_key (some node_id) u) _ listed in
            collect_peers-mem m ps key conn p
              (kv.scan-matches Bytes f.string_serde peer_prefix_key (some node_id) u m key scanned
                  (matches-peer_key node_id pubkey)
                ∙ rw got refl)
              (pubkey_of_key-get_key node_id pubkey kv f p parses) collected),
        rw (kv.get-delete_self Bytes f.string_serde key u) refl,
      )
    where
      map_err-eq-ok :
          (r : Outcome MutinyStorageError (Unit {0})) → map_err other_error r ≡ ok tt → r ≡ ok tt
      map_err-eq-ok (ok a) e = ground arith
      map_err-eq-ok (err e) q = cc
      map_err-eq-ok panic e = cc
