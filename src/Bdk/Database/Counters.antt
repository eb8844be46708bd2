-- ===== src/Bdk/Database/Counters.antt =====
-- The derivation index and the descriptor checksum in the database of
-- node-manager/src/bdkstorage.rs.
use mutiny_web_poc.Prelude.{
  ℕ, Option, none, some, ◌≡◌, ◌≢◌, refl, sym, ap, subst, ◌∙◌, arith, Bytes, bytes_eqb_iff,
  partial_eq_bytes,
}
use mutiny_web_poc.Prelude.Outcome.{ok, err, >>>-eq-ok, >>>-ok}
use mutiny_web_poc.Storage.{KeyValue}
use mutiny_web_poc.Bdk.Key.{Bitcoin, last_index, descriptor_checksum}
use mutiny_web_poc.Bdk.Database.{
  checksum_mismatch, put, fetch, pure, next_index, fail, get_last_index, increment_last_index,
  check_descriptor_checksum,
}
use mutiny_web_poc.Bdk.Database.Scripts.{fetch-put_self, fetch-put_ne}

module _ (kv : KeyValue) (x : Bitcoin) where
  -- Counting up, where it succeeds, returns the index after the stored one, 0 if there is none,
  -- stores it, and leaves the index of the other keychain.
  pub increment_last_index_lem :
      (k : x.KeychainKind) (o : Option ℕ) (v : ℕ) (a b : kv.Store)
      → get_last_index kv x k a ≡ (ok o, a)
      → increment_last_index kv x k a ≡ (ok v, b)
      → (v ≡ next_index o)
        × (get_last_index kv x k b ≡ (ok (some v), b))
        × ((j : x.KeychainKind) → k ≢ j → (get_last_index kv x j b).0 ≡ (get_last_index kv x j a).0)
  unfolding increment_last_index get_last_index pure
  increment_last_index_lem k o v a b read h =
      let rest = sym (>>>-ok (fetch kv x x.u32_serde (last_index k)) _ a a o read) ∙ h in
      let (_, m, stored, ends) =
        >>>-eq-ok (put kv x x.u32_serde (last_index k) (next_index o)) _ a rest in
      let same : m ≡ b = ap (λ r. r.1) ends in
      let value : v ≡ next_index o = ground (arith, ends) in
      let put_b : put kv x x.u32_serde (last_index k) (next_index o) a ≡ (ok tt, b) =
        subst (λ u. put kv x x.u32_serde (last_index k) (next_index o) a ≡ (ok tt, u)) same
          stored in
      (
        value,
        subst (λ n. fetch kv x x.u32_serde (last_index k) b ≡ (ok (some n), b)) (sym value)
            (fetch-put_self kv x x.u32_serde (last_index k) (next_index o) a b put_b),
        λ j apart.
            fetch-put_ne kv x x.u32_serde x.u32_serde (last_index k) (last_index j) (next_index o) a
              b tt tt (λ e. apart (ground arith)) put_b,
      )

  -- Once the first descriptor checksum of a keychain was stored, the same bytes pass, any others
  -- are a mismatch, and neither answer changes the storage.
  pub check_descriptor_checksum_lem :
      (k : x.KeychainKind) (bytes : Bytes) (a b : kv.Store)
      → fetch kv x x.bytes_serde (descriptor_checksum k) a ≡ (ok none, a)
      → check_descriptor_checksum kv x k bytes a ≡ (ok tt, b)
      → (check_descriptor_checksum kv x k bytes b ≡ (ok tt, b))
        × ((later : Bytes)
            → bytes ≢ later
            → check_descriptor_checksum kv x k later b ≡ (err checksum_mismatch, b))
  unfolding check_descriptor_checksum pure fail
  check_descriptor_checksum_lem k bytes a b none_yet h =
      let stored =
        sym (>>>-ok (fetch kv x x.bytes_serde (descriptor_checksum k)) _ a a none none_yet) ∙ h in
      let there = fetch-put_self kv x x.bytes_serde (descriptor_checksum k) bytes a b stored in
      (
        >>>-ok (fetch kv x x.bytes_serde (descriptor_checksum k)) _ b b (some bytes) there
            ∙ rw ((bytes_eqb_iff bytes bytes).1 refl) refl,
        λ later apart.
            >>>-ok (fetch kv x x.bytes_serde (descriptor_checksum k)) _ b b (some bytes) there
            ∙ ground (arith, bytes_eqb_iff bytes later),
      )
