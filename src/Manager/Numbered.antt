-- ===== src/Manager/Numbered.antt =====
-- The child indices of the nodes of node-manager/src/nodemanager.rs are apart.
use mutiny_web_poc.Prelude.{
  sym, subst, ℕ, suc, ◌+◌, ◌%◌, ◌^◌, ◌<◌, ◌≤◌, none, some, List, [], ◌∷◌, Bytes, partial_eq_bytes,
  ◌≡◌, ◌≢◌, refl, ◌∙◌, arith, length, bytes_eqb_iff, ap,
}
use mutiny_web_poc.Prelude.Assoc
use mutiny_web_poc.Prelude.Outcome.{Outcome, ok, err, panic, ◌>>>◌, >>>-ok}
use mutiny_web_poc.Storage.{Serde}
use mutiny_web_poc.Storage.Local.{Browser, Local}
use mutiny_web_poc.Storage.Seed.{NodeIndex, NodeStorage, get_nodes, insert_nodes}
use mutiny_web_poc.Storage.Seed.Laws.{insert_nodes-stored}
use mutiny_web_poc.Errors.{MutinyError}
use mutiny_web_poc.Manager.Nodes.{
  max_child_index, next_node_index, next_node, NodeManager, create_new_node, read_nodes,
  store_nodes, keep_nodes, start_node,
}

-- Every child index is below a number.
abbrev pub AreBelow : ℕ → List (Bytes × NodeIndex) → Type 0
AreBelow n [] = Unit
AreBelow n ((k, v) ∷ m) = (v.child_index < n) × AreBelow n m

-- No child index is a given number.
abbrev pub AreOther : ℕ → List (Bytes × NodeIndex) → Type 0
AreOther n [] = Unit
AreOther n ((k, v) ∷ m) = (v.child_index ≢ n) × AreOther n m

abbrev pub AreDistinct : List (Bytes × NodeIndex) → Type 0
AreDistinct [] = Unit
AreDistinct ((k, v) ∷ m) = AreOther v.child_index m × AreDistinct m

-- No two nodes have the same child index, and every index is below the number of nodes.
abbrev pub IsNumbered : List (Bytes × NodeIndex) → Type 0
IsNumbered m = AreDistinct m × AreBelow (length m) m

AreBelow-le : (m : List (Bytes × NodeIndex)) (a b : ℕ) → a ≤ b → AreBelow a m → AreBelow b m
AreBelow-le [] a b h all = tt
AreBelow-le ((k, v) ∷ m) a b h all = (omega (arith, all.0), AreBelow-le m a b h all.1)

AreBelow-AreOther : (m : List (Bytes × NodeIndex)) (n : ℕ) → AreBelow n m → AreOther n m
AreBelow-AreOther [] n all = tt
AreBelow-AreOther ((k, v) ∷ m) n all = (omega (arith, all.0), AreBelow-AreOther m n all.1)

AreBelow-max : (m : List (Bytes × NodeIndex)) → AreBelow (max_child_index m + 1) m
unfolding max_child_index
AreBelow-max [] = tt
AreBelow-max ((k, v) ∷ m) = (
  ground arith,
  AreBelow-le m (max_child_index m + 1) (max_child_index ((k, v) ∷ m) + 1) (ground arith)
      (AreBelow-max m),
)

max-lt : (m : List (Bytes × NodeIndex)) (n : ℕ) → 0 < n → AreBelow n m → max_child_index m < n
unfolding max_child_index
max-lt [] n pos all = pos
max-lt ((k, v) ∷ m) n pos all = ground (arith, max-lt m n pos all.1, all.0)

-- The next index is above all, where the highest one is not the highest of 32 bits.
pub next_node_index-above :
    (m : List (Bytes × NodeIndex)) → max_child_index m + 1 < 2 ^ 32 → AreBelow (next_node_index m) m
unfolding next_node_index
next_node_index-above [] bound = tt
next_node_index-above (n ∷ m) bound =
    AreBelow-le (n ∷ m) (max_child_index (n ∷ m) + 1) ((max_child_index (n ∷ m) + 1) % 2 ^ 32)
      (omega arith) (AreBelow-max (n ∷ m))

next_node_index-le :
    (m : List (Bytes × NodeIndex))
    → length m < 2 ^ 32
    → AreBelow (length m) m
    → (next_node_index m ≤ length m) × (AreBelow (next_node_index m) m)
unfolding next_node_index
next_node_index-le [] bound all = (omega arith, tt)
next_node_index-le (n ∷ m) bound all =
    let highest = max-lt (n ∷ m) (length (n ∷ m)) (omega arith) all in
    (omega (arith, highest), next_node_index-above (n ∷ m) (omega (arith, highest, bound)))

remove-fresh :
    (k : Bytes) (m : List (Bytes × NodeIndex)) → Assoc.get k m ≡ none → Assoc.remove k m ≡ m
unfolding Assoc.get Assoc.remove
remove-fresh k [] h = refl
remove-fresh k ((j, v) ∷ m) h = ground (arith, remove-fresh k m)

-- A node with a new identifier keeps the indices apart, below 2 ^ 32 nodes.
insert-IsNumbered :
    (uuid : Bytes) (m : List (Bytes × NodeIndex))
    → Assoc.get uuid m ≡ none
    → length m < 2 ^ 32
    → IsNumbered m
    → IsNumbered (Assoc.insert uuid (next_node uuid m) m)
unfolding Assoc.insert
insert-IsNumbered uuid m fresh bound (apart, below) =
    let (small, above) = next_node_index-le m bound below in
    subst IsNumbered (sym (ap (◌∷◌ (uuid, next_node uuid m)) (remove-fresh uuid m fresh))) (
      (AreBelow-AreOther m (next_node_index m) above, apart),
      (omega (arith, small), AreBelow-le m (length m) (suc (length m)) (omega arith) below),
    )

get-own :
    (k : Bytes) (v : NodeIndex) (m : List (Bytes × NodeIndex))
    → Assoc.get k (Assoc.insert k v m) ≡ some v
get-own k v m = ground (arith, Assoc.get-insert k k v m, bytes_eqb_iff k k)

get-other :
    (k j : Bytes) (v : NodeIndex) (m : List (Bytes × NodeIndex))
    → k ≢ j
    → Assoc.get j (Assoc.insert k v m) ≡ Assoc.get j m
get-other k j v m apart = ground (arith, Assoc.get-insert k j v m, bytes_eqb_iff k j)

module _ (b : Browser) (c : Serde NodeStorage) (Node : Type 0)
    (start : NodeIndex → Outcome MutinyError (Bytes × Node)) where
  start_node-storage :
      (index : NodeIndex) (m : NodeManager b c Node start)
      → ((start_node b c Node start index m).1.storage ≡ m.storage)
        × ((start_node b c Node start index m).1.node_storage ≡ m.node_storage)
  unfolding start_node
  start_node-storage index m = go (start index) refl
    where
      go :
          (r : Outcome MutinyError (Bytes × Node))
          → start index ≡ r
          → ((start_node b c Node start index m).1.storage ≡ m.storage)
            × ((start_node b c Node start index m).1.node_storage ≡ m.node_storage)
      go (ok p) e = rw (start_node, e) (refl, refl)
      go (err g) e = rw (start_node, e) (refl, refl)
      go panic e = rw (start_node, e) (refl, refl)

  read_nodes-ok :
      (m : NodeManager b c Node start) (existing : List (Bytes × NodeIndex))
      → get_nodes b c m.storage ≡ ok (record { nodes = existing })
      → read_nodes b c Node start m ≡ (ok existing, m)
  unfolding read_nodes
  read_nodes-ok m existing h = rw h refl

  store_nodes-ok :
      (m : NodeManager b c Node start) (nodes : List (Bytes × NodeIndex)) (u : Local b)
      → insert_nodes b c (record { nodes = nodes }) m.storage ≡ (ok tt, u)
      → store_nodes b c Node start nodes m ≡ (ok tt, record m { storage = u })
  unfolding store_nodes
  store_nodes-ok m nodes u h = rw h refl

  -- A creation whose list was read and written ends with the start of the node.
  pub created :
      (uuid : Bytes) (m : NodeManager b c Node start) (existing : List (Bytes × NodeIndex))
      (u : Local b)
      → get_nodes b c m.storage ≡ ok (record { nodes = existing })
      → insert_nodes b c
          (record { nodes = Assoc.insert uuid (next_node uuid existing) existing })
          m.storage
        ≡ (ok tt, u)
      → create_new_node b c Node start uuid m
        ≡ start_node b c Node start (next_node uuid existing) (record m {
          storage = u;
          node_storage = Assoc.insert uuid (next_node uuid existing) existing;
        })
  unfolding create_new_node keep_nodes
  created uuid m existing u reads writes =
      let nodes : List (Bytes × NodeIndex) = Assoc.insert uuid (next_node uuid existing) existing in
      >>>-ok (read_nodes b c Node start)
        (λ existing.
          store_nodes b c Node start (Assoc.insert uuid (next_node uuid existing) existing) >>> λ _.
          keep_nodes b c Node start (Assoc.insert uuid (next_node uuid existing) existing) >>> λ _.
          start_node b c Node start (next_node uuid existing))
        m m existing (read_nodes-ok m existing reads)
      ∙ >>>-ok (store_nodes b c Node start nodes)
          (λ _. keep_nodes b c Node start nodes >>> λ _.
            start_node b c Node start (next_node uuid existing))
          m (record m { storage = u }) tt (store_nodes-ok m nodes u writes)
      ∙ >>>-ok (keep_nodes b c Node start nodes)
          (λ _. start_node b c Node start (next_node uuid existing)) (record m { storage = u })
          (record m { storage = u; node_storage = nodes }) tt refl

  -- Where the list of nodes can be read and written, a new node is stored, whether it starts or
  -- not: under a new identifier, and below 2 ^ 32 nodes, no two nodes have the same child index and
  -- every index is below the number of nodes, if it was so before; the other nodes are kept, and
  -- the manager's own list is the stored one.
  pub create_new_node-IsNumbered :
      (uuid : Bytes) (m : NodeManager b c Node start) (existing : List (Bytes × NodeIndex))
      (u : Local b)
      → get_nodes b c m.storage ≡ ok (record { nodes = existing })
      → insert_nodes b c
          (record { nodes = Assoc.insert uuid (next_node uuid existing) existing })
          m.storage
        ≡ (ok tt, u)
      → Assoc.get uuid existing ≡ none
      → length existing < 2 ^ 32
      → IsNumbered existing
      → (nodes : List (Bytes × NodeIndex)) × (index : ℕ) × (get_nodes b c
            (create_new_node b c Node start uuid m).1.storage
          ≡ ok (record { nodes = nodes }))
        × IsNumbered nodes
        × (Assoc.get uuid nodes ≡ some (record { uuid = uuid; child_index = index }))
        × ((k : Bytes) → uuid ≢ k → Assoc.get k nodes ≡ Assoc.get k existing)
        × ((create_new_node b c Node start uuid m).1.node_storage ≡ nodes)
  unfolding create_new_node
  create_new_node-IsNumbered uuid m existing u reads writes fresh bound numbered =
      let nodes : List (Bytes × NodeIndex) = Assoc.insert uuid (next_node uuid existing) existing in
      let (kept, own) =
        start_node-storage (next_node uuid existing)
          (record m { storage = u; node_storage = nodes }) in
      let runs = created uuid m existing u reads writes in
      (
        nodes,
        next_node_index existing,
        ap (λ r. get_nodes b c r.1.storage) runs
            ∙ ap (get_nodes b c) kept
            ∙ insert_nodes-stored b c (record { nodes = nodes }) m.storage u writes,
        insert-IsNumbered uuid existing fresh bound numbered,
        get-own uuid (next_node uuid existing) existing,
        λ k apart. get-other uuid k (next_node uuid existing) existing apart,
        ap (λ r. r.1.node_storage) runs ∙ own,
      )
