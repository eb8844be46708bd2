-- ===== src/Chain/Order.antt =====
-- The order in which node-manager/src/chain.rs reports confirmed transactions.
use mutiny_web_poc.Prelude.{
  ℕ, ◌+◌, ◌<◌, Bool, true, false, List, [], ◌∷◌, ◌≡◌, refl, partial_eq_nat, Bool-cases, inl, inr,
  arith, if◌then◌else◌, ◌≤◌, ◌⊎◌,
}
use mutiny_web_poc.Chain.{Esplora, ConfirmedTx}
use mutiny_web_poc.Chain.Loop.{sort_txs, is_before, insert_tx}

module _ (e : Esplora) where
  -- Each transaction is in a lower block than the next, or in the same block and not behind it.
  abbrev pub InOrder : ConfirmedTx e → ConfirmedTx e → Type 0
  InOrder tx1 tx2 =
      (tx1.block_height < tx2.block_height)
      ⊎ ((tx1.block_height ≡ tx2.block_height) × (tx1.pos ≤ tx2.pos))

  abbrev pub AllAfter : ConfirmedTx e → List (ConfirmedTx e) → Type 0
  AllAfter tx [] = Unit
  AllAfter tx (x ∷ xs) = InOrder tx x × AllAfter tx xs

  abbrev pub IsSorted : List (ConfirmedTx e) → Type 0
  IsSorted [] = Unit
  IsSorted (x ∷ xs) = AllAfter x xs × IsSorted xs

  is_before-InOrder : (a b : ConfirmedTx e) → is_before e a b ≡ true → InOrder a b
  is_before-InOrder a b h = ground arith

  not_before-InOrder : (a b : ConfirmedTx e) → is_before e a b ≡ false → InOrder b a
  not_before-InOrder a b h = ground arith

  InOrder-trans : (a b c : ConfirmedTx e) → InOrder a b → InOrder b c → InOrder a c
  InOrder-trans a b c h k = ground (arith, h, k)

  AllAfter-trans :
      (a b : ConfirmedTx e) (xs : List (ConfirmedTx e))
      → InOrder a b
      → AllAfter b xs
      → AllAfter a xs
  AllAfter-trans a b [] h all = tt
  AllAfter-trans a b (x ∷ xs) h all = (InOrder-trans a b x h all.0, AllAfter-trans a b xs h all.1)

  AllAfter-insert :
      (a tx : ConfirmedTx e) (xs : List (ConfirmedTx e))
      → InOrder a tx
      → AllAfter a xs
      → AllAfter a (insert_tx e tx xs)
  AllAfter-insert a tx [] h all = (h, tt)
  AllAfter-insert a tx (x ∷ xs) h all = elim (Bool-cases (is_before e tx x)) [
    | inl b ↦ rw b (h, all)
    | inr b ↦ rw b (all.0, AllAfter-insert a tx xs h all.1)
  ]

  insert-IsSorted :
      (tx : ConfirmedTx e) (xs : List (ConfirmedTx e)) → IsSorted xs → IsSorted (insert_tx e tx xs)
  insert-IsSorted tx [] h = (tt, tt)
  insert-IsSorted tx (x ∷ xs) h = elim (Bool-cases (is_before e tx x)) [
    | inl b ↦
        let lower = is_before-InOrder tx x b in rw b ((lower, AllAfter-trans tx x xs lower h.0), h)
    | inr b ↦
        rw b (AllAfter-insert x tx xs (not_before-InOrder tx x b) h.0, insert-IsSorted tx xs h.1)
  ]

  module _ (test : ConfirmedTx e → Bool) where
    -- How many transactions of a list pass a test.
    abbrev pub count : List (ConfirmedTx e) → ℕ
    count [] = 0
    count (x ∷ xs) = (if test x then 1 else 0) + count xs

    count-insert :
        (tx : ConfirmedTx e) (xs : List (ConfirmedTx e))
        → count (insert_tx e tx xs) ≡ count (tx ∷ xs)
    count-insert tx [] = refl
    count-insert tx (x ∷ xs) = ground (arith, count-insert tx xs)

  -- The sorted list has the same transactions, each as often by every test, in the order of blocks
  -- and of positions in a block.
  pub sort_txs-IsSorted :
      (xs : List (ConfirmedTx e)) (test : ConfirmedTx e → Bool)
      → IsSorted (sort_txs e xs) × (count test (sort_txs e xs) ≡ count test xs)
  unfolding sort_txs
  sort_txs-IsSorted [] test = (tt, refl)
  sort_txs-IsSorted (x ∷ xs) test =
      let (ordered, same) = sort_txs-IsSorted xs test in
      (
        insert-IsSorted x (sort_txs e xs) ordered,
        omega (arith, count-insert test x (sort_txs e xs), same),
      )
