-- ===== src/Chain/Tracked.antt =====
-- No registered transaction is forgotten by node-manager/src/chain.rs.
use mutiny_web_poc.Prelude.{
  ℕ, Bool, true, false, Option, List, [], ◌∷◌, ◌++◌, Bytes, PartialEq, ◌==◌, ◌≡◌, refl, ◌∙◌,
  partial_eq_bytes, bytes_eqb_iff, ◌||◌, arith, Bool-cases, inl, inr,
}
use mutiny_web_poc.Prelude.Assoc.{contains, contains-delete}
use mutiny_web_poc.Prelude.Outcome.{◌>>>◌, >>>-preserves, >>>-ends}
use mutiny_web_poc.Chain.{
  Esplora, Notice, transactions_confirmed, transaction_unconfirmed, Confirm, MutinyChain,
  ConfirmedTx, add, extend,
}
use mutiny_web_poc.Chain.Sync.{
  Method, return, ask, for_each, notify, notify_all, forget_tx, confirm, watch_tx, unconfirm,
  process_queues, register_tx, register_txs, register_output, register_outputs,
}

module _ {ℓ} {A : Type ℓ} ⦃eq : PartialEq A⦄ where
  pub contains-add : (x y : A) (s : List A) → contains y (add x s) ≡ ((x == y) || contains y s)
  unfolding add contains
  contains-add x y s = ground (arith, eq.eqb_iff x y, Bool-cases (contains x s))

  pub contains-extend :
      (y : A) (s xs : List A) → contains y (extend s xs) ≡ (contains y s || contains y xs)
  unfolding extend contains
  contains-extend y s [] = ground arith
  contains-extend y s (x ∷ xs) = ground (arith, contains-extend y (add x s) xs, contains-add x y s)

module _ (e : Esplora) (x : Bytes) where
  -- Whether a notice reports a transaction as confirmed.
  abbrev pub reports : Notice e → Bool
  reports (transactions_confirmed block_header pos tx block_height) = e.txid tx == x
  reports _ = false

  abbrev pub is_reported : List (ℕ × Notice e) → Bool
  is_reported [] = false
  is_reported ((c, n) ∷ notices) = reports n || is_reported notices

  -- A transaction is queued or watched, or was reported.
  unfoldable pub IsTracked : MutinyChain e → Type 0
  IsTracked s =
      (contains x s.queued_transactions
        || contains x s.watched_transactions
        || is_reported s.notices)
      ≡ true

  is_reported-append :
      (ns ms : List (ℕ × Notice e)) → is_reported (ns ++ ms) ≡ (is_reported ns || is_reported ms)
  is_reported-append [] ms = refl
  is_reported-append ((c, n) ∷ ns) ms = ground (arith, is_reported-append ns ms)

  pub register_tx-IsTracked : (s : MutinyChain e) → IsTracked (register_tx e x s)
  unfolding IsTracked register_tx
  register_tx-IsTracked s =
      ground (arith, contains-add x x s.queued_transactions, bytes_eqb_iff x x)

  register_txs-IsTracked :
      (xs : List Bytes) (s : MutinyChain e) → IsTracked s → IsTracked (register_txs e xs s)
  unfolding IsTracked register_tx
  register_txs-IsTracked [] s h = h
  register_txs-IsTracked (y ∷ xs) s h =
      register_txs-IsTracked xs (register_tx e y s)
        (ground (arith, contains-add y x s.queued_transactions))

  register_outputs-IsTracked :
      (xs : List e.WatchedOutput) (s : MutinyChain e)
      → IsTracked s
      → IsTracked (register_outputs e xs s)
  unfolding IsTracked register_output
  register_outputs-IsTracked [] s h = h
  register_outputs-IsTracked (y ∷ xs) s h = register_outputs-IsTracked xs (register_output e y s) h

  pub process_queues-IsTracked : (s : MutinyChain e) → IsTracked s → IsTracked (process_queues e s)
  unfolding IsTracked process_queues contains
  process_queues-IsTracked s h =
      ground (arith, contains-extend x s.watched_transactions s.queued_transactions)

  pub for_each-preserves :
      {A : Type 0} (P : MutinyChain e → Type 0) (body : A → Method e (Unit {0}))
      → ((a : A) (v : MutinyChain e) → P v → P (body a v).1)
      → (xs : List A) (s : MutinyChain e) → P s
      → P (for_each e xs body s).1
  unfolding return
  for_each-preserves P body h [] s p = p
  for_each-preserves P body h (a ∷ xs) s p =
      >>>-preserves P (body a) (λ _. for_each e xs body) (h a) (λ _. for_each-preserves P body h xs)
        s p

  pub ask-IsTracked :
      {A : Type 0} (answer : ℕ → Option A) (s : MutinyChain e)
      → IsTracked s
      → IsTracked (ask e answer s).1
  unfolding IsTracked ask
  ask-IsTracked answer s h = h

  register_txs-notices :
      (xs : List Bytes) (s : MutinyChain e) → (register_txs e xs s).notices ≡ s.notices
  unfolding register_tx
  register_txs-notices [] s = refl
  register_txs-notices (y ∷ xs) s = register_txs-notices xs (register_tx e y s)

  register_outputs-notices :
      (xs : List e.WatchedOutput) (s : MutinyChain e)
      → (register_outputs e xs s).notices ≡ s.notices
  unfolding register_output
  register_outputs-notices [] s = refl
  register_outputs-notices (y ∷ xs) s = register_outputs-notices xs (register_output e y s)

  abbrev IsReported : MutinyChain e → Type 0
  IsReported s = is_reported s.notices ≡ true

  IsReported-IsTracked : (s : MutinyChain e) → IsReported s → IsTracked s
  unfolding IsTracked
  IsReported-IsTracked s h = ground arith

  -- LDK's objects, of which there is at least one.
  module _ (ldk : Confirm e) (first : ℕ) (others : List ℕ) where
    abbrev told : ℕ → Notice e → MutinyChain e → MutinyChain e
    told c n s = record s { notices = s.notices ++ (c, n) ∷ [] }

    notify-IsTracked :
        (n : Notice e) (c : ℕ) (s : MutinyChain e)
        → IsTracked s
        → IsTracked (notify e ldk (first ∷ others) n c s).1
    unfolding IsTracked notify
    notify-IsTracked n c s h =
        register_outputs-IsTracked (ldk.registered_outputs c n)
          (register_txs e (ldk.registered_txs c n) (told c n s))
          (register_txs-IsTracked (ldk.registered_txs c n) (told c n s)
            (ground (arith, is_reported-append s.notices ((c, n) ∷ []))))

    notify-notices :
        (n : Notice e) (c : ℕ) (s : MutinyChain e)
        → (notify e ldk (first ∷ others) n c s).1.notices ≡ s.notices ++ (c, n) ∷ []
    unfolding notify
    notify-notices n c s =
        register_outputs-notices (ldk.registered_outputs c n)
          (register_txs e (ldk.registered_txs c n) (told c n s))
        ∙ register_txs-notices (ldk.registered_txs c n) (told c n s)

    notify-reports :
        (n : Notice e) (c : ℕ) (s : MutinyChain e)
        → (is_reported s.notices || reports n) ≡ true
        → IsReported (notify e ldk (first ∷ others) n c s).1
    notify-reports n c s h =
        rw (notify-notices n c s) (ground (arith, is_reported-append s.notices ((c, n) ∷ [])))

    pub notify_all-IsTracked :
        (n : Notice e) (s : MutinyChain e)
        → IsTracked s
        → IsTracked (notify_all e ldk (first ∷ others) n s).1
    unfolding notify_all
    notify_all-IsTracked n =
        for_each-preserves IsTracked (notify e ldk (first ∷ others) n) (notify-IsTracked n)
          (first ∷ others)

    -- What one object at least is told is reported.
    notify_all-reports :
        (n : Notice e) (s : MutinyChain e)
        → reports n ≡ true
        → IsReported (notify_all e ldk (first ∷ others) n s).1
    unfolding notify_all ◌>>>◌ notify
    notify_all-reports n s h =
        for_each-preserves IsReported (notify e ldk (first ∷ others) n)
          (λ c v p. notify-reports n c v (ground arith)) others
          (notify e ldk (first ∷ others) n first s).1 (notify-reports n first s (ground arith))

    forget_tx-IsTracked :
        (txid : Bytes) (s : MutinyChain e)
        → (txid == x) ≡ false
        → IsTracked s
        → IsTracked (forget_tx e ldk (first ∷ others) txid s).1
    unfolding IsTracked forget_tx
    forget_tx-IsTracked txid s apart h =
        ground (arith, contains-delete txid x s.watched_transactions)

    forget_tx-IsReported :
        (txid : Bytes) (s : MutinyChain e)
        → IsReported s
        → IsReported (forget_tx e ldk (first ∷ others) txid s).1
    unfolding forget_tx
    forget_tx-IsReported txid s h = h

    -- A transaction is forgotten only after it was reported.
    pub confirm-IsTracked :
        (ctx : ConfirmedTx e) (s : MutinyChain e)
        → IsTracked s
        → IsTracked (confirm e ldk (first ∷ others) ctx s).1
    unfolding confirm
    confirm-IsTracked ctx s h =
        let n : Notice e =
          transactions_confirmed ctx.block_header ctx.pos ctx.tx ctx.block_height in
        elim (Bool-cases (e.txid ctx.tx == x)) [
          | inr apart ↦
              >>>-preserves IsTracked (notify_all e ldk (first ∷ others) n)
                (λ _. forget_tx e ldk (first ∷ others) (e.txid ctx.tx)) (notify_all-IsTracked n)
                (λ _ v. forget_tx-IsTracked (e.txid ctx.tx) v apart) s h
          | inl same ↦ IsReported-IsTracked (confirm e ldk (first ∷ others) ctx s).1 (
              >>>-ends IsReported (notify_all e ldk (first ∷ others) n)
                (λ _. forget_tx e ldk (first ∷ others) (e.txid ctx.tx))
                (λ _ v. forget_tx-IsReported (e.txid ctx.tx) v) s (notify_all-reports n s same))
        ]

    watch_tx-IsTracked :
        (txid : Bytes) (s : MutinyChain e)
        → IsTracked s
        → IsTracked (watch_tx e ldk (first ∷ others) txid s).1
    unfolding IsTracked watch_tx
    watch_tx-IsTracked txid s h = ground (arith, contains-add txid x s.watched_transactions)

    pub unconfirm-IsTracked :
        (txid : Bytes) (s : MutinyChain e)
        → IsTracked s
        → IsTracked (unconfirm e ldk (first ∷ others) txid s).1
    unfolding unconfirm
    unconfirm-IsTracked txid =
        >>>-preserves IsTracked (notify_all e ldk (first ∷ others) (transaction_unconfirmed txid))
          (λ _. watch_tx e ldk (first ∷ others) txid)
          (notify_all-IsTracked (transaction_unconfirmed txid)) (λ _. watch_tx-IsTracked txid)
