-- ===== src/Chain/Asking.antt =====
-- What the methods of node-manager/src/chain.rs that only ask the explorer keep.
use mutiny_web_poc.Prelude.{
  ℕ, suc, Bool, true, false, Option, none, some, List, [], ◌∷◌, Bytes, if◌then◌else◌,
  partial_eq_bytes,
}
use mutiny_web_poc.Prelude.Outcome.{Outcome, ok, err, panic, ◌>>>◌, >>>-preserves}
use mutiny_web_poc.Errors.{MutinyError}
use mutiny_web_poc.Chain.{Esplora, MerkleProof, OutputStatus, TxStatus, MutinyChain, ConfirmedTx}
use mutiny_web_poc.Chain.Sync.{Method, return, ask}
use mutiny_web_poc.Chain.Loop.{
  get_confirmed_tx, proved_tx, confirmed_tx, registered, push, Found, spends, spending_tx,
  check_outputs, sorted, get_confirmed_transactions, Next, again, restart, attempt, agrees_hash,
  agrees_height, is_chain_access_failed,
}

-- An invariant that does not look at the number of the explorer's calls.
module _ (e : Esplora) (P : MutinyChain e → Type 0)
    (on_calls : (s : MutinyChain e) (n : ℕ) → P s → P (record s { calls = n })) where
  -- A method that keeps the invariant.
  abbrev pub Keeps : {A : Type 0} → Method e A → Type 0
  Keeps m = (s : MutinyChain e) → P s → P (m s).1

  pub Keeps-chain :
      {A B : Type 0} (m : Method e A) (rest : A → Method e B)
      → Keeps m
      → ((a : A) → Keeps (rest a))
      → Keeps (m >>> rest)
  Keeps-chain m rest h k = >>>-preserves P m rest h k

  pub Keeps-return : {A : Type 0} (r : Outcome MutinyError A) → Keeps (return e r)
  unfolding return
  Keeps-return r s h = h

  pub Keeps-ask : {A : Type 0} (answer : ℕ → Option A) → Keeps (ask e answer)
  unfolding ask
  Keeps-ask answer s h = on_calls s (suc s.calls) h

  pub Keeps-ask-then :
      {A B : Type 0} (answer : ℕ → Option A) (rest : A → Method e B)
      → ((a : A) → Keeps (rest a))
      → Keeps (ask e answer >>> rest)
  Keeps-ask-then answer rest h = Keeps-chain (ask e answer) rest (Keeps-ask answer) h

  pub Keeps-if :
      {A : Type 0} (b : Bool) (m k : Method e A) → Keeps m → Keeps k → Keeps (if b then m else k)
  Keeps-if true m k h g = h
  Keeps-if false m k h g = g

  pub confirmed_tx-Keeps :
      (proof : MerkleProof) (known : Option ℕ) (header : e.BlockHeader) (o : Option e.Transaction)
      → Keeps (confirmed_tx e proof known header o)
  confirmed_tx-Keeps proof known header none = Keeps-return (ok none)
  confirmed_tx-Keeps proof known header (some tx) =
      Keeps-if (agrees_height known proof.block_height) _ _ (Keeps-return (ok (some _)))
        (Keeps-return (err _))

  pub proved_tx-Keeps :
      (txid : Bytes) (expected : Option Bytes) (known : Option ℕ) (o : Option MerkleProof)
      → Keeps (proved_tx e txid expected known o)
  proved_tx-Keeps txid expected known none = Keeps-return (ok none)
  proved_tx-Keeps txid expected known (some proof) =
      Keeps-ask-then (λ n. e.get_block_hash n proof.block_height) _
        λ block_hash.
          Keeps-if (agrees_hash expected block_hash) _ _
            (Keeps-ask-then (λ n. e.get_header_by_hash n block_hash) _
              λ header.
                Keeps-ask-then (λ n. e.get_tx n txid) (confirmed_tx e proof known header)
                  (confirmed_tx-Keeps proof known header))
            (Keeps-return (err _))

  pub get_confirmed_tx-Keeps :
      (txid : Bytes) (expected : Option Bytes) (known : Option ℕ)
      → Keeps (get_confirmed_tx e txid expected known)
  unfolding get_confirmed_tx
  get_confirmed_tx-Keeps txid expected known =
      Keeps-ask-then (λ n. e.get_merkle_proof n txid) (proved_tx e txid expected known)
        (proved_tx-Keeps txid expected known)

  pub registered-Keeps :
      (txids : List Bytes) (txs : List (ConfirmedTx e)) → Keeps (registered e txids txs)
  unfolding registered
  registered-Keeps [] txs = Keeps-return (ok txs)
  registered-Keeps (txid ∷ txids) txs =
      Keeps-chain (get_confirmed_tx e txid none none)
        (λ found. registered e txids (push e found txs)) (get_confirmed_tx-Keeps txid none none)
        λ found. registered-Keeps txids (push e found txs)

  pub spending_tx-Keeps : (o : Option OutputStatus) → Keeps (spending_tx e o)
  spending_tx-Keeps none = Keeps-return (ok none)
  spending_tx-Keeps (some output) = go output.txid output.status
    where
      go :
          (t : Option Bytes) (s : Option TxStatus)
          → Keeps (spending_tx e (some (record { txid = t; status = s })))
      go none s = Keeps-return (ok none)
      go (some t) none = Keeps-return (ok none)
      go (some t) (some s) = get_confirmed_tx-Keeps t s.block_hash s.block_height

  pub check_outputs-Keeps :
      (outputs : List e.WatchedOutput) (found : Found e) → Keeps (check_outputs e outputs found)
  unfolding check_outputs
  check_outputs-Keeps [] found = Keeps-return (ok found)
  check_outputs-Keeps (output ∷ outputs) found =
      Keeps-ask-then (λ n. e.get_output_status n (e.outpoint output).0 (e.outpoint output).1) _
        λ status.
          Keeps-chain (spending_tx e status)
            (λ tx. check_outputs e outputs (spends e output found tx)) (spending_tx-Keeps status)
            λ tx. check_outputs-Keeps outputs (spends e output found tx)

  pub get_confirmed_transactions-Keeps : Keeps (get_confirmed_transactions e)
  unfolding get_confirmed_transactions
  get_confirmed_transactions-Keeps s h =
      Keeps-chain (registered e s.watched_transactions []) _ (registered-Keeps _ [])
        (λ txs.
          Keeps-chain
            (check_outputs e s.watched_outputs (record { confirmed_txs = txs; spent_outputs = [] }))
            (λ found. return e (ok (sorted e found))) (check_outputs-Keeps s.watched_outputs _)
            λ found. Keeps-return (ok (sorted e found)))
        s h

  pub restart-Keeps :
      {A : Type 0} (tip : Bytes) (rest : A → Method e (Next e))
      → ((a : A) → Keeps (rest a))
      → (r : Outcome MutinyError A) → Keeps (restart e tip rest r)
  restart-Keeps tip rest h (ok a) = h a
  restart-Keeps tip rest h (err g) =
      Keeps-if (is_chain_access_failed g) _ _ (Keeps-return (ok (again tip))) (Keeps-return (err g))
  restart-Keeps tip rest h panic = Keeps-return panic

  pub attempt-Keeps :
      {A : Type 0} (tip : Bytes) (m : Method e A) (rest : A → Method e (Next e))
      → Keeps m
      → ((a : A) → Keeps (rest a))
      → Keeps (attempt e tip m rest)
  unfolding attempt
  attempt-Keeps tip m rest k h s p = restart-Keeps tip rest h (m s).0 (m s).1 (k s p)
