-- ===== src/Chain/Steady.antt =====
-- The loop of node-manager/src/chain.rs ends where the explorer answers and its answers agree.
use mutiny_web_poc.Prelude.{
  ℕ, suc, Bool, true, false, Option, none, some, List, [], ◌∷◌, Bytes, ◌≡◌, refl, ap, if◌then◌else◌,
  partial_eq_bytes, arith,
}
use mutiny_web_poc.Prelude.Outcome.{ok, ◌>>>◌, >>>-ok}
use mutiny_web_poc.Chain.{Esplora, BlockStatus, MerkleProof, OutputStatus, TxStatus, MutinyChain}
use mutiny_web_poc.Chain.Sync.{Method, return, ask, for_each}
use mutiny_web_poc.Chain.Loop.{
  get_confirmed_tx, proved_tx, confirmed_tx, agrees_hash, agrees_height,
}

-- The explorer answers every call, has one tip, which is in its best chain, and where it says that
-- an output is spent in a block, the spending transaction's proof is of this block.
pub record IsSteady (e : Esplora) (tip : Bytes) : Type 0 where
  pub tips : (n : ℕ) → e.get_tip_hash n ≡ some tip
  pub headers :
      (n : ℕ) (hash : Bytes) → (h : e.BlockHeader) × (e.get_header_by_hash n hash ≡ some h)
  pub statuses : (n : ℕ) (hash : Bytes) → (b : BlockStatus) × (e.get_block_status n hash ≡ some b)
  pub best : (n : ℕ) (b : BlockStatus) → e.get_block_status n tip ≡ some b → b.in_best_chain ≡ true
  pub proofs :
      (n : ℕ) (txid : Bytes) → (o : Option MerkleProof) × (e.get_merkle_proof n txid ≡ some o)
  pub hashes : (n height : ℕ) → (h : Bytes) × (e.get_block_hash n height ≡ some h)
  pub txs : (n : ℕ) (txid : Bytes) → (o : Option e.Transaction) × (e.get_tx n txid ≡ some o)
  pub outputs :
      (n : ℕ) (txid : Bytes) (i : ℕ)
      → (o : Option OutputStatus) × (e.get_output_status n txid i ≡ some o)
  pub agree :
      (n m k : ℕ) (txid spender : Bytes) (i : ℕ) (status : TxStatus) (proof : MerkleProof)
      (hash : Bytes)
      → e.get_output_status n txid i
        ≡ some (some (record { txid = some spender; status = some status }))
      → e.get_merkle_proof m spender ≡ some (some proof)
      → e.get_block_hash k proof.block_height ≡ some hash
      → (agrees_hash status.block_hash hash ≡ true)
        × (agrees_height status.block_height proof.block_height ≡ true)

module _ (e : Esplora) where
  -- Nothing is queued.
  abbrev pub IsQuiet : MutinyChain e → Type 0
  IsQuiet s = (s.queued_transactions ≡ []) × (s.queued_outputs ≡ [])

  -- A method that returns, and registers nothing.
  abbrev pub Runs : {A : Type 0} → Method e A → Type 0
  Runs {A} m = (s : MutinyChain e) → IsQuiet s → ((a : A) × ((m s).0 ≡ ok a)) × IsQuiet (m s).1

  pub Runs-chain :
      {A B : Type 0} (m : Method e A) (rest : A → Method e B)
      → Runs m
      → ((a : A) → Runs (rest a))
      → Runs (m >>> rest)
  Runs-chain m rest h k s q =
      let ((a, done), q') = h s q in
      rw (>>>-ok m rest s (m s).1 a (pair_path done)) (k a (m s).1 q')
    where
      pair_path : {X Y : Type 0} {p : X × Y} {x : X} → p.0 ≡ x → p ≡ (x, p.1)
      pair_path {p} h = ap (λ y. (y, p.1)) h

  pub Runs-return : {A : Type 0} (a : A) → Runs (return e (ok a))
  unfolding return
  Runs-return a s q = ((a, refl), q)

  pub Runs-ask-then :
      {A B : Type 0} (answer : ℕ → Option A) (rest : A → Method e B)
      → ((n : ℕ) → (a : A) × (answer n ≡ some a))
      → ((n : ℕ) (a : A) → answer n ≡ some a → Runs (rest a))
      → Runs (ask e answer >>> rest)
  unfolding ask ◌>>>◌
  Runs-ask-then answer rest h k s q =
      let (a, known) = h s.calls in
      rw known (k s.calls a known (record s { calls = suc s.calls }) q)

  pub Runs-if :
      {A : Type 0} (b : Bool) (m k : Method e A) → Runs m → Runs k → Runs (if b then m else k)
  Runs-if true m k h g = h
  Runs-if false m k h g = g

  pub Runs-then :
      {A : Type 0} (b : Bool) (m k : Method e A) → b ≡ true → Runs m → Runs (if b then m else k)
  Runs-then true m k same h = h
  Runs-then false m k same h = absurd (ground arith)

  pub Runs-for_each :
      {A : Type 0} (body : A → Method e (Unit {0}))
      → ((a : A) → Runs (body a))
      → (xs : List A) → Runs (for_each e xs body)
  Runs-for_each body h [] = Runs-return tt
  Runs-for_each body h (x ∷ xs) =
      Runs-chain (body x) (λ _. for_each e xs body) (h x) (λ _. Runs-for_each body h xs)

  module _ (tip : Bytes) (steady : IsSteady e tip) where
    -- The lookup of a transaction runs where its proof agrees with what was expected.
    pub get_confirmed_tx-Runs :
        (txid : Bytes) (expected : Option Bytes) (known : Option ℕ)
        → ((m k : ℕ) (proof : MerkleProof) (hash : Bytes)
            → e.get_merkle_proof m txid ≡ some (some proof)
            → e.get_block_hash k proof.block_height ≡ some hash
            → (agrees_hash expected hash ≡ true) × (agrees_height known proof.block_height ≡ true))
        → Runs (get_confirmed_tx e txid expected known)
    unfolding get_confirmed_tx
    get_confirmed_tx-Runs txid expected known fits =
        Runs-ask-then (λ n. e.get_merkle_proof n txid) (proved_tx e txid expected known)
          (λ n. steady.proofs n txid) proved
      where
        proved :
            (m : ℕ) (o : Option MerkleProof)
            → e.get_merkle_proof m txid ≡ some o
            → Runs (proved_tx e txid expected known o)
        proved m none found = Runs-return none
        proved m (some proof) found =
            Runs-ask-then (λ n. e.get_block_hash n proof.block_height) _
              (λ n. steady.hashes n proof.block_height)
              λ k hash at_height.
                let (same_hash, same_height) = fits m k proof hash found at_height in
                Runs-then (agrees_hash expected hash) _ _ same_hash (
                  Runs-ask-then (λ n. e.get_header_by_hash n hash) _ (λ n. steady.headers n hash)
                    λ _ header _.
                      Runs-ask-then (λ n. e.get_tx n txid) (confirmed_tx e proof known header)
                        (λ n. steady.txs n txid) (λ _ tx _. fetched proof header same_height tx))
          where
            fetched :
                (proof : MerkleProof) (header : e.BlockHeader)
                → agrees_height known proof.block_height ≡ true
                → (tx : Option e.Transaction) → Runs (confirmed_tx e proof known header tx)
            fetched proof header same none = Runs-return none
            fetched proof header same (some tx) =
                Runs-then (agrees_height known proof.block_height) _ _ same (
                  Runs-return (
                    some (record {
                      tx = tx;
                      block_header = header;
                      block_height = proof.block_height;
                      pos = proof.pos;
                    })))
