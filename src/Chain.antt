-- ===== src/Chain.antt =====
-- The chain of node-manager/src/chain.rs: what is asked of the block explorer and of LDK, and the
-- state that the wallet keeps between two synchronizations.
pub mod Sync
pub mod Loop
pub mod Tracked
pub mod Kept
pub mod Ending
pub mod Steady
pub mod Rounds
pub mod Ends
pub mod Fees
pub mod Tests
pub mod Order
pub mod Asking
use mutiny_web_poc.Prelude.{
  ℕ, suc, Bool, true, false, Option, none, some, List, [], ◌∷◌, ◌++◌, Bytes, PartialEq, ◌==◌, ◌≡◌,
  ◌↔◌, ◌&&◌, bytes_eqb_iff, partial_eq_bytes, arith, if◌then◌else◌,
}
use mutiny_web_poc.Prelude.Assoc.{contains}
use mutiny_web_poc.Prelude.Outcome.{Outcome, ok, err, Action, ◌>>>◌}
use mutiny_web_poc.Errors.{MutinyError, chain_access_failed}

-- `BlockStatus` of esplora_client
pub record BlockStatus : Type 0 where
  pub in_best_chain : Bool
  pub height : Option ℕ

-- `MerkleProof`
pub record MerkleProof : Type 0 where
  pub block_height : ℕ
  pub pos : ℕ

-- `TxStatus`
pub record TxStatus : Type 0 where
  pub block_hash : Option Bytes
  pub block_height : Option ℕ

-- `OutputStatus`
pub record OutputStatus : Type 0 where
  pub txid : Option Bytes
  pub status : Option TxStatus

-- The answers of the block explorer. Every call has a number, by which its answer may differ from
-- that of the call before; an answer that is missing is an error of esplora_client.
pub record Esplora : Type 1 where
  pub Transaction : Type 0
  pub BlockHeader : Type 0
  pub WatchedOutput : Type 0
  pub outputs_eq : PartialEq WatchedOutput
  pub outpoint : WatchedOutput → Bytes × ℕ
  pub txid : Transaction → Bytes
  pub get_tip_hash : ℕ → Option Bytes
  pub get_header_by_hash : ℕ → Bytes → Option BlockHeader
  pub get_block_status : ℕ → Bytes → Option BlockStatus
  pub get_merkle_proof : ℕ → Bytes → Option (Option MerkleProof)
  pub get_block_hash : ℕ → ℕ → Option Bytes
  pub get_tx : ℕ → Bytes → Option (Option Transaction)
  pub get_output_status : ℕ → Bytes → ℕ → Option (Option OutputStatus)

module _ (e : Esplora) where
  -- What a `Confirm` object is told.
  pub data Notice : Type 0 where
    best_block_updated : e.BlockHeader → ℕ → Notice
    transactions_confirmed : e.BlockHeader → ℕ → e.Transaction → ℕ → Notice
    transaction_unconfirmed : Bytes → Notice

  -- LDK's side, where a `Confirm` object goes by a number: the transactions that it asks for after
  -- the notices so far, and the transactions and outputs that it registers at a notice.
  pub record Confirm : Type 0 where
    pub get_relevant_txids : ℕ → List (ℕ × Notice) → List (Bytes × Option Bytes)
    pub registered_txs : ℕ → Notice → List Bytes
    pub registered_outputs : ℕ → Notice → List e.WatchedOutput

  -- `MutinyChain`, with the notices that were given and the number of the explorer's next call.
  pub record MutinyChain : Type 0 where
    pub queued_transactions : List Bytes
    pub watched_transactions : List Bytes
    pub queued_outputs : List e.WatchedOutput
    pub watched_outputs : List e.WatchedOutput
    pub last_sync_hash : Option Bytes
    pub notices : List (ℕ × Notice)
    pub calls : ℕ

  -- `ConfirmedTx`
  pub record ConfirmedTx : Type 0 where
    pub tx : e.Transaction
    pub block_header : e.BlockHeader
    pub block_height : ℕ
    pub pos : ℕ

module _ {ℓ} {A : Type ℓ} ⦃eq : PartialEq A⦄ where
  -- `HashSet::insert`, and `HashSet::extend`.
  unfoldable pub add : A → List A → List A
  add x s = if contains x s then s else x ∷ s

  unfoldable pub extend : List A → List A → List A
  unfolding add
  extend s [] = s
  extend s (x ∷ xs) = extend (add x s) xs

  -- `&a - &b` of two sets
  unfoldable pub difference : List A → List A → List A
  difference [] b = []
  difference (x ∷ a) b = let rest = difference a b in if contains x b then rest else x ∷ rest

  -- The set of a list.
  unfoldable pub to_set : List A → List A
  unfolding extend
  to_set xs = extend [] xs

-- `PartialEq` of a transaction that LDK asks for: its identifier and its block's.
abbrev pub option_eqb : Option Bytes → Option Bytes → Bool
option_eqb none none = true
option_eqb (some a) (some b) = a == b
option_eqb _ _ = false

option_eqb_iff : (a b : Option Bytes) → (option_eqb a b ≡ true) ↔ (a ≡ b)
option_eqb_iff none none = ground arith
option_eqb_iff (some a) (some b) = ground (arith, bytes_eqb_iff a b)
option_eqb_iff none (some b) = ground arith
option_eqb_iff (some a) none = ground arith

pub relevant_eqb_iff :
    (a b : Bytes × Option Bytes) → ((a.0 == b.0) && option_eqb a.1 b.1 ≡ true) ↔ (a ≡ b)
relevant_eqb_iff a b = ground (arith, bytes_eqb_iff a.0 b.0, option_eqb_iff a.1 b.1)

abbrev pub relevant_eq : PartialEq (Bytes × Option Bytes)
relevant_eq = record { eqb = λ a b. (a.0 == b.0) && option_eqb a.1 b.1; eqb_iff = relevant_eqb_iff }
