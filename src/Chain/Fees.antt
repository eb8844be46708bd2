-- ===== src/Chain/Fees.antt =====
-- The fee estimates of node-manager/src/chain.rs.
use mutiny_web_poc.Prelude.{
  ℕ, ◌%◌, ◌^◌, ◌<◌, ◌≤◌, Option, none, some, List, Bytes, ◌≡◌, arith, partial_eq_bytes, leb,
  if◌then◌else◌, Option-cases,
}
use mutiny_web_poc.Prelude.Assoc
use mutiny_web_poc.Prelude.Outcome.{Outcome, ok, err, panic, ◌>>=◌}
use mutiny_web_poc.Storage.Encrypt.{expect}
use mutiny_web_poc.Storage.{MutinyStorageError}

-- `ConfirmationTarget`
pub data ConfirmationTarget : Type 0 where
  background : ConfirmationTarget
  normal : ConfirmationTarget
  high_priority : ConfirmationTarget

unfoldable pub num_blocks_from_conf_target : ConfirmationTarget → ℕ
num_blocks_from_conf_target background = 12
num_blocks_from_conf_target normal = 6
num_blocks_from_conf_target high_priority = 3

-- `Rate` is the number of the saved estimates, `to_text` its blocks' `to_string`, and `fee_wu` the
-- fee of bdk for a thousand weight units at this rate, or none where `from_sat_per_vb` refuses the
-- rate, by a panic, as negative or not normal; `floor` is LDK's lowest fee rate.
module _ (Rate : Type 0) (fee_wu : Rate → Option ℕ) (to_text : ℕ → Bytes) (floor : ℕ) where
  unfoldable pub fallback_fee_from_conf_target : ConfirmationTarget → ℕ
  fallback_fee_from_conf_target background = floor
  fallback_fee_from_conf_target normal = 2000
  fallback_fee_from_conf_target high_priority = 5000

  -- `max` with the floor.
  abbrev pub at_least_floor : ℕ → ℕ
  at_least_floor fee = if leb fee floor then floor else fee

  -- The fee of a saved rate, cut to 32 bits.
  unfoldable pub saved_fee : Option Rate → ConfirmationTarget → Outcome MutinyStorageError ℕ
  unfolding fallback_fee_from_conf_target
  saved_fee none target = ok (fallback_fee_from_conf_target target)
  saved_fee (some num) target = expect (fee_wu num) >>= λ fee. ok (at_least_floor (fee % 2 ^ 32))

  unfoldable pub get_est_sat_per_1000_weight :
      Outcome MutinyStorageError (List (Bytes × Rate))
      → ConfirmationTarget
      → Outcome MutinyStorageError ℕ
  unfolding saved_fee fallback_fee_from_conf_target num_blocks_from_conf_target
  get_est_sat_per_1000_weight (ok estimates) target =
      saved_fee (Assoc.get (to_text (num_blocks_from_conf_target target)) estimates) target
  get_est_sat_per_1000_weight (err e) target = ok (fallback_fee_from_conf_target target)
  get_est_sat_per_1000_weight panic target = panic

  saved_fee-bounds :
      (o : Option Rate) (target : ConfirmationTarget) (fee : ℕ)
      → floor ≤ 2000
      → saved_fee o target ≡ ok fee
      → (floor ≤ fee) × (fee < 2 ^ 32)
  unfolding saved_fee fallback_fee_from_conf_target
  saved_fee-bounds none background fee low h = ground (arith, h)
  saved_fee-bounds none normal fee low h = ground (arith, h)
  saved_fee-bounds none high_priority fee low h = ground (arith, h)
  saved_fee-bounds (some num) target fee low h = ground (arith, h, Option-cases (fee_wu num))

  -- With a floor of 2000 at most, every estimate that is given, saved or not, is at least the floor
  -- and fits 32 bits.
  pub get_est_sat_per_1000_weight-bounds :
      (saved : Outcome MutinyStorageError (List (Bytes × Rate))) (target : ConfirmationTarget)
      (fee : ℕ)
      → floor ≤ 2000
      → get_est_sat_per_1000_weight saved target ≡ ok fee
      → (floor ≤ fee) × (fee < 2 ^ 32)
  unfolding get_est_sat_per_1000_weight
  get_est_sat_per_1000_weight-bounds (ok estimates) target fee low h = ground (
    arith,
    saved_fee-bounds (Assoc.get (to_text (num_blocks_from_conf_target target)) estimates) target fee
        low h,
  )
  get_est_sat_per_1000_weight-bounds (err e) target fee low h =
      ground (arith, saved_fee-bounds none target fee low)
  get_est_sat_per_1000_weight-bounds panic target fee low h = absurd (ground arith)
