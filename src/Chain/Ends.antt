-- ===== src/Chain/Ends.antt =====
-- `MutinyChain::sync` of node-manager/src/chain.rs comes to an end.
use mutiny_web_poc.Prelude.{
  ℕ, suc, Bool, true, false, Option, none, some, List, [], Bytes, ◌≡◌, refl, ap, bytes_eqb_iff,
  if◌then◌else◌, partial_eq_bytes, not, arith, eqb_refl,
}
use mutiny_web_poc.Prelude.Outcome.{Outcome, ok, ◌>>>◌, >>>-ok}
use mutiny_web_poc.Errors.{MutinyError}
use mutiny_web_poc.Chain.{Esplora, Notice, Confirm, MutinyChain}
use mutiny_web_poc.Chain.Sync.{
  Method, return, ask, sync_best_block_updated, sync_confirmed_transactions,
  sync_unconfirmed_transactions, process_queues, registrations_are_pending, is_hash,
}
use mutiny_web_poc.Chain.Loop.{
  Found, get_confirmed_transactions, Next, again, attempt, keep_tip, report, find_and_report,
  round_for, round, next, sync_loop, sync,
}
use mutiny_web_poc.Chain.Steady.{IsSteady, IsQuiet, Runs}
use mutiny_web_poc.Chain.Rounds.{
  get_confirmed_transactions-Runs, sync_confirmed_transactions-Runs,
  sync_unconfirmed_transactions-Runs, sync_best_block_updated-Runs,
}
use mutiny_web_poc.Chain.Ending.{round-idle}

module _ (e : Esplora) (tip : Bytes) where
  -- A method after which the loop goes on with the tip, as the last one.
  abbrev Lasts : Method e (Next e) → Type 0
  Lasts m =
      (s : MutinyChain e)
      → IsQuiet e s
      → ((m s).0 ≡ ok (again tip)) × IsQuiet e (m s).1 × ((m s).1.last_sync_hash ≡ some tip)

  pair_path : {X Y : Type 0} {p : X × Y} {x : X} → p.0 ≡ x → p ≡ (x, p.1)
  pair_path {p} h = ap (λ y. (y, p.1)) h

  Lasts-chain :
      {A : Type 0} (m : Method e A) (rest : A → Method e (Next e))
      → Runs e m
      → ((a : A) → Lasts (rest a))
      → Lasts (m >>> rest)
  Lasts-chain m rest h k s q =
      let ((a, done), q') = h s q in
      rw (>>>-ok m rest s (m s).1 a (pair_path done)) (k a (m s).1 q')

  Lasts-attempt :
      {A : Type 0} (m : Method e A) (rest : A → Method e (Next e))
      → Runs e m
      → ((a : A) → Lasts (rest a))
      → Lasts (attempt e tip m rest)
  unfolding attempt
  Lasts-attempt m rest h k s q = let ((a, done), q') = h s q in rw done (k a (m s).1 q')

  Lasts-then :
      (b : Bool) (m k : Method e (Next e)) → b ≡ true → Lasts m → Lasts (if b then m else k)
  Lasts-then true m k same h = h
  Lasts-then false m k same h = absurd (ground arith)

  keep_tip-Lasts : Lasts (keep_tip e tip)
  unfolding keep_tip
  keep_tip-Lasts s q = (refl, q, refl)

  module _ (steady : IsSteady e tip) (ldk : Confirm e) (objects : List ℕ)
      (no_txs : (c : ℕ) (n : Notice e) → ldk.registered_txs c n ≡ [])
      (no_outputs : (c : ℕ) (n : Notice e) → ldk.registered_outputs c n ≡ []) where
    report-Lasts : (found : Found e) → Lasts (report e ldk objects tip found)
    unfolding report ask ◌>>>◌
    report-Lasts found s q =
        rw (steady.tips s.calls, eqb_refl tip)
          (Lasts-chain
            (sync_confirmed_transactions e ldk objects found.confirmed_txs found.spent_outputs)
            (λ _. keep_tip e tip)
            (sync_confirmed_transactions-Runs e tip steady ldk objects no_txs no_outputs
              found.confirmed_txs found.spent_outputs)
            (λ _. keep_tip-Lasts) (record s { calls = suc s.calls }) q)

    find_and_report-Lasts : Lasts (find_and_report e ldk objects tip)
    unfolding find_and_report
    find_and_report-Lasts =
        Lasts-attempt (get_confirmed_transactions e) (report e ldk objects tip)
          (get_confirmed_transactions-Runs e tip steady) report-Lasts

    round_new-Lasts : (pending : Bool) → Lasts (round_for e ldk objects pending true tip)
    unfolding round_for
    round_new-Lasts pending =
        Lasts-chain (sync_unconfirmed_transactions e ldk objects) _
          (sync_unconfirmed_transactions-Runs e tip steady ldk objects no_txs no_outputs)
          (λ _.
            Lasts-attempt (sync_best_block_updated e ldk objects tip)
              (λ _. find_and_report e ldk objects tip)
              (sync_best_block_updated-Runs e tip steady ldk objects no_txs no_outputs)
              (λ _. find_and_report-Lasts))

    abbrev IsDone : Outcome MutinyError (Option (Unit {0})) × MutinyChain e → Type 0
    IsDone r = (r.0 ≡ ok (some tt)) × IsQuiet e r.1 × (r.1.last_sync_hash ≡ some tip)

    process_queues-IsQuiet : (s : MutinyChain e) → IsQuiet e (process_queues e s)
    unfolding process_queues
    process_queues-IsQuiet s = (refl, refl)

    last_round :
        (fuel : ℕ) (s : MutinyChain e)
        → IsQuiet e s
        → s.last_sync_hash ≡ some tip
        → IsDone (sync_loop e ldk objects (suc fuel) tip s)
    unfolding sync_loop process_queues
    last_round fuel s q last =
        rw (round-idle e ldk objects tip s.notices s (q.0, q.1, last, refl))
          (refl, process_queues-IsQuiet s, last)

    known_tip : (last : Option Bytes) → not (is_hash tip last) ≡ false → last ≡ some tip
    known_tip none h = absurd (ground arith)
    known_tip (some hash) h = ground (arith, bytes_eqb_iff tip hash)

    first_round :
        (fuel : ℕ) (s : MutinyChain e) (pending new : Bool)
        → not (is_hash tip s.last_sync_hash) ≡ new
        → IsQuiet e s
        → IsDone (
            next e ldk objects
              (sync_loop e ldk objects (suc fuel))
              (round_for e ldk objects pending new tip s).0
              (round_for e ldk objects pending new tip s).1)
    unfolding round_for return
    first_round fuel s pending true said q =
        let (done, q', last) = round_new-Lasts pending s q in
        rw done (last_round fuel (round_for e ldk objects pending true tip s).1 q' last)
    first_round fuel s true false said q =
        let (done, q', last) = find_and_report-Lasts s q in
        rw done (last_round fuel (find_and_report e ldk objects tip s).1 q' last)
    first_round fuel s false false said q = (refl, q, known_tip s.last_sync_hash said)

    -- Where the explorer is steady and LDK registers nothing on the way, a synchronization ends with
    -- success within two rounds, whatever was queued or watched and whatever the last tip was: the
    -- queues are empty then, and the last tip is the explorer's.
    pub sync-ends :
        (fuel : ℕ) (s : MutinyChain e)
        → ((sync e ldk objects (suc (suc fuel)) s).0 ≡ ok (some tt))
          × ((sync e ldk objects (suc (suc fuel)) s).1.queued_transactions ≡ [])
          × ((sync e ldk objects (suc (suc fuel)) s).1.queued_outputs ≡ [])
          × ((sync e ldk objects (suc (suc fuel)) s).1.last_sync_hash ≡ some tip)
    unfolding sync ask ◌>>>◌ sync_loop round process_queues
    sync-ends fuel s = rw (steady.tips s.calls) (
        let asked : MutinyChain e = record s { calls = suc s.calls } in
        let (done, q, last) =
          first_round fuel (process_queues e asked) (registrations_are_pending e asked)
            (not (is_hash tip s.last_sync_hash)) refl (process_queues-IsQuiet asked) in
        (done, q.0, q.1, last))
