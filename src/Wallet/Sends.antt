-- ===== src/Wallet/Sends.antt =====
-- What node-manager/src/wallet.rs broadcasts.
use mutiny_web_poc.Prelude.{
  ◌∙◌, sym, ℕ, Bool, true, Option, some, List, [], ◌∷◌, ◌++◌, Bytes, ◌≡◌, refl, ap, arith, ◌⊎◌, inl,
  inr, Bool-cases,
}
use mutiny_web_poc.Prelude.Outcome.{
  Outcome, ok, err, panic, ◌>>>◌, >>=-eq-ok, map_err, Outcome-cases,
}
use mutiny_web_poc.Errors.{MutinyError, BdkError, from_bdk_error}
use mutiny_web_poc.Errors.Js.{MutinyJsError}
use mutiny_web_poc.Node.{Network}
use mutiny_web_poc.Wallet.{
  Bdk, Recipient, add_recipient, is_network, return, chosen_rate, signed_psbt, create_signed_psbt,
  broadcast_tx, send, parse_address, in_network, own_address, call_wallet, send_to_address,
}

module _ (b : Bdk) where
  map_err-eq-ok :
      {A : Type 0} (r : Outcome BdkError A) (a : A) → map_err from_bdk_error r ≡ ok a → r ≡ ok a
  map_err-eq-ok (ok x) a h = ground arith
  map_err-eq-ok (err e) a h = absurd (ground arith)
  map_err-eq-ok panic a h = absurd (ground arith)

  -- A transaction that pays a recipient: bdk built it for this recipient, and signed it.
  abbrev pub IsPayment : Recipient → b.Tx → Type 0
  IsPayment recipient tx =
      (rate : b.FeeRate) × (psbt : b.Psbt) × (finalized : b.Psbt × Bool) × (b.build_tx recipient
          rate
        ≡ ok psbt)
      × (b.sign psbt ≡ ok finalized)
      × (tx ≡ b.extract_tx finalized.0)

  signed_psbt-IsPayment :
      (recipient : Recipient) (fee_rate : Option b.Rate) (signed : b.Psbt)
      → signed_psbt b recipient fee_rate ≡ ok signed
      → IsPayment recipient (b.extract_tx signed)
  unfolding signed_psbt
  signed_psbt-IsPayment recipient fee_rate signed h =
      let (rate, _, h1) = >>=-eq-ok (chosen_rate b fee_rate) _ h in
      let (psbt, built, h2) = >>=-eq-ok (map_err from_bdk_error (b.build_tx recipient rate)) _ h1 in
      let (finalized, done, h3) = >>=-eq-ok (map_err from_bdk_error (b.sign psbt)) _ h2 in
      let same : finalized.0 ≡ signed = ground (arith, h3) in
      (
        rate,
        psbt,
        finalized,
        map_err-eq-ok (b.build_tx recipient rate) psbt built,
        map_err-eq-ok (b.sign psbt) finalized done,
        ap b.extract_tx (sym same),
      )

  sent_or_not :
      (r : Outcome MutinyError b.Psbt) (w : List b.Tx)
      → (((return b r >>> λ psbt. broadcast_tx b (b.extract_tx psbt)) w).1 ≡ w)
        ⊎ ((signed : b.Psbt) × (r ≡ ok signed)
            × (((return b r >>> λ psbt. broadcast_tx b (b.extract_tx psbt)) w).1
                ≡ w ++ b.extract_tx signed ∷ []))
  unfolding ◌>>>◌ return broadcast_tx
  sent_or_not (ok signed) w = inr (signed, refl, refl)
  sent_or_not (err e) w = inl refl
  sent_or_not panic w = inl refl

  create_signed_psbt-IsPayment :
      (send_to : b.Address) (amount : ℕ) (fee_rate : Option b.Rate) (signed : b.Psbt)
      → create_signed_psbt b send_to amount fee_rate ≡ ok signed
      → (is_network (b.address_network send_to) b.network ≡ true)
        × IsPayment (add_recipient (b.script_pubkey send_to) amount) (b.extract_tx signed)
  unfolding create_signed_psbt
  create_signed_psbt-IsPayment send_to amount fee_rate signed h =
      elim (Bool-cases (is_network (b.address_network send_to) b.network)) [
        | inl same ↦ (same, signed_psbt-IsPayment _ fee_rate signed (rw same at h))
        | inr other ↦ absurd (ground (arith, rw other at h))
      ]

  parse_address-eq-ok :
      (text : Bytes) (found : b.Address)
      → parse_address b text ≡ ok found
      → b.address_from_str text ≡ some found
  unfolding parse_address
  parse_address-eq-ok text found h = ground (arith, h)

  of_own_network :
      (network : Network) (found send_to : b.Address)
      → in_network b network found ≡ ok send_to
      → (found ≡ send_to) × (is_network (b.address_network send_to) network ≡ true)
  unfolding in_network
  of_own_network network found send_to h =
      elim (Bool-cases (is_network (b.address_network found) network)) [
        | inl same ↦
            let eq : found ≡ send_to = ground (arith, rw same at h) in
            (eq, ap (λ a. is_network (b.address_network a) network) (sym eq) ∙ same)
        | inr other ↦ absurd (ground (arith, rw other at h))
      ]

  own_address-eq-ok :
      (network : Network) (text : Bytes) (send_to : b.Address)
      → own_address b network text ≡ ok send_to
      → (b.address_from_str text ≡ some send_to)
        × (is_network (b.address_network send_to) network ≡ true)
  unfolding own_address
  own_address-eq-ok network text send_to h =
      let (found, parsed, rest) = >>=-eq-ok (parse_address b text) (in_network b network) h in
      let (eq, mine) = of_own_network network found send_to rest in
      (parse_address-eq-ok text found parsed ∙ ap some eq, mine)

  -- What a call with the text of an address may broadcast: one payment to that address, which is
  -- of the network of the node manager and of the wallet.
  abbrev pub Sends : Network → Bytes → (Bytes → Recipient) → List b.Tx → List b.Tx → Type 0
  Sends network text recipient w after =
      (send_to : b.Address) × (tx : b.Tx) × (b.address_from_str text ≡ some send_to)
      × (is_network (b.address_network send_to) network ≡ true)
      × (is_network (b.address_network send_to) b.network ≡ true)
      × IsPayment (recipient (b.script_pubkey send_to)) tx
      × (after ≡ w ++ tx ∷ [])

  sent_to_own :
      (network : Network) (text : Bytes) (amount : ℕ) (fee_rate : Option b.Rate) (w : List b.Tx)
      (send_to : b.Address)
      → own_address b network text ≡ ok send_to
      → (send_to_address b network text amount fee_rate w).1 ≡ (send b send_to amount fee_rate w).1
  unfolding send_to_address call_wallet return ◌>>>◌
  sent_to_own network text amount fee_rate w send_to owned = rw owned refl

  refused_text :
      (network : Network) (text : Bytes) (amount : ℕ) (fee_rate : Option b.Rate) (w : List b.Tx)
      → ((e : MutinyJsError) × (own_address b network text ≡ err e))
        ⊎ (own_address b network text ≡ panic)
      → (send_to_address b network text amount fee_rate w).1 ≡ w
  unfolding send_to_address return ◌>>>◌
  refused_text network text amount fee_rate w (inl (e, failed)) = rw failed refl
  refused_text network text amount fee_rate w (inr failed) = rw failed refl

  -- send_to_address broadcasts nothing, or one transaction, which bdk built for exactly the given
  -- amount to the script of the given address, and signed; the text is an address then, of the
  -- network of the node manager and of the wallet. This holds also where the call fails.
  pub send_to_address-Sends :
      (network : Network) (text : Bytes) (amount : ℕ) (fee_rate : Option b.Rate) (w : List b.Tx)
      → ((send_to_address b network text amount fee_rate w).1 ≡ w)
        ⊎ Sends network text
            (λ script. add_recipient script amount)
            w
            (send_to_address b network text amount fee_rate w).1
  unfolding send
  send_to_address-Sends network text amount fee_rate w =
      elim (Outcome-cases (own_address b network text)) [
        | inr failed ↦ inl (refused_text network text amount fee_rate w failed)
        | inl (send_to, owned) ↦
            let (parsed, mine) = own_address-eq-ok network text send_to owned in
            let through = sent_to_own network text amount fee_rate w send_to owned in
            elim (sent_or_not (create_signed_psbt b send_to amount fee_rate) w) [
              | inl unsent ↦ inl (through ∙ unsent)
              | inr (signed, made, sent) ↦
                  let (same, paid) =
                    create_signed_psbt-IsPayment send_to amount fee_rate signed made in
                  inr (send_to, b.extract_tx signed, parsed, mine, same, paid, through ∙ sent)
            ]
      ]
