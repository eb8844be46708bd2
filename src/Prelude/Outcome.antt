-- ===== src/Prelude/Outcome.antt =====
-- What a Rust function does: it returns, returns an error, or panics (`unwrap` and `expect` on a
-- failure, a slice out of range).
use mathlib.Core.Path.{◌≡◌, refl, ◌∙◌}
use native.Mathlib.Omega.{arith}
use mathlib.Core.Logic.{◌⊎◌, inl, inr}
use mathlib.Core.Option.{Option, none, some}

pub data Outcome {ℓ κ} (E : Type ℓ) (A : Type κ) : Type (ℓ ⊔ κ) where
  ok : A → Outcome E A
  err : E → Outcome E A
  panic : Outcome E A

infixl 5 ◌>>=◌
abbrev pub ◌>>=◌ {ℓ κ μ} :
    {E : Type ℓ} {A : Type κ} {B : Type μ} → Outcome E A → (A → Outcome E B) → Outcome E B
ok a >>= f = f a
err e >>= f = err e
panic >>= f = panic

module _ {ℓ κ μ} {E : Type ℓ} {F : Type μ} {A : Type κ} where
  -- `Result::map_err`, and the conversion of the error that `?` makes.
  abbrev pub map_err : (E → F) → Outcome E A → Outcome F A
  map_err f (ok a) = ok a
  map_err f (err e) = err (f e)
  map_err f panic = panic

  -- `Result::unwrap`
  abbrev pub unwrap : Outcome E A → Outcome F A
  unwrap (ok a) = ok a
  unwrap (err e) = panic
  unwrap panic = panic

  -- `Result::ok` on a result that is no panic.
  abbrev pub ok_of : Outcome E A → Outcome F (Option A)
  ok_of (ok a) = ok (some a)
  ok_of (err e) = ok none
  ok_of panic = panic

-- An operation on a shared store. What it wrote before an error or a panic stays written.
abbrev pub Action {ℓ κ μ} : Type ℓ → Type κ → Type μ → Type (ℓ ⊔ κ ⊔ μ)
Action E S A = S → Outcome E A × S

module _ {ℓ κ μ ν} {E : Type ℓ} {S : Type κ} {A : Type μ} {B : Type ν} where
  abbrev pub continue : Outcome E A → (A → Action E S B) → Action E S B
  continue (ok a) f s = f a s
  continue (err e) f s = (err e, s)
  continue panic f s = (panic, s)

  infixl 5 ◌>>>◌
  unfoldable pub ◌>>>◌ : Action E S A → (A → Action E S B) → Action E S B
  ◌>>>◌ m f s = continue (m s).0 f (m s).1

  continue-eq-ok :
      (r : Outcome E A) (f : A → Action E S B) (s : S) {b : B} {u : S}
      → continue r f s ≡ (ok b, u)
      → (a : A) × (r ≡ ok a) × (f a s ≡ (ok b, u))
  continue-eq-ok (ok a) f s h = (a, refl, h)
  continue-eq-ok (err e) f s h = absurd (ground arith)
  continue-eq-ok panic f s h = absurd (ground arith)

  -- A chain that succeeds is a first step that succeeds, and a rest that does.
  pub >>>-eq-ok :
      (m : Action E S A) (f : A → Action E S B) (s : S) {b : B} {u : S}
      → (m >>> f) s ≡ (ok b, u)
      → (a : A) × (v : S) × (m s ≡ (ok a, v)) × (f a v ≡ (ok b, u))
  unfolding ◌>>>◌
  >>>-eq-ok m f s h =
      let (a, e, k) = continue-eq-ok (m s).0 f (m s).1 h in (a, (m s).1, ground (arith, e), k)

  pub >>>-ok :
      (m : Action E S A) (f : A → Action E S B) (s v : S) (a : A)
      → m s ≡ (ok a, v)
      → (m >>> f) s ≡ f a v
  unfolding ◌>>>◌
  >>>-ok m f s v a h = rw h

  continue-keeps {ξ} :
      {X : Type ξ} (view : S → X) (r : Outcome E A) (f : A → Action E S B) (s : S)
      → ((a : A) (v : S) → view (f a v).1 ≡ view v)
      → view (continue r f s).1 ≡ view s
  continue-keeps view (ok a) f s h = h a s
  continue-keeps view (err e) f s h = refl
  continue-keeps view panic f s h = refl

  -- What both steps of a chain leave, the chain leaves, whatever it comes to.
  pub >>>-keeps {ξ} :
      {X : Type ξ} (view : S → X) (m : Action E S A) (f : A → Action E S B)
      → ((v : S) → view (m v).1 ≡ view v)
      → ((a : A) (v : S) → view (f a v).1 ≡ view v)
      → (s : S) → view ((m >>> f) s).1 ≡ view s
  unfolding ◌>>>◌
  >>>-keeps view m f g h s = continue-keeps view (m s).0 f (m s).1 h ∙ g s

module _ {ℓ κ μ ν ξ} {E : Type ℓ} {S : Type κ} {A : Type μ} {B : Type ν} (P : S → Type ξ) where
  continue-preserves :
      (r : Outcome E A) (f : A → Action E S B) (s : S)
      → ((a : A) (v : S) → P v → P (f a v).1)
      → P s
      → P (continue r f s).1
  continue-preserves (ok a) f s h p = h a s p
  continue-preserves (err e) f s h p = p
  continue-preserves panic f s h p = p

  -- An invariant of both steps of a chain is one of the chain.
  pub >>>-preserves :
      (m : Action E S A) (f : A → Action E S B)
      → ((v : S) → P v → P (m v).1)
      → ((a : A) (v : S) → P v → P (f a v).1)
      → (s : S) → P s
      → P ((m >>> f) s).1
  unfolding ◌>>>◌
  >>>-preserves m f g h s p = continue-preserves (m s).0 f (m s).1 h (g s p)

  -- What holds after the first step, and is kept by the second.
  pub >>>-ends :
      (m : Action E S A) (f : A → Action E S B)
      → ((a : A) (v : S) → P v → P (f a v).1)
      → (s : S) → P (m s).1
      → P ((m >>> f) s).1
  unfolding ◌>>>◌
  >>>-ends m f h s p = continue-preserves (m s).0 f (m s).1 h p

-- Inversion of a result that did not fail.
pub >>=-eq-ok {ℓ κ μ} :
    {E : Type ℓ} {A : Type κ} {C : Type μ} (r : Outcome E A) (rest : A → Outcome E C) {c : C}
    → r >>= rest ≡ ok c
    → (v : A) × (r ≡ ok v) × (rest v ≡ ok c)
>>=-eq-ok panic rest same = absurd (ground arith)
>>=-eq-ok (err e) rest same = absurd (ground arith)
>>=-eq-ok (ok v) rest same = (v, refl, same)

-- To split on a computed outcome and keep the equation.
pub Outcome-cases {ℓ κ} :
    {E : Type ℓ} {A : Type κ} (r : Outcome E A)
    → ((a : A) × (r ≡ ok a)) ⊎ ((e : E) × (r ≡ err e)) ⊎ (r ≡ panic)
Outcome-cases (ok a) = inl (a, refl)
Outcome-cases (err e) = inr (inl (e, refl))
Outcome-cases panic = inr (inr refl)
