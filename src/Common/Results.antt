-- ===== src/Common/Results.antt =====
-- Calls that read and write a state and may raise. A transaction that raises is rolled back, so
-- what an operation returns with an error is the state that it was given.
use mathlib.Core.Path.{◌≡◌, ap}

pub data Result {ℓ κ} (E : Type ℓ) (A : Type κ) : Type (ℓ ⊔ κ) where
  ok : A → Result E A
  err : E → Result E A

abbrev pub Action : Type 0 → Type 0 → Type 0 → Type 0
Action S E A = S → Result E A × S

abbrev pub pure : {S E A : Type 0} → A → Action S E A
pure a s = (ok a, s)

abbrev pub raise : {S E A : Type 0} → E → Action S E A
raise e s = (err e, s)

infixl 5 ◌>>=◌ ◌>>◌
abbrev pub ◌>>=◌ : {S E A B : Type 0} → Action S E A → (A → Action S E B) → Action S E B
◌>>=◌ m f s = let (r, s') = m s in elim r [ ok a ↦ f a s' | err e ↦ (err e, s') ]

abbrev pub ◌>>◌ : {S E A B : Type 0} → Action S E A → Action S E B → Action S E B
m >> k = m >>= λ _. k

-- A bind whose first call is known.
module _ {S E A B : Type 0} (m : Action S E A) (f : A → Action S E B) (s : S) {s' : S} where
  pub >>=-ok : {a : A} → m s ≡ (ok a, s') → (m >>= f) s ≡ f a s'
  >>=-ok e = ap (λ (o : Result E A × S). elim o.0 [ ok a ↦ f a o.1 | err x ↦ (err x, o.1) ]) e

  pub >>=-err : {x : E} → m s ≡ (err x, s') → (m >>= f) s ≡ (err x, s')
  >>=-err e = ap (λ (o : Result E A × S). elim o.0 [ ok a ↦ f a o.1 | err x ↦ (err x, o.1) ]) e
