-- ===== src/Base/Actions.antt =====
-- A Python call: it reads and writes a state, and returns a value or raises. The state comes back
-- after a raise too, since what was written stays written.
use mathlib.Core.Path.{◌≡◌, refl, ap}
use mathlib.Core.Logic.{◌⊎◌, inl, inr}
use mathlib.Core.Bool.{Bool, true, false}
use mathlib.Core.List.{List, [], ◌∷◌}

pub data Result {ℓ κ} (E : Type ℓ) (A : Type κ) : Type (ℓ ⊔ κ) where
  ok : A → Result E A
  err : E → Result E A

abbrev pub Action {ℓ κ ρ} : Type ℓ → Type κ → Type ρ → Type (ℓ ⊔ κ ⊔ ρ)
Action S E A = S → Result E A × S

module _ {ℓ κ ρ} {S : Type ℓ} {E : Type κ} {A : Type ρ} where
  abbrev pub pure : A → Action S E A
  pure a s = (ok a, s)

  abbrev pub raise : E → Action S E A
  raise e s = (err e, s)

  abbrev pub gets : (S → A) → Action S E A
  gets f s = (ok (f s), s)

module _ {ℓ κ ρ σ} {S : Type ℓ} {E : Type κ} {A : Type ρ} {B : Type σ} where
  -- The rest of a body, from what the first call has left.
  abbrev pub follow : (A → Action S E B) → Result E A × S → Result E B × S
  follow f (ok a, s) = f a s
  follow f (err e, s) = (err e, s)

  infixl 5 ◌>>=◌ ◌>>◌
  abbrev pub ◌>>=◌ : Action S E A → (A → Action S E B) → Action S E B
  ◌>>=◌ m f s = follow f (m s)

  abbrev pub ◌>>◌ : Action S E A → Action S E B → Action S E B
  m >> k = m >>= λ _. k

module _ {ℓ κ} {S : Type ℓ} {E : Type κ} where
  abbrev pub done : Action S E (Unit {0})
  done = pure tt

  abbrev pub modify : (S → S) → Action S E (Unit {0})
  modify f s = (ok tt, f s)

  -- `if b: raise e`
  abbrev pub raise_if : Bool → E → Action S E (Unit {0})
  raise_if true e = raise e
  raise_if false e = done

  -- `for x in xs: f(x)`
  unfoldable pub for_each {ρ} :
      {A : Type ρ} → (A → Action S E (Unit {0})) → List A → Action S E (Unit {0})
  for_each f [] = done
  for_each f (x ∷ xs) = f x >> for_each f xs

module _ {ℓ κ ρ σ} {S : Type ℓ} {E : Type κ} {A : Type ρ} {B : Type σ} where
  -- The steps of a call, one at a time.
  pub >>=-ok :
      (m : Action S E A) (f : A → Action S E B) {a : A} (s : S) {s' : S}
      → m s ≡ (ok a, s')
      → (m >>= f) s ≡ f a s'
  >>=-ok m f s e = ap (follow f) e

  pub >>=-err :
      (m : Action S E A) (f : A → Action S E B) {e : E} (s : S) {s' : S}
      → m s ≡ (err e, s')
      → (m >>= f) s ≡ (err e, s')
  >>=-err m f s h = ap (follow f) h

  follow-eq-ok :
      (x : Result E A × S) (f : A → Action S E B) {b : B} {t : S}
      → follow f x ≡ (ok b, t)
      → (a : A) × (u : S) × (x ≡ (ok a, u)) × (f a u ≡ (ok b, t))
  follow-eq-ok (ok a, u) f h = (a, u, refl, h)
  follow-eq-ok (err x, u) f h = cc

  -- What a call that returns has done, by the results of its parts.
  pub >>=-eq-ok :
      (m : Action S E A) (f : A → Action S E B) (s : S) {b : B} {t : S}
      → (m >>= f) s ≡ (ok b, t)
      → (a : A) × (u : S) × (m s ≡ (ok a, u)) × (f a u ≡ (ok b, t))
  >>=-eq-ok m f s h = follow-eq-ok (m s) f h

-- To split on what a call has left.
pub outcome_cases {ℓ κ ρ} :
    {S : Type ℓ} {E : Type κ} {A : Type ρ} (x : Result E A × S)
    → ((a : A) × (s : S) × (x ≡ (ok a, s))) ⊎ ((e : E) × (s : S) × (x ≡ (err e, s)))
outcome_cases (ok a, s) = inl (a, s, refl)
outcome_cases (err e, s) = inr (e, s, refl)
