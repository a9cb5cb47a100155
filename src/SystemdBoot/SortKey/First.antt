-- ===== src/SystemdBoot/SortKey/First.antt =====
-- The default entry comes first.
use nixpkgs_llvm_ws.Base.{
  List, [], ◌∷◌, true, false, ◌==◌, nat_eq, some, ◌≡◌, ◌≢◌, refl, arith, contains, Option-cases,
  Bool-cases, inl, inr,
}
use nixpkgs_llvm_ws.Base.Lists.{All}
use nixpkgs_llvm_ws.SystemdBoot.Text.{Text, text_eq}
use nixpkgs_llvm_ws.SystemdBoot.SortKey.{lt_text, default_sort_key, first_key, sorted_first}

default_sort_key_lt : (s k : Text) → default_sort_key s ≡ some k → lt_text k s ≡ true
unfolding default_sort_key lt_text
default_sort_key_lt [] k h = cc
default_sort_key_lt (c ∷ []) k h = ground arith
default_sort_key_lt (c ∷ d ∷ s) k h = elim (Option-cases (default_sort_key (d ∷ s))) [
  | inl failed ↦ ground arith
  | inr (j, found) ↦ ground (arith, default_sort_key_lt (d ∷ s) j found)
]

-- What is below `t` is below all that is not below `t`.
lt_text-lt_of_not : (s t u : Text) → lt_text s t ≡ true → lt_text u t ≡ false → lt_text s u ≡ true
unfolding lt_text
lt_text-lt_of_not s [] u h k = cc
lt_text-lt_of_not [] (d ∷ t) [] h k = cc
lt_text-lt_of_not [] (d ∷ t) (e ∷ u) h k = refl
lt_text-lt_of_not (c ∷ s) (d ∷ t) [] h k = cc
lt_text-lt_of_not (c ∷ s) (d ∷ t) (e ∷ u) h k = ground (arith, lt_text-lt_of_not s t u)

lt_text_irrefl : (s : Text) → lt_text s s ≡ false
unfolding lt_text
lt_text_irrefl [] = refl
lt_text_irrefl (c ∷ s) = ground (arith, lt_text_irrefl s)

lt_text_asymm : (s t : Text) → lt_text s t ≡ true → lt_text t s ≡ false
unfolding lt_text
lt_text_asymm s [] h = cc
lt_text_asymm [] (d ∷ t) h = refl
lt_text_asymm (c ∷ s) (d ∷ t) h = ground (arith, lt_text_asymm s t)

-- The key is one of those looked through, and none of them is below it.
IsFirst : Text → Text → List Text → Type 0
IsFirst m acc ks =
    (contains (acc ∷ ks) m ≡ true) × (lt_text acc m ≡ false) × All (λ k. lt_text k m ≡ false) ks

IsFirst-below :
    (m acc k : Text) (ks : List Text)
    → lt_text k acc ≡ true
    → IsFirst m k ks
    → IsFirst m acc (k ∷ ks)
unfolding IsFirst
IsFirst-below m acc k ks lt (there, least, all) = (ground arith, not_below, (least, all))
  where
    not_below : lt_text acc m ≡ false
    not_below = ground (arith, lt_text-lt_of_not acc m k, lt_text_asymm k acc lt)

IsFirst-above :
    (m acc k : Text) (ks : List Text)
    → lt_text k acc ≡ false
    → IsFirst m acc ks
    → IsFirst m acc (k ∷ ks)
unfolding IsFirst
IsFirst-above m acc k ks ge (there, least, all) = (ground arith, least, (not_below, all))
  where
    not_below : lt_text k m ≡ false
    not_below = ground (arith, lt_text-lt_of_not k m acc)

IsFirst-nil : (acc : Text) → IsFirst acc acc []
unfolding IsFirst
IsFirst-nil acc = (ground arith, lt_text_irrefl acc, tt)

first_key-IsFirst :
    (acc : Text) (ks : List Text)
    → acc ≢ []
    → All (λ k. k ≢ []) ks
    → IsFirst (first_key acc ks) acc ks
unfolding first_key
first_key-IsFirst acc [] ne h = IsFirst-nil acc
first_key-IsFirst acc (k ∷ ks) ne (nek, h) = elim (Bool-cases (lt_text k acc)) [
  | inl lt ↦ rw lt (IsFirst-below (first_key k ks) acc k ks lt (first_key-IsFirst k ks nek h))
  | inr ge ↦
      let same : (acc == []) ≡ false = ground arith in
      rw (ge, same) (IsFirst-above (first_key acc ks) acc k ks ge (first_key-IsFirst acc ks ne h))
]

sorted_first-IsFirst :
    (k : Text) (ks : List Text)
    → k ≢ []
    → All (λ k. k ≢ []) ks
    → let m = sorted_first (k ∷ ks) in
      (contains (k ∷ ks) m ≡ true) × (lt_text k m ≡ false) × All (λ k. lt_text k m ≡ false) ks
unfolding sorted_first IsFirst lt_text
sorted_first-IsFirst [] ks ne nes = absurd (ne refl)
sorted_first-IsFirst (c ∷ k) ks ne nes = first_key-IsFirst (c ∷ k) ks ne nes

All-below :
    (key m : Text) (ks : List Text)
    → lt_text key m ≡ true
    → All (λ k. lt_text k m ≡ false) ks
    → All (λ k. lt_text key k ≡ true) ks
All-below key m [] lt h = tt
All-below key m (k ∷ ks) lt (x, h) = (lt_text-lt_of_not key m k lt x, All-below key m ks lt h)

-- Let the sort keys of the generations not be empty, and let the default entry get a sort key.
-- Then this key is below the sort key of every generation, and the `sorted_first` that it was made
-- of is one of those sort keys.
pub default_sort_key_first :
    (k : Text) (ks : List Text) (key : Text)
    → All (λ k. k ≢ []) (k ∷ ks)
    → default_sort_key (sorted_first (k ∷ ks)) ≡ some key
    → (contains (k ∷ ks) (sorted_first (k ∷ ks)) ≡ true) × All (λ j. lt_text key j ≡ true) (k ∷ ks)
default_sort_key_first k ks key (ne, nes) h =
    let (there, least, all) = sorted_first-IsFirst k ks ne nes in
    (
      there,
      (
        lt_text-lt_of_not key _ k (default_sort_key_lt _ key h) least,
        All-below key _ ks (default_sort_key_lt _ key h) all,
      ),
    )
