-- ===== src/Composefs/Prefixes.antt =====
-- The directories above a path, and that those above them are among them.
use nixpkgs_llvm_ws.Base.{
  String, List, [], ◌∷◌, ◌≡◌, Bool, true, false, if◌then◌else◌, ◌==◌, string_eq, nat_eq, contains,
  map, arith,
}
use Prim.Native.Char.{Char, code}
use nixpkgs_llvm_ws.Base.Lists.{All}
use nixpkgs_llvm_ws.Composefs.{before_slashes}

-- The directories above a path, as `leading_directories` gives them.
abbrev pub above : String → List String
above String.[] = []
above (String.◌∷◌ c s) = map (λ p. String.◌∷◌ c p) (before_slashes s)

All-map {ℓ κ ρ} :
    {A : Type ℓ} {B : Type κ} (P : B → Type ρ) (f : A → B) (xs : List A)
    → All (λ x. P (f x)) xs
    → All P (map f xs)
All-map P f [] h = tt
All-map P f (x ∷ xs) (h, hs) = (h, All-map P f xs hs)

All-unmap {ℓ κ ρ} :
    {A : Type ℓ} {B : Type κ} (P : B → Type ρ) (f : A → B) (xs : List A)
    → All P (map f xs)
    → All (λ x. P (f x)) xs
All-unmap P f [] h = tt
All-unmap P f (x ∷ xs) (h, hs) = (h, All-unmap P f xs hs)

pub All-imp {ℓ ρ σ} :
    {A : Type ℓ} {P : A → Type ρ} {Q : A → Type σ} (f : (x : A) → P x → Q x) (xs : List A)
    → All P xs
    → All Q xs
All-imp f [] h = tt
All-imp f (x ∷ xs) (h, hs) = (f x h, All-imp f xs hs)

-- What stands before each slash of `c ∷ s`, from whether `c` is a slash and what `s` gives.
abbrev onto : Bool → Char → List String → List String
onto b c ps = if b then "" ∷ map (λ p. String.◌∷◌ c p) ps else map (λ p. String.◌∷◌ c p) ps

onto-tail {ρ} :
    (P : String → Type ρ) (b : Bool) (c : Char) (ps : List String)
    → All P (onto b c ps)
    → All (λ p. P (String.◌∷◌ c p)) ps
onto-tail P true c ps (_, h) = All-unmap P (λ p. String.◌∷◌ c p) ps h
onto-tail P false c ps h = All-unmap P (λ p. String.◌∷◌ c p) ps h

onto-All {ρ σ} :
    (P : String → Type ρ) (Q : String → Type σ) (b : Bool) (c : Char) (ps : List String)
    → Q ""
    → All P (onto b c ps)
    → All (λ p. Q (String.◌∷◌ c p)) ps
    → All Q (onto b c ps)
onto-All P Q true c ps q h hs = (q, All-map Q (λ p. String.◌∷◌ c p) ps hs)
onto-All P Q false c ps q h hs = All-map Q (λ p. String.◌∷◌ c p) ps hs

onto-parts {ρ} :
    (P : String → Type ρ) (b : Bool) (c : Char) (ps qs : List String)
    → All P (onto b c ps)
    → All (λ q. P (String.◌∷◌ c q)) qs
    → All P (onto b c qs)
onto-parts P true c ps qs (h, _) hs = (h, All-map P (λ p. String.◌∷◌ c p) qs hs)
onto-parts P false c ps qs h hs = All-map P (λ p. String.◌∷◌ c p) qs hs

-- What stands before a slash of a part stands before a slash of the whole.
before_slashes-nested {ρ} :
    (P : String → Type ρ) (s : String)
    → All P (before_slashes s)
    → All (λ d. All P (before_slashes d)) (before_slashes s)
unfolding before_slashes
before_slashes-nested P String.[] h = tt
before_slashes-nested P (String.◌∷◌ c s) h =
    onto-All P (λ d. All P (before_slashes d)) (code c == b'/') c (before_slashes s) tt h
      (All-imp (λ d. onto-parts P (code c == b'/') c (before_slashes s) (before_slashes d) h)
        (before_slashes s)
        (before_slashes-nested (λ d. P (String.◌∷◌ c d)) s
          (onto-tail P (code c == b'/') c (before_slashes s) h)))

pub above-nested {ρ} :
    (P : String → Type ρ) (s : String) → All P (above s) → All (λ d. All P (above d)) (above s)
above-nested P String.[] h = tt
above-nested P (String.◌∷◌ c s) h =
    All-map (λ d. All P (above d)) (λ p. String.◌∷◌ c p) (before_slashes s)
      (All-imp (λ d. All-map P (λ p. String.◌∷◌ c p) (before_slashes d)) (before_slashes s)
        (before_slashes-nested (λ d. P (String.◌∷◌ c d)) s
          (All-unmap P (λ p. String.◌∷◌ c p) (before_slashes s) h)))

pub All-contains {ρ} :
    (P : String → Type ρ) (xs : List String) (x : String) → All P xs → contains xs x ≡ true → P x
All-contains P [] x h e = ground arith
All-contains P (y ∷ ys) x (h, hs) e = elim (string_eq.dec x y) [
  | yes p ↦ rw p h
  | no n ↦ All-contains P ys x hs (ground arith)
]

pub contains-All :
    (xs ys : List String)
    → ((y : String) → contains xs y ≡ true → contains ys y ≡ true)
    → All (λ y. contains ys y ≡ true) xs
contains-All [] ys h = tt
contains-All (x ∷ xs) ys h = (h x (ground arith), contains-All xs ys (λ y e. h y (ground arith)))
