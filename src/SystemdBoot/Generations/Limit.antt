-- ===== src/SystemdBoot/Generations/Limit.antt =====
-- How many generations are kept.
use Prim.Native.Nat.{min}
use mathlib.Core.Option
use nixpkgs_llvm_ws.Base.{
  ℕ, zero, suc, ◌-◌, ◌<◌, String, List, [], ◌∷◌, ◌++◌, ◌≡◌, refl, sym, ◌∙◌, ap, arith, Option, none,
  some,
}
use nixpkgs_llvm_ws.Base.Lists.{length, drop, length-drop}
use nixpkgs_llvm_ws.Base.Decimal.{int}
use nixpkgs_llvm_ws.Base.Text.{lstrip, is_space}
use nixpkgs_llvm_ws.SystemdBoot.Generations.{
  SystemIdentifier, last_of, first_word, configurations, get_generations,
}

take_front {ℓ} : {A : Type ℓ} (n : ℕ) (xs : List A) → (front : List A) × (xs ≡ front ++ drop n xs)
take_front zero xs = ([], refl)
take_front (suc n) [] = ([], refl)
take_front (suc n) (x ∷ xs) = let (front, e) = take_front n xs in (x ∷ front, ap (λ l. x ∷ l) e)

last_of_lem {ℓ} :
    {A : Type ℓ} (limit : ℕ) (xs : List A)
    → 0 < limit
    → ((front : List A) × (xs ≡ front ++ last_of limit xs))
      × (length (last_of limit xs) ≡ min limit (length xs))
unfolding last_of
last_of_lem zero xs h = elim h [ ]
last_of_lem (suc n) xs h =
    (take_front (length xs - suc n) xs, omega (arith, length-drop (length xs - suc n) xs))

-- A generation for each line, with the number in it.
abbrev pub Reads : Option String → List String → List SystemIdentifier → Type 0
Reads profile [] [] = Unit
Reads profile [] (g ∷ gens) = ⊥
Reads profile (line ∷ lines) [] = ⊥
Reads profile (line ∷ lines) (g ∷ gens) =
    (int (first_word (lstrip is_space line)) ≡ some g.generation)
    × (g.profile ≡ profile)
    × (g.specialisation ≡ none)
    × Reads profile lines gens

abbrev Each : Option String → List String → Option (List SystemIdentifier) → Type 0
Each profile lines none = Unit
Each profile lines (some gens) = Reads profile lines gens

read_line :
    (profile : Option String) (line : String) (lines : List String) (number : Option ℕ)
    → int (first_word (lstrip is_space line)) ≡ number
    → (rest : Option (List SystemIdentifier)) → Each profile lines rest
    → Each profile (line ∷ lines) (elim number [
      | none ↦ none
      | some n ↦
          Option.map
            (λ gens. record { profile = profile; generation = n; specialisation = none } ∷ gens)
            rest
    ])
read_line profile line lines none e rest reads = tt
read_line profile line lines (some n) e none reads = tt
read_line profile line lines (some n) e (some gens) reads = (e, refl, refl, reads)

configurations-Each :
    (profile : Option String) (lines : List String)
    → Each profile lines (configurations profile lines)
unfolding configurations
configurations-Each profile [] = tt
configurations-Each profile (line ∷ lines) =
    read_line profile line lines (int (first_word (lstrip is_space line))) refl
      (configurations profile lines) (configurations-Each profile lines)

Reads-length :
    (profile : Option String) (lines : List String) (gens : List SystemIdentifier)
    → Reads profile lines gens
    → length gens ≡ length lines
Reads-length profile [] [] reads = refl
Reads-length profile [] (g ∷ gens) reads = absurd reads
Reads-length profile (line ∷ lines) [] reads = absurd reads
Reads-length profile (line ∷ lines) (g ∷ gens) (_, _, _, reads) =
    ap suc (Reads-length profile lines gens reads)

-- With a limit other than 0: if `get_generations` returns, then there is a generation of the
-- profile for each line that nix-env prints, in order and with the number that the line begins
-- with, and what is returned is the end of this list, as long as the limit, or as the list if that
-- is shorter.
pub get_generations_limit :
    (limit : ℕ) (profile : Option String) (lines : List String) (gens : List SystemIdentifier)
    → 0 < limit
    → get_generations limit profile lines ≡ some gens
    → (all front : List SystemIdentifier) × Reads profile lines all
      × (all ≡ front ++ gens)
      × (length gens ≡ min limit (length lines))
unfolding get_generations
get_generations_limit limit profile lines gens h returned =
    kept (configurations profile lines) (configurations-Each profile lines) returned
  where
    kept :
        (o : Option (List SystemIdentifier))
        → Each profile lines o
        → Option.map (last_of limit) o ≡ some gens
        → (all front : List SystemIdentifier) × Reads profile lines all
          × (all ≡ front ++ gens)
          × (length gens ≡ min limit (length lines))
    kept none reads e = absurd (cc)
    kept (some all) reads e =
        let same : last_of limit all ≡ gens = cc in
        let ((front, split), size) = last_of_lem limit all h in
        let count = Reads-length profile lines all reads in
        (
          all,
          front,
          reads,
          split ∙ ap (λ l. front ++ l) same,
          ap length (sym same) ∙ size ∙ ap (min limit) count,
        )
