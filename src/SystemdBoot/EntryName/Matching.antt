-- ===== src/SystemdBoot/EntryName/Matching.antt =====
-- How the parts of a pattern match a text that is put together from known parts.
use nixpkgs_llvm_ws.Base.{
  Option, ==-self, ℕ, [], ◌∷◌, ◌++◌, ◌≡◌, refl, ap, Bool, true, false, ◌||◌, ◌==◌, nat_eq, none,
  some, arith,
}
use nixpkgs_llvm_ws.Base.Lists.{All}
use nixpkgs_llvm_ws.SystemdBoot.Text.{Text, codes, text_eq}
use nixpkgs_llvm_ws.SystemdBoot.EntryName.{after, span, ends_with, last_match, generation_then}

pub after-append : (p t : Text) → after p (p ++ t) ≡ some t
unfolding after
after-append [] t = refl
after-append (c ∷ p) t = rw (==-self c, after-append p t) refl

-- A character at which the rest of the text does not match.
pub span-append :
    (p : ℕ → Bool) (x : Text) (c : ℕ) (y : Text)
    → All (λ d. p d ≡ true) x
    → p c ≡ false
    → span p (x ++ (c ∷ y)) ≡ (x, c ∷ y)
unfolding span
span-append p [] c y all stops = rw stops refl
span-append p (d ∷ x) c y (here, there) stops = rw (here, span-append p x c y there stops) refl

pub ends_with_self : (s : Text) → ends_with s s ≡ true
unfolding ends_with
ends_with_self [] = ==-self {A = Text} []
ends_with_self (c ∷ s) = ap (λ b. b || ends_with (c ∷ s) s) (==-self {A = Text} (c ∷ s))

pub ends_with-append : (x s : Text) → ends_with s (x ++ s) ≡ true
unfolding ends_with
ends_with-append [] s = ends_with_self s
ends_with-append (c ∷ x) s = let e = ends_with-append x s in ground arith

module _ {ℓ} {A : Type ℓ} where
  -- The text in front of the match is what the greedy part takes.
  pub last_match-append :
      (test : Text → Option A) (p t q : Text) (a : A)
      → last_match test t ≡ some (q, a)
      → last_match test (p ++ t) ≡ some (p ++ q, a)
  unfolding last_match
  last_match-append test [] t q a found = found
  last_match-append test (c ∷ p) t q a found = rw (last_match-append test p t q a found) refl

  pub last_match-here :
      (test : Text → Option A) (c : ℕ) (t : Text) (a : A)
      → last_match test t ≡ none
      → test (c ∷ t) ≡ some a
      → last_match test (c ∷ t) ≡ some ([], a)
  unfolding last_match
  last_match-here test c t a later here = rw (later, here) refl

  pub last_match-cons :
      (test : Text → Option A) (c : ℕ) (t : Text)
      → last_match test t ≡ none
      → test (c ∷ t) ≡ none
      → last_match test (c ∷ t) ≡ none
  unfolding last_match
  last_match-cons test c t later here = rw (later, here) refl

  module _ (test : Text → Option A) where
    -- A match begins with a dash,
    pub generation_then-other :
        (c : ℕ) (t : Text) → (45 == c) ≡ false → generation_then test (c ∷ t) ≡ none
    unfolding generation_then after
    generation_then-other c t other = rw (generation_then, after, other) refl

    pub generation_then-dash :
        (t : Text) → after (codes "generation-") t ≡ none → generation_then test (45 ∷ t) ≡ none
    unfolding generation_then after nat_eq
    generation_then-dash t other = rw (generation_then, after, other) refl

    pub no_dash :
        (x y : Text)
        → All (λ c. (45 == c) ≡ false) x
        → last_match (generation_then test) y ≡ none
        → last_match (generation_then test) (x ++ y) ≡ none
    no_dash [] y all later = later
    no_dash (c ∷ x) y (here, there) later =
        last_match-cons (generation_then test) c (x ++ y) (no_dash x y there later)
          (generation_then-other c (x ++ y) here)

    -- and goes on with a `g`.
    no_g_here :
        (c : ℕ) (t : Text) → All (λ c. (103 == c) ≡ false) t → generation_then test (c ∷ t) ≡ none
    unfolding generation_then after
    no_g_here c [] all = ground arith
    no_g_here c (d ∷ t) (here, there) = ground arith

    pub no_g :
        (t : Text) → All (λ c. (103 == c) ≡ false) t → last_match (generation_then test) t ≡ none
    unfolding last_match generation_then after
    no_g [] all = refl
    no_g (c ∷ t) (here, there) =
        last_match-cons (generation_then test) c t (no_g t there) (no_g_here c t there)

-- A text that breaks off in front of the dash at the end of a literal.
pub after-broken :
    (q s : Text) (c : ℕ) (t : Text)
    → All (λ d. (d == c) ≡ false) q
    → (45 == c) ≡ false
    → All (λ d. (45 == d) ≡ false) s
    → after (q ++ (45 ∷ [])) (s ++ (c ∷ t)) ≡ none
unfolding after
after-broken [] [] c t all dash plain = rw dash refl
after-broken [] (d ∷ s) c t all dash (here, there) = rw here refl
after-broken (x ∷ q) [] c t (here, there) dash plain = rw here refl
after-broken (x ∷ q) (d ∷ s) c t (here, there) dash (unlike, plain) =
    let rest = after-broken q s c t there dash plain in ground arith
