-- ===== src/SystemdBoot/EntryName/Parts.antt =====
-- What each pattern finds in a name that is put together from its parts.
use Prim.Native.Char.{code}
use nixpkgs_llvm_ws.Base.{
  Option, ℕ, ◌+◌, ◌*◌, ◌-◌, String, [], ◌∷◌, ◌++◌, ◌≡◌, ◌≢◌, refl, ◌∙◌, ap, true, false, ◌==◌,
  nat_eq, none, some, arith,
}
use nixpkgs_llvm_ws.Base.Lists.{All}
use nixpkgs_llvm_ws.Base.Decimal.{int, int_onto, is_digit}
use nixpkgs_llvm_ws.SystemdBoot.Text.{Text, codes, text_eq}
use nixpkgs_llvm_ws.SystemdBoot.EntryName.{
  is_alnum, after, span, ends_with, last_match, generation_then, profile_rest, generation_rest,
  name_rest, specialisation_rest, value,
}
use nixpkgs_llvm_ws.SystemdBoot.EntryName.Matching.{
  after-append, span-append, last_match-append, last_match-here, last_match-cons,
  generation_then-dash, no_dash, no_g, after-broken,
}

-- The digits of a number.
value-int_onto :
    (a n : ℕ) (s : String)
    → int_onto a s ≡ some n
    → (value a (codes s) ≡ n) × All (λ c. is_digit c ≡ true) (codes s)
unfolding value int_onto
value-int_onto a n String.[] read = (cc, tt)
value-int_onto a n (String.◌∷◌ c s) read =
    let (here, rest) = digit_read in
    let (same, all) = value-int_onto (a * 10 + (code c - b'0')) n s rest in (same, (here, all))
  where
    digit_read : (is_digit (code c) ≡ true) × (int_onto (a * 10 + (code c - b'0')) s ≡ some n)
    digit_read = ground arith

pub value-int :
    (n : ℕ) (s : String)
    → int s ≡ some n
    → (c : ℕ) × (t : Text) × (codes s ≡ c ∷ t)
      × (value 0 (c ∷ t) ≡ n)
      × All (λ c. is_digit c ≡ true) (c ∷ t)
unfolding int
value-int n String.[] read = cc
value-int n (String.◌∷◌ c s) read =
    let (same, all) = value-int_onto 0 n (String.◌∷◌ c s) read in (code c, codes s, refl, same, all)

-- What stands behind the name of an entry: the counters and the end of the name, as far as the patterns
-- depend on it.
pub record IsTail (c : ℕ) (t : Text) : Type 0 where
  pub plain : is_alnum c ≡ false
  pub dash : (45 == c) ≡ false
  pub word : All (λ d. (d == c) ≡ false) (codes "generation")
  pub no_g : All (λ d. (103 == d) ≡ false) (c ∷ t)
  pub conf : ends_with (codes ".conf") (c ∷ t) ≡ true

pub ends_with-front : (s u v : Text) → ends_with s v ≡ true → ends_with s (u ++ v) ≡ true
unfolding ends_with
ends_with-front s [] v h = h
ends_with-front s (c ∷ u) v h = let e = ends_with-front s u v h in ground arith

pub All-map {ℓ} : {P Q : ℕ → Type ℓ} → ((c : ℕ) → P c → Q c) → (x : Text) → All P x → All Q x
All-map f [] all = tt
All-map f (c ∷ x) (here, there) = (f c here, All-map f x there)

pub digit_dash : (c : ℕ) → is_digit c ≡ true → (45 == c) ≡ false
digit_dash c h = ground arith

pub alnum_dash : (c : ℕ) → is_alnum c ≡ true → (45 == c) ≡ false
alnum_dash c h = ground arith

not_digit : (c : ℕ) → is_alnum c ≡ false → is_digit c ≡ false
not_digit c h = ground arith

digit_g : (c : ℕ) (t : Text) → is_digit c ≡ true → after (codes "generation-") (c ∷ t) ≡ none
unfolding after
digit_g c t h = ground arith

is_nil-false : (s : Text) → s ≢ [] → (s == []) ≡ false
is_nil-false s filled = ground arith

-- The parts of a name: the digits `d ∷ ds`, and the tail `c ∷ t`.
module _ (d : ℕ) (ds : Text) (digits : All (λ d. is_digit d ≡ true) (d ∷ ds)) where
  module _ {A : Type 0} (test : Text → Option A) where
    pub none_before :
        (y : Text)
        → last_match (generation_then test) y ≡ none
        → last_match (generation_then test) (codes "generation-" ++ (d ∷ ds ++ y)) ≡ none
    unfolding nat_eq
    none_before y later =
        no_dash test (codes "generation") (45 ∷ (d ∷ ds ++ y))
          (refl, (refl, (refl, (refl, (refl, (refl, (refl, (refl, (refl, (refl, tt))))))))))
          (last_match-cons (generation_then test) 45 (d ∷ ds ++ y)
            (no_dash test (d ∷ ds) y (All-map digit_dash (d ∷ ds) digits) later)
            (generation_then-dash test (d ∷ ds ++ y) (digit_g d (ds ++ y) digits.0)))

    pub found :
        (front y : Text) (a : A)
        → last_match (generation_then test) y ≡ none
        → test (d ∷ ds ++ y) ≡ some a
        → last_match (generation_then test) (front ++ (codes "-generation-" ++ (d ∷ ds ++ y)))
          ≡ some (front ++ [], a)
    unfolding generation_then
    found front y a later here =
        last_match-append (generation_then test) front (codes "-generation-" ++ (d ∷ ds ++ y)) [] a
          (last_match-here (generation_then test) 45 (codes "generation-" ++ (d ∷ ds ++ y)) a
            (none_before y later)
            (ap (λ o. elim o [ none ↦ none | some r ↦ test r ])
                (after-append (codes "-generation-") (d ∷ ds ++ y))
              ∙ here))

  module _ (c : ℕ) (t : Text) (tail : IsTail c t) where
    pub plain_lem : last_match (generation_then specialisation_rest) (c ∷ t) ≡ none
    plain_lem = no_g specialisation_rest (c ∷ t) tail.no_g

    digits_end : span is_digit (d ∷ ds ++ (c ∷ t)) ≡ (d ∷ ds, c ∷ t)
    digits_end = span-append is_digit (d ∷ ds) c t digits (not_digit c tail.plain)

    pub generation_rest-end : generation_rest (d ∷ ds ++ (c ∷ t)) ≡ some (d ∷ ds)
    unfolding generation_rest
    generation_rest-end = rw (generation_rest, digits_end, tail.conf) refl

    pub specialisation_rest-end : specialisation_rest (d ∷ ds ++ (c ∷ t)) ≡ none
    unfolding specialisation_rest after
    specialisation_rest-end = rw (specialisation_rest, digits_end, tail.dash) refl

    pub profile_rest-end : profile_rest (d ∷ ds ++ (c ∷ t)) ≡ some []
    unfolding profile_rest
    profile_rest-end =
        rw (profile_rest, ends_with-front (codes ".conf") (d ∷ ds) (c ∷ t) tail.conf) refl

    module _ (s : Text) (filled : s ≢ []) (letters : All (λ c. is_alnum c ≡ true) s) where
      abbrev pub specialised : Text
      specialised = codes "-specialisation-" ++ (s ++ (c ∷ t))

      -- No pattern finds a generation in the part for a specialisation.
      pub specialised_lem :
          {A : Type 0} (test : Text → Option A)
          → last_match (generation_then test) specialised ≡ none
      unfolding nat_eq after
      specialised_lem test =
          let plain = All-map alnum_dash s letters in
          last_match-cons (generation_then test) 45 (codes "specialisation-" ++ (s ++ (c ∷ t)))
            (no_dash test (codes "specialisation") (45 ∷ (s ++ (c ∷ t)))
              (
                refl,
                (
                  refl,
                  (
                    refl,
                    (
                      refl,
                      (
                        refl,
                        (refl, (refl, (refl, (refl, (refl, (refl, (refl, (refl, (refl, tt))))))))),
                      ),
                    ),
                  ),
                ),
              )
              (last_match-cons (generation_then test) 45 (s ++ (c ∷ t))
                (no_dash test s (c ∷ t) plain (no_g test (c ∷ t) tail.no_g))
                (generation_then-dash test (s ++ (c ∷ t))
                  (after-broken (codes "generation") s c t tail.word tail.dash plain))))
            (generation_then-dash test (codes "specialisation-" ++ (s ++ (c ∷ t))) refl)

      name_rest-end : name_rest (s ++ (c ∷ t)) ≡ some s
      unfolding name_rest
      name_rest-end =
          rw
            (
              name_rest,
              span-append is_alnum s c t letters tail.plain,
              is_nil-false s filled,
              tail.conf,
            )
            refl

      digits_specialised : span is_digit (d ∷ ds ++ specialised) ≡ (d ∷ ds, specialised)
      digits_specialised = span-append is_digit (d ∷ ds) 45 _ digits refl

      specialised-conf : ends_with (codes ".conf") specialised ≡ true
      specialised-conf =
          ends_with-front (codes ".conf") (codes "-specialisation-") (s ++ (c ∷ t))
            (ends_with-front (codes ".conf") s (c ∷ t) tail.conf)

      pub generation_rest-specialised : generation_rest (d ∷ ds ++ specialised) ≡ some (d ∷ ds)
      unfolding generation_rest
      generation_rest-specialised = rw (generation_rest, digits_specialised, specialised-conf) refl

      pub profile_rest-specialised : profile_rest (d ∷ ds ++ specialised) ≡ some []
      unfolding profile_rest
      profile_rest-specialised =
          rw (profile_rest, ends_with-front (codes ".conf") (d ∷ ds) specialised specialised-conf)
            refl

      pub specialisation_rest-specialised : specialisation_rest (d ∷ ds ++ specialised) ≡ some s
      unfolding specialisation_rest
      specialisation_rest-specialised =
          rw (specialisation_rest, digits_specialised)
            (ap (λ o. elim o [ none ↦ none | some r ↦ name_rest r ])
                (after-append (codes "-specialisation-") (s ++ (c ∷ t)))
              ∙ name_rest-end)
