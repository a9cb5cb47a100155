-- ===== src/SystemdBoot/EntryName/Built.antt =====
-- What `from_path` reads off a name with digits for the generation and a known end.
use mathlib.Core.Option
use mathlib.Core.List.{append-nil}
use nixpkgs_llvm_ws.Base.{
  ℕ, [], ◌∷◌, ◌++◌, ◌≡◌, ◌≢◌, refl, ◌∙◌, ap, true, false, ◌==◌, nat_eq, Option, none, some, arith,
}
use nixpkgs_llvm_ws.Base.Lists.{All}
use nixpkgs_llvm_ws.Base.Decimal.{is_digit}
use nixpkgs_llvm_ws.SystemdBoot.Text.{Text, codes, text_eq}
use nixpkgs_llvm_ws.SystemdBoot.EntryName.{
  is_alnum, after, span, last_match, generation_then, profile_rest, generation_rest,
  specialisation_rest, value, profile_of, specialisation_of, generation_of, entry_from_name,
}
use nixpkgs_llvm_ws.SystemdBoot.EntryName.Matching.{after-append, last_match-cons, no_dash, no_g}
use nixpkgs_llvm_ws.SystemdBoot.EntryName.Parts.{
  IsTail, none_before, found, plain_lem, generation_rest-end, specialisation_rest-end,
  profile_rest-end, specialised_lem, generation_rest-specialised, profile_rest-specialised,
  specialisation_rest-specialised,
}

-- A profile with dashes could be taken for a specialisation where the entry has none.
abbrev pub IsPlain : Option Text → Option Text → Type 0
IsPlain (some p) none = All (λ c. (45 == c) ≡ false) p
IsPlain _ _ = Unit

abbrev pub front : Option Text → Text
front none = []
front (some p) = 45 ∷ p

abbrev pub built : Option Text → Text → Text
built profile rest = codes "nixos" ++ (front profile ++ (codes "-generation-" ++ rest))

-- What the patterns need of the text behind the digits.
pub record IsRead (digits rest : Text) (specialisation : Option Text) (profile : Option Text)
    : Type 0 where
  pub later : (test : Text → Option Text) → last_match (generation_then test) rest ≡ none
  pub generation : generation_rest (digits ++ rest) ≡ some digits
  pub profile_end : profile_rest (digits ++ rest) ≡ some []
  pub specialised_end :
      Option.map
        (λ m. m.1)
        (last_match
          (generation_then specialisation_rest)
          (front profile ++ (codes "-generation-" ++ (digits ++ rest))))
      ≡ specialisation

-- A text without dashes is the word `generation`, or its end is not where `generation-` ends.
after-dash :
    (q p r : Text)
    → All (λ c. (45 == c) ≡ false) q
    → All (λ c. (45 == c) ≡ false) p
    → (test : Text → Option Text) → test r ≡ none
    → elim (after (q ++ (45 ∷ [])) (p ++ (45 ∷ r))) [ none ↦ none | some x ↦ test x ] ≡ none
unfolding after
after-dash [] [] r plain dashes test fails = ground arith
after-dash [] (d ∷ p) r plain (here, there) test fails = rw here refl
after-dash (x ∷ q) [] r (here, there) dashes test fails = ground arith
after-dash (x ∷ q) (d ∷ p) r (here, there) (here', there') test fails =
    let rest = after-dash q p r there there' test fails in ground arith

module _ (d : ℕ) (ds : Text) (digits : All (λ d. is_digit d ≡ true) (d ∷ ds)) (c : ℕ) (t : Text)
    (tail : IsTail c t) where
  at_digits :
      last_match (generation_then specialisation_rest) (codes "-generation-" ++ (d ∷ ds ++ (c ∷ t)))
      ≡ none
  unfolding generation_then
  at_digits =
      last_match-cons (generation_then specialisation_rest) 45
        (codes "generation-" ++ (d ∷ ds ++ (c ∷ t)))
        (none_before d ds digits specialisation_rest (c ∷ t) (plain_lem d ds digits c t tail))
        (ap (λ o. elim o [ none ↦ none | some r ↦ specialisation_rest r ])
            (after-append (codes "-generation-") (d ∷ ds ++ (c ∷ t)))
          ∙ specialisation_rest-end d ds digits c t tail)

  word_lem : (r : Text) → specialisation_rest (codes "generation-" ++ r) ≡ none
  unfolding specialisation_rest span text_eq
  word_lem r = refl

  at_profile :
      (p : Text)
      → All (λ c. (45 == c) ≡ false) p
      → generation_then specialisation_rest
          (45 ∷ (p ++ (codes "-generation-" ++ (d ∷ ds ++ (c ∷ t)))))
        ≡ none
  unfolding generation_then after nat_eq
  at_profile p plain =
      after-dash (codes "generation") p (codes "generation-" ++ (d ∷ ds ++ (c ∷ t)))
        (refl, (refl, (refl, (refl, (refl, (refl, (refl, (refl, (refl, (refl, tt)))))))))) plain
        specialisation_rest (word_lem (d ∷ ds ++ (c ∷ t)))

  unspecialised :
      (profile : Option Text)
      → IsPlain profile none
      → last_match
          (generation_then specialisation_rest)
          (front profile ++ (codes "-generation-" ++ (d ∷ ds ++ (c ∷ t))))
        ≡ none
  unspecialised none plain = at_digits
  unspecialised (some p) plain =
      last_match-cons (generation_then specialisation_rest) 45
        (p ++ (codes "-generation-" ++ (d ∷ ds ++ (c ∷ t))))
        (no_dash specialisation_rest p (codes "-generation-" ++ (d ∷ ds ++ (c ∷ t))) plain
          at_digits)
        (at_profile p plain)

  pub none-IsRead :
      (profile : Option Text) → IsPlain profile none → IsRead (d ∷ ds) (c ∷ t) none profile
  none-IsRead profile plain = record {
    later = λ test. no_g test (c ∷ t) tail.no_g;
    generation = generation_rest-end d ds digits c t tail;
    profile_end = profile_rest-end d ds digits c t tail;
    specialised_end = ap (Option.map (λ m. m.1)) (unspecialised profile plain);
  }

  pub some-IsRead :
      (profile : Option Text) (s : Text)
      → (s ≢ []) × All (λ c. is_alnum c ≡ true) s
      → IsRead (d ∷ ds) (codes "-specialisation-" ++ s ++ (c ∷ t)) (some s) profile
  some-IsRead profile s (filled, letters) = record {
    later = specialised_lem d ds digits c t tail s filled letters;
    generation = generation_rest-specialised d ds digits c t tail s filled letters;
    profile_end = profile_rest-specialised d ds digits c t tail s filled letters;
    specialised_end = ap (Option.map (λ m. m.1)) (
        found d ds digits specialisation_rest (front profile)
          (codes "-specialisation-" ++ s ++ (c ∷ t)) s
          (specialised_lem d ds digits c t tail s filled letters specialisation_rest)
          (specialisation_rest-specialised d ds digits c t tail s filled letters));
  }

module _ (d : ℕ) (ds : Text) (digits : All (λ d. is_digit d ≡ true) (d ∷ ds)) (rest : Text)
    (specialisation : Option Text) where
  generation_of-built :
      (profile : Option Text)
      → IsRead (d ∷ ds) rest specialisation profile
      → generation_of (built profile (d ∷ ds ++ rest)) ≡ some (value 0 (d ∷ ds))
  unfolding generation_of
  generation_of-built profile read =
      rw
        (
          generation_of,
          after-append (codes "nixos")
              (front profile ++ (codes "-generation-" ++ (d ∷ ds ++ rest))),
        )
        (ap (Option.map (λ m. value 0 m.1)) (
          found d ds digits generation_rest (front profile) rest (d ∷ ds)
            (read.later generation_rest) read.generation))

  specialisation_of-built :
      (profile : Option Text)
      → IsRead (d ∷ ds) rest specialisation profile
      → specialisation_of (built profile (d ∷ ds ++ rest)) ≡ specialisation
  unfolding specialisation_of
  specialisation_of-built profile read =
      rw
        (
          specialisation_of,
          after-append (codes "nixos")
              (front profile ++ (codes "-generation-" ++ (d ∷ ds ++ rest))),
        )
        read.specialised_end

  profile_of-built :
      (profile : Option Text)
      → IsRead (d ∷ ds) rest specialisation profile
      → profile_of (built profile (d ∷ ds ++ rest)) ≡ profile
  unfolding profile_of
  profile_of-built none read =
      rw (profile_of, after-append (codes "nixos-") (codes "generation-" ++ (d ∷ ds ++ rest)))
        (ap (Option.map (λ m. m.0))
          (none_before d ds digits profile_rest rest (read.later profile_rest)))
  profile_of-built (some p) read =
      rw
        (
          profile_of,
          after-append (codes "nixos-") (p ++ (codes "-generation-" ++ (d ∷ ds ++ rest))),
        )
        (ap (Option.map (λ m. m.0))
            (found d ds digits profile_rest p rest [] (read.later profile_rest) read.profile_end)
          ∙ ap some (append-nil p))

  pub entry_from_name-built :
      (profile : Option Text)
      → IsRead (d ∷ ds) rest specialisation profile
      → entry_from_name (built profile (d ∷ ds ++ rest))
        ≡ some (record {
          profile = profile;
          generation_number = value 0 (d ∷ ds);
          specialisation = specialisation;
        })
  unfolding entry_from_name
  entry_from_name-built profile read =
      rw
        (
          entry_from_name,
          generation_of-built profile read,
          profile_of-built profile read,
          specialisation_of-built profile read,
        )
        refl
