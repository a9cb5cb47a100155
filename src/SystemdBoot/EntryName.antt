-- ===== src/SystemdBoot/EntryName.antt =====
-- The name of the file of a boot entry: `DiskEntry.path`, and the patterns of `from_path` that read its
-- parts back, of file names that begin with `nixos` and have no line break, as `scan_entries` lists them.
pub mod Matching
pub mod Parts
pub mod Built
pub mod Reread
use nixpkgs_llvm_ws.Base.{
  ℕ, ◌+◌, ◌*◌, ◌-◌, List, [], ◌∷◌, ◌++◌, Bool, true, false, not, ◌&&◌, ◌||◌, leb, if◌then◌else◌,
  ◌==◌, nat_eq, Option, none, some,
}
use mathlib.Core.Option
use nixpkgs_llvm_ws.Base.Decimal.{str, is_digit}
use nixpkgs_llvm_ws.SystemdBoot.Text.{Text, codes, text_eq}
use nixpkgs_llvm_ws.SystemdBoot.EntryFile.{Entry}

abbrev pub is_alnum : ℕ → Bool
is_alnum c = leb 97 c && leb c 122 || leb 65 c && leb c 90 || is_digit c

-- What follows a literal of a pattern.
unfoldable pub after : Text → Text → Option Text
after [] t = some t
after (p ∷ ps) [] = none
after (p ∷ ps) (c ∷ t) = if p == c then after ps t else none

-- A greedy `[…]*`, with what follows it.
unfoldable pub span : (ℕ → Bool) → Text → Text × Text
span p [] = ([], [])
span p (c ∷ t) = let (front, rest) = span p t in if p c then (c ∷ front, rest) else ([], c ∷ t)

unfoldable pub ends_with : Text → Text → Bool
unfolding text_eq
ends_with s [] = s == []
ends_with s (c ∷ t) = c ∷ t == s || ends_with s t

-- A greedy `.*` in front of the rest of a pattern: the last place where the rest matches.
unfoldable pub last_match {ℓ} : {A : Type ℓ} → (Text → Option A) → Text → Option (Text × A)
last_match test [] = Option.map (λ a. ([], a)) (test [])
last_match test (c ∷ t) = elim (last_match test t) [
  | some (front, a) ↦ some (c ∷ front, a)
  | none ↦ Option.map (λ a. ([], a)) (test (c ∷ t))
]

-- `-generation-`, and the rest of a pattern.
unfoldable pub generation_then {ℓ} : {A : Type ℓ} → (Text → Option A) → Text → Option A
unfolding after
generation_then test t = elim (after (codes "-generation-") t) [ none ↦ none | some r ↦ test r ]

unfoldable pub profile_rest : Text → Option Text
unfolding ends_with
profile_rest t = if ends_with (codes ".conf") t then some [] else none

-- `([0-9]+).*\.conf$`
unfoldable pub generation_rest : Text → Option Text
unfolding span ends_with text_eq
generation_rest t =
    let (digits, r) = span is_digit t in
    if not (digits == []) && ends_with (codes ".conf") r then some digits else none

-- `([a-zA-Z0-9]+).*\.conf$`
unfoldable pub name_rest : Text → Option Text
unfolding span ends_with text_eq
name_rest t =
    let (name, r) = span is_alnum t in
    if not (name == []) && ends_with (codes ".conf") r then some name else none

-- `([0-9]+)-specialisation-`, and the pattern of the name.
unfoldable pub specialisation_rest : Text → Option Text
unfolding span after name_rest text_eq
specialisation_rest t =
    let (digits, r) = span is_digit t in
    if digits == []
    then none
    else elim (after (codes "-specialisation-") r) [ none ↦ none | some s ↦ name_rest s ]

-- `int` of a text of digits.
unfoldable pub value : ℕ → Text → ℕ
value n [] = n
value n (c ∷ t) = value (n * 10 + (c - 48)) t

unfoldable pub profile_of : Text → Option Text
unfolding after last_match generation_then profile_rest
profile_of filename = elim (after (codes "nixos-") filename) [
  | none ↦ none
  | some r ↦ Option.map (λ m. m.0) (last_match (generation_then profile_rest) r)
]

unfoldable pub specialisation_of : Text → Option Text
unfolding after last_match generation_then specialisation_rest
specialisation_of filename = elim (after (codes "nixos") filename) [
  | none ↦ none
  | some r ↦ Option.map (λ m. m.1) (last_match (generation_then specialisation_rest) r)
]

-- `none` is the `ValueError`: a name that the pattern does not match is not a number either.
unfoldable pub generation_of : Text → Option ℕ
unfolding after last_match generation_then generation_rest value
generation_of filename = elim (after (codes "nixos") filename) [
  | none ↦ none
  | some r ↦ Option.map (λ m. value 0 m.1) (last_match (generation_then generation_rest) r)
]

-- `Entry.from_path`, from the name of the file.
unfoldable pub entry_from_name : Text → Option Entry
unfolding profile_of specialisation_of generation_of
entry_from_name filename =
    Option.map
      (λ n. record {
        profile = profile_of filename;
        generation_number = n;
        specialisation = specialisation_of filename;
      })
      (generation_of filename)

-- The end of the pattern of the counters behind the first digit `c`.
unfoldable pub second_counter : ℕ → Text → Option Text
unfolding text_eq
second_counter c [] = none
second_counter c (d ∷ []) = none
second_counter c (d ∷ e ∷ t) =
    if d == 45 && is_digit e && t == codes ".conf" then some (43 ∷ c ∷ 45 ∷ e ∷ []) else none

-- `(\+\d(-\d)?)\.conf$`
unfoldable pub counters_rest : Text → Option Text
unfolding text_eq second_counter
counters_rest [] = none
counters_rest (p ∷ []) = none
counters_rest (p ∷ c ∷ t) =
    if p == 43 && is_digit c
    then if t == codes ".conf" then some (43 ∷ c ∷ []) else second_counter c t
    else none

-- The counters that `DiskEntry.from_path` finds.
unfoldable pub counters_of : Text → Option Text
unfolding after last_match generation_then counters_rest
counters_of filename = elim (after (codes "nixos") filename) [
  | none ↦ none
  | some r ↦
      Option.map (λ m. m.1)
        (last_match (generation_then (λ t. Option.map (λ m. m.1) (last_match counters_rest t))) r)
]

-- The pieces that are there, with dashes between them.
unfoldable pub join_pieces : List Text → Text
join_pieces [] = []
join_pieces (p ∷ []) = p
join_pieces (p ∷ q ∷ ps) = p ++ (45 ∷ join_pieces (q ∷ ps))

-- A piece that is missing or empty is left out.
abbrev pub piece_if : Text → Option Text → List Text → List Text
piece_if label none pieces = pieces
piece_if label (some []) pieces = pieces
piece_if label (some (c ∷ t)) pieces = (label ++ (c ∷ t)) ∷ pieces

-- The name in `DiskEntry.path`.
unfoldable pub file_name : Entry → Option Text → Text
unfolding join_pieces
file_name entry counters =
    join_pieces (
      codes "nixos"
      ∷ piece_if [] entry.profile (
          codes "generation"
          ∷ codes (str entry.generation_number)
          ∷ piece_if (codes "specialisation-") entry.specialisation []))
    ++ (Option.get_or counters [] ++ codes ".conf")
