-- ===== src/TaskServer/Files/Marks.antt =====
-- Which paths count as managed by hand.
use mathlib.Core.List.{append_assoc}
use nixpkgs_llvm_ws.Base.{String, List, [], ◌∷◌, ◌++◌, true, ◌≡◌, refl, ap, ◌↔◌, inl, inr}
use nixpkgs_llvm_ws.Base.{arith, Bool-cases}
use nixpkgs_llvm_ws.TaskServer.Host.{Host, Config}
use nixpkgs_llvm_ws.TaskServer.Files.{mark_path, marked_below, is_imperative}

module _ (H : Host) (cfg : Config) (w : H.World) where
  -- Some part of the path, with at least one component more than `full`, holds a mark.
  abbrev HasMark : List String → List String → Type 0
  HasMark full path =
      (front : List String) × (c : String) × (back : List String) × (path ≡ front ++ (c ∷ back))
      × (H.exists (mark_path H cfg (full ++ (front ++ (c ∷ [])))) w ≡ true)

  marked_below-HasMark :
      (full path : List String) → marked_below H cfg full path w ≡ true → HasMark full path
  unfolding marked_below
  marked_below-HasMark full [] h = cc
  marked_below-HasMark full (c ∷ path) h =
      elim (Bool-cases (H.exists (mark_path H cfg (full ++ (c ∷ []))) w)) [
        | inl here ↦ ([], c, path, refl, here)
        | inr not_here ↦
            let (front, d, back, e, m) =
              marked_below-HasMark (full ++ (c ∷ [])) path (ground arith) in
            (
              c ∷ front,
              d,
              back,
              ap (λ l. c ∷ l) e,
              rw (← append_assoc full (c ∷ []) (front ++ (d ∷ []))) m,
            )
      ]

  HasMark-marked_below :
      (full front : List String) (c : String) (back : List String)
      → H.exists (mark_path H cfg (full ++ (front ++ (c ∷ [])))) w ≡ true
      → marked_below H cfg full (front ++ (c ∷ back)) w ≡ true
  unfolding marked_below
  HasMark-marked_below full [] c back h = rw h refl
  HasMark-marked_below full (d ∷ front) c back h =
      ground (arith, HasMark-marked_below (full ++ (d ∷ [])) front c back (rw append_assoc h))

  -- A path is managed by hand just when it or a directory above it, below the root of the
  -- organisations, holds the mark.
  pub is_imperative_iff :
      (path : List String)
      → (is_imperative H cfg path w ≡ true) ↔ (
          (front : List String) × (c : String) × (back : List String) × (path ≡ front ++ (c ∷ back))
          × (H.exists (mark_path H cfg (front ++ (c ∷ []))) w ≡ true))
  unfolding is_imperative
  is_imperative_iff path = (
    marked_below-HasMark [] path,
    λ (front, c, back, e, m). rw e (HasMark-marked_below [] front c back m),
  )
