-- ===== src/TaskServer/Reconcile/Sets.antt =====
-- The difference of two lists as sets.
use nixpkgs_llvm_ws.Base.{
  String, List, [], ◌∷◌, ◌≡◌, refl, false, not, ◌&&◌, contains, string_eq, arith,
}
use nixpkgs_llvm_ws.TaskServer.Reconcile.{difference}

pub contains-difference :
    (xs ys : List String) (k : String)
    → contains (difference xs ys) k ≡ (contains xs k && not (contains ys k))
unfolding difference
contains-difference [] ys k = refl
contains-difference (x ∷ xs) ys k =
    ground (arith, contains-difference xs ys k, contains-difference xs ys x)

-- No element twice.
abbrev pub IsDistinct : List String → Type 0
IsDistinct [] = Unit
IsDistinct (x ∷ xs) = (contains xs x ≡ false) × IsDistinct xs

pub difference-IsDistinct : (xs ys : List String) → IsDistinct (difference xs ys)
unfolding difference
difference-IsDistinct [] ys = tt
difference-IsDistinct (x ∷ xs) ys = ground (arith, difference-IsDistinct xs ys)
