-- ===== src/TaskServer/Reconcile.antt =====
-- `add_or_delete`: the calls that turn one set of names into another.
pub mod Sets
pub mod Reached
use nixpkgs_llvm_ws.Base.{String, List, [], ◌∷◌, Bool, not, contains, if◌then◌else◌, string_eq}
use nixpkgs_llvm_ws.Base.{Action, ok, err, pure, done, for_each, ◌>>=◌, ◌>>◌}

-- `set(xs) - set(ys)`, each element once.
unfoldable pub difference : List String → List String → List String
difference [] ys = []
difference (x ∷ xs) ys =
    let rest = difference xs ys in
    if contains ys x then rest else if contains rest x then rest else x ∷ rest

-- The order in which Python goes through a set is not specified: `iterate` is any such order.
module _ {ℓ κ ρ σ} {S : Type ℓ} {E : Type κ} {A : Type ρ} {B : Type σ}
    (iterate : List String → List String) (add_fun : String → Action S E A)
    (del_fun : String → Action S E B) where
  unfoldable pub add_or_delete : List String → List String → Action S E (List String × List String)
  unfolding difference for_each
  add_or_delete old new =
      let to_delete = iterate (difference old new) in
      let to_add = iterate (difference new old) in
      do
        for_each (λ elem. del_fun elem >> done) to_delete
        for_each (λ elem. add_fun elem >> done) to_add
        pure (to_add, to_delete)
