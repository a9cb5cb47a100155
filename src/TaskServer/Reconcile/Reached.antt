-- ===== src/TaskServer/Reconcile/Reached.antt =====
-- What `add_or_delete` reaches, over any collection of names that its two functions update one name
-- at a time.
use nixpkgs_llvm_ws.Base.{
  String, List, [], ◌∷◌, ◌≡◌, refl, ◌∙◌, sym, ap, Bool, not, ◌&&◌, ◌||◌, contains, string_eq, ◌==◌,
  arith,
}
use mathlib.Core.Path.{subst}
use nixpkgs_llvm_ws.Base.{Action, ok, pure, done, for_each, ◌>>◌, >>=-eq-ok}
use nixpkgs_llvm_ws.TaskServer.Reconcile.{difference, add_or_delete}
use nixpkgs_llvm_ws.TaskServer.Reconcile.Sets.{contains-difference}

-- A state that holds a collection of names. The laws speak of calls that return.
pub record Collection {ℓ κ ρ σ} {S : Type ℓ} {E : Type κ} {A : Type ρ} {B : Type σ}
    (add_fun : String → Action S E A) (del_fun : String → Action S E B)
    : Type (ℓ ⊔ κ ⊔ ρ ⊔ σ ⊔ 1) where
  pub IsValid : S → Type 0
  pub has : S → String → Bool
  pub add_law :
      (k : String) (s t : S) (a : A)
      → IsValid s
      → add_fun k s ≡ (ok a, t)
      → IsValid t × ((j : String) → has t j ≡ (j == k || has s j))
  pub del_law :
      (k : String) (s t : S) (b : B)
      → IsValid s
      → del_fun k s ≡ (ok b, t)
      → IsValid t × ((j : String) → has t j ≡ (not (j == k) && has s j))

module _ {ℓ κ ρ σ} {S : Type ℓ} {E : Type κ} {A : Type ρ} {B : Type σ}
    (add_fun : String → Action S E A) (del_fun : String → Action S E B)
    (C : Collection add_fun del_fun) where
  open C use {IsValid, has}

  deletions :
      (ks : List String) (s t : S)
      → IsValid s
      → for_each (λ elem. del_fun elem >> done) ks s ≡ (ok tt, t)
      → IsValid t × ((j : String) → has t j ≡ (not (contains ks j) && has s j))
  unfolding for_each
  deletions [] s t v h =
      subst (λ u. IsValid u × ((j : String) → has u j ≡ has s j)) (ap (λ x. x.1) h) (v, λ j. refl)
  deletions (k ∷ ks) s t v h =
      let (_, u, first, rest) =
        >>=-eq-ok (del_fun k >> done) (λ _. for_each (λ elem. del_fun elem >> done) ks) s h in
      let (b, u', call, last) = >>=-eq-ok (del_fun k) (λ _. done) s first in
      let (v', one) = C.del_law k s u b v (call ∙ ap (λ x. (ok b, x.1)) last) in
      let (v'', more) = deletions ks u t v' rest in (v'', λ j. ground (arith, one j, more j))

  additions :
      (ks : List String) (s t : S)
      → IsValid s
      → for_each (λ elem. add_fun elem >> done) ks s ≡ (ok tt, t)
      → IsValid t × ((j : String) → has t j ≡ (contains ks j || has s j))
  unfolding for_each
  additions [] s t v h =
      subst (λ u. IsValid u × ((j : String) → has u j ≡ has s j)) (ap (λ x. x.1) h) (v, λ j. refl)
  additions (k ∷ ks) s t v h =
      let (_, u, first, rest) =
        >>=-eq-ok (add_fun k >> done) (λ _. for_each (λ elem. add_fun elem >> done) ks) s h in
      let (a, u', call, last) = >>=-eq-ok (add_fun k) (λ _. done) s first in
      let (v', one) = C.add_law k s u a v (call ∙ ap (λ x. (ok a, x.1)) last) in
      let (v'', more) = additions ks u t v' rest in (v'', λ j. ground (arith, one j, more j))

  -- Let the calls that add and delete one name be the updates of a collection, as `Collection` states:
  -- where such a call returns, its name, and no other, is in the collection or has left it. Let a
  -- state be valid and hold just the old names, and let sets be gone through in any order.
  -- If `add_or_delete` returns, then the new state is valid and holds just the new names, and the
  -- two sets that it returns are the names that were missing and the names that were too many.
  pub add_or_delete_reached :
      (iterate : List String → List String)
      → ((xs : List String) (k : String) → contains (iterate xs) k ≡ contains xs k)
      → (old new : List String) (s t : S) (to_add to_delete : List String) → IsValid s
      → ((j : String) → has s j ≡ contains old j)
      → add_or_delete iterate add_fun del_fun old new s ≡ (ok (to_add, to_delete), t)
      → IsValid t
        × ((j : String) → has t j ≡ contains new j)
        × ((j : String) → contains to_add j ≡ (contains new j && not (contains old j)))
        × ((j : String) → contains to_delete j ≡ (contains old j && not (contains new j)))
  unfolding add_or_delete
  add_or_delete_reached iterate same old new s t to_add to_delete v start h =
      let dels = iterate (difference old new) in
      let adds = iterate (difference new old) in
      let (_, u, deleted, h') =
        >>=-eq-ok (for_each (λ elem. del_fun elem >> done) dels)
          (λ _. for_each (λ elem. add_fun elem >> done) adds >> pure (adds, dels)) s h in
      let (_, u', added, last) =
        >>=-eq-ok (for_each (λ elem. add_fun elem >> done) adds) (λ _. pure (adds, dels)) u h' in
      let (v', fewer) = deletions dels s u v deleted in
      let (v'', more) = additions adds u u' v' added in
      let e : u' ≡ t = ap (λ x. x.1) last in
      let e_add : adds ≡ to_add = cc in
      let e_del : dels ≡ to_delete = cc in
      (
        subst IsValid e v'',
        λ j.
            sym (ap (λ x. has x j) e)
            ∙ ground (
              arith,
              more j,
              fewer j,
              start j,
              same (difference new old) j,
              same (difference old new) j,
              contains-difference new old j,
              contains-difference old new j,
            ),
        λ j.
            ap (λ l. contains l j) (sym e_add)
            ∙ same (difference new old) j
            ∙ contains-difference new old j,
        λ j.
            ap (λ l. contains l j) (sym e_del)
            ∙ same (difference old new) j
            ∙ contains-difference old new j,
      )
