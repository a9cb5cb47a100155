-- ===== src/OptionsDoc/Merge.antt =====
-- What the merged declarations are.
use nixpkgs_llvm_ws.Base.{
  String, List, [], ◌∷◌, ◌++◌, ◌≡◌, ◌||◌, contains, ◌==◌, string_eq, Eq, ok, some, if◌then◌else◌,
  arith,
}
use nixpkgs_llvm_ws.Base.Dict.{lookup, insert, lookup-insert}
use nixpkgs_llvm_ws.OptionsDoc.{Declaration, declarations, Attrs, add_declarations, merge_attr}

module _ {ℓ} {J : Type ℓ} ⦃declaration_eq : Eq (Declaration J)⦄ where
  contains-snoc :
      (decls : List (Declaration J)) (d x : Declaration J)
      → contains (decls ++ d ∷ []) x ≡ (contains decls x || x == d)
  contains-snoc [] d x = ground arith
  contains-snoc (c ∷ decls) d x = ground (arith, contains-snoc decls d x)

  contains-add_declarations :
      (decls ds : List (Declaration J)) (x : Declaration J)
      → contains (add_declarations decls ds) x ≡ (contains decls x || contains ds x)
  unfolding add_declarations
  contains-add_declarations decls [] x = ground arith
  contains-add_declarations decls (d ∷ ds) x =
      let grown = contains-snoc decls d x in
      let rest =
        contains-add_declarations (if contains decls d then decls else decls ++ d ∷ []) ds x in
      ground arith

  -- Merging a list of declarations into an option that has one succeeds, gives a list that
  -- contains just the declarations of the two lists, and leaves the option's other attributes as
  -- they are.
  pub merge_attr-declarations :
      (cur : Attrs J) (old new : List (Declaration J))
      → lookup "declarations" cur ≡ some (declarations old)
      → (decls : List (Declaration J)) × (next : Attrs J) × (merge_attr cur "declarations"
            (declarations new)
          ≡ ok next)
        × ((x : Declaration J) → contains decls x ≡ (contains old x || contains new x))
        × ((key : String)
            → lookup key next
              ≡ (if key == "declarations" then some (declarations decls) else lookup key cur))
  unfolding merge_attr
  merge_attr-declarations cur old new h = (
    add_declarations old new,
    insert "declarations" (declarations (add_declarations old new)) cur,
    rw h,
    contains-add_declarations old new,
    (λ key. lookup-insert key "declarations" (declarations (add_declarations old new)) cur),
  )
