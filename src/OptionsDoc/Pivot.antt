-- ===== src/OptionsDoc/Pivot.antt =====
-- `pivot` and `unpivot` are inverse to each other on a file of options.
use mathlib.Core.List.{append-nil, append_assoc}
use nixpkgs_llvm_ws.Base.{
  String, List, [], ◌∷◌, ◌++◌, ◌≡◌, ◌≢◌, ◌∙◌, ap, refl, sym, none, string_eq, Eq, ok, arith,
}
use nixpkgs_llvm_ws.Base.Dict.{Dict, lookup, insert, NodupKeys}
use nixpkgs_llvm_ws.OptionsDoc.{Described, Named, Options, pivot_onto, pivot, unpivot_onto, unpivot}

module _ {ℓ κ} {K : Type ℓ} {V : Type κ} ⦃e : Eq K⦄ where
  -- A key that is not there yet goes to the end.
  insert-new : (k : K) (v : V) (d : Dict K V) → lookup k d ≡ none → insert k v d ≡ d ++ (k, v) ∷ []
  unfolding insert lookup
  insert-new k v [] h = refl
  insert-new k v ((j, w) ∷ d) h = ground (arith, insert-new k v d)

  lookup-append : (k : K) (d t : Dict K V) → lookup k (d ++ t) ≡ none → lookup k d ≡ none
  unfolding lookup
  lookup-append k [] t h = refl
  lookup-append k ((j, w) ∷ d) t h = ground (arith, lookup-append k d t)

  lookup-present : (k : K) (v : V) (d t : Dict K V) → lookup k (d ++ (k, v) ∷ t) ≢ none
  unfolding lookup
  lookup-present k v [] t = ground arith
  lookup-present k v ((j, w) ∷ d) t = ground (arith, lookup-present k v d t)

  -- The keys before an entry differ from its key.
  NodupKeys-before :
      (k : K) (v : V) (d t : Dict K V) → NodupKeys (d ++ (k, v) ∷ t) → lookup k d ≡ none
  unfolding lookup
  NodupKeys-before k v [] t h = refl
  NodupKeys-before k v ((j, w) ∷ d) t (fresh, rest) =
      let before = NodupKeys-before k v d t rest in
      let absent = lookup-present k v d t in ground (arith)

module _ {ℓ} {J : Type ℓ} where
  -- The options under their paths, in the order of the file.
  unfoldable pub pivoted : Dict String (Described J) → Options J
  pivoted [] = []
  pivoted ((name, opt) ∷ options) = (opt.loc, record { name = name; value = opt }) ∷ pivoted options

  unpivot_onto-new :
      (result : Dict String (Described J)) (name : String) (opt : Described J) (options : Options J)
      → lookup name result ≡ none
      → unpivot_onto result ((opt.loc, record { name = name; value = opt }) ∷ options)
        ≡ unpivot_onto (insert name opt result) options
  unfolding unpivot_onto
  unpivot_onto-new result name opt options h = rw (h, unpivot_onto)

  unpivot_onto-pivoted :
      (result options : Dict String (Described J))
      → NodupKeys (result ++ options)
      → unpivot_onto result (pivoted options) ≡ ok (result ++ options)
  unfolding pivoted unpivot_onto
  unpivot_onto-pivoted result [] h = ap ok (sym (append-nil result))
  unpivot_onto-pivoted result ((name, opt) ∷ options) h =
      let fresh = NodupKeys-before name opt result options h in
      let same = append_assoc result ((name, opt) ∷ []) options in
      unpivot_onto-new result name opt (pivoted options) fresh
      ∙ ap (λ r. unpivot_onto r (pivoted options)) (insert-new name opt result fresh)
      ∙ unpivot_onto-pivoted (result ++ (name, opt) ∷ []) options (rw same h)
      ∙ ap ok same

  module _ ⦃path_eq : Eq (List String)⦄ where
    pivot_onto-pivoted :
        (result : Options J) (options : Dict String (Described J))
        → NodupKeys (result ++ pivoted options)
        → pivot_onto result options ≡ result ++ pivoted options
    unfolding pivot_onto pivoted
    pivot_onto-pivoted result [] h = sym (append-nil result)
    pivot_onto-pivoted result ((name, opt) ∷ options) h =
        let named : Named J = record { name = name; value = opt } in
        let fresh = NodupKeys-before opt.loc named result (pivoted options) h in
        let same = append_assoc result ((opt.loc, named) ∷ []) (pivoted options) in
        rw (insert-new opt.loc named result fresh)
          (pivot_onto-pivoted (result ++ (opt.loc, named) ∷ []) options (rw same h) ∙ same)

    -- When the options of a file have different names and different paths, `unpivot` gives back, in
    -- the same order, the file that `pivot` has been applied to.
    pub unpivot-pivot :
        (options : Dict String (Described J))
        → NodupKeys options
        → NodupKeys (pivoted options)
        → unpivot (pivot options) ≡ ok options
    unfolding unpivot pivot
    unpivot-pivot options names paths =
        ap (unpivot_onto []) (pivot_onto-pivoted [] options paths)
        ∙ unpivot_onto-pivoted [] options names
