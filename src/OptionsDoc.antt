-- ===== src/OptionsDoc.antt =====
-- nixos/lib/make-options-doc/mergeJSON.py: the descriptions of the options of nixpkgs are merged with
-- those of a configuration. `J` stands for the JSON values that the program only copies.
pub mod Pivot
pub mod Merge
use nixpkgs_llvm_ws.Base.{
  String, ◌<>◌, List, [], ◌∷◌, ◌++◌, Bool, true, false, not, ◌&&◌, ◌||◌, if◌then◌else◌, Option,
  none, some, map, contains, ◌==◌, string_eq, Eq, Result, ok, err,
}
use nixpkgs_llvm_ws.Base.Dict.{Dict, lookup, insert}

pub data Declaration {ℓ} (J : Type ℓ) : Type ℓ where
  path : String → Declaration J
  link : J → Declaration J

pub data Value {ℓ} (J : Type ℓ) : Type ℓ where
  null : Value J
  text : String → Value J
  declarations : List (Declaration J) → Value J
  other : J → Value J

abbrev pub Attrs {ℓ} : Type ℓ → Type ℓ
Attrs J = Dict String (Value J)

-- An option's entry: `loc`, and its other attributes.
pub record Described {ℓ} (J : Type ℓ) : Type ℓ where
  pub loc : List String
  pub attrs : Attrs J

-- `Option`
pub record Named {ℓ} (J : Type ℓ) : Type ℓ where
  pub name : String
  pub value : Described J

-- `Key` is equal by its path.
abbrev pub Options {ℓ} : Type ℓ → Type ℓ
Options J = Dict (List String) (Named J)

pub data Error : Type 0 where
  colliding : String → Error
  missing : String → Error
  malformed : Error

module _ {ℓ} {J : Type ℓ} ⦃path_eq : Eq (List String)⦄ where
  -- The loops of `pivot` and `unpivot`, from the result so far.
  unfoldable pub pivot_onto : Options J → Dict String (Described J) → Options J
  unfolding insert
  pivot_onto result [] = result
  pivot_onto result ((name, opt) ∷ options) =
      pivot_onto (insert opt.loc (record { name = name; value = opt }) result) options

  unfoldable pub pivot : Dict String (Described J) → Options J
  unfolding pivot_onto
  pivot options = pivot_onto [] options

module _ {ℓ} {J : Type ℓ} where
  unfoldable pub unpivot_onto :
      Dict String (Described J) → Options J → Result Error (Dict String (Described J))
  unfolding insert lookup string_eq
  unpivot_onto result [] = ok result
  unpivot_onto result ((key, opt) ∷ options) = elim (lookup opt.name result) [
    | some _ ↦ err (colliding opt.name)
    | none ↦ unpivot_onto (insert opt.name opt.value result) options
  ]

  unfoldable pub unpivot : Options J → Result Error (Dict String (Described J))
  unfolding unpivot_onto
  unpivot options = unpivot_onto [] options

  -- `f'nixos/modules/{s}' if isinstance(s, str) else s`
  unfoldable pub fixed_path : Declaration J → Declaration J
  fixed_path (path s) = path ("nixos/modules/" <> s)
  fixed_path (link j) = link j

  -- The declarations of a lazy option.
  unfoldable pub fix_up : Described J → Result Error (Described J)
  unfolding fixed_path lookup insert string_eq
  fix_up opt = elim opt.loc [
    | [] ↦ err malformed
    | first ∷ _ ↦ if first == "_module" then ok opt else elim (lookup "declarations" opt.attrs) [
      | none ↦ err (missing "declarations")
      | some v ↦ elim v [
        | declarations ds ↦ ok (record opt {
          attrs = insert "declarations" (declarations (map fixed_path ds)) opt.attrs;
        })
        | null ↦ err malformed
        | text _ ↦ err malformed
        | other _ ↦ err malformed
      ]
    ]
  ]

  unfoldable pub is_unspecified : Value J → Bool
  unfolding string_eq
  is_unspecified null = false
  is_unspecified (text t) = t == "_unspecified"
  is_unspecified (declarations ds) = false
  is_unspecified (other j) = false

  -- `x.get(k, None) is None`
  unfoldable pub is_null : Option (Value J) → Bool
  is_null none = true
  is_null (some null) = true
  is_null (some (text _)) = false
  is_null (some (declarations _)) = false
  is_null (some (other _)) = false

module _ {ℓ} {J : Type ℓ} ⦃declaration_eq : Eq (Declaration J)⦄ where
  -- `for d in ov: if d not in decls: decls += [d]`
  unfoldable pub add_declarations :
      List (Declaration J) → List (Declaration J) → List (Declaration J)
  add_declarations decls [] = decls
  add_declarations decls (d ∷ ds) =
      add_declarations (if contains decls d then decls else decls ++ d ∷ []) ds

  -- One attribute of an override.
  unfoldable pub merge_attr : Attrs J → String → Value J → Result Error (Attrs J)
  unfolding add_declarations is_unspecified is_null lookup insert string_eq
  merge_attr cur key value =
      if key == "declarations"
      then (elim (lookup key cur) [
        | none ↦ err (missing key)
        | some old ↦ elim old [
          | declarations decls ↦ elim value [
            | declarations ds ↦ ok (insert key (declarations (add_declarations decls ds)) cur)
            | null ↦ err malformed
            | text _ ↦ err malformed
            | other _ ↦ err malformed
          ]
          | null ↦ err malformed
          | text _ ↦ err malformed
          | other _ ↦ err malformed
        ]
      ])
      else if key == "type"
      then (if not (is_unspecified value)
          then ok (insert key value cur)
          else elim (lookup key cur) [
            | none ↦ err (missing key)
            | some old ↦ if is_unspecified old then ok (insert key value cur) else ok cur
          ])
      else if not (is_null (some value)) || is_null (lookup key cur)
      then ok (insert key value cur)
      else ok cur

  -- The attributes of an override, in order.
  unfoldable pub merge_attrs : Attrs J → Attrs J → Result Error (Attrs J)
  unfolding merge_attr
  merge_attrs cur [] = ok cur
  merge_attrs cur ((key, value) ∷ override) = elim (merge_attr cur key value) [
    | err e ↦ err e
    | ok next ↦ merge_attrs next override
  ]

module _ {ℓ} {J : Type ℓ} ⦃path_eq : Eq (List String)⦄ ⦃declaration_eq : Eq (Declaration J)⦄ where
  -- An override is merged into `options.setdefault(k, v)`, which is `v` itself when `k` is new.
  unfoldable pub merge_option : Options J → List String → Named J → Result Error (Options J)
  unfolding merge_attrs lookup insert
  merge_option options k v = elim (lookup k options) [
    | none ↦ elim (merge_attrs v.value.attrs v.value.attrs) [
      | err e ↦ err e
      | ok attrs ↦ ok (insert k (record v { value = record v.value { attrs = attrs } }) options)
    ]
    | some cur ↦ elim (merge_attrs cur.value.attrs v.value.attrs) [
      | err e ↦ err e
      | ok attrs ↦ ok (insert k (record cur { value = record cur.value { attrs = attrs } }) options)
    ]
  ]

  unfoldable pub merge_options : Options J → Options J → Result Error (Options J)
  unfolding merge_option
  merge_options options [] = ok options
  merge_options options ((k, v) ∷ overrides) = elim (merge_option options k v) [
    | err e ↦ err e
    | ok next ↦ merge_options next overrides
  ]

module _ {ℓ} {J : Type ℓ} where
  -- `opt.get('type', "unspecified") == "unspecified"`
  unfoldable pub has_no_type : Option (Value J) → Bool
  unfolding string_eq
  has_no_type none = true
  has_no_type (some null) = false
  has_no_type (some (text t)) = t == "unspecified"
  has_no_type (some (declarations ds)) = false
  has_no_type (some (other j)) = false

  -- The check of one option: it gets a description, and the answer says whether there were warnings.
  unfoldable pub checked : Described J → Described J × Bool
  unfolding lookup insert string_eq is_null has_no_type
  checked opt =
      let undescribed = is_null (lookup "description" opt.attrs) in
      let untyped = has_no_type (lookup "type" opt.attrs) in
      (
        (if undescribed
            then record opt {
              attrs = insert "description" (text "This option has no description.") opt.attrs;
            }
            else opt),
        undescribed || untyped,
      )

  unfoldable pub check_all : Options J → Options J × Bool
  unfolding checked
  check_all [] = ([], false)
  check_all ((k, v) ∷ options) =
      let (described, warned) = checked v.value in
      let (rest, others) = check_all options in
      ((k, record v { value = described }) ∷ rest, warned || others)
