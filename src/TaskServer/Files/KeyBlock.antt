-- ===== src/TaskServer/Files/KeyBlock.antt =====
-- What `getkey` cuts out of a key file.
use mathlib.Core.List.{append_assoc}
use nixpkgs_llvm_ws.Base.{
  String, List, [], ◌∷◌, ◌++◌, true, false, some, ◌≡◌, refl, ◌∙◌, ap, ◌↔◌, inl, inr,
}
use nixpkgs_llvm_ws.Base.{arith, Bool-cases}
use nixpkgs_llvm_ws.Base.Lists.{All}
use nixpkgs_llvm_ws.TaskServer.Files.{is_key_line, concat, getkey_loop}

-- The first line that begins a key, and what follows up to the first line behind it that ends one.
pub record IsBlock (lines : List String) (block : List String) : Type 0 where
  pub before : List String
  pub first : String
  pub middle : List String
  pub last : String
  pub after : List String
  pub split : lines ≡ before ++ (first ∷ (middle ++ (last ∷ after)))
  pub before_lem : All (λ l. is_key_line l "BEGIN" ≡ false) before
  pub first_lem : is_key_line first "BEGIN" ≡ true
  pub middle_lem : All (λ l. is_key_line l "END" ≡ false) middle
  pub last_lem : is_key_line last "END" ≡ true
  pub block_lem : block ≡ first ∷ (middle ++ (last ∷ []))

-- The lines up to the first that ends a key.
record IsRest (lines : List String) (kept : List String) (key : String) : Type 0 where
  middle : List String
  last : String
  after : List String
  split : lines ≡ middle ++ (last ∷ after)
  middle_lem : All (λ l. is_key_line l "END" ≡ false) middle
  last_lem : is_key_line last "END" ≡ true
  key_lem : key ≡ concat (kept ++ (middle ++ (last ∷ [])))

getkey_loop-IsRest :
    (lines : List String) (b : String) (kept : List String) (key : String)
    → getkey_loop lines (b ∷ kept) ≡ some key
    → IsRest lines (b ∷ kept) key
unfolding getkey_loop
getkey_loop-IsRest [] b kept key h = cc
getkey_loop-IsRest (line ∷ lines) b kept key h = elim (Bool-cases (is_key_line line "END")) [
  | inl ends ↦ record {
    middle = [];
    last = line;
    after = lines;
    split = refl;
    middle_lem = tt;
    last_lem = ends;
    key_lem = ground arith;
  }
  | inr more ↦
      let r = getkey_loop-IsRest lines b (kept ++ (line ∷ [])) key (ground arith) in
      record {
        middle = line ∷ r.middle;
        last = r.last;
        after = r.after;
        split = ap (λ l. line ∷ l) r.split;
        middle_lem = (more, r.middle_lem);
        last_lem = r.last_lem;
        key_lem = r.key_lem ∙ ap (λ l. concat (b ∷ l)) (append_assoc kept (line ∷ []) _);
      }
]

getkey_loop-IsBlock :
    (lines : List String) (key : String)
    → getkey_loop lines [] ≡ some key
    → (block : List String) × IsBlock lines block × (key ≡ concat block)
unfolding getkey_loop
getkey_loop-IsBlock [] key h = cc
getkey_loop-IsBlock (line ∷ lines) key h = elim (Bool-cases (is_key_line line "BEGIN")) [
  | inl begins ↦
      let r = getkey_loop-IsRest lines line [] key (ground arith) in
      (
        line ∷ (r.middle ++ (r.last ∷ [])),
        record {
          before = [];
          first = line;
          middle = r.middle;
          last = r.last;
          after = r.after;
          split = ap (λ l. line ∷ l) r.split;
          before_lem = tt;
          first_lem = begins;
          middle_lem = r.middle_lem;
          last_lem = r.last_lem;
          block_lem = refl;
        },
        r.key_lem,
      )
  | inr other ↦
      let (block, b, e) = getkey_loop-IsBlock lines key (ground arith) in
      (
        block,
        record {
          before = line ∷ b.before;
          first = b.first;
          middle = b.middle;
          last = b.last;
          after = b.after;
          split = ap (λ l. line ∷ l) b.split;
          before_lem = (other, b.before_lem);
          first_lem = b.first_lem;
          middle_lem = b.middle_lem;
          last_lem = b.last_lem;
          block_lem = b.block_lem;
        },
        e,
      )
]

getkey_loop_kept :
    (b : String) (kept middle : List String) (last : String) (after : List String)
    → All (λ l. is_key_line l "END" ≡ false) middle
    → is_key_line last "END" ≡ true
    → getkey_loop (middle ++ (last ∷ after)) (b ∷ kept)
      ≡ some (concat (b ∷ (kept ++ (middle ++ (last ∷ [])))))
unfolding getkey_loop
getkey_loop_kept b kept [] last after m e = rw e refl
getkey_loop_kept b kept (line ∷ middle) last after (m, ms) e = rw m (
    getkey_loop_kept b (kept ++ (line ∷ [])) middle last after ms e
    ∙ ap (λ l. some (concat (b ∷ l))) (append_assoc kept (line ∷ []) _))

getkey_loop_found :
    (before : List String) (first : String) (middle : List String) (last : String)
    (after : List String)
    → All (λ l. is_key_line l "BEGIN" ≡ false) before
    → is_key_line first "BEGIN" ≡ true
    → All (λ l. is_key_line l "END" ≡ false) middle
    → is_key_line last "END" ≡ true
    → getkey_loop (before ++ (first ∷ (middle ++ (last ∷ after)))) []
      ≡ some (concat (first ∷ (middle ++ (last ∷ []))))
unfolding getkey_loop
getkey_loop_found [] first middle last after b f m l =
    rw (f, getkey_loop) (getkey_loop_kept first [] middle last after m l)
getkey_loop_found (line ∷ before) first middle last after (b, bs) f m l =
    rw (b, getkey_loop) (getkey_loop_found before first middle last after bs f m l)

-- `getkey` returns a text just when the lines hold a block, from the first line that begins a key
-- to the first line behind it that ends one, of which it is the text.
pub getkey_loop_iff :
    (lines : List String) (key : String)
    → (getkey_loop lines [] ≡ some key)
      ↔ ((block : List String) × IsBlock lines block × (key ≡ concat block))
getkey_loop_iff lines key = (
  getkey_loop-IsBlock lines key,
  λ (block, b, e).
      rw (b.split, e, b.block_lem)
        (getkey_loop_found b.before b.first b.middle b.last b.after b.before_lem b.first_lem
          b.middle_lem b.last_lem),
)
