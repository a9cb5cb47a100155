-- ===== src/TestDriver/Qmp/Order.antt =====
-- The session loses no message and keeps the order of the events.
use nixpkgs_llvm_ws.Base.{
  ℕ, zero, suc, String, List, [], ◌∷◌, ◌++◌, ◌≡◌, ◌∙◌, ap, refl, sym, Bool, not, ◌&&◌,
  if◌then◌else◌, Option, none, some, ◌==◌, string_eq, arith,
}
use nixpkgs_llvm_ws.Base.{ok, ◌>>◌, >>=-eq-ok}
use mathlib.Core.List.{append-nil, append_assoc}
use nixpkgs_llvm_ws.Base.Lists.{length}
use nixpkgs_llvm_ws.TestDriver.Qmp.{
  Message, Session, is_result, file, read_pending_messages, await_result, missed,
  wait_for_new_result,
}

module _ (loads : String → Option Message) where
  -- The messages of a list of lines that a test selects, in their order.
  pub selected : (Message → Bool) → List String → List Message
  selected p [] = []
  selected p (line ∷ lines) =
      let rest = selected p lines in
      if line == ""
      then rest
      else elim (loads line) [ none ↦ rest | some m ↦ if p m then m ∷ rest else rest ]

  abbrev is_event : Message → Bool
  is_event m = not (is_result m) && m.event

  -- What a session has read on the way from `s` to `u`: the queues have grown by what the lines
  -- held, and `taken` has left the queue of the results.
  pub record Read (lines : List String) (taken : List Message) (s u : Session) : Type 0 where
    pub incoming : s.incoming ≡ lines ++ u.incoming
    pub pending_events : u.pending_events ≡ s.pending_events ++ selected is_event lines
    pub results : s.results ++ selected is_result lines ≡ taken ++ u.results

  -- One line, as the queues see it.
  line-Read :
      (line : String) (s u : Session)
      → read_pending_messages loads (record s { incoming = line ∷ s.incoming }) ≡ (ok tt, u)
      → (u.incoming ≡ s.incoming)
        × (u.pending_events ≡ s.pending_events ++ selected is_event (line ∷ []))
        × (u.results ≡ s.results ++ selected is_result (line ∷ []))
  unfolding read_pending_messages file selected
  line-Read line s u h =
      let idle = append-nil s.pending_events in let empty = append-nil s.results in ground arith

  selected-append :
      (p : Message → Bool) (xs ys : List String)
      → selected p (xs ++ ys) ≡ selected p xs ++ selected p ys
  unfolding selected
  selected-append p [] ys = refl
  selected-append p (x ∷ xs) ys = ground (arith, selected-append p xs ys)

  none-IsRead : (s : Session) → s.incoming ≡ [] → read_pending_messages loads s ≡ (ok tt, s)
  unfolding read_pending_messages
  none-IsRead s e = rw e

  Read-none : (s : Session) → Read [] [] s s
  unfolding selected
  Read-none s = record {
    incoming = refl;
    pending_events = sym (append-nil s.pending_events);
    results = append-nil s.results;
  }

  Read-trans :
      (xs ys : List String) (taken : List Message) (s t u : Session)
      → Read xs [] s t
      → Read ys taken t u
      → Read (xs ++ ys) taken s u
  Read-trans xs ys taken s t u a b = record {
    incoming = a.incoming ∙ ap (λ x. xs ++ x) b.incoming ∙ sym (append_assoc xs ys u.incoming);
    pending_events =
        b.pending_events
        ∙ ap (λ x. x ++ selected is_event ys) a.pending_events
        ∙ append_assoc s.pending_events (selected is_event xs) (selected is_event ys)
        ∙ ap (λ x. s.pending_events ++ x) (sym (selected-append is_event xs ys));
    results =
        ap (λ x. s.results ++ x) (selected-append is_result xs ys)
        ∙ sym (append_assoc s.results (selected is_result xs) (selected is_result ys))
        ∙ ap (λ x. x ++ selected is_result ys) a.results
        ∙ b.results;
  }

  read_pending_messages-Read :
      (incoming : List String) (s u : Session)
      → s.incoming ≡ incoming
      → read_pending_messages loads s ≡ (ok tt, u)
      → (lines : List String) × Read lines [] s u
  read_pending_messages-Read [] s u e h =
      ([], rw (ap {B = Session} (λ x. x.1) (sym (none-IsRead s e) ∙ h)) (Read-none u))
  read_pending_messages-Read (line ∷ lines) s u e h =
      let s' = record s { incoming = lines } in
      let (left, pending, results) =
        line-Read line s' u
          (sym (ap (λ i. read_pending_messages loads (record s { incoming = i })) e) ∙ h) in
      (
        line ∷ [],
        record {
          incoming = e ∙ ap (λ i. line ∷ i) (sym left);
          pending_events = pending;
          results = sym results;
        },
      )

  await_result-waiting :
      (fuel : ℕ) (s : Session)
      → s.results ≡ []
      → await_result loads (suc fuel) s ≡ (read_pending_messages loads >> await_result loads fuel) s
  unfolding await_result
  await_result-waiting fuel s e = rw e

  popped-Read :
      (fuel : ℕ) (q : Message) (qs : List Message) (s u : Session) (r : Message)
      → s.results ≡ q ∷ qs
      → await_result loads fuel s ≡ (ok r, u)
      → Read [] (r ∷ []) s u
  unfolding await_result selected
  popped-Read zero q qs s u r e h =
      let idle = append-nil s.pending_events in let kept = append-nil s.results in ground arith
  popped-Read (suc fuel) q qs s u r e h =
      let idle = append-nil s.pending_events in let kept = append-nil s.results in ground arith

  stuck-Read :
      (s u : Session) (r : Message)
      → s.results ≡ []
      → await_result loads zero s ≡ (ok r, u)
      → Read [] (r ∷ []) s u
  unfolding await_result
  stuck-Read s u r e h = ground arith

  await_result-Read :
      (fuel : ℕ) (queue : List Message) (s u : Session) (r : Message)
      → s.results ≡ queue
      → await_result loads fuel s ≡ (ok r, u)
      → (lines : List String) × Read lines (r ∷ []) s u
  await_result-Read fuel (q ∷ qs) s u r e h = ([], popped-Read fuel q qs s u r e h)
  await_result-Read zero [] s u r e h = ([], stuck-Read s u r e h)
  await_result-Read (suc fuel) [] s u r e h =
      let (_, t, first, rest) =
        >>=-eq-ok (read_pending_messages loads) (λ _. await_result loads fuel) s
          (sym (await_result-waiting fuel s e) ∙ h) in
      let (xs, a) = read_pending_messages-Read s.incoming s t refl first in
      let (ys, b) = await_result-Read fuel t.results t u r refl rest in
      (xs ++ ys, Read-trans xs ys (r ∷ []) s t u a b)

  missed-eq : (s t : Session) → missed s ≡ (ok tt, t) → (s.results ≡ []) × (s ≡ t)
  unfolding missed
  missed-eq s t h = ground arith

  -- When `_wait_for_new_result` returns a message, the queue of results was empty, and the call has
  -- read a first part of the incoming lines: their results, in order, are this message and what the
  -- queue of results then holds, and their events stand in order behind those pending before.
  pub wait_for_new_result-Read :
      (s u : Session) (r : Message)
      → wait_for_new_result loads s ≡ (ok r, u)
      → (s.results ≡ []) × ((lines : List String) × Read lines (r ∷ []) s u)
  unfolding wait_for_new_result missed
  wait_for_new_result-Read s u r h =
      let (_, t, checked, waited) =
        >>=-eq-ok missed (λ _ s. await_result loads (length s.incoming) s) s h in
      let (empty, same) = missed-eq s t checked in
      (empty, rw same (await_result-Read (length t.incoming) t.results t u r refl waited))
