-- ===== src/TestDriver/Logger/Xml/Closed.antt =====
-- The elements of the document that a logger writes: each is closed, in the right order.
use mathlib.Core.List.{append-nil, append_assoc}
use nixpkgs_llvm_ws.Base.{
  ℕ, ◌-◌, String, ◌<>◌, List, [], ◌∷◌, ◌++◌, ◌≡◌, ◌∙◌, refl, sym, ap, Bool, true, false, ◌&&◌, ◌==◌,
  ==-self, string_eq, arith,
}
use nixpkgs_llvm_ws.Base.{Action, ok, >>=-ok}
use nixpkgs_llvm_ws.TestDriver.Errors.{Error}
use nixpkgs_llvm_ws.TestDriver.Logger.{Attributes, within-ok}
use nixpkgs_llvm_ws.TestDriver.Logger.Script.{Step, Steps, nil, cons, run_step, run_steps}
use nixpkgs_llvm_ws.TestDriver.Logger.Xml.{
  Xml, start_element, characters, end_element, Item, State, new_logger, emit, close, line, drained,
  drain_log_queue, log, log_serial, head, leave_nested, nested, subtest, xml_logger,
}

-- Whether the calls close the elements that are open, innermost first, and those that they open.
pub closes : List Xml → List String → Bool
closes [] [] = true
closes [] (name ∷ names) = false
closes (start_element name attributes ∷ xs) names = closes xs (name ∷ names)
closes (characters text ∷ xs) names = closes xs names
closes (end_element name ∷ xs) [] = false
closes (end_element name ∷ xs) (open_name ∷ names) = name == open_name && closes xs names

-- Calls that close just what they open.
pub IsClosed : List Xml → Type 0
IsClosed xs =
    (rest : List Xml) (names : List String) → closes (xs ++ rest) names ≡ closes rest names

append-IsClosed : (xs ys : List Xml) → IsClosed xs → IsClosed ys → IsClosed (xs ++ ys)
unfolding IsClosed
append-IsClosed xs ys h k rest names =
    ap (λ zs. closes zs names) (append_assoc xs ys rest) ∙ h (ys ++ rest) names ∙ k rest names

nil-IsClosed : IsClosed []
unfolding IsClosed
nil-IsClosed rest names = refl

line-IsClosed : (message : String) (attributes : Attributes) → IsClosed (line message attributes)
unfolding IsClosed line closes
line-IsClosed message attributes rest names =
    ap (λ b. b && closes rest names) (==-self {A = String} "line")

drained-IsClosed :
    (is_control : ℕ → Bool) (two_decimals : ℕ → String) (queue : List Item)
    → IsClosed (drained is_control two_decimals queue)
unfolding drained
drained-IsClosed is_control two_decimals [] = nil-IsClosed
drained-IsClosed is_control two_decimals (item ∷ queue) =
    append-IsClosed _ _ (line-IsClosed _ item.attributes)
      (drained-IsClosed is_control two_decimals queue)

-- An element around closed calls.
element-IsClosed :
    (xs : List Xml)
    → IsClosed xs
    → IsClosed (start_element "nest" [] ∷ (xs ++ end_element "nest" ∷ []))
unfolding IsClosed closes
element-IsClosed xs h rest names =
    ap (λ zs. closes zs ("nest" ∷ names)) (append_assoc xs (end_element "nest" ∷ []) rest)
    ∙ h (end_element "nest" ∷ rest) ("nest" ∷ names)
    ∙ ap (λ b. b && closes rest names) (==-self {A = String} "nest")

head_text : String → Attributes → List Xml
head_text message attributes =
    start_element "head" attributes ∷ characters message ∷ end_element "head" ∷ []

head_text-IsClosed :
    (message : String) (attributes : Attributes) → IsClosed (head_text message attributes)
unfolding IsClosed closes head_text
head_text-IsClosed message attributes rest names =
    ap (λ b. b && closes rest names) (==-self {A = String} "head")

-- How a call extends the document.
pub Extends : State → State → Type 0
Extends s t = (xs : List Xml) × (t.xml ≡ s.xml ++ xs) × IsClosed xs

Extends-none : (s t : State) → t.xml ≡ s.xml → Extends s t
unfolding Extends
Extends-none s t e = ([], e ∙ sym (append-nil s.xml), nil-IsClosed)

Extends-trans : (s t u : State) → Extends s t → Extends t u → Extends s u
unfolding Extends
Extends-trans s t u (xs, e, h) (ys, f, k) =
    (xs ++ ys, f ∙ ap (λ zs. zs ++ ys) e ∙ append_assoc s.xml xs ys, append-IsClosed xs ys h k)

emit-Extends : (xs : List Xml) (s : State) → IsClosed xs → Extends s (emit xs s)
unfolding Extends
emit-Extends xs s h = (xs, refl, h)

-- The element that a context opens and closes.
opened : State → State
opened s = emit (start_element "nest" [] ∷ []) s

nest-Extends : (s v : State) → Extends (opened s) v → Extends s (emit (end_element "nest" ∷ []) v)
unfolding opened Extends
nest-Extends s v (xs, e, h) = (
  start_element "nest" [] ∷ (xs ++ end_element "nest" ∷ []),
  ap (λ zs. zs ++ end_element "nest" ∷ []) e
      ∙ append_assoc (s.xml ++ start_element "nest" [] ∷ []) xs (end_element "nest" ∷ [])
      ∙ append_assoc s.xml (start_element "nest" [] ∷ []) (xs ++ end_element "nest" ∷ []),
  element-IsClosed xs h,
)

module _ (is_control : ℕ → Bool) (two_decimals : ℕ → String) where
  drain_log_queue-Extends : (s : State) → Extends s (drain_log_queue is_control two_decimals s)
  unfolding drain_log_queue Extends
  drain_log_queue-Extends s = (
    drained is_control two_decimals s.queue,
    refl,
    drained-IsClosed is_control two_decimals s.queue,
  )

  log-Extends :
      (message : String) (attributes : Attributes) (s : State)
      → Extends s (log is_control two_decimals message attributes s)
  unfolding log
  log-Extends message attributes s =
      let t = drain_log_queue is_control two_decimals s in
      Extends-trans s t (emit (line message attributes) t) (drain_log_queue-Extends s)
        (emit-Extends (line message attributes) t (line-IsClosed message attributes))

  log_serial-Extends :
      (message machine : String) (s : State)
      → Extends s (log_serial is_control two_decimals message machine s)
  unfolding log_serial
  log_serial-Extends message machine s = Extends-none _ _ (ground arith)

  head-Extends :
      (message : String) (attributes : Attributes) (s : State)
      → Extends (opened s) (emit (head is_control two_decimals message attributes) s)
  unfolding opened Extends head head_text
  head-Extends message attributes s = (
    head_text message attributes,
    sym (append_assoc s.xml (start_element "nest" [] ∷ []) (head_text message attributes)),
    head_text-IsClosed message attributes,
  )

  entered : String → State → State
  entered message s =
      drain_log_queue is_control two_decimals (emit (head is_control two_decimals message []) s)

  -- A context around a body that extends the document.
  leave_nested-Extends :
      (message : String) (tic : ℕ) (s u : State)
      → Extends (entered message s) u
      → Extends s (leave_nested is_control two_decimals message tic u)
  unfolding leave_nested entered
  leave_nested-Extends message tic s u body =
      let h = emit (head is_control two_decimals message []) s in
      let d = drain_log_queue is_control two_decimals u in
      let text = "(finished: " <> message <> ", in " <> two_decimals (u.now - tic) <> " seconds)" in
      let v = log is_control two_decimals text [] d in
      nest-Extends s v (
        Extends-trans (opened s) u v
          (Extends-trans (opened s) (entered message s) u
            (Extends-trans (opened s) h (entered message s) (head-Extends message [] s)
              (drain_log_queue-Extends h))
            body)
          (Extends-trans u d v (drain_log_queue-Extends u) (log-Extends text [] d)))

  abbrev Writes : Action State Error (Unit {0}) → State → Type 0
  Writes f s = (t : State) × (f s ≡ (ok tt, t)) × Extends s t

  mutual
    unfolding run_step run_steps nested subtest xml_logger entered

    run_step-Extends :
        (step : Step) (s : State) → Writes (run_step (xml_logger is_control two_decimals) step) s
    run_step-Extends (Step.logs message) s =
        (log is_control two_decimals message [] s, refl, log-Extends message [] s)
    run_step-Extends (Step.warns message) s =
        (log is_control two_decimals message [] s, refl, log-Extends message [] s)
    run_step-Extends (Step.errs message) s =
        (log is_control two_decimals message [] s, refl, log-Extends message [] s)
    run_step-Extends (Step.prints message machine) s = (
      log_serial is_control two_decimals message machine s,
      refl,
      log_serial-Extends message machine s,
    )
    run_step-Extends (Step.shows_serial enable) s = (
      record s { print_serial_logs = enable },
      refl,
      Extends-none s (record s { print_serial_logs = enable }) refl,
    )
    run_step-Extends (Step.in_subtest name steps) s =
        let (u, ran, body) = run_steps-Extends steps (entered ("subtest: " <> name) s) in
        (
          leave_nested is_control two_decimals ("subtest: " <> name) s.now u,
          within-ok (subtest is_control two_decimals name [])
              (run_steps (xml_logger is_control two_decimals) steps) s refl ran refl,
          leave_nested-Extends ("subtest: " <> name) s.now s u body,
        )
    run_step-Extends (Step.in_nested message steps) s =
        let (u, ran, body) = run_steps-Extends steps (entered message s) in
        (
          leave_nested is_control two_decimals message s.now u,
          within-ok (nested is_control two_decimals message [])
              (run_steps (xml_logger is_control two_decimals) steps) s refl ran refl,
          leave_nested-Extends message s.now s u body,
        )

    run_steps-Extends :
        (steps : Steps) (s : State)
        → Writes (run_steps (xml_logger is_control two_decimals) steps) s
    run_steps-Extends nil s = (s, refl, Extends-none s s refl)
    run_steps-Extends (cons step steps) s =
        let (t, ran, first) = run_step-Extends step s in
        let (u, rest, more) = run_steps-Extends steps t in
        (
          u,
          >>=-ok (run_step (xml_logger is_control two_decimals) step)
                (λ _. run_steps (xml_logger is_control two_decimals) steps) s ran
              ∙ rest,
          Extends-trans s t u first more,
        )

  -- A test script that only logs, so that nothing in it raises, runs to its end on a new logger. In the
  -- document that is then closed the elements are balanced: each is closed, innermost first, and
  -- nothing else is. The characters of the texts are not looked at.
  pub close-closes :
      (steps : Steps) (now : ℕ)
      → (t : State) × (run_steps (xml_logger is_control two_decimals) steps (new_logger now)
          ≡ (ok tt, t))
        × (closes (close t).xml [] ≡ true)
  unfolding new_logger close closes Extends IsClosed
  close-closes steps now =
      let (t, ran, (xs, e, h)) = run_steps-Extends steps (new_logger now) in
      (
        t,
        ran,
        ap (λ zs. closes (zs ++ end_element "logfile" ∷ []) []) e
            ∙ h (end_element "logfile" ∷ []) ("logfile" ∷ [])
            ∙ ap (λ b. b && true) (==-self {A = String} "logfile"),
      )
