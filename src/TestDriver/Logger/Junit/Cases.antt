-- ===== src/TestDriver/Logger/Junit/Cases.antt =====
-- How the calls of `JunitXMLLogger` change what it holds for each name.
use text.Mathlib.TextLemmas.{append-nil, append_assoc}
use nixpkgs_llvm_ws.Base.{
  ==-self, String, ◌<>◌, ◌≡◌, refl, ◌∙◌, sym, ap, Bool, true, false, ◌||◌, ◌&&◌, if◌then◌else◌,
  none, some, ◌==◌, string_eq, arith,
}
use nixpkgs_llvm_ws.Base.{ok}
use nixpkgs_llvm_ws.Base.Dict.{lookup, insert, lookup-insert}
use nixpkgs_llvm_ws.TestDriver.Logger.Junit.{
  TestCaseState, new_case, State, on_case, to_stdout, to_stderr, log, with_case,
}

-- What the logger holds for a name. A name without a case stands for an empty one.
abbrev pub case_of : String → State → TestCaseState
case_of k s = elim (lookup k s.tests) [ none ↦ new_case | some c ↦ c ]

abbrev pub has_case : String → State → Bool
has_case k s = elim (lookup k s.tests) [ none ↦ false | some _ ↦ true ]

abbrev pub line_if : Bool → String → String
line_if here message = if here then message <> "\n" else ""

-- How a call changes the logger: by the output of each case, and by the cases that fail.
pub record Attributed (shown : Bool) (output : String → String) (fails : String → Bool)
    (s t : State) : Type 0 where
  pub current : t.current_subtest ≡ s.current_subtest
  pub serial : t.print_serial_logs ≡ shown
  pub known : (k : String) → has_case k s ≡ true → has_case k t ≡ true
  pub stdout : (k : String) → (case_of k t).stdout ≡ (case_of k s).stdout <> output k
  pub failure : (k : String) → (case_of k t).failure ≡ ((case_of k s).failure || fails k)

-- A known case is replaced, and the others stay.
abbrev pub updated : (TestCaseState → TestCaseState) → State → State
updated f s = record s {
  tests = insert s.current_subtest (f (case_of s.current_subtest s)) s.tests;
}

pub on_case-updated :
    (f : TestCaseState → TestCaseState) (s : State)
    → has_case s.current_subtest s ≡ true
    → on_case f s ≡ (ok tt, updated f s)
unfolding on_case
on_case-updated f s known = ground arith

pub case_of-updated :
    (k : String) (f : TestCaseState → TestCaseState) (s : State)
    → case_of k (updated f s)
      ≡ (if k == s.current_subtest then f (case_of s.current_subtest s) else case_of k s)
case_of-updated k f s =
    let e = lookup-insert k s.current_subtest (f (case_of s.current_subtest s)) s.tests in
    ground arith

pub has_case-updated :
    (k : String) (f : TestCaseState → TestCaseState) (s : State)
    → has_case k s ≡ true
    → has_case k (updated f s) ≡ true
has_case-updated k f s known =
    let e = lookup-insert k s.current_subtest (f (case_of s.current_subtest s)) s.tests in
    ground arith

pub written-Attributed :
    (message : String) (s : State)
    → Attributed s.print_serial_logs
        (λ k. line_if (k == s.current_subtest) message)
        (λ k. false)
        s
        (updated (to_stdout message) s)
written-Attributed message s = record {
  current = refl;
  serial = refl;
  known = λ k. has_case-updated k (to_stdout message) s;
  stdout = λ k.
      let e = case_of-updated k (to_stdout message) s in
      let idle = append-nil (case_of k s).stdout in ground arith;
  failure = λ k. let e = case_of-updated k (to_stdout message) s in ground arith;
}

pub failed-Attributed :
    (message : String) (s : State)
    → Attributed s.print_serial_logs
        (λ k. "")
        (λ k. k == s.current_subtest)
        s
        (updated (to_stderr message) s)
failed-Attributed message s = record {
  current = refl;
  serial = refl;
  known = λ k. has_case-updated k (to_stderr message) s;
  stdout = λ k.
      let e = case_of-updated k (to_stderr message) s in
      let idle = append-nil (case_of k s).stdout in ground arith;
  failure = λ k. let e = case_of-updated k (to_stderr message) s in ground arith;
}

pub idle-Attributed :
    (shown : Bool) (s : State)
    → Attributed shown (λ k. "") (λ k. false) s (record s { print_serial_logs = shown })
idle-Attributed shown s = record {
  current = refl;
  serial = refl;
  known = λ k h. h;
  stdout = λ k. sym (append-nil (case_of k s).stdout);
  failure = λ k. ground arith;
}

pub Attributed-trans :
    (b c : Bool) (f g : String → String) (p q : String → Bool) (s t u : State)
    → Attributed b f p s t
    → Attributed c g q t u
    → Attributed c (λ k. f k <> g k) (λ k. p k || q k) s u
Attributed-trans b c f g p q s t u x y = record {
  current = y.current ∙ x.current;
  serial = y.serial;
  known = λ k h. y.known k (x.known k h);
  stdout = λ k.
      y.stdout k ∙ ap (λ w. w <> g k) (x.stdout k) ∙ append_assoc (case_of k s).stdout (f k) (g k);
  failure = λ k. let h = x.failure k in let i = y.failure k in ground arith;
}

pub serial_if-Attributed :
    (shown : Bool) (message : String) (s : State)
    → has_case s.current_subtest s ≡ true
    → (t : State) × ((if shown then log message s else (ok tt, s)) ≡ (ok tt, t))
      × Attributed s.print_serial_logs
          (λ k. line_if (shown && k == s.current_subtest) message)
          (λ k. false)
          s
          t
unfolding log
serial_if-Attributed true message s known = (
  updated (to_stdout message) s,
  on_case-updated (to_stdout message) s known,
  written-Attributed message s,
)
serial_if-Attributed false message s known = (s, refl, idle-Attributed s.print_serial_logs s)

-- A subtest that is entered changes no case but for making its own.
pub entered-case_of :
    (k name : String) (s : State)
    → case_of k (record s { tests = with_case name s.tests; current_subtest = name }) ≡ case_of k s
unfolding with_case
entered-case_of k name s = let e = lookup-insert k name new_case s.tests in ground arith

pub entered-has_case :
    (k name : String) (s : State)
    → has_case k (record s { tests = with_case name s.tests; current_subtest = name })
      ≡ (k == name || has_case k s)
unfolding with_case
entered-has_case k name s = let e = lookup-insert k name new_case s.tests in ground arith

pub entered_self :
    (name : String) (s : State)
    → has_case name (record s { tests = with_case name s.tests; current_subtest = name }) ≡ true
entered_self name s = entered-has_case name name s ∙ ap (λ b. b || has_case name s) (==-self name)

-- A subtest that is left changes no case.
pub left-Attributed :
    {shown : Bool} {f : String → String} {p : String → Bool} (name : String) (s u : State)
    → Attributed shown f p (record s { tests = with_case name s.tests; current_subtest = name }) u
    → Attributed shown f p s (record u { current_subtest = s.current_subtest })
left-Attributed {f} name s u x = record {
  current = refl;
  serial = x.serial;
  known = λ k h. x.known k (entered-has_case k name s ∙ ground arith);
  stdout = λ k. x.stdout k ∙ ap (λ c. c.stdout <> f k) (entered-case_of k name s);
  failure = λ k. let e = entered-case_of k name s in let g = x.failure k in ground arith;
}
