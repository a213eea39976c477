-- ===== src/Gate/Complete.antt =====
-- gate/pipeline.py: no failure of a step keeps the others from running.
use the_ozolith.Common.{
  ℕ, suc, ◌+◌, ◌≤◌, String, ◌≡◌, refl, sym, ap, subst, ◌∙◌, ◌≢◌, Bool, true, false, Option, none,
  some, List, [], ◌∷◌, ◌++◌, map, arith, length, length-append, append_nil, nat_eq, string_eq,
  pair_eq, triple_eq, list_eq, All,
}
use the_ozolith.Common.Exec.{Result, ok, err, Exec, pure, continue, ◌>>=◌}
use the_ozolith.Common.Returns.{IsOk, Returns}
use the_ozolith.Gate.{Fault, StepSpec, Finding, GateResult, Bench}
use the_ozolith.Gate.Steps.{load_steps}
use the_ozolith.Gate.Run.{
  in_order, judge, on_failure, after_fix, run_steps, run_all, of_loaded, run_gate, no_result,
}

abbrev pub step_name : StepSpec → String
step_name spec = spec.name

-- `r'` goes on from `r` by the steps of these names, with a finding for a step at most
abbrev pub Adds : List String → GateResult → GateResult → Type 0
Adds names r r' =
    (r'.steps_run ≡ r.steps_run ++ names) × (length r'.findings ≤ length r.findings + length names)

append_one :
    (names : List String) (name : String) (further : List String)
    → (names ++ name ∷ []) ++ further ≡ names ++ name ∷ further
append_one [] name further = refl
append_one (n ∷ names) name further = ap (λ rest. n ∷ rest) (append_one names name further)

length-names : (specs : List StepSpec) → length (map step_name specs) ≡ length specs
length-names [] = refl
length-names (spec ∷ specs) = ap suc (length-names specs)

-- `m` returns from `s`, and `P` holds of what it returns and of the state it leaves
abbrev ReturnsAt : {S A : Type 0} → (A → S → Type 0) → Exec Fault S A → S → Type 0
ReturnsAt {A = A} P m s = (a : A) × ((m s).0 ≡ ok a) × P a (m s).1

module _ {S A B : Type 0} (Q : B → S → Type 0) (P : A → S → Type 0) where
  then_lem :
      (r : Result Fault B) (f : B → Exec Fault S A) (t : S)
      → (b : B) → r ≡ ok b
      → Q b t
      → ((b : B) (t : S) → Q b t → ReturnsAt P (f b) t)
      → (a : A) × ((continue r f t).0 ≡ ok a) × P a (continue r f t).1
  then_lem (ok b) f t c e q k = k b t (subst (λ (d : B). Q d t) (cc (sym e)) q)
  then_lem (err x) f t c e q k = absurd (cc e)

  ReturnsAt-bind :
      (m : Exec Fault S B) (f : B → Exec Fault S A) (s : S)
      → ReturnsAt Q m s
      → ((b : B) (t : S) → Q b t → ReturnsAt P (f b) t)
      → ReturnsAt P (m >>= f) s
  unfolding ◌>>=◌
  ReturnsAt-bind m f s (b, e, q) k = then_lem (m s).0 f (m s).1 b e q k

module _ {S A : Type 0} (P : A → S → Type 0) where
  ReturnsAt-pure : (a : A) (s : S) → P a s → ReturnsAt P (pure {S = S} a) s
  unfolding pure
  ReturnsAt-pure a s p = (a, refl, p)

returned : {B : Type 0} (r : Result Fault B) → IsOk r → (b : B) × (r ≡ ok b)
returned (ok b) h = (b, refl)
returned (err e) h = absurd h

-- `Done command` holds of a host on which the command was run
module _ {H : Type 0} (bench : Bench H) (Done : String → H → Type 0)
    (answers : (command : String) (seconds : ℕ) → Returns (bench.runner command seconds))
    (marks : (command : String) (seconds : ℕ) (h : H)
      → Done command (bench.runner command seconds h).1)
    (keeps : (done command : String) (seconds : ℕ) (h : H)
      → Done done h
      → Done done (bench.runner command seconds h).1) where
  -- what was run on `h` was run on `u`
  abbrev Kept : H → H → Type 0
  Kept h u = (command : String) → Done command h → Done command u

  -- and this command was run
  abbrev Ran : String → H → Bool × String → H → Type 0
  Ran command h b u = Kept h u × Done command u

  runs_lem :
      (command : String) (seconds : ℕ) (h : H)
      → ReturnsAt (Ran command h) (bench.runner command seconds) h
  runs_lem command seconds h =
      let (b, e) = returned (bench.runner command seconds h).0 ((answers command seconds).at h) in
      (b, e, ((λ done d. keeps done command seconds h d), marks command seconds h))

  added : (f : Finding) (r : GateResult) → length (r.findings ++ f ∷ []) ≤ length r.findings + 1
  added f r = omega (arith, length-append r.findings (f ∷ []))

  fixed_lem :
      (spec : StepSpec) (output : String) (again : Bool × String) (r : GateResult)
      → Adds (spec.name ∷ []) r (after_fix bench spec output again (in_order r spec.name))
  fixed_lem spec output (true, fixed_output) r = (refl, added _ r)
  fixed_lem spec output (false, fixed_output) r = (refl, added _ r)

  -- one step on, with what was run on `h`
  abbrev After : StepSpec → GateResult → H → GateResult → H → Type 0
  After spec r h a u = Adds (spec.name ∷ []) r a × Kept h u

  on_failure_lem :
      (spec : StepSpec) (output : String) (r : GateResult) (fix : Option String) (h : H)
      → ReturnsAt (After spec r h) (on_failure bench spec output (in_order r spec.name) fix) h
  on_failure_lem spec output r none h =
      ReturnsAt-pure (After spec r h) _ h ((refl, added _ r), (λ command d. d))
  on_failure_lem spec output r (some fix) h =
      ReturnsAt-bind (Ran fix h) (After spec r h) _ _ h (runs_lem fix spec.timeout h) (λ b t q.
        ReturnsAt-bind (Ran spec.run t) (After spec r h) _ _ t (runs_lem spec.run spec.timeout t)
          (λ again u q'.
            ReturnsAt-pure (After spec r h) _ u
              (fixed_lem spec output again r, (λ command d. q'.0 command (q.0 command d)))))

  judge_lem :
      (spec : StepSpec) (r : GateResult) (outcome : Bool × String) (h : H)
      → ReturnsAt (After spec r h) (judge bench spec (in_order r spec.name) outcome) h
  judge_lem spec r (true, output) h =
      ReturnsAt-pure (After spec r h) _ h ((refl, omega arith), (λ command d. d))
  judge_lem spec r (false, output) h = on_failure_lem spec output r spec.fix h

  adds_lem :
      (name : String) (names : List String) (r q s : GateResult)
      → Adds (name ∷ []) r q
      → Adds names q s
      → Adds (name ∷ names) r s
  adds_lem name names r q s (e, le) (e', le') =
      (e' ∙ rw e (append_one r.steps_run name names), omega (arith, le, le'))

  -- every step is in the result, and its command was run
  abbrev pub AllRan : List StepSpec → GateResult → H → GateResult → H → Type 0
  AllRan specs r h a u =
      Adds (map step_name specs) r a × Kept h u × All (λ (spec : StepSpec). Done spec.run u) specs

  run_steps_lem :
      (specs : List StepSpec) (r : GateResult) (h : H)
      → ReturnsAt (AllRan specs r h) (run_steps bench specs r) h
  unfolding run_steps
  run_steps_lem [] r h =
      ReturnsAt-pure (AllRan [] r h) _ h
        ((sym (append_nil r.steps_run), omega arith), (λ command d. d), tt)
  run_steps_lem (spec ∷ specs) r h =
      ReturnsAt-bind (Ran spec.run h) (AllRan (spec ∷ specs) r h) _ _ h
        (runs_lem spec.run spec.timeout h)
        (λ outcome t ran.
          ReturnsAt-bind (After spec r t) (AllRan (spec ∷ specs) r h) _ _ t
            (judge_lem spec r outcome t)
            (λ q v judged.
              let (a, e, (adds, kept, all_ran)) = run_steps_lem specs q v in
              (
                a,
                e,
                (
                  adds_lem spec.name (map step_name specs) r q a judged.0 adds,
                  (λ command d. kept command (judged.1 command (ran.0 command d))),
                  (kept spec.run (judged.1 spec.run ran.1), all_ran),
                ),
              )))

  run_all_lem :
      (specs : List StepSpec) (h : H)
      → specs ≢ []
      → ReturnsAt (AllRan specs no_result h) (run_all bench specs) h
  run_all_lem [] h some_steps = absurd (some_steps refl)
  run_all_lem (spec ∷ specs) h some_steps = run_steps_lem (spec ∷ specs) no_result h

  -- No failure of a step keeps another from running: when the configured steps were read, and there
  -- are some, and the runner of commands does not raise, the gate returns; every step's command was
  -- run, for any view of the host in which a command is run once the runner was called with it, the
  -- result names the steps in their order, and there is one finding at most for each.
  pub run_gate-Adds :
      (specs : List StepSpec) (h : H)
      → (load_steps bench h).0 ≡ ok specs
      → specs ≢ []
      → (r : GateResult) × ((run_gate bench h).0 ≡ ok r)
        × (r.steps_run ≡ map step_name specs)
        × (length r.findings ≤ length specs)
        × All (λ (spec : StepSpec). Done spec.run (run_gate bench h).1) specs
  unfolding run_gate ◌>>=◌
  run_gate-Adds specs h loaded configured =
      let u = (load_steps bench h).1 in
      let (r, e, ((ran, le), kept, all_ran)) = run_all_lem specs u configured in
      (
        r,
        ap (λ l. (of_loaded bench l u).0) loaded ∙ e,
        ran,
        omega (arith, le, length-names specs),
        rw loaded all_ran,
      )
