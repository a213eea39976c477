-- ===== src/Gate/Run.antt =====
-- gate/pipeline.py: `run_gate`, which runs every configured step and reports findings.
use the_ozolith.Common.{
  String, Bool, true, false, not, Option, none, some, List, [], ◌∷◌, ◌++◌, any, nat_eq, string_eq,
  pair_eq, triple_eq, list_eq,
}
use the_ozolith.Common.Message.{Message, lit, say}
use the_ozolith.Common.Exec.{Result, ok, err, Exec, pure, raise, ◌>>=◌, ◌>>◌, tried}
use the_ozolith.Gate.{Fault, Severity, error, warning, info, Finding, StepSpec, GateResult, Bench}
use the_ozolith.Gate.Steps.{load_steps}

abbrev pub result_findings : Finding → GateResult
result_findings f = record { steps_run = []; findings = f ∷ [] }

abbrev pub add_finding : Finding → GateResult → GateResult
add_finding f r = record r { findings = r.findings ++ f ∷ [] }

abbrev has_error : Severity → Bool
has_error error = true
has_error warning = false
has_error info = false

abbrev is_error : Finding → Bool
is_error f = has_error f.severity

-- `GateResult.clean`
abbrev pub clean : GateResult → Bool
clean r = not (any is_error r.findings)

abbrev pub failed : StepSpec → String → Finding
failed spec output = record {
  step = spec.name;
  severity = error;
  summary = lit spec.name ∷ lit " failed (" ∷ lit spec.run ∷ lit ")" ∷ [];
  detail = output;
  fixed = false;
}

abbrev pub mended : StepSpec → String → Finding
mended spec output = record {
  step = spec.name;
  severity = warning;
  summary = lit spec.name ∷ lit " failed; declared mechanical fix applied" ∷ [];
  detail = output;
  fixed = true;
}

abbrev unconfigured : Finding
unconfigured = record {
  step = "gate";
  severity = info;
  summary = say "no gate config (.theozolith/gate.toml); test/docs/lint not run";
  detail = "";
  fixed = false;
}

abbrev unreadable : Message → Finding
unreadable m = record { step = "gate"; severity = error; summary = m; detail = ""; fixed = false }

abbrev pub in_order : GateResult → String → GateResult
in_order r name = record r { steps_run = r.steps_run ++ name ∷ [] }

abbrev pub no_result : GateResult
no_result = record { steps_run = []; findings = [] }

module _ {H : Type 0} (bench : Bench H) where
  -- the outcome of a step that failed and has a fix, after the second run
  abbrev pub after_fix : StepSpec → String → Bool × String → GateResult → GateResult
  after_fix spec output (true, fixed_output) r = add_finding (mended spec output) r
  after_fix spec output (false, fixed_output) r = add_finding (failed spec fixed_output) r

  abbrev pub on_failure : StepSpec → String → GateResult → Option String → Exec Fault H GateResult
  on_failure spec output r none = pure (add_finding (failed spec output) r)
  on_failure spec output r (some fix) = do
    bench.runner fix spec.timeout
    again ← bench.runner spec.run spec.timeout
    pure (after_fix spec output again r)

  abbrev pub judge : StepSpec → GateResult → Bool × String → Exec Fault H GateResult
  judge spec r (true, output) = pure r
  judge spec r (false, output) = on_failure spec output r (spec.fix)

  unfoldable pub run_steps : List StepSpec → GateResult → Exec Fault H GateResult
  run_steps [] r = pure r
  run_steps (spec ∷ specs) r = do
    outcome ← bench.runner spec.run spec.timeout
    next ← judge spec (in_order r spec.name) outcome
    run_steps specs next

  abbrev pub run_all : List StepSpec → Exec Fault H GateResult
  run_all [] = pure (result_findings unconfigured)
  run_all (spec ∷ specs) = run_steps (spec ∷ specs) no_result

  abbrev pub of_loaded : Result Fault (List StepSpec) → Exec Fault H GateResult
  of_loaded (ok specs) = run_all specs
  of_loaded (err (Fault.gate_config_error m)) = pure (result_findings (unreadable m))
  of_loaded (err (Fault.os_error m)) = raise (Fault.os_error m)
  of_loaded (err (Fault.toml_decode_error m)) = raise (Fault.toml_decode_error m)
  of_loaded (err (Fault.value_error m)) = raise (Fault.value_error m)
  of_loaded (err (Fault.type_error m)) = raise (Fault.type_error m)
  of_loaded (err (Fault.other name m)) = raise (Fault.other name m)

  unfoldable pub run_gate : Exec Fault H GateResult
  unfolding load_steps run_steps
  run_gate = do loaded ← tried (load_steps bench); of_loaded loaded
