-- ===== src/Gate/Tests.antt =====
-- Runs of the gate, and an instance of the theorem on it.
use the_ozolith.Common.{
  ℕ, ◌≤◌, String, ◌≡◌, refl, true, not, none, List, [], ◌∷◌, map, length, ◌==◌, nat_eq, string_eq,
  pair_eq, triple_eq, list_eq, contains, All, Bool-cases, inl, inr, ==_refl,
}
use the_ozolith.Common.Table.{find}
use the_ozolith.Common.Message.{say}
use the_ozolith.Common.Exec.{ok, err, pure, raise, gets, ◌>>=◌, catch}
use the_ozolith.Common.Order.{order_by, insert_by}
use the_ozolith.Common.Returns.{Returns}
use the_ozolith.Gate.{
  Fault, Value, string, number, Entry, table, StepTables, tables, StepSpec, GateResult, Bench,
}
use the_ozolith.Gate.Steps.{load_steps, specs_of}
use the_ozolith.Gate.Run.{run_gate}
use the_ozolith.Gate.Complete.{step_name, run_gate-Adds}

-- the commands that were run, the last first; `bad` fails
abbrev small : StepTables → Bench (List String)
small steps = record {
  is_file = λ log. true;
  read_steps = λ log. (ok steps, log);
  str = λ v. "";
  float = λ s. none;
  runner = λ command seconds log. (ok (not (command == "bad"), "out"), command ∷ log);
}

abbrev step : String → Value → Entry
step run timeout = table (("run", string run) ∷ ("timeout", timeout) ∷ [])

abbrev two_steps : StepTables
two_steps = tables (("lint", step "ruff" (number 60)) ∷ ("test", step "bad" (number 9)) ∷ [])

abbrev two_specs : List StepSpec
two_specs =
    record { name = "test"; run = "bad"; fix = none; timeout = 9 }
    ∷ record { name = "lint"; run = "ruff"; fix = none; timeout = 60 }
    ∷ []

loaded_run : (load_steps (small two_steps) []).0 ≡ ok two_specs
unfolding load_steps specs_of order_by insert_by find ◌>>=◌ catch pure gets
loaded_run = refl

small-Returns :
    (command : String) (seconds : ℕ) → Returns ((small two_steps).runner command seconds)
small-Returns command seconds = record { at = λ log. tt }

-- the command is in the log
abbrev IsLogged : String → List String → Type 0
IsLogged command log = contains log command ≡ true

small-marks :
    (command : String) (seconds : ℕ) (log : List String)
    → IsLogged command ((small two_steps).runner command seconds log).1
small-marks command seconds log = rw (==_refl command) refl

small-keeps :
    (done command : String) (seconds : ℕ) (log : List String)
    → IsLogged done log
    → IsLogged done ((small two_steps).runner command seconds log).1
small-keeps done command seconds log h = elim (Bool-cases (command == done)) [
  | inl same ↦ rw same refl
  | inr other ↦ rw other h
]

run_gate-Adds_example :
    (r : GateResult) × ((run_gate (small two_steps) []).0 ≡ ok r)
    × (r.steps_run ≡ map step_name two_specs)
    × (length r.findings ≤ length two_specs)
    × All (λ (spec : StepSpec). IsLogged spec.run (run_gate (small two_steps) []).1) two_specs
run_gate-Adds_example =
    run_gate-Adds (small two_steps) IsLogged small-Returns small-marks small-keeps two_specs []
      loaded_run (λ e. absurd (cc e))

-- a timeout that is no number makes the gate raise, which it is said never to do
timeout_run :
    (run_gate (small (tables (("test", step "pytest" (string "soon")) ∷ []))) []).0
    ≡ err (Fault.value_error (say "could not convert string to float"))
unfolding run_gate load_steps specs_of order_by insert_by find ◌>>=◌ catch pure gets raise
timeout_run = refl
