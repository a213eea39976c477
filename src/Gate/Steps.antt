-- ===== src/Gate/Steps.antt =====
-- gate/pipeline.py: the steps that gate.toml configures, in the order in which they are run.
use the_ozolith.Common.{
  ℕ, String, Bool, not, Option, none, some, List, [], ◌∷◌, ◌++◌, map, if◌then◌else◌, is_some,
  select, ◌==◌, nat_eq, string_eq, pair_eq, triple_eq, list_eq, contains,
}
use the_ozolith.Common.Table.{Table, find}
use the_ozolith.Common.Message.{lit, say}
use the_ozolith.Common.Exec.{Result, ok, err, Exec, pure, raise, gets, ◌>>=◌, catch}
use the_ozolith.Common.Order.{order_by, text_le}
use the_ozolith.Gate.{
  Fault, Value, string, number, boolean, compound, Entry, table, no_table, StepTables, absent,
  no_steps_table, tables, StepSpec, Bench,
}

-- STEP_ORDER
abbrev pub step_order : List String
step_order = "test" ∷ "docs" ∷ "lint" ∷ []

abbrev pub default_timeout_seconds : ℕ
default_timeout_seconds = 900

abbrev keys : Table String Entry → List String
keys rows = map (λ (row : String × Entry). row.0) rows

abbrev is_configured : Table String Entry → String → Bool
is_configured rows name = is_some (find name rows)

abbrev is_further : String → Bool
is_further name = not (contains step_order name)

-- the steps in the order in which they are run
abbrev pub ordered : Table String Entry → List String
ordered rows =
    select (is_configured rows) step_order ++ order_by text_le (select is_further (keys rows))

abbrev truth : Value → Bool
truth (string s) = not (s == "")
truth (number n) = not (n == 0)
truth (boolean b) = b
truth (compound b) = b

abbrev truthy : Option Value → Option Value
truthy none = none
truthy (some v) = if truth v then some v else none

abbrev default_spec : String → String → Option String → ℕ → StepSpec
default_spec name run fix timeout = record { name = name; run = run; fix = fix; timeout = timeout }

module _ {H : Type 0} (bench : Bench H) where
  abbrev text_of : Value → String
  text_of (string s) = s
  text_of (number n) = bench.str (number n)
  text_of (boolean b) = bench.str (boolean b)
  text_of (compound b) = bench.str (compound b)

  abbrev option_text : Option Value → Option String
  option_text none = none
  option_text (some v) = some (text_of v)

  abbrev parsed : Option ℕ → Result Fault ℕ
  parsed none = err (Fault.value_error (say "could not convert string to float"))
  parsed (some n) = ok n

  -- `float(entry.get("timeout", DEFAULT_TIMEOUT_SECONDS))`
  abbrev pub timeout_of : Option Value → Result Fault ℕ
  timeout_of none = ok default_timeout_seconds
  timeout_of (some (string s)) = parsed (bench.float s)
  timeout_of (some (number n)) = ok n
  timeout_of (some (boolean b)) = ok (if b then 1 else 0)
  timeout_of (some (compound b)) = err (Fault.type_error (say "float() argument must be a number"))

  abbrev with_timeout : String → Value → Option Value → Result Fault ℕ → Result Fault StepSpec
  with_timeout name run fix (err e) = err e
  with_timeout name run fix (ok seconds) =
      ok (default_spec name (text_of run) (option_text fix) seconds)

  abbrev needs_run : String → Result Fault StepSpec
  needs_run name = err (
      Fault.gate_config_error
        (lit ".theozolith/gate.toml: steps." ∷ lit name ∷ lit " needs a run command" ∷ []))

  abbrev with_run : String → Table String Value → Option Value → Result Fault StepSpec
  with_run name rows none = needs_run name
  with_run name rows (some run) =
      with_timeout name run (truthy (find "fix" rows)) (timeout_of (find "timeout" rows))

  abbrev pub spec_of : String → Option Entry → Result Fault StepSpec
  spec_of name none = needs_run name
  spec_of name (some no_table) = needs_run name
  spec_of name (some (table rows)) = with_run name rows (truthy (find "run" rows))

  abbrev pub add_spec :
      Result Fault StepSpec → Result Fault (List StepSpec) → Result Fault (List StepSpec)
  add_spec (err e) rest = err e
  add_spec (ok spec) (err e) = err e
  add_spec (ok spec) (ok specs) = ok (spec ∷ specs)

  unfoldable pub specs_of : Table String Entry → List String → Result Fault (List StepSpec)
  specs_of entries [] = ok []
  specs_of entries (name ∷ names) =
      add_spec (spec_of name (find name entries)) (specs_of entries names)

  abbrev pub of_steps : StepTables → Result Fault (List StepSpec)
  of_steps absent = ok []
  of_steps no_steps_table =
      err (Fault.gate_config_error (say ".theozolith/gate.toml: [steps.*] tables expected"))
  of_steps (tables entries) = specs_of entries (ordered entries)

  -- the errors of reading that `load_steps` turns into its own
  abbrev pub as_config_error : {A : Type 0} → Fault → Exec Fault H A
  as_config_error (Fault.os_error m) =
      raise (Fault.gate_config_error (lit "unreadable .theozolith/gate.toml: " ∷ m))
  as_config_error (Fault.toml_decode_error m) =
      raise (Fault.gate_config_error (lit "unreadable .theozolith/gate.toml: " ∷ m))
  as_config_error (Fault.gate_config_error m) = raise (Fault.gate_config_error m)
  as_config_error (Fault.value_error m) = raise (Fault.value_error m)
  as_config_error (Fault.type_error m) = raise (Fault.type_error m)
  as_config_error (Fault.other name m) = raise (Fault.other name m)

  abbrev pub lift : {A : Type 0} → Result Fault A → Exec Fault H A
  lift r h = (r, h)

  unfoldable pub load_steps : Exec Fault H (List StepSpec)
  unfolding specs_of
  load_steps = do
    configured ← gets bench.is_file
    if configured
        then (do steps ← catch bench.read_steps as_config_error; lift (of_steps steps))
        else pure []
