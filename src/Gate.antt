-- ===== src/Gate.antt =====
-- worker/src/theozolith_worker/gate/pipeline.py: the quality gate, which runs the steps that the target
-- repository configures. The runner of commands and the reading of the file are the interface Bench,
-- over the state `H` of its world.
pub mod Steps
pub mod Run
pub mod Complete
mod Tests
use the_ozolith.Common.{ℕ, String, Bool, Option, List}
use the_ozolith.Common.Table.{Table}
use the_ozolith.Common.Message.{Message}
use the_ozolith.Common.Exec.{Exec}

pub data Fault : Type 0 where
  os_error toml_decode_error gate_config_error value_error type_error : Message → Fault
  -- any other exception, by the name of its class
  other : String → Message → Fault

-- what a key of a step's table may hold; of an array, a table or a date, whether it is true
pub data Value : Type 0 where
  string : String → Value
  number : ℕ → Value
  boolean : Bool → Value
  compound : Bool → Value

-- what stands under `steps.<name>`, and under `steps`
pub data Entry : Type 0 where
  table : Table String Value → Entry
  no_table : Entry

pub data StepTables : Type 0 where
  absent no_steps_table : StepTables
  tables : Table String Entry → StepTables

pub data Severity : Type 0 where
  error warning info : Severity

pub record Finding : Type 0 where
  pub step : String
  pub severity : Severity
  pub summary : Message
  pub detail : String
  pub fixed : Bool

pub record StepSpec : Type 0 where
  pub name : String
  pub run : String
  pub fix : Option String
  pub timeout : ℕ

pub record GateResult : Type 0 where
  pub steps_run : List String
  pub findings : List Finding

pub record Bench (H : Type 0) : Type 0 where
  -- `path.is_file()`, and the parsed text of the file
  pub is_file : H → Bool
  pub read_steps : Exec Fault H StepTables
  -- `str` of a value that is no text, and `float` of a text
  pub str : Value → String
  pub float : String → Option ℕ
  -- the outcome and the output of a command
  pub runner : String → ℕ → Exec Fault H (Bool × String)
