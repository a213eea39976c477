-- ===== src/Store.antt =====
-- control/src/theozolith_control/store.py: the cache database of the Control Node, a table a field.
-- The operations stand in the modules below, one for each part of the class.
-- Times are whole seconds of the store's clock; an operation takes the clock's reading.
pub mod Nodes
pub mod Grants
pub mod Quarantine
pub mod Flags
pub mod Ledger
pub mod Commands
pub mod Convergence
pub mod Events
pub mod Sessions
pub mod Sightings
mod Tests
use the_ozolith.Common.{ℕ, String, Option, List, Bool, []}
use the_ozolith.Common.Table.{Table}
use the_ozolith.Common.Message.{Message}

-- a row of `nodes`
pub record NodeRow : Type 0 where
  pub version : String
  pub drivers_hash : String
  pub drivers_hash_reported : Bool
  pub drivers_built_against : String
  pub registered_at : ℕ
  pub last_seen : ℕ

-- a JSON value of an event, as far as the columns read it
pub data Value : Type 0 where
  text : String → Value
  int : ℕ → Value
  -- a number with a fraction or an exponent, by its integer part
  real : ℕ → Value
  flag : Bool → Value
  other : Value

abbrev pub Payload : Type 0
Payload = List (String × Value)

-- a row of `events`
pub record EventRow : Type 0 where
  pub id : ℕ
  pub type : String
  pub received_at : ℕ
  pub payload : Payload
  pub node : Option String
  pub driver : Option String
  pub issue : Option ℕ
  pub run_id : Option String
  pub attempt : Option ℕ
  pub phase : Option String
  pub pr : Option ℕ
  pub round : Option ℕ
  pub verdict : Option String
  pub component : Option String
  pub repo : Option String

-- a row of `commands`
pub record CommandRow : Type 0 where
  pub id : ℕ
  pub node : String
  pub verb : String
  pub target : Option String
  pub force : Bool
  pub created_at : ℕ
  pub delivered_at : Option ℕ
  pub completed_at : Option ℕ
  pub deferred_reason : Option String

-- a row of `grants`
pub record Grant : Type 0 where
  pub worker : String
  pub node : String
  pub login : String
  pub granted_at : ℕ

-- a row of `drivers`
pub record DriverRow : Type 0 where
  pub node : String
  pub login : String
  pub role : String
  pub repo : String
  pub stack : String
  pub registered_at : ℕ
  pub last_dispatch_at : ℕ

-- a row of `node_health`
pub record NodeHealth : Type 0 where
  pub consecutive_failures : ℕ
  pub quarantined : Bool
  pub reason : Message
  pub since : Option ℕ

-- a row of `zombie_flags`
pub record ZombieFlag : Type 0 where
  pub worker : String
  pub node : String
  pub flagged_at : ℕ

-- a row of `malformed_states`, `dispatch_waits` or `dispatch_pauses`
pub record Advisory : Type 0 where
  pub detail : Message
  pub first_seen : ℕ
  pub last_seen : ℕ

-- a row of `chained_dependents`; `recorded_sha` is a commit hash
pub record ChainedRow : Type 0 where
  pub blocker_issue : ℕ
  pub blocker_pr : ℕ
  pub blocker_state : String
  pub recorded_sha : String
  pub first_seen : ℕ
  pub last_seen : ℕ

-- a row of `version_health` or `drivers_health`
pub record HealthRow : Type 0 where
  pub offpin_beats : ℕ
  pub restart_queued : Bool
  pub escalated : Bool

-- a row of `sessions`, under the digest of its id
pub record Session : Type 0 where
  pub created_at : ℕ
  pub expires_at : ℕ

-- a row of `join_tokens`, under its short id
pub record JoinToken : Type 0 where
  pub token_hash : String
  pub created_at : ℕ
  pub expires_at : ℕ
  pub uses_left : ℕ

-- a row of `unregistered_nodes`, under (name, source)
pub record Sighting : Type 0 where
  pub first_seen : ℕ
  pub last_seen : ℕ
  pub beats : ℕ

-- a row of `janitor_actions`; no repo marks a node-scoped act
pub record JanitorAction : Type 0 where
  pub repo : Option String
  pub issue : ℕ
  pub run_id : String
  pub worker : String
  pub reason : Message
  pub acted_at : ℕ

pub record Store : Type 0 where
  pub nodes : Table String NodeRow
  pub events : List EventRow
  -- the counters of the two AUTOINCREMENT keys: the next id
  pub next_event : ℕ
  pub commands : List CommandRow
  pub next_command : ℕ
  pub sessions : Table String Session
  pub join_tokens : Table String JoinToken
  pub unregistered_nodes : Table (String × String) Sighting
  pub janitor_actions : List JanitorAction
  pub grants : Table (String × ℕ) Grant
  pub drivers : Table String DriverRow
  pub node_health : Table String NodeHealth
  pub zombie_flags : Table (String × ℕ × String) ZombieFlag
  pub malformed_states : Table (String × ℕ) Advisory
  pub dispatch_waits : Table (String × ℕ) Advisory
  pub chained_dependents : Table (String × ℕ) ChainedRow
  pub dispatch_pauses : Table String Advisory
  pub version_health : Table String HealthRow
  pub drivers_health : Table String HealthRow

-- a fresh database
abbrev pub fresh : Store
fresh = record {
  nodes = [];
  events = [];
  next_event = 1;
  commands = [];
  next_command = 1;
  sessions = [];
  join_tokens = [];
  unregistered_nodes = [];
  janitor_actions = [];
  grants = [];
  drivers = [];
  node_health = [];
  zombie_flags = [];
  malformed_states = [];
  dispatch_waits = [];
  chained_dependents = [];
  dispatch_pauses = [];
  version_health = [];
  drivers_health = [];
}
