-- ===== src/Store/Commands.antt =====
-- store.py: infrastructure commands, re-delivered until the node reports them completed.
pub mod Redelivery
use the_ozolith.Common.{
  ℕ, ◌+◌, String, Bool, not, ◌&&◌, Option, none, some, List, [], ◌∷◌, ◌++◌, map, if◌then◌else◌,
  is_some, select, ◌==◌, nat_eq, string_eq, pair_eq, triple_eq, contains,
}
use the_ozolith.Common.Table.{Table, find, put}
use the_ozolith.Common.Order.{insert_by}
use the_ozolith.Store.{Store, CommandRow}
use Prim.Native.String.{compare}
use text.Mathlib.Text.{is_le}

-- COMMAND_VERBS
abbrev pub command_verbs : List String
command_verbs = "drain" ∷ "recycle" ∷ "update" ∷ "rebuild" ∷ "restart" ∷ []

-- LIFECYCLE_VERBS
abbrev pub lifecycle_verbs : List String
lifecycle_verbs = "drain" ∷ "recycle" ∷ "update" ∷ "restart" ∷ []

unfoldable pub queue_command : String → String → Option String → Bool → ℕ → Store → ℕ × Store
queue_command node verb target force now s = (
  s.next_command,
  record s { commands = s.commands ++ row ∷ []; next_command = s.next_command + 1 },
)
  where
    row : CommandRow
    row = record {
      id = s.next_command;
      node = node;
      verb = verb;
      target = target;
      force = force;
      created_at = now;
      delivered_at = none;
      completed_at = none;
      deferred_reason = none;
    }

-- WHERE node = ? AND completed_at IS NULL
abbrev pub is_pending : String → CommandRow → Bool
is_pending node c = c.node == node && not (is_some c.completed_at)

-- what a heartbeat is answered with
pub record Delivery : Type 0 where
  pub id : ℕ
  pub verb : String
  pub target : Option String
  pub force : Bool

abbrev pub delivery : CommandRow → Delivery
delivery c = record { id = c.id; verb = c.verb; target = c.target; force = c.force }

abbrev pub delivered : String → ℕ → CommandRow → CommandRow
delivered node now c =
    if is_pending node c && not (is_some c.delivered_at)
    then record c { delivered_at = some now }
    else c

unfoldable pub pending_commands : String → ℕ → Store → List Delivery × Store
pending_commands node now s = (
  map delivery (select (is_pending node) s.commands),
  record s { commands = map (delivered node now) s.commands },
)

abbrev pub completed : String → List ℕ → ℕ → CommandRow → CommandRow
completed node ids now c =
    if contains ids c.id && c.node == node
    then record c { completed_at = some now; deferred_reason = none }
    else c

unfoldable pub complete_commands : String → List ℕ → ℕ → Store → Store
complete_commands node ids now s = record s { commands = map (completed node ids now) s.commands }

-- the dict comprehension: a later deferral of an id replaces an earlier one
unfoldable pub reasons_of : List (ℕ × String) → Table ℕ String → Table ℕ String
reasons_of [] t = t
reasons_of ((i, r) ∷ ds) t = reasons_of ds (put i r t)

abbrev pub deferred : String → Table ℕ String → CommandRow → CommandRow
deferred node reasons c =
    if is_pending node c then record c { deferred_reason = find c.id reasons } else c

unfoldable pub record_deferrals : String → List (ℕ × String) → Store → Store
unfolding reasons_of
record_deferrals node deferrals s = record s {
  commands = map (deferred node (reasons_of deferrals [])) s.commands;
}

abbrev verb_le : String → String → Bool
verb_le a b = is_le (compare a b)

-- SELECT DISTINCT verb … ORDER BY verb
distinct : List String → List String
distinct [] = []
distinct (v ∷ vs) =
    let rest = distinct vs in if contains rest v then rest else insert_by verb_le v rest

abbrev verb_of : CommandRow → String
verb_of c = c.verb

unfoldable pub pending_lifecycle_commands : String → Store → List String
unfolding distinct
pending_lifecycle_commands node s = distinct (
    map verb_of (
      select (λ (c : CommandRow). is_pending node c && contains lifecycle_verbs c.verb) s.commands))
