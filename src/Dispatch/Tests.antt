-- ===== src/Dispatch/Tests.antt =====
-- Runs of the dispatcher against a small service, and instances of the theorems on them.
use the_ozolith.Common.{
  inr, ℕ, String, ◌≡◌, refl, ap, false, none, List, [], ◌∷◌, ◌==◌, nat_eq, string_eq, pair_eq,
  triple_eq, list_eq,
}
use the_ozolith.Common.Table.{find, put, delete}
use the_ozolith.Common.Message.{Message, say}
use the_ozolith.Common.Exec.{ok, err, Exec, ◌>>=◌}
use the_ozolith.Vocabulary.{plan_ready}
use the_ozolith.Deps.{Issue}
use the_ozolith.Store.{fresh}
use the_ozolith.Store.Commands.{queue_command, pending_lifecycle_commands}
use the_ozolith.Store.Nodes.{node_version, node_drivers_hash}
use the_ozolith.Store.Quarantine.{node_quarantine}
use the_ozolith.Store.Grants.{upsert_driver, granted_issues}
use the_ozolith.Store.Events.{live_claims}
use the_ozolith.GitHub.{Client, World, call, query, write}
use the_ozolith.Dispatch.Gates.{
  node_block, quarantine_block, version_block, drivers_block, lifecycle_block,
}
use the_ozolith.Dispatch.Reads.{within, dependency_block, list_blocked_by, kept_blocked}
use the_ozolith.Deps.Walk.{walk_closure, visit, visit_all, expand, note_blockers, pop}
use the_ozolith.Common.Order.{order_by, insert_by}
use the_ozolith.Store.Flags.{malformed_issues, waiting_issues}
use the_ozolith.Dispatch.Grant.{
  Request, Granted, Answer, issue, grant_work, granting_pass, ask, attempt, pass_world,
}
use the_ozolith.Dispatch.Pause.{registered, gate, Reported, grant_work-Reported}
use the_ozolith.Dispatch.Stopped.{grant_work-stopped}
use the_ozolith.Dispatch.Sibling.{SameRows, grant_work-SameRows}
use the_ozolith.Dispatch.Eligible.{Eligible, grant_work-Granting}

-- issue 7 is plan_ready and has no edge
abbrev seven : Issue
seven = record {
  number = 7;
  title = "t";
  body = "b";
  labels = plan_ready ∷ [];
  assignees = [];
  is_pr = false;
  state = "open";
  state_reason = "";
  repo = "o/r";
}

abbrev answers_with : {A : Type 0} → A → Exec Message (List ℕ) A
answers_with a g = (ok a, g)

-- a write notes the number that it is for
abbrev noted : ℕ → Exec Message (List ℕ) (Unit {0})
noted n g = (ok tt, n ∷ g)

abbrev service : Exec Message (List ℕ) (List Issue) → Client (List ℕ)
service listing = record {
  repo = "o/r";
  clock = λ g. 10;
  list_open_issues = λ l. listing;
  list_open_prs_by_label = λ l. answers_with [];
  list_open_prs = answers_with [];
  list_blocked_by = λ n. answers_with [];
  get_issue = λ n. answers_with seven;
  find_open_pr_by_head = λ h. answers_with none;
  find_pr_by_head = λ h. answers_with none;
  default_branch = answers_with [];
  repo_merge_settings = λ g. (err (say "404"), g);
  branch_head = λ h. answers_with none;
  path_exists = λ p. answers_with false;
  add_assignees = λ n l. noted n;
  remove_assignee = λ n l. noted n;
  add_labels = λ n l. noted n;
  remove_label = λ n l. noted n;
  add_comment = λ n m. noted n;
}

abbrev up : Client (List ℕ)
up = service (answers_with (seven ∷ []))

abbrev down : Client (List ℕ)
down = service (λ g. (err (say "502"), g))

abbrev asked : Request
asked = record {
  worker = "w";
  node = "n1";
  login = "bot";
  stack = "s";
  pin = "";
  drivers_hash = "";
}

abbrev begun : World (List ℕ)
begun = record { store = fresh; github = [] }

abbrev seven_granted : Granted
seven_granted = record { number = 7; title = "t"; body = "b"; labels = "in_progress" ∷ [] }

seven_run :
    grant_work up 5 asked begun ≡ (ok (issue seven_granted), (grant_work up 5 asked begun).1)
unfolding grant_work ◌>>=◌ write query call within ask attempt pass_world granting_pass node_block
    quarantine_block version_block drivers_block lifecycle_block node_quarantine node_version
    node_drivers_hash pending_lifecycle_commands find put delete granted_issues live_claims
    malformed_issues waiting_issues dependency_block walk_closure visit visit_all expand
    note_blockers list_blocked_by kept_blocked order_by pop upsert_driver
seven_run = refl

grant_work-Granting_example :
    (gate asked (registered up asked begun).store ≡ none)
    × Eligible up 5 asked begun.github fresh
        (issue seven_granted)
        (grant_work up 5 asked begun).1.store.grants
grant_work-Granting_example =
    grant_work-Granting up 5 asked seven_granted begun (grant_work up 5 asked begun).1 seven_run

grant_work-SameRows_example : SameRows "o/other" fresh (grant_work down 5 asked begun).1.store
grant_work-SameRows_example =
    grant_work-SameRows down "o/other" (λ e. absurd (cc (ap (λ (s : String). s == "o/other") e))) 5
      asked begun

open_gate : gate asked (registered down asked begun).store ≡ none
unfolding node_block quarantine_block version_block drivers_block lifecycle_block node_quarantine
    node_version node_drivers_hash pending_lifecycle_commands find put upsert_driver
open_gate = refl

grant_work-Reported_example :
    Reported down 5 asked begun
      (grant_work down 5 asked begun).0
      (grant_work down 5 asked begun).1.store
grant_work-Reported_example = grant_work-Reported down 5 asked begun open_gate

-- a node with a drain pending
abbrev draining : World (List ℕ)
draining = record { store = (queue_command "n1" "drain" none false 5 fresh).1; github = [] }

drain_waits : pending_lifecycle_commands "n1" (registered up asked draining).store ≡ "drain" ∷ []
unfolding pending_lifecycle_commands upsert_driver queue_command insert_by put
drain_waits = refl

grant_work-stopped_example :
    (reason : Message) × (grant_work up 5 asked draining
      ≡ (ok (Answer.refused reason), registered up asked draining))
grant_work-stopped_example =
    grant_work-stopped up 5 asked draining (inr (inr (inr ("drain", [], drain_waits))))
