-- ===== src/Janitor/Sweep.antt =====
-- janitor.py: the two-phase, evidence-first escalation of a silent claim.
use the_ozolith.Common.Exec.{ok, Exec, pure, ◌>>=◌, ◌>>◌, catch}
use the_ozolith.Common.{
  ℕ, ◌+◌, ◌-◌, max, String, Bool, true, false, not, ◌&&◌, Option, none, some, List, [], ◌∷◌, ◌++◌,
  leb, if◌then◌else◌, length, ◌==◌, nat_eq, string_eq, pair_eq, triple_eq, list_eq, contains,
}
use the_ozolith.Common.Message.{Message, lit, num, say}
use the_ozolith.Vocabulary
use the_ozolith.Vocabulary.{plan_ready, in_progress, pr_ready, needs_human}
use the_ozolith.Deps.{Issue, PullRequest, Error}
use the_ozolith.Deps.Branch.{branch_for}
use the_ozolith.Store.{Store}
use the_ozolith.Store.Nodes.{node_last_seen}
use the_ozolith.Store.Events.{LiveClaim, live_claims, driver_last_seen}
use the_ozolith.Store.Flags.{flag_zombie, clear_zombie_flag}
use the_ozolith.Store.Ledger.{record_janitor_action, janitor_acted}
use the_ozolith.GitHub.{Client, World, call, query, write}

abbrev at_least : ℕ → Option ℕ → ℕ
at_least t none = t
at_least t (some u) = max t u

abbrev if_named : String → Option ℕ → Option ℕ
if_named name seen = if name == "" then none else seen

-- `_last_seen`
unfoldable pub last_seen : LiveClaim → Store → ℕ
last_seen c s =
    at_least (at_least c.last_event_at (if_named c.node (node_last_seen c.node s)))
      (if_named c.driver (driver_last_seen c.driver s))

abbrev or_unknown : String → String
or_unknown s = if s == "" then "unknown" else s

-- `issue_evidence_url`
abbrev issue_evidence_url : String → ℕ → Message
issue_evidence_url repo n =
    lit "https://github.com/" ∷ lit repo ∷ lit "/tree/theozolith/evidence/runs/issue-" ∷ num n ∷ []

-- `_escalation_comment`; the seconds are whole
abbrev escalation_comment : LiveClaim → String → ℕ → Message
escalation_comment c repo silence =
    lit "Run `"
      ∷ lit (or_unknown c.run_id)
      ∷ lit "` (worker "
      ∷ lit (or_unknown c.driver)
      ∷ lit ") went silent mid-flight ("
      ∷ num silence
      ∷ lit
          "s past its last signal) and its evidence bundle has landed. The claim is released and escalated: `failed` + `needs_human` (ADR-0016).\n\nEvidence: "
      ∷ issue_evidence_url repo c.issue
    ++ say "\n\nA human re-queues by removing `failed` and restoring `plan_ready`."

abbrev pub silent_reason : LiveClaim → ℕ → ℕ → Message
silent_reason c silence grace =
    lit "worker "
    ∷ lit (or_unknown c.driver)
    ∷ lit " silent "
    ∷ num silence
    ∷ lit "s (grace "
    ∷ num grace
    ∷ lit "s); run "
    ∷ lit (or_unknown c.run_id)
    ∷ say " escalated failed + needs_human with swept evidence"

abbrev pub is_shipped : Option PullRequest → Bool
is_shipped none = false
is_shipped (some pr) = contains pr.labels pr_ready

abbrev pub pr_number : Option PullRequest → ℕ
pr_number none = 0
pr_number (some pr) = pr.number

-- `IN_PROGRESS not in issue.labels and not issue.assignees`
abbrev pub is_released : Issue → Bool
is_released i = not (contains i.labels in_progress) && length i.assignees == 0

-- `run_dir`
abbrev run_dir : ℕ → String → Message
run_dir n run_id = lit "runs/issue-" ∷ num n ∷ lit "/" ∷ lit run_id ∷ []

-- the three places where a bundle may have landed
abbrev pub evidence_paths : LiveClaim → List Message
evidence_paths c =
    (run_dir c.issue c.run_id ++ say "/swept.json")
    ∷ (run_dir c.issue c.run_id ++ say "/run.json")
    ∷ (lit "sweeps/" ∷ lit c.run_id ∷ say "/swept.json")
    ∷ []

module _ {G : Type 0} (client : Client G) where
  open client use {repo, clock}

  abbrev Act : Type 0 → Type 0
  Act A = Exec Error (World G) A

  abbrev pub stop_or : Act Bool → Bool → Act Bool
  stop_or rest true = pure true
  stop_or rest false = rest

  -- `any(path_exists(path) for path in paths)`, which stops at the first
  unfoldable pub any_path : List Message → Act Bool
  any_path [] = pure false
  any_path (path ∷ paths) = do
    found ← call (client.path_exists path)
    stop_or (any_path paths) found

  -- `_evidence_landed`
  unfoldable pub evidence_landed : LiveClaim → Act Bool
  unfolding any_path
  evidence_landed c = any_path (evidence_paths c)

  unfoldable pub remove_assignees : ℕ → List String → Act (Unit {0})
  remove_assignees n [] = pure tt
  remove_assignees n (login ∷ logins) =
      call (client.remove_assignee n login) >> remove_assignees n logins

  abbrev pub close : LiveClaim → Message → Act Bool
  close c reason = do
    write clock (record_janitor_action (some repo) c.issue c.run_id c.driver reason)
    write clock (λ _. clear_zombie_flag repo c.issue c.run_id)
    pure false

  -- labels and forensics land before the claim is stripped
  abbrev pub escalate : LiveClaim → ℕ → ℕ → Issue → Act Bool
  escalate c silence grace i = do
    call (client.add_labels c.issue (Vocabulary.failed ∷ needs_human ∷ []))
    call (client.add_comment c.issue (escalation_comment c repo silence))
    remove_assignees c.issue i.assignees
    call (client.remove_label c.issue in_progress)
    write clock (
        record_janitor_action (some repo) c.issue c.run_id c.driver (silent_reason c silence grace))
    write clock (λ _. clear_zombie_flag repo c.issue c.run_id)
    pure true

  abbrev pub when_landed : LiveClaim → ℕ → ℕ → Issue → Bool → Act Bool
  when_landed c silence grace i false = pure false
  when_landed c silence grace i true = escalate c silence grace i

  abbrev pub phase_two : LiveClaim → ℕ → ℕ → Issue → Option PullRequest → Act Bool
  phase_two c silence grace i pr =
      if is_shipped pr
      then close c (lit "skipped: PR #" ∷ num (pr_number pr) ∷ say " is pr_ready")
      else (do landed ← evidence_landed c; when_landed c silence grace i landed)

  abbrev pub verify : LiveClaim → ℕ → ℕ → Issue → Act Bool
  verify c silence grace i =
      if is_released i then close c (say "claim already released on GitHub") else do
        pr ← call (client.find_open_pr_by_head (branch_for c.issue))
        phase_two c silence grace i pr

  abbrev pub flagged : LiveClaim → ℕ → ℕ → Act Bool
  flagged c silence grace = do
    write clock (flag_zombie repo c.issue c.run_id c.driver c.node)
    i ← call (client.get_issue c.issue)
    verify c silence grace i

  abbrev pub resurfaced : LiveClaim → Act Bool
  resurfaced c = do write clock (λ _. clear_zombie_flag repo c.issue c.run_id); pure false

  -- `silence <= grace_seconds`
  abbrev pub is_quiet_enough : ℕ → LiveClaim → World G → Bool
  is_quiet_enough grace c w = leb (clock w.github) (last_seen c w.store + grace)

  unfoldable pub sweep_one : ℕ → LiveClaim → Act Bool
  unfolding evidence_landed remove_assignees
  sweep_one grace c w =
      if janitor_acted repo c.issue c.run_id w.store
      then (ok false, w)
      else if is_quiet_enough grace c w
      then resurfaced c w
      else flagged c (clock w.github - last_seen c w.store) grace w

  -- `except Exception`: one broken claim never starves the rest of the pass
  abbrev pub tolerated : Act Bool → Act Bool
  tolerated m = catch m (λ e. pure false)

  abbrev pub cons_if : ℕ → Bool → List ℕ → List ℕ
  cons_if n true l = n ∷ l
  cons_if n false l = l

  unfoldable pub sweep_claims : ℕ → List LiveClaim → Act (List ℕ)
  sweep_claims grace [] = pure []
  sweep_claims grace (c ∷ cs) = do
    escalated ← if c.repo == repo then tolerated (sweep_one grace c) else pure false
    rest ← sweep_claims grace cs
    pure (cons_if c.issue escalated rest)

  unfoldable pub sweep : ℕ → Act (List ℕ)
  unfolding sweep_claims
  sweep grace = do claims ← query live_claims; sweep_claims grace claims
