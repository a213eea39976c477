-- ===== src/Dispatch/Grant.antt =====
-- dispatch.py: the granting pass and `grant_work`.
use the_ozolith.Common.{
  ℕ, String, Bool, true, false, not, ◌||◌, Option, none, some, List, [], ◌∷◌, if◌then◌else◌, length,
  ◌==◌, nat_eq, string_eq, pair_eq, triple_eq, list_eq, contains, set_add, set_remove,
}
use the_ozolith.Common.Message.{Message, lit, say}
use the_ozolith.Common.Exec.{Result, ok, err, Exec, pure, raise, ◌>>=◌, ◌>>◌}
use the_ozolith.Common.Order.{order_by}
use Prim.Native.String.{compare}
use text.Mathlib.Text.{is_le}
use the_ozolith.Vocabulary
use the_ozolith.Vocabulary.{plan_ready, in_progress, pr_ready, reviewable}
use the_ozolith.Deps.{Issue, Error, github, cycle, cross_repo, key_error, out_of_fuel}
use the_ozolith.Store.{Store}
use the_ozolith.Store.Grants.{upsert_driver, record_grant, granted_issues}
use the_ozolith.Store.Events.{LiveClaim, live_claims}
use the_ozolith.Store.Flags.{
  record_malformed, clear_malformed, malformed_issues, record_wait, clear_wait, waiting_issues,
  record_dispatch_pause, clear_dispatch_pause,
}
use the_ozolith.GitHub.{Client, World, call, query, write}
use the_ozolith.Dispatch.Gates.{node_block}
use the_ozolith.Dispatch.Reads.{
  Pass, begin, within, Lane, is_malformed, is_waiting, dependency_block,
}

-- who asks
pub record Request : Type 0 where
  pub worker : String
  pub node : String
  pub login : String
  pub stack : String
  pub pin : String
  pub drivers_hash : String

-- the issue of a grant, as it is answered
pub record Granted : Type 0 where
  pub number : ℕ
  pub title : String
  pub body : String
  pub labels : List String

pub data Answer : Type 0 where
  issue : Granted → Answer
  nothing : Answer
  refused : Message → Answer

-- what the pass read before its loop
pub record Snapshot : Type 0 where
  pub granted : List ℕ
  pub live : List ℕ
  pub flagged : List ℕ
  pub waiting : List ℕ

abbrev pub live_in : String → List LiveClaim → List ℕ
live_in repo [] = []
live_in repo (c ∷ cs) =
    let rest = live_in repo cs in if c.repo == repo then c.issue ∷ rest else rest

abbrev pub numbers : List Issue → List ℕ
numbers [] = []
numbers (i ∷ is) = i.number ∷ numbers is

abbrev string_le : String → String → Bool
string_le a b = is_le (compare a b)

-- `sorted((issue.labels | {IN_PROGRESS}) - {PLAN_READY})`
abbrev claimed_labels : List String → List String
claimed_labels labels = order_by string_le (set_remove (set_add labels in_progress) plan_ready)

abbrev pub granted_answer : Issue → Answer
granted_answer i =
    issue (record {
      number = i.number;
      title = i.title;
      body = i.body;
      labels = claimed_labels i.labels;
    })

-- spoken for on GitHub
abbrev pub is_taken : Issue → Bool
is_taken i = not (length i.assignees == 0) || contains i.labels in_progress

abbrev failed_detail : Message
failed_detail = say "carries failed + plan_ready; dispatch refuses to grant (ADR-0016)"

abbrev pub is_failed : Issue → Bool
is_failed i = contains i.labels Vocabulary.failed

module _ {G A : Type 0} where
  unfoldable pub ask : (Store → A) → Exec Error (Pass G) A
  ask f = within (query f)

  unfoldable pub pass_world : Exec Error (Pass G) A → Exec Error (World G) A
  pass_world m w = let (r, p) = m (begin w) in (r, p.world)

module _ {G : Type 0} (client : Client G) where
  open client use {repo, clock}

  abbrev Passing : Type 0 → Type 0
  Passing A = Exec Error (Pass G) A

  abbrev pub note : (ℕ → Store → Store) → Passing (Unit {0})
  note op = within (write clock op)

  abbrev pub note_if : Bool → (ℕ → Store → Store) → Passing (Unit {0})
  note_if true op = note op
  note_if false op = pure tt

  -- the rows of issues that left the plan_ready pool
  unfoldable pub clear_departed : List ℕ → (ℕ → Store → Store) → List ℕ → Passing (Unit {0})
  clear_departed listed clear [] = pure tt
  clear_departed listed clear (n ∷ ns) = do
    note_if (not (contains listed n)) (λ _. clear n)
    clear_departed listed clear ns

  -- a candidate that the failed label keeps back
  abbrev pub keep_back : Snapshot → ℕ → Passing (Unit {0})
  keep_back snap n = do
    note (record_malformed repo n failed_detail)
    note_if (contains snap.waiting n) (λ _. clear_wait repo n)

  -- the lanes reconcile each other
  abbrev pub park : Snapshot → ℕ → Lane → Passing (Unit {0})
  park snap n (is_malformed detail) = do
    note (record_malformed repo n detail)
    note_if (contains snap.waiting n) (λ _. clear_wait repo n)
  park snap n (is_waiting detail) = do
    note (record_wait repo n detail)
    note_if (contains snap.flagged n) (λ _. clear_malformed repo n)

  -- the claim on GitHub
  abbrev pub github_writes : ℕ → String → Answer → Passing Answer
  github_writes n login answer = do
    within (call (client.add_assignees n login))
    within (call (client.add_labels n (in_progress ∷ [])))
    within (call (client.remove_label n plan_ready))
    pure answer

  -- stale flags go, the grant row lands before the GitHub writes
  abbrev pub claim : Request → Snapshot → Issue → Passing Answer
  claim req snap i = do
    note_if (contains snap.flagged i.number) (λ _. clear_malformed repo i.number)
    note_if (contains snap.waiting i.number) (λ _. clear_wait repo i.number)
    note (record_grant repo i.number req.worker req.node req.login)
    github_writes i.number req.login (granted_answer i)

  abbrev pub settle : Request → Snapshot → Issue → Passing Answer → Option Lane → Passing Answer
  settle req snap i rest none = claim req snap i
  settle req snap i rest (some lane) = park snap i.number lane >> rest

  -- one candidate of the loop; `rest` is the loop over the others
  abbrev pub consider : ℕ → Request → Snapshot → Issue → Passing Answer → Passing Answer
  consider fuel req snap i rest =
      if is_failed i
      then keep_back snap i.number >> rest
      else if is_taken i
      then rest
      else if contains snap.granted i.number || contains snap.live i.number
      then rest
      else (do lane ← dependency_block client fuel i.number; settle req snap i rest lane)

  unfoldable pub candidates_loop : ℕ → Request → Snapshot → List Issue → Passing Answer
  candidates_loop fuel req snap [] = pure nothing
  candidates_loop fuel req snap (i ∷ is) =
      consider fuel req snap i (candidates_loop fuel req snap is)

  -- `_granting_pass`
  unfoldable pub granting_pass : ℕ → Request → Passing Answer
  unfolding candidates_loop clear_departed
  granting_pass fuel req = do
    granted ← ask (granted_issues repo)
    live ← ask (λ s. live_in repo (live_claims s))
    candidates ← within (call (client.list_open_issues plan_ready))
    let listed = numbers candidates
    malformed ← ask (malformed_issues repo)
    clear_departed listed (clear_malformed repo) malformed
    waits ← ask (waiting_issues repo)
    clear_departed listed (clear_wait repo) waits
    flagged ← ask (malformed_issues repo)
    waiting ← ask (waiting_issues repo)
    candidates_loop fuel req
        (record { granted = granted; live = live; flagged = flagged; waiting = waiting }) candidates

  abbrev pub pause_reason : Message → Message
  pause_reason m = lit "dispatch paused for " ∷ lit repo ∷ lit ": " ∷ m

  -- the handler of GitHubError, and the clearing of the pause
  abbrev pub after_pass : Result Error Answer → Exec Error (World G) Answer
  after_pass (ok a) = do write clock (λ _. clear_dispatch_pause repo); pure a
  after_pass (err (github m)) = do
    write clock (record_dispatch_pause repo m)
    pure (refused (pause_reason m))
  after_pass (err (cycle ns)) = raise (cycle ns)
  after_pass (err (cross_repo n foreign)) = raise (cross_repo n foreign)
  after_pass (err (key_error n)) = raise (key_error n)
  after_pass (err out_of_fuel) = raise out_of_fuel

  unfoldable pub attempt : Exec Error (World G) Answer → Exec Error (World G) Answer
  attempt m w = let (r, w') = m w in after_pass r w'

  abbrev pub gated : Option Message → Exec Error (World G) Answer → Exec Error (World G) Answer
  gated (some reason) m = pure (refused reason)
  gated none m = m

  unfoldable pub grant_work : ℕ → Request → Exec Error (World G) Answer
  unfolding granting_pass
  grant_work fuel req = do
    write clock (upsert_driver req.worker req.node req.login "implementer" repo req.stack)
    block ← query (node_block req.node req.pin req.drivers_hash)
    gated block (attempt (pass_world (granting_pass fuel req)))
