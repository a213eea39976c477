-- ===== src/Janitor/Drift.antt =====
-- janitor.py: the base-drift sweep, the second janitorial exception of ADR-0053.
-- The zone of a PR body is read by a parameter, `parse_zone` of basedon.py.
use the_ozolith.Common.{
  ℕ, String, Bool, true, false, not, ◌&&◌, Option, none, some, List, [], ◌∷◌, if◌then◌else◌, ◌==◌,
  nat_eq, string_eq, pair_eq, triple_eq, list_eq, contains,
}
use the_ozolith.Common.Message.{Message, lit, num, say}
use the_ozolith.Common.Exec.{Result, ok, err, Exec, pure, ◌>>=◌, ◌>>◌}
use Prim.Native.String.{slice, ◌++◌ as ◌⧺◌}
use the_ozolith.Vocabulary.{blocked, needs_human}
use the_ozolith.Deps.{PullRequest, Error}
use the_ozolith.Deps.Branch.{branch_for}
use the_ozolith.Store.Flags.{record_chained_dependent, clear_chained_dependent, chained_prs}
use the_ozolith.Store.Ledger.{record_janitor_action, janitor_acted}
use the_ozolith.GitHub.{Client, World, call, query, write}
use the_ozolith.Janitor.Sweep.{tolerated, cons_if, pr_number}

-- what the zone records: the blocker, and its branch's tip at checkout
pub record BasedOn : Type 0 where
  pub issue : ℕ
  pub sha : String

-- `sha[:12]`
abbrev pub shortened : String → String
shortened sha = slice sha 0 12

-- the ledger key of one drift, and that of its comment
abbrev pub drift_key : String → String → String
drift_key sha tip = "base-drift-" ⧺ (shortened sha ⧺ ("-" ⧺ shortened tip))

abbrev pub comment_key : String → String
comment_key key = key ⧺ "-comment"

-- why the blocker's PR is a human's to decide on, or the empty text
abbrev pub rejected : Option PullRequest → String
rejected none = ""
rejected (some pr) =
    if not (pr.state == "open") && not pr.merged
    then "closed unmerged"
    else if pr.state == "open" && contains pr.labels blocked
    then "blocked"
    else ""

abbrev pub is_open : Option PullRequest → Bool
is_open none = false
is_open (some pr) = pr.state == "open"

-- `_drift_comment`
abbrev drift_comment : BasedOn → ℕ → String → Message
drift_comment based blocker_pr tip =
    lit "Base drift (ADR-0053): this PR is based on issue #"
    ∷ num based.issue
    ∷ lit "'s branch (PR #"
    ∷ num blocker_pr
    ∷ lit "), whose tip was `"
    ∷ lit based.sha
    ∷ lit "` when this work was checked out — but the branch has since moved to `"
    ∷ lit tip
    ∷ say
        "`. The diff and any review no longer frame against the base this PR was built on.\n\nNo auto-repair: a human decides — re-queue the dependent so a fresh Run rebuilds against the new base, or rule the drift immaterial and proceed.\n\nApplied `blocked` + `needs_human`."

abbrev recovered_reason : ℕ → String → String → Message
recovered_reason n sha tip =
    lit "base-drift escalation on PR #"
    ∷ num n
    ∷ lit " recovered as already complete ("
    ∷ lit (shortened sha)
    ∷ lit " -> "
    ∷ lit (shortened tip)
    ∷ say "): label present and forensic comment recorded; ledger healed, no write"

abbrev comment_reason : ℕ → Message
comment_reason n = lit "base-drift forensic comment on PR #" ∷ num n ∷ []

abbrev moved_reason : ℕ → BasedOn → ℕ → String → Message
moved_reason n based blocker_pr tip =
    lit "base drift on PR #"
    ∷ num n
    ∷ lit ": blocker #"
    ∷ num based.issue
    ∷ lit " (PR #"
    ∷ num blocker_pr
    ∷ lit ") moved "
    ∷ lit (shortened based.sha)
    ∷ lit " -> "
    ∷ lit (shortened tip)
    ∷ say "; escalated blocked + needs_human (ADR-0053, no auto-repair)"

module _ {G : Type 0} (client : Client G) where
  open client use {repo, clock}

  abbrev Act : Type 0 → Type 0
  Act A = Exec Error (World G) A

  -- an entry of the ledger for the dependent
  abbrev pub enter : PullRequest → String → Message → Act (Unit {0})
  enter pr key reason = write clock (record_janitor_action (some repo) pr.number key "" reason)

  -- the comment, unless it landed before
  abbrev pub comment_once : PullRequest → BasedOn → ℕ → String → String → Bool → Act (Unit {0})
  comment_once pr based blocker_pr tip key true = pure tt
  comment_once pr based blocker_pr tip key false = do
    call (client.add_comment pr.number (drift_comment based blocker_pr tip))
    enter pr (comment_key key) (comment_reason pr.number)

  -- the comment first, the labels next, the full key last
  abbrev pub block_dependent : PullRequest → BasedOn → ℕ → String → String → Bool → Act Bool
  block_dependent pr based blocker_pr tip key commented = do
    comment_once pr based blocker_pr tip key commented
    call (client.add_labels pr.number (blocked ∷ needs_human ∷ []))
    enter pr key (moved_reason pr.number based blocker_pr tip)
    pure true

  -- the label is on: the ledger is healed if the comment landed
  abbrev pub heal : PullRequest → BasedOn → String → String → Bool → Act Bool
  heal pr based tip key true = do
    enter pr key (recovered_reason pr.number based.sha tip)
    pure false
  heal pr based tip key false = pure false

  abbrev pub drifted : PullRequest → BasedOn → ℕ → String → Act Bool
  drifted pr based blocker_pr tip w =
      let key = drift_key based.sha tip in
      let commented = janitor_acted repo pr.number (comment_key key) w.store in
      if janitor_acted repo pr.number key w.store
      then (ok false, w)
      else if contains pr.labels blocked
      then heal pr based tip key commented w
      else block_dependent pr based blocker_pr tip key commented w

  -- `tip is None or tip == based.sha`
  abbrev pub compare_tip : PullRequest → BasedOn → ℕ → Option String → Act Bool
  compare_tip pr based blocker_pr none = pure false
  compare_tip pr based blocker_pr (some tip) =
      if tip == based.sha then pure false else drifted pr based blocker_pr tip

  abbrev pub watch_blocker : PullRequest → BasedOn → Option PullRequest → Act Bool
  watch_blocker pr based blocker =
      if not (rejected blocker == "")
      then (do
        write clock (
            record_chained_dependent repo pr.number based.issue (pr_number blocker)
              (rejected blocker) based.sha)
        pure false)
      else (do
        write clock (λ _. clear_chained_dependent repo pr.number)
        if not (is_open blocker) then pure false else (do
          tip ← call (client.branch_head (branch_for based.issue))
          compare_tip pr based (pr_number blocker) tip))

  abbrev pub drift_zone : PullRequest → Option BasedOn → Act Bool
  drift_zone pr none = do write clock (λ _. clear_chained_dependent repo pr.number); pure false
  drift_zone pr (some based) = do
    blocker ← call (client.find_pr_by_head (branch_for based.issue))
    watch_blocker pr based blocker

  module _ (parse_zone : String → Option BasedOn) where
    unfoldable pub drift_one : PullRequest → Act Bool
    drift_one pr = drift_zone pr (parse_zone pr.body)

    unfoldable pub drift_all : List PullRequest → Act (List ℕ)
    drift_all [] = pure []
    drift_all (pr ∷ prs) = do
      acted ← tolerated client (drift_one pr)
      rest ← drift_all prs
      pure (cons_if client pr.number acted rest)

    -- the display rows of pull requests that left the open pool
    unfoldable pub clear_unseen : List ℕ → List ℕ → Act (Unit {0})
    clear_unseen seen [] = pure tt
    clear_unseen seen (n ∷ ns) =
        (if contains seen n then pure tt else write clock (λ _. clear_chained_dependent repo n))
        >> clear_unseen seen ns

    abbrev pub numbers : List PullRequest → List ℕ
    numbers [] = []
    numbers (pr ∷ prs) = pr.number ∷ numbers prs

    abbrev pub over : Result Error (List PullRequest) → Act (List ℕ)
    over (err e) = pure []
    over (ok prs) = do
      acted ← drift_all prs
      rows ← query (chained_prs repo)
      clear_unseen (numbers prs) rows
      pure acted

    unfoldable pub sweep_base_drift : Act (List ℕ)
    unfolding drift_one drift_all clear_unseen
    sweep_base_drift w = let (r, u) = call client.list_open_prs w in over r u
