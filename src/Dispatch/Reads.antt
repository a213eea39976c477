-- ===== src/Dispatch/Reads.antt =====
-- dispatch.py: the reads of one granting pass, memoized, and the dependency lanes of ADR-0053.
use the_ozolith.Common.{
  ℕ, Option, none, some, List, [], ◌∷◌, ◌++◌, if◌then◌else◌, ◌==◌, nat_eq, string_eq, pair_eq,
  triple_eq, list_eq,
}
use the_ozolith.Common.Table.{Table, find, put}
use the_ozolith.Common.Message.{Message, lit, repr, num, say}
use the_ozolith.Common.Exec.{Result, ok, err, Exec, pure, raise, ◌>>=◌}
use the_ozolith.Deps.{
  Ref, Issue, PullRequest, RepoMergeSettings, Error, cycle, cross_repo, github, key_error,
  out_of_fuel, DependencyClosure, Kind, ready, chained, wait, malformed,
}
use the_ozolith.Deps.Walk.{walk_closure}
use the_ozolith.Deps.Preconditions.{chain_preconditions}
use the_ozolith.Deps.Resolve.{resolve}
use the_ozolith.GitHub.{Client, World, call}

-- the world of a pass, with `_PassReads` and `settings_cache`
pub record Pass (G : Type 0) : Type 0 where
  pub world : World G
  pub blocked : Table ℕ (List Issue)
  pub prs : Table Ref (Option PullRequest)
  pub settings : Option RepoMergeSettings

module _ {G : Type 0} where
  abbrev pub begin : World G → Pass G
  begin w = record { world = w; blocked = []; prs = []; settings = none }

module _ {G A : Type 0} where
  -- an action of the world within the pass
  unfoldable pub within : Exec Error (World G) A → Exec Error (Pass G) A
  within m p = let (r, w) = m p.world in (r, record p { world = w })

-- the lane of an issue that may not be granted
pub data Lane : Type 0 where
  is_malformed is_waiting : Message → Lane

abbrev cycle_text : List ℕ → Message
cycle_text [] = say " — re-edge the relations on GitHub (ADR-0053)"
cycle_text (n ∷ []) = lit "#" ∷ num n ∷ say " — re-edge the relations on GitHub (ADR-0053)"
cycle_text (n ∷ m ∷ ns) = lit "#" ∷ num n ∷ lit " -> " ∷ cycle_text (m ∷ ns)

-- the texts of DependencyCycleError and CrossRepoEdgeError
abbrev pub malformed_text : Error → Message
malformed_text (cycle ns) = lit "dependency cycle in the blocked-by closure: " ∷ cycle_text ns
malformed_text (cross_repo n foreign) =
    lit "issue #"
    ∷ num n
    ∷ lit " is blocked by an issue in "
    ∷ repr foreign
    ∷ say
        " — a cross-repo Dependency Edge on a claimable issue is malformed (ADR-0053); replace it with a locally created stand-in issue"
malformed_text (github m) = m
malformed_text (key_error n) = []
malformed_text out_of_fuel = []

abbrev pub paused_text : ℕ → Message → Message
paused_text n m =
    lit "dependency read for issue #"
    ∷ num n
    ∷ lit " failed — dispatch pauses rather than granting with unknown ordering (ADR-0053): "
    ∷ m

module _ {G : Type 0} (client : Client G) where
  open client use {repo, clock}

  unfoldable pub kept_blocked : ℕ → List Issue → Exec Error (Pass G) (List Issue)
  kept_blocked n issues p = (ok issues, record p { blocked = put n issues p.blocked })

  abbrev pub blocked_memo : ℕ → Option (List Issue) → Exec Error (Pass G) (List Issue)
  blocked_memo n (some issues) = pure issues
  blocked_memo n none = do issues ← within (call (client.list_blocked_by n)); kept_blocked n issues

  -- `_PassReads.list_blocked_by`
  unfoldable pub list_blocked_by : ℕ → Exec Error (Pass G) (List Issue)
  list_blocked_by n p = blocked_memo n (find n p.blocked) p

  unfoldable pub kept_pr : Ref → Option PullRequest → Exec Error (Pass G) (Option PullRequest)
  kept_pr head pr p = (ok pr, record p { prs = put head pr p.prs })

  abbrev pub pr_memo : Ref → Option (Option PullRequest) → Exec Error (Pass G) (Option PullRequest)
  pr_memo head (some pr) = pure pr
  pr_memo head none = do pr ← within (call (client.find_open_pr_by_head head)); kept_pr head pr

  -- `_PassReads.find_open_pr_by_head`
  unfoldable pub find_open_pr_by_head : Ref → Exec Error (Pass G) (Option PullRequest)
  find_open_pr_by_head head p = pr_memo head (find head p.prs) p

  unfoldable pub kept_settings : RepoMergeSettings → Exec Error (Pass G) RepoMergeSettings
  kept_settings settings p = (ok settings, record p { settings = some settings })

  abbrev pub settings_memo : Option RepoMergeSettings → Exec Error (Pass G) RepoMergeSettings
  settings_memo (some settings) = pure settings
  settings_memo none = do
    settings ← within (call client.repo_merge_settings)
    kept_settings settings

  -- `settings_cache[0]`, fetched at most once a pass
  unfoldable pub merge_settings : Exec Error (Pass G) RepoMergeSettings
  merge_settings p = settings_memo p.settings p

  -- the handlers of `_dependency_block`
  abbrev pub after_walk :
      ℕ
      → (DependencyClosure → Exec Error (Pass G) (Option Lane))
      → Result Error DependencyClosure
      → Exec Error (Pass G) (Option Lane)
  after_walk n next (ok closure) = next closure
  after_walk n next (err (cycle ns)) = pure (some (is_malformed (malformed_text (cycle ns))))
  after_walk n next (err (cross_repo k foreign)) =
      pure (some (is_malformed (malformed_text (cross_repo k foreign))))
  after_walk n next (err (github m)) = raise (github (paused_text n m))
  after_walk n next (err (key_error k)) = raise (key_error k)
  after_walk n next (err out_of_fuel) = raise out_of_fuel

  abbrev off_lane : Option Message → Option Lane
  off_lane none = none
  off_lane (some off) = some (is_waiting (off ++ say "; dependents wait for full merge (ADR-0053)"))

  abbrev pub lane_of : Kind → Message → Exec Error (Pass G) (Option Lane)
  lane_of malformed reason = pure (some (is_malformed reason))
  lane_of wait reason = pure (some (is_waiting reason))
  lane_of chained reason = do
    settings ← merge_settings
    pure (off_lane (chain_preconditions settings))
  lane_of ready reason = pure none

  abbrev pub after_closure : ℕ → DependencyClosure → Exec Error (Pass G) (Option Lane)
  after_closure n closure = if closure.order == n ∷ [] then pure none else do
    default ← within (call client.default_branch)
    decision ← resolve find_open_pr_by_head closure default
    lane_of decision.kind decision.reason

  -- `_dependency_block`
  unfoldable pub dependency_block : ℕ → ℕ → Exec Error (Pass G) (Option Lane)
  dependency_block fuel n p =
      let (r, p') = walk_closure repo list_blocked_by fuel n p in
      after_walk n (after_closure n) r p'
