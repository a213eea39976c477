-- ===== src/Janitor/Release.antt =====
-- janitor.py: the release of grants with no claimed event inside the activation window.
use the_ozolith.Common.Exec.{ok, Exec, pure, ◌>>=◌, ◌>>◌, catch}
use the_ozolith.Common.{
  ℕ, String, Bool, true, false, not, ◌&&◌, some, List, [], ◌∷◌, if◌then◌else◌, any, ◌==◌, nat_eq,
  string_eq, pair_eq, triple_eq, list_eq,
}
use the_ozolith.Common.Message.{Message, lit, num, say}
use the_ozolith.Vocabulary.{plan_ready, in_progress}
use the_ozolith.Deps.{Error}
use the_ozolith.Store.Grants.{GrantRow, expired_grants, release_grant, record_grant}
use the_ozolith.Store.Events.{LiveClaim, live_claims}
use the_ozolith.Store.Ledger.{record_janitor_action}
use the_ozolith.GitHub.{Client, World, call, query, update_with, write}
use the_ozolith.Janitor.Sweep.{remove_assignees, cons_if}

-- `(repo, number) in live`
abbrev pub is_live : List LiveClaim → String → ℕ → Bool
is_live claims repo n = any (λ (c : LiveClaim). c.repo == repo && c.issue == n) claims

abbrev pub never_activated : String → ℕ → Message
never_activated worker window =
    lit "released never-activated grant to "
    ∷ lit worker
    ∷ lit " (no claimed event within "
    ∷ num window
    ∷ say "s)"

module _ {G : Type 0} (client : Client G) where
  open client use {repo, clock}

  abbrev Act : Type 0 → Type 0
  Act A = Exec Error (World G) A

  -- the GitHub unwind of a claim
  abbrev pub unwind : ℕ → Act (Unit {0})
  unwind n = do
    i ← call (client.get_issue n)
    remove_assignees client n i.assignees
    call (client.remove_label n in_progress)
    call (client.add_labels n (plan_ready ∷ []))

  abbrev pub unwind_if : ℕ → Bool → Act Bool
  unwind_if n false = pure false
  unwind_if n true = unwind n >> pure true

  -- the `try`: whoever removes the row owns the issue's fate
  abbrev pub try_release : GrantRow → Act Bool
  try_release g = do
    won ← update_with clock (λ _. release_grant g.repo g.issue)
    unwind_if g.issue won

  abbrev pub put_back : GrantRow → Act Bool
  put_back g = do
    write clock (record_grant g.repo g.issue g.grant.worker g.grant.node g.grant.login)
    pure false

  abbrev pub ledger : ℕ → GrantRow → Bool → Act Bool
  ledger window g false = pure false
  ledger window g true = do
    write clock (
        record_janitor_action (some g.repo) g.issue "(never-activated)" g.grant.worker
          (never_activated g.grant.worker window))
    pure true

  abbrev pub drop_row : GrantRow → Act Bool
  drop_row g = do won ← update_with clock (λ _. release_grant g.repo g.issue); pure false

  -- one row of the loop: whether the issue was released
  unfoldable pub release_one : ℕ → List LiveClaim → GrantRow → Act Bool
  unfolding remove_assignees
  release_one window live g =
      if not (g.repo == repo)
      then pure false
      else if is_live live g.repo g.issue
      then drop_row g
      else (do released ← catch (try_release g) (λ e. put_back g); ledger window g released)

  unfoldable pub release_rows : ℕ → List LiveClaim → List GrantRow → Act (List ℕ)
  unfolding release_one
  release_rows window live [] = pure []
  release_rows window live (g ∷ gs) = do
    released ← release_one window live g
    rest ← release_rows window live gs
    pure (cons_if client g.issue released rest)

  abbrev pub expired : ℕ → Act (List GrantRow)
  expired window w = (ok (expired_grants window (clock w.github) w.store), w)

  unfoldable pub release_never_activated : ℕ → Act (List ℕ)
  unfolding release_rows
  release_never_activated window = do
    live ← query live_claims
    rows ← expired window
    release_rows window live rows
