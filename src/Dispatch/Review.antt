-- ===== src/Dispatch/Review.antt =====
-- dispatch.py: `review_targets`, the discovery for the Reviewer.
use the_ozolith.Common.{
  ℕ, Option, none, some, List, [], ◌∷◌, if◌then◌else◌, nat_eq, string_eq, pair_eq, triple_eq,
  list_eq,
}
use the_ozolith.Common.Message.{Message, lit}
use the_ozolith.Common.Exec.{Result, ok, err, Exec, pure, raise, ◌>>=◌, ◌>>◌}
use the_ozolith.Vocabulary.{pr_ready, reviewable}
use the_ozolith.Deps.{Issue, Error, github, cycle, cross_repo, key_error, out_of_fuel}
use the_ozolith.Store.Grants.{upsert_driver}
use the_ozolith.Store.Flags.{record_dispatch_pause, clear_dispatch_pause}
use the_ozolith.GitHub.{Client, World, call, query, write}
use the_ozolith.Dispatch.Gates.{review_block}
use the_ozolith.Dispatch.Grant.{Request}

-- the answer of `review_targets`
pub data Targets : Type 0 where
  prs : List ℕ → Targets
  no_prs : Message → Targets

abbrev reviewable_numbers : List Issue → List ℕ
reviewable_numbers [] = []
reviewable_numbers (i ∷ is) =
    let rest = reviewable_numbers is in if reviewable i.labels then i.number ∷ rest else rest

module _ {G : Type 0} (client : Client G) where
  open client use {repo, clock}

  abbrev pub after_listing : Result Error (List Issue) → Exec Error (World G) Targets
  after_listing (ok found) = do
    write clock (λ _. clear_dispatch_pause repo)
    pure (prs (reviewable_numbers found))
  after_listing (err (github m)) = do
    write clock (record_dispatch_pause repo m)
    pure (no_prs (lit "dispatch paused for " ∷ lit repo ∷ lit ": " ∷ m))
  after_listing (err (cycle ns)) = raise (cycle ns)
  after_listing (err (cross_repo n foreign)) = raise (cross_repo n foreign)
  after_listing (err (key_error n)) = raise (key_error n)
  after_listing (err out_of_fuel) = raise out_of_fuel

  unfoldable pub listing : Exec Error (World G) Targets
  listing w = let (r, w') = call (client.list_open_prs_by_label pr_ready) w in after_listing r w'

  abbrev gated_targets : Option Message → Exec Error (World G) Targets
  gated_targets (some reason) = pure (no_prs reason)
  gated_targets none = listing

  unfoldable pub review_targets : Request → Exec Error (World G) Targets
  review_targets req = do
    write clock (upsert_driver req.worker req.node req.login "reviewer" repo req.stack)
    block ← query (review_block req.node req.pin req.drivers_hash)
    gated_targets block
