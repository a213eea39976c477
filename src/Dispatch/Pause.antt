-- ===== src/Dispatch/Pause.antt =====
-- dispatch.py: what an answer of `grant_work` says of the pause of its repository.
use the_ozolith.Common.{
  ℕ, ◌≡◌, refl, sym, ap, ◌⊎◌, inl, inr, Option, none, some, nat_eq, string_eq, pair_eq, triple_eq,
  list_eq,
}
use the_ozolith.Common.Table.{find, find-put_self, find-delete_self}
use the_ozolith.Common.Message.{Message}
use the_ozolith.Common.Exec.{Result, ok, err, ◌>>=◌}
use the_ozolith.Deps.{Error, cycle, cross_repo, github, key_error, out_of_fuel}
use the_ozolith.Store.{Store, Advisory}
use the_ozolith.Store.Grants.{upsert_driver}
use the_ozolith.Store.Flags.{record_dispatch_pause, clear_dispatch_pause, seen_again}
use the_ozolith.GitHub.{Client, World, query, write}
use the_ozolith.Dispatch.Gates.{node_block}
use the_ozolith.Dispatch.Grant.{
  Request, Answer, pass_world, granting_pass, after_pass, attempt, grant_work, pause_reason,
}

-- the world once the driver is registered
abbrev pub registered : {G : Type 0} → Client G → Request → World G → World G
registered client req w = record w {
  store =
      upsert_driver req.worker req.node req.login "implementer" client.repo req.stack
        (client.clock w.github) w.store;
}

-- the reasons that the gates give
abbrev pub gate : Request → Store → Option Message
gate req = node_block req.node req.pin req.drivers_hash

module _ {G : Type 0} (client : Client G) (fuel : ℕ) (req : Request) (w : World G) where
  pub grant_work-closed :
      (reason : Message)
      → gate req (registered client req w).store ≡ some reason
      → grant_work client fuel req w ≡ (ok (Answer.refused reason), registered client req w)
  unfolding grant_work ◌>>=◌ write query
  grant_work-closed reason h = rw h refl

  -- How a pass that no gate stopped is reported: the pause is cleared, or it is recorded with the
  -- reason that is answered; an error of the service itself never reaches the caller.
  abbrev pub Reported : Result Error Answer → Store → Type 0
  Reported (ok a) s =
      (find client.repo s.dispatch_pauses ≡ none)
      ⊎ ((row : Advisory) × (find client.repo s.dispatch_pauses ≡ some row)
          × (a ≡ Answer.refused (pause_reason client row.detail)))
  Reported (err (github m)) s = ⊥
  Reported (err (cycle ns)) s = Unit
  Reported (err (cross_repo n foreign)) s = Unit
  Reported (err (key_error n)) s = Unit
  Reported (err out_of_fuel) s = Unit

  seen_again_detail :
      (m : Message) (now : ℕ) (o : Option Advisory) → (seen_again m now o).detail ≡ m
  seen_again_detail m now none = refl
  seen_again_detail m now (some old) = refl

  after_pass-Reported :
      (r : Result Error Answer) (u : World G)
      → Reported (after_pass client r u).0 (after_pass client r u).1.store
  unfolding ◌>>=◌ write record_dispatch_pause clear_dispatch_pause
  after_pass-Reported (ok a) u = inl (find-delete_self client.repo u.store.dispatch_pauses)
  after_pass-Reported (err (github m)) u =
      let row : Advisory =
        seen_again m (client.clock u.github) (find client.repo u.store.dispatch_pauses) in
      inr (
        row,
        find-put_self client.repo row u.store.dispatch_pauses,
        ap (λ (d : Message). Answer.refused (pause_reason client d))
            (sym (
              seen_again_detail m (client.clock u.github)
                (find client.repo u.store.dispatch_pauses))),
      )
  after_pass-Reported (err (cycle ns)) u = tt
  after_pass-Reported (err (cross_repo n foreign)) u = tt
  after_pass-Reported (err (key_error n)) u = tt
  after_pass-Reported (err out_of_fuel) u = tt

  -- A pass that no gate stops leaves the dispatch pause of its repository cleared, or recorded with the
  -- reason that it answers; an error of GitHub never reaches the caller.
  pub grant_work-Reported :
      gate req (registered client req w).store ≡ none
      → Reported (grant_work client fuel req w).0 (grant_work client fuel req w).1.store
  unfolding grant_work ◌>>=◌ write query attempt
  grant_work-Reported h =
      let passed = pass_world (granting_pass client fuel req) (registered client req w) in
      rw h (after_pass-Reported passed.0 passed.1)
