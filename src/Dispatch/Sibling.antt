-- ===== src/Dispatch/Sibling.antt =====
-- dispatch.py: a pass over one repository leaves the rows of every other repository alone.
use the_ozolith.Common.{
  ℕ, String, ◌≡◌, refl, sym, ap, ◌∙◌, ◌≢◌, Option, none, some, nat_eq, string_eq, pair_eq,
  triple_eq, list_eq,
}
use the_ozolith.Common.Table.{find, find-put_ne, find-delete_ne}
use the_ozolith.Common.Message.{Message}
use the_ozolith.Common.Exec.{Result, ok, err, Exec, pure, raise}
use the_ozolith.Common.Keeps.{Preorder, Keeps, Keeps-bind}
use the_ozolith.Deps.{Error, cycle, cross_repo, github, key_error, out_of_fuel}
use the_ozolith.Store.{Store}
use the_ozolith.Store.Grants.{record_grant, upsert_driver}
use the_ozolith.Store.Flags.{
  record_malformed, clear_malformed, record_wait, clear_wait, record_dispatch_pause,
  clear_dispatch_pause,
}
use the_ozolith.GitHub.{Client, World}
use the_ozolith.GitHub.Kept.{on_store, Keeps-query, Keeps-write}
use the_ozolith.Dispatch.Reads.{Pass, begin}
use the_ozolith.Dispatch.Gates.{node_block}
use the_ozolith.Dispatch.Grant.{
  Request, Answer, pass_world, granting_pass, after_pass, attempt, gated, grant_work,
}
use the_ozolith.Dispatch.Kept.{on_pass}
use the_ozolith.Dispatch.Kept.Granting.{PassOps, Keeps-granting_pass}

-- the rows that carry repository `r`
abbrev pub SameRows : String → Store → Store → Type 0
SameRows r s t =
    ((n : ℕ)
      → (find (r, n) s.grants ≡ find (r, n) t.grants)
        × (find (r, n) s.malformed_states ≡ find (r, n) t.malformed_states)
        × (find (r, n) s.dispatch_waits ≡ find (r, n) t.dispatch_waits))
    × (find r s.dispatch_pauses ≡ find r t.dispatch_pauses)

abbrev pub same_rows : String → Preorder Store
same_rows r = record {
  Rel = SameRows r;
  same = λ s. ((λ n. (refl, refl, refl)), refl);
  along = λ s t u h k.
      ((λ n. ((h.0 n).0 ∙ (k.0 n).0, (h.0 n).1 ∙ (k.0 n).1, (h.0 n).2 ∙ (k.0 n).2)), h.1 ∙ k.1);
}

-- A pair that names another repository is another key.
other_key : (repo r : String) (n m : ℕ) → repo ≢ r → ◌≢◌ {A = String × ℕ} (repo, n) (r, m)
other_key repo r n m h e = h (ap (λ (p : String × ℕ). p.0) e)

module _ (repo r : String) (h : repo ≢ r) where
  repo_ops : PassOps (same_rows r) repo
  unfolding record_malformed clear_malformed record_wait clear_wait record_grant
  repo_ops = record {
    malformed_kept = λ n d now s. (
      (λ m. (
        refl,
        sym (find-put_ne (repo, n) (r, m) _ s.malformed_states (other_key repo r n m h)),
        refl,
      )),
      refl,
    );
    unflagged = λ n now s. (
      (λ m. (
        refl,
        sym (find-delete_ne (repo, n) (r, m) s.malformed_states (other_key repo r n m h)),
        refl,
      )),
      refl,
    );
    wait_kept = λ n d now s. (
      (λ m. (
        refl,
        refl,
        sym (find-put_ne (repo, n) (r, m) _ s.dispatch_waits (other_key repo r n m h)),
      )),
      refl,
    );
    unwaited = λ n now s. (
      (λ m. (
        refl,
        refl,
        sym (find-delete_ne (repo, n) (r, m) s.dispatch_waits (other_key repo r n m h)),
      )),
      refl,
    );
    grant_kept = λ n w k l now s. (
      (λ m. (sym (find-put_ne (repo, n) (r, m) _ s.grants (other_key repo r n m h)), refl, refl)),
      refl,
    );
  }

module _ {G : Type 0} (client : Client G) (r : String) (h : client.repo ≢ r) where
  Keeps-pass_world :
      {A : Type 0} (m : Exec Error (Pass G) A)
      → Keeps (on_pass (same_rows r)) m
      → Keeps (on_store (same_rows r)) (pass_world m)
  unfolding pass_world
  Keeps-pass_world m k w = k (begin w)

  Keeps-after_pass :
      (a : Result Error Answer) → Keeps (on_store (same_rows r)) (after_pass client a)
  unfolding record_dispatch_pause clear_dispatch_pause pure raise
  Keeps-after_pass (ok a) =
      Keeps-bind (on_store (same_rows r)) _ _
        (Keeps-write (same_rows r) client.clock _ (λ now s.
          ((λ m. (refl, refl, refl)), sym (find-delete_ne client.repo r s.dispatch_pauses h))))
        (λ _ w. (same_rows r).same w.store)
  Keeps-after_pass (err (github m)) =
      Keeps-bind (on_store (same_rows r)) _ _
        (Keeps-write (same_rows r) client.clock _ (λ now s.
          ((λ m. (refl, refl, refl)), sym (find-put_ne client.repo r _ s.dispatch_pauses h))))
        (λ _ w. (same_rows r).same w.store)
  Keeps-after_pass (err (cycle ns)) = λ w. (same_rows r).same w.store
  Keeps-after_pass (err (cross_repo n foreign)) = λ w. (same_rows r).same w.store
  Keeps-after_pass (err (key_error n)) = λ w. (same_rows r).same w.store
  Keeps-after_pass (err out_of_fuel) = λ w. (same_rows r).same w.store

  Keeps-attempt :
      (m : Exec Error (World G) Answer)
      → Keeps (on_store (same_rows r)) m
      → Keeps (on_store (same_rows r)) (attempt client m)
  unfolding attempt
  Keeps-attempt m k w =
      (same_rows r).along w.store (m w).1.store (after_pass client (m w).0 (m w).1).1.store (k w)
        (Keeps-after_pass (m w).0 (m w).1)

  Keeps-gated :
      (b : Option Message) (m : Exec Error (World G) Answer)
      → Keeps (on_store (same_rows r)) m
      → Keeps (on_store (same_rows r)) (gated client b m)
  unfolding pure
  Keeps-gated (some reason) m k = λ w. (same_rows r).same w.store
  Keeps-gated none m k = k

  -- A request for work in one repository changes no grant, no malformed flag, no wait and no dispatch
  -- pause of another repository, whatever GitHub answers and however the pass ends.
  pub grant_work-SameRows :
      (fuel : ℕ) (req : Request) (w : World G)
      → SameRows r w.store (grant_work client fuel req w).1.store
  unfolding grant_work upsert_driver
  grant_work-SameRows fuel req =
      Keeps-bind (on_store (same_rows r)) _ _
        (Keeps-write (same_rows r) client.clock _ (λ now s. (same_rows r).same s))
        (λ _.
          Keeps-bind (on_store (same_rows r)) _ _
            (Keeps-query (same_rows r) (node_block req.node req.pin req.drivers_hash))
            (λ block. Keeps-gated block _ (
              Keeps-attempt _ (
                Keeps-pass_world (granting_pass client fuel req)
                  (Keeps-granting_pass client (same_rows r) (repo_ops client.repo r h) fuel req)))))
