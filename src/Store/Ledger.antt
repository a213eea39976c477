-- ===== src/Store/Ledger.antt =====
-- store.py: the janitor's append-only ledger.
use the_ozolith.Common.{
  ℕ, String, Bool, ◌&&◌, Option, [], ◌∷◌, ◌++◌, any, ◌==◌, nat_eq, string_eq, pair_eq, triple_eq,
  is_value,
}
use the_ozolith.Common.Message.{Message}
use the_ozolith.Store.{Store, JanitorAction}

unfoldable pub record_janitor_action :
    Option String → ℕ → String → String → Message → ℕ → Store → Store
record_janitor_action repo issue run_id worker reason now s = record s {
  janitor_actions = s.janitor_actions ++ action ∷ [];
}
  where
    action : JanitorAction
    action = record {
      repo = repo;
      issue = issue;
      run_id = run_id;
      worker = worker;
      reason = reason;
      acted_at = now;
    }

abbrev pub acted_for : String → ℕ → String → JanitorAction → Bool
acted_for repo issue run_id a = is_value a.repo repo && a.issue == issue && a.run_id == run_id

unfoldable pub janitor_acted : String → ℕ → String → Store → Bool
janitor_acted repo issue run_id s = any (acted_for repo issue run_id) s.janitor_actions
