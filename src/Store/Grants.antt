-- ===== src/Store/Grants.antt =====
-- store.py: the driver registry and the write-through grants that await activation.
use the_ozolith.Common.{
  ℕ, ◌+◌, String, Bool, Option, none, some, List, [], ◌∷◌, leb, if◌then◌else◌, is_some, ◌==◌,
  nat_eq, string_eq, pair_eq, triple_eq,
}
use the_ozolith.Common.Table.{Table, find, put, delete}
use the_ozolith.Common.Order.{order_by, key_le}
use the_ozolith.Store.{Store, Grant, DriverRow}

abbrev registered_or : ℕ → Option DriverRow → ℕ
registered_or now none = now
registered_or now (some row) = row.registered_at

unfoldable pub upsert_driver :
    String → String → String → String → String → String → ℕ → Store → Store
upsert_driver worker node login role repo stack now s = record s {
  drivers = put worker row s.drivers;
}
  where
    row : DriverRow
    row = record {
      node = node;
      login = login;
      role = role;
      repo = repo;
      stack = stack;
      registered_at = registered_or now (find worker s.drivers);
      last_dispatch_at = now;
    }

unfoldable pub record_grant : String → ℕ → String → String → String → ℕ → Store → Store
record_grant repo issue worker node login now s = record s {
  grants =
      put (repo, issue) (record { worker = worker; node = node; login = login; granted_at = now })
        s.grants;
}

-- the issues of the rows of one repo
issues_of : String → Table (String × ℕ) Grant → List ℕ
issues_of repo [] = []
issues_of repo (((r, i), g) ∷ t) =
    let rest = issues_of repo t in if r == repo then i ∷ rest else rest

unfoldable pub granted_issues : String → Store → List ℕ
unfolding issues_of
granted_issues repo s = issues_of repo s.grants

-- a row as `expired_grants` and `grants` return it
pub record GrantRow : Type 0 where
  pub repo : String
  pub issue : ℕ
  pub grant : Grant

abbrev grant_le : GrantRow → GrantRow → Bool
grant_le a b = key_le (a.repo, a.issue) (b.repo, b.issue)

grant_rows : Table (String × ℕ) Grant → List GrantRow
grant_rows [] = []
grant_rows (((r, i), g) ∷ t) = record { repo = r; issue = i; grant = g } ∷ grant_rows t

expired_rows : ℕ → ℕ → List GrantRow → List GrantRow
expired_rows window now [] = []
expired_rows window now (r ∷ rows) =
    let rest = expired_rows window now rows in
    if leb (r.grant.granted_at + window) now then r ∷ rest else rest

-- `granted_at <= now - window`
unfoldable pub expired_grants : ℕ → ℕ → Store → List GrantRow
unfolding grant_rows expired_rows
expired_grants window now s = order_by grant_le (expired_rows window now (grant_rows s.grants))

-- True when the row was still there.
unfoldable pub release_grant : String → ℕ → Store → Bool × Store
release_grant repo issue s =
    (is_some (find (repo, issue) s.grants), record s { grants = delete (repo, issue) s.grants })

unfoldable pub grants : Store → List GrantRow
unfolding grant_rows
grants s = order_by grant_le (grant_rows s.grants)
