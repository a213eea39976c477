-- ===== src/Store/Sessions.antt =====
-- store.py: browser sessions and join tokens, of which only digests are stored.
-- SHA-256 and the source of random ids are not the program's: `digest` is a parameter, and a
-- fresh id an argument of the operation that mints it.
pub mod Uses
pub mod Expiry
use the_ozolith.Common.{
  ℕ, ◌+◌, ◌-◌, max, String, Bool, true, false, ◌||◌, Option, none, some, [], ◌∷◌, leb,
  if◌then◌else◌, is_some, ◌==◌, nat_eq, string_eq, pair_eq, triple_eq,
}
use the_ozolith.Common.Table.{Table, find, put, delete, update}
use the_ozolith.Store.{Store, Session, JoinToken}

module _ (digest : String → String) where
  -- the raw id is what `_secrets.token_hex(16)` answered
  unfoldable pub create_session : String → ℕ → ℕ → Store → String × Store
  create_session raw ttl now s = (
    raw,
    record s {
      sessions = put (digest raw) (record { created_at = now; expires_at = now + ttl }) s.sessions;
    },
  )

  abbrev pub answer : String → ℕ → Option Session → Store → Bool × Store
  answer key now none s = (false, s)
  answer key now (some row) s =
      if leb row.expires_at now
      then (false, record s { sessions = delete key s.sessions })
      else (true, s)

  unfoldable pub session_active : String → ℕ → Store → Bool × Store
  session_active raw now s =
      if raw == "" then (false, s) else answer (digest raw) now (find (digest raw) s.sessions) s

  unfoldable pub delete_session : String → Store → Store
  delete_session raw s = record s { sessions = delete (digest raw) s.sessions }

unfoldable pub truncate_sessions : Store → Store
truncate_sessions s = record s { sessions = [] }

-- SELECT … WHERE token_hash = ?, a UNIQUE column
unfoldable pub by_hash : String → Table String JoinToken → Option (String × JoinToken)
by_hash h [] = none
by_hash h ((i, row) ∷ t) = if row.token_hash == h then some (i, row) else by_hash h t

abbrev pub spend : JoinToken → JoinToken
spend row = record row { uses_left = row.uses_left - 1 }

abbrev pub consume : ℕ → Option (String × JoinToken) → Store → Bool × Store
consume now none s = (false, s)
consume now (some (i, row)) s =
    if leb row.expires_at now || leb row.uses_left 0
    then (false, record s { join_tokens = delete i s.join_tokens })
    else if row.uses_left == 1
    then (true, record s { join_tokens = delete i s.join_tokens })
    else (true, record s { join_tokens = update i spend s.join_tokens })

module _ (digest : String → String) where
  unfoldable pub create_join_token :
      String → String → ℕ → ℕ → ℕ → Store → (String × String × ℕ) × Store
  create_join_token raw token_id ttl uses now s =
      ((token_id, raw, now + ttl), record s { join_tokens = put token_id row s.join_tokens })
    where
      row : JoinToken
      row = record {
        token_hash = digest raw;
        created_at = now;
        expires_at = now + ttl;
        uses_left = max 1 uses;
      }

  unfoldable pub redeem_join_token : String → ℕ → Store → Bool × Store
  unfolding by_hash
  redeem_join_token raw now s = consume now (by_hash (digest raw) s.join_tokens) s

unfoldable pub revoke_join_token : String → Store → Bool × Store
revoke_join_token token_id s = (
  is_some (find token_id s.join_tokens),
  record s { join_tokens = delete token_id s.join_tokens },
)
