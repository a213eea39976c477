-- ===== src/Store/Sessions/Uses.antt =====
-- store.py: how often a join token can be redeemed.
use the_ozolith.Common.{
  ℕ, ◌+◌, ◌≤◌, max, String, ◌≡◌, refl, Bool, ◌&&◌, Option, none, some, List, [], ◌∷◌, arith,
  if◌then◌else◌, ◌==◌, nat_eq, string_eq, pair_eq, triple_eq, list_eq, ==_refl, ==_true,
}
use the_ozolith.Common.Table.{Table, put, delete, update}
use the_ozolith.Store.{Store, JoinToken}
use the_ozolith.Store.Sessions.{create_join_token, by_hash, spend, consume, redeem_join_token}

-- the uses left to a digest
abbrev pub uses_of : String → Table String JoinToken → ℕ
uses_of h [] = 0
uses_of h ((i, row) ∷ t) = (if row.token_hash == h then row.uses_left else 0) + uses_of h t

uses_of-delete-le :
    (h i : String) (t : Table String JoinToken) → uses_of h (delete i t) ≤ uses_of h t
unfolding delete
uses_of-delete-le h i [] = omega arith
uses_of-delete-le h i ((j, row) ∷ t) = ground (arith, uses_of-delete-le h i t)

uses_of-update-le :
    (h i : String) (t : Table String JoinToken) → uses_of h (update i spend t) ≤ uses_of h t
unfolding update
uses_of-update-le h i [] = omega arith
uses_of-update-le h i ((j, row) ∷ t) = ground (arith, uses_of-update-le h i t)

module _ (h : String) where
  by_hash-delete :
      (t : Table String JoinToken) (i : String) (row : JoinToken)
      → by_hash h t ≡ some (i, row)
      → row.uses_left + uses_of h (delete i t) ≤ uses_of h t
  unfolding by_hash delete
  by_hash-delete [] i row e = cc
  by_hash-delete ((j, r) ∷ t) i row e =
      ground (arith, by_hash-delete t i row, uses_of-delete-le h i t, ==_refl i)

  by_hash-update :
      (t : Table String JoinToken) (i : String) (row : JoinToken)
      → by_hash h t ≡ some (i, row)
      → 1 ≤ row.uses_left
      → 1 + uses_of h (update i spend t) ≤ uses_of h t
  unfolding by_hash update
  by_hash-update [] i row e pos = cc
  by_hash-update ((j, r) ∷ t) i row e pos =
      ground (arith, by_hash-update t i row, uses_of-update-le h i t, ==_refl i)

module _ (h : String) where
  -- what an attempt with the digest `k` takes off the uses left to `h`
  abbrev taken : String → Bool → ℕ
  taken k granted = if granted && k == h then 1 else 0

  consume-uses :
      (k : String) (now : ℕ) (found : Option (String × JoinToken)) (s : Store)
      → by_hash k s.join_tokens ≡ found
      → taken k (consume now found s).0 + uses_of h (consume now found s).1.join_tokens
        ≤ uses_of h s.join_tokens
  consume-uses k now none s e = omega arith
  consume-uses k now (some (i, row)) s e = ground (
    arith,
    uses_of-delete-le h i s.join_tokens,
    uses_of-update-le h i s.join_tokens,
    by_hash-delete h s.join_tokens i row,
    by_hash-update h s.join_tokens i row,
    ==_true k h,
  )

module _ (digest : String → String) where
  -- attempts at given times, each with the raw token that it brings; the successes of `raw`
  unfoldable pub redeemed : String → List (String × ℕ) → Store → ℕ × Store
  redeemed raw [] s = (0, s)
  redeemed raw ((r, now) ∷ attempts) s =
      let (granted, s') = redeem_join_token digest r now s in
      let (n, u) = redeemed raw attempts s' in
      ((if granted && digest r == digest raw then 1 else 0) + n, u)

  redeemed-le-uses_of :
      (raw : String) (attempts : List (String × ℕ)) (s : Store)
      → (redeemed raw attempts s).0 ≤ uses_of (digest raw) s.join_tokens
  unfolding redeemed redeem_join_token
  redeemed-le-uses_of raw [] s = omega arith
  redeemed-le-uses_of raw ((r, now) ∷ attempts) s = ground (
    arith,
    consume-uses (digest raw) (digest r) now (by_hash (digest r) s.join_tokens) s refl,
    redeemed-le-uses_of raw attempts (redeem_join_token digest r now s).1,
  )

  uses_of-put-le :
      (h i : String) (row : JoinToken) (t : Table String JoinToken)
      → uses_of h (put i row t) ≤ row.uses_left + uses_of h t
  unfolding put
  uses_of-put-le h i row [] = ground arith
  uses_of-put-le h i row ((j, r) ∷ t) = ground (arith, uses_of-put-le h i row t)

  -- A join token is never redeemed more often than it was minted for, once if for no use at all,
  -- whatever attempts are made on it and on other tokens, at whatever times, provided that no
  -- outstanding token had its digest when it was minted.
  pub redeemed-le-uses :
      (raw token_id : String) (ttl uses now : ℕ) (s : Store) (attempts : List (String × ℕ))
      → uses_of (digest raw) s.join_tokens ≡ 0
      → (redeemed raw attempts (create_join_token digest raw token_id ttl uses now s).1).0
        ≤ max 1 uses
  unfolding create_join_token
  redeemed-le-uses raw token_id ttl uses now s attempts none_yet = ground (
    arith,
    redeemed-le-uses_of raw attempts (create_join_token digest raw token_id ttl uses now s).1,
    uses_of-put-le (digest raw) token_id
        (record {
          token_hash = digest raw;
          created_at = now;
          expires_at = now + ttl;
          uses_left = max 1 uses;
        })
        s.join_tokens,
  )
