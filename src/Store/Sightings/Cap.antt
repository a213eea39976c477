-- ===== src/Store/Sightings/Cap.antt =====
-- store.py: unauthenticated sightings never outgrow their cap.
use the_ozolith.Common.{
  ℕ, zero, suc, ◌+◌, ◌-◌, ◌≤◌, ◌<◌, String, ◌≡◌, refl, sym, ap, ◌∙◌, Bool, true, List, [], ◌∷◌,
  arith, length, any, ◌==◌, nat_eq, string_eq, pair_eq, triple_eq, list_eq, ==_refl,
}
use the_ozolith.Common.Table.{Table, find, put, delete, length-put-le}
use the_ozolith.Common.Order.{order_by, insert_by, any-order_by}
use the_ozolith.Store.{Store, Sighting}
use the_ozolith.Store.Sightings.{
  unregistered_cap, short, seen_again, Seen, later_first, offset, beyond_cap, evict,
  record_unregistered, forget,
}

abbrev Rows : Type 0
Rows = Table (String × String) Sighting

length-insert_by :
    (x : Seen) (ys : List Seen) → length (insert_by later_first x ys) ≡ suc (length ys)
unfolding insert_by
length-insert_by x [] = refl
length-insert_by x (y ∷ ys) = ground (arith, length-insert_by x ys)

length-order_by : (xs : List Seen) → length (order_by later_first xs) ≡ length xs
unfolding order_by
length-order_by [] = refl
length-order_by (x ∷ xs) =
    length-insert_by x (order_by later_first xs) ∙ ap suc (length-order_by xs)

length-offset : (n : ℕ) (rows : List Seen) → length (offset n rows) ≡ length rows - n
unfolding offset
length-offset zero rows = omega arith
length-offset (suc n) [] = omega arith
length-offset (suc n) (r ∷ rows) = omega (arith, length-offset n rows)

any-offset :
    (test : Seen → Bool) (n : ℕ) (rows : List Seen)
    → any test (offset n rows) ≡ true
    → any test rows ≡ true
unfolding offset
any-offset test zero rows h = h
any-offset test (suc n) [] h = h
any-offset test (suc n) (r ∷ rows) h = ground (arith, any-offset test n rows h)

abbrev has_key : String × String → Seen → Bool
has_key k r = r.0 == k

length-delete-le : (k : String × String) (t : Rows) → length (delete k t) ≤ length t
unfolding delete
length-delete-le k [] = omega arith
length-delete-le k ((j, row) ∷ t) = ground (arith, length-delete-le k t)

length-delete-lt :
    (k : String × String) (t : Rows) → any (has_key k) t ≡ true → length (delete k t) < length t
unfolding delete
length-delete-lt k [] h = absurd (cc h)
length-delete-lt k ((j, row) ∷ t) h = ground (arith, length-delete-lt k t, length-delete-le k t, h)

length-evict-le : (rows : List Seen) (t : Rows) → length (evict rows t) ≤ length t
unfolding evict
length-evict-le [] t = omega arith
length-evict-le (r ∷ rows) t =
    omega (arith, length-evict-le rows (delete r.0 t), length-delete-le r.0 t)

-- with one row too many, the oldest goes
evict_lem :
    (rows : List Seen) (t : Rows)
    → length rows ≡ length t - unregistered_cap
    → ((test : Seen → Bool) → any test rows ≡ true → any test t ≡ true)
    → length t ≤ unregistered_cap + 1
    → length (evict rows t) ≤ unregistered_cap
unfolding evict
evict_lem [] t size there le = omega (arith, size, le)
evict_lem (r ∷ rows) t size there le = omega (
  arith,
  size,
  le,
  length-evict-le rows (delete r.0 t),
  length-delete-lt r.0 t (there (has_key r.0) (rw (==_refl r.0) refl)),
)

length-forget-le : (name : String) (t : Rows) → length (forget name t) ≤ length t
unfolding forget
length-forget-le name [] = omega arith
length-forget-le name ((k, row) ∷ t) = ground (arith, length-forget-le name t)

-- The cap holds from one sighting to the next: however many names and addresses are claimed, a table
-- within the cap is within it after one more sighting.
pub record_unregistered-cap :
    (name source : String) (now : ℕ) (s : Store)
    → length s.unregistered_nodes ≤ unregistered_cap
    → length (record_unregistered name source now s).unregistered_nodes ≤ unregistered_cap
unfolding record_unregistered
record_unregistered-cap name source now s h =
    let key : String × String = (short name "(unnamed)", short source "?") in
    let row : Sighting = seen_again now (find key s.unregistered_nodes) in
    let rows : Rows = put key row s.unregistered_nodes in
    evict_lem (beyond_cap rows) rows
      (length-offset unregistered_cap (order_by later_first rows)
        ∙ ap (λ (n : ℕ). n - unregistered_cap) (length-order_by rows))
      (λ test e.
        sym (any-order_by test later_first rows)
        ∙ any-offset test unregistered_cap (order_by later_first rows) e)
      (omega (arith, length-put-le key row s.unregistered_nodes, h))
