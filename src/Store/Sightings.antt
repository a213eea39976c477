-- ===== src/Store/Sightings.antt =====
-- store.py: sightings of unregistered nodes, deduplicated and capped.
pub mod Cap
use the_ozolith.Common.{
  ℕ, zero, suc, ◌+◌, String, refl, Bool, Option, none, some, List, [], ◌∷◌, arith, leb,
  if◌then◌else◌, ◌==◌, nat_eq, string_eq, pair_eq, triple_eq, list_eq,
}
use the_ozolith.Common.Table.{Table, find, put, delete}
use the_ozolith.Common.Order.{order_by}
use the_ozolith.Store.{Store, Sighting}
use Prim.Native.String.{slice}

-- UNREGISTERED_CAP
abbrev pub unregistered_cap : ℕ
unregistered_cap = 64

-- `(name or "(unnamed)")[:64]`
abbrev pub short : String → String → String
short s default = slice (if s == "" then default else s) 0 64

abbrev pub seen_again : ℕ → Option Sighting → Sighting
seen_again now none = record { first_seen = now; last_seen = now; beats = 1 }
seen_again now (some old) = record old { last_seen = now; beats = old.beats + 1 }

-- a row with its key
abbrev pub Seen : Type 0
Seen = (String × String) × Sighting

abbrev pub later_first : Seen → Seen → Bool
later_first a b = leb b.1.last_seen a.1.last_seen

-- LIMIT -1 OFFSET n
unfoldable pub offset : ℕ → List Seen → List Seen
offset zero rows = rows
offset (suc n) [] = []
offset (suc n) (r ∷ rows) = offset n rows

-- ORDER BY last_seen DESC LIMIT -1 OFFSET ?, where rows of one time keep the order of the table
unfoldable pub beyond_cap : Table (String × String) Sighting → List Seen
unfolding offset
beyond_cap t = offset unregistered_cap (order_by later_first t)

unfoldable pub evict :
    List Seen → Table (String × String) Sighting → Table (String × String) Sighting
evict [] t = t
evict (r ∷ rows) t = evict rows (delete r.0 t)

unfoldable pub record_unregistered : String → String → ℕ → Store → Store
unfolding beyond_cap evict
record_unregistered name source now s =
    let key : String × String = (short name "(unnamed)", short source "?") in
    let rows = put key (seen_again now (find key s.unregistered_nodes)) s.unregistered_nodes in
    record s { unregistered_nodes = evict (beyond_cap rows) rows }

-- DELETE … WHERE name = ?
unfoldable pub forget : String → Table (String × String) Sighting → Table (String × String) Sighting
forget name [] = []
forget name ((k, row) ∷ t) =
    let rest = forget name t in if k.0 == name then rest else (k, row) ∷ rest

unfoldable pub clear_unregistered : String → Store → Store
unfolding forget
clear_unregistered name s = record s { unregistered_nodes = forget name s.unregistered_nodes }
