-- ===== src/Deps/Walk.antt =====
-- deps.py: the depth-first walk over the blocked-by closure.
use the_ozolith.Common.{
  ℕ, zero, suc, ◌+◌, String, refl, Bool, not, ◌&&◌, List, [], ◌∷◌, ◌++◌, map, arith, leb,
  if◌then◌else◌, is_some, ◌==◌, nat_eq, string_eq, pair_eq, triple_eq, list_eq, contains, set_add,
}
use the_ozolith.Common.Table.{Table, find, put}
use the_ozolith.Common.Exec.{Result, ok, err, Exec, pure, ◌>>=◌, ◌>>◌}
pub mod Visited
pub mod Order
pub mod Kept
pub mod Ends
use the_ozolith.Common.Order.{order_by}
use the_ozolith.Deps.{Issue, Error, cycle, cross_repo, out_of_fuel, DependencyClosure}

-- the variables of `walk_closure` that `visit` changes
pub record Walk : Type 0 where
  pub order : List ℕ
  pub edges : Table ℕ (List ℕ)
  pub issues : Table ℕ Issue
  pub on_path : List ℕ
  pub done : List ℕ

abbrev pub start : Walk
start = record { order = []; edges = []; issues = []; on_path = []; done = [] }

abbrev pub number_le : Issue → Issue → Bool
number_le a b = leb a.number b.number

abbrev pub number_of : Issue → ℕ
number_of i = i.number

-- `on_path[on_path.index(current):]`
unfoldable pub from_current : ℕ → List ℕ → List ℕ
from_current current [] = []
from_current current (n ∷ path) =
    let rest = from_current current path in if n == current then n ∷ path else rest

-- `dict.setdefault`
abbrev pub setdefault : ℕ → Issue → Table ℕ Issue → Table ℕ Issue
setdefault k v t = if is_some (find k t) then t else put k v t

abbrev pub is_foreign : String → Issue → Bool
is_foreign repo blocker = not (blocker.repo == "") && not (blocker.repo == repo)

-- the loop that refuses a cross-repo edge and records the blockers
unfoldable pub note_blockers :
    String → ℕ → List Issue → Table ℕ Issue → Result Error (Table ℕ Issue)
note_blockers repo current [] t = ok t
note_blockers repo current (b ∷ bs) t =
    let rest = note_blockers repo current bs (setdefault b.number b t) in
    if is_foreign repo b then err (cross_repo current b.repo) else rest

-- `on_path.append(current)`
abbrev pub enter : ℕ → Walk → Walk
enter current w = record w { on_path = w.on_path ++ current ∷ [] }

-- `on_path.pop()`
unfoldable pub pop : List ℕ → List ℕ
pop [] = []
pop (n ∷ []) = []
pop (n ∷ m ∷ path) = n ∷ pop (m ∷ path)

-- the last three lines of `visit`
abbrev pub leave : ℕ → Walk → Walk
leave current w = record w {
  on_path = pop w.on_path;
  done = set_add w.done current;
  order = w.order ++ current ∷ [];
}

module _ {S : Type 0} (repo : String) (list_blocked_by : ℕ → Exec Error S (List Issue)) where
  -- a state of the walk beside that of the reads
  abbrev pub Walking : Type 0
  Walking = Walk × S

  -- a read, which leaves the walk's variables alone
  abbrev pub read_edges : ℕ → Exec Error Walking (List Issue)
  read_edges n (w, s) = let (r, s') = list_blocked_by n s in (r, (w, s'))

  abbrev pub record_edges :
      ℕ → List Issue → Result Error (Table ℕ Issue) → Exec Error Walking (Unit {0})
  record_edges n blockers (err e) (w, s) = (err e, (w, s))
  record_edges n blockers (ok t) (w, s) =
      (ok tt, (record w { issues = t; edges = put n (map number_of blockers) w.edges }, s))

  abbrev pub note : ℕ → List Issue → Exec Error Walking (Unit {0})
  note n blockers (w, s) = record_edges n blockers (note_blockers repo n blockers w.issues) (w, s)

  abbrev pub modify : (Walk → Walk) → Exec Error Walking (Unit {0})
  modify f (w, s) = (ok tt, (f w, s))

  -- `for blocker in blockers: visit(blocker.number)`
  unfoldable pub visit_all :
      (ℕ → Exec Error Walking (Unit {0})) → List Issue → Exec Error Walking (Unit {0})
  visit_all rec [] = pure tt
  visit_all rec (b ∷ bs) = rec b.number >> visit_all rec bs

  -- the visit of an issue that is neither on the path nor done
  unfoldable pub expand : (ℕ → Exec Error Walking (Unit {0})) → ℕ → Exec Error Walking (Unit {0})
  expand rec current = do
    modify (enter current)
    unsorted ← read_edges current
    let blockers = order_by number_le unsorted
    note current blockers
    visit_all rec blockers
    modify (leave current)

  unfoldable pub visit : ℕ → ℕ → Exec Error Walking (Unit {0})
  visit zero current (w, s) = (err out_of_fuel, (w, s))
  visit (suc fuel) current (w, s) =
      let cyclic = from_current current w.on_path ++ current ∷ [] in
      let deeper = expand (visit fuel) current (w, s) in
      if contains w.on_path current
      then (err (cycle cyclic), (w, s))
      else if contains w.done current
      then (ok tt, (w, s))
      else deeper

  abbrev pub closure_of : Walk → DependencyClosure
  closure_of w = record { order = w.order; edges = w.edges; issues = w.issues }

  abbrev pub finish : Result Error (Unit {0}) × Walking → Result Error DependencyClosure × S
  finish (ok u, (w, s)) = (ok (closure_of w), s)
  finish (err e, (w, s)) = (err e, s)

  unfoldable pub walk_closure : ℕ → ℕ → Exec Error S DependencyClosure
  unfolding visit
  walk_closure fuel number s = finish (visit fuel number (start, s))
