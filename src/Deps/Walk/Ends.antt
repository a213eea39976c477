-- ===== src/Deps/Walk/Ends.antt =====
-- deps.py: the walk ends, when the issues that the edges reach are finitely many.
use the_ozolith.Common.{
  ℕ, zero, suc, ◌+◌, ◌≤◌, String, ◌≡◌, refl, sym, ap, subst, ◌∙◌, ◌≢◌, inl, inr, true, false, List,
  [], ◌∷◌, map, arith, Bool-cases, length, length-append, All, All-append, nat_eq, string_eq,
  pair_eq, triple_eq, list_eq, contains,
}
use the_ozolith.Common.Table.{Table}
use the_ozolith.Common.Exec.{Result, ok, err, Exec, continue, ◌>>=◌, ◌>>◌}
use the_ozolith.Common.Order.{order_by, All-order_by}
use the_ozolith.Common.Pigeonhole.{Unique, Unique-append, length-Unique-le}
use the_ozolith.Deps.{Issue, Error, out_of_fuel}
use the_ozolith.Deps.Walk.{
  Walk, start, number_le, number_of, note_blockers, is_foreign, setdefault, enter, leave,
  record_edges, note, modify, visit_all, expand, visit, finish, walk_closure,
}
use the_ozolith.Deps.Walk.Visited.{IsGood, entered, entered-IsGood}
use the_ozolith.Deps.Walk.Order.{Visits, visit_lem, start-IsGood}

-- an outcome that did not stop for lack of fuel
abbrev pub IsFueled : {A : Type 0} → Result Error A → Type 0
IsFueled r = r ≢ err out_of_fuel

err-injective : {A : Type 0} {x y : Error} → ◌≡◌ {A = Result Error A} (err x) (err y) → x ≡ y
err-injective e = cc

module _ {S : Type 0} (repo : String) (list_blocked_by : ℕ → Exec Error S (List Issue))
    (all : List ℕ) where
  abbrev Walks : Type 0
  Walks = ℕ → Exec Error (Walk × S) (Unit {0})

  -- a read answers issues of the given list, and does not itself run out of fuel
  abbrev pub Answered : Result Error (List Issue) → Type 0
  Answered (ok bs) = All (λ (b : Issue). contains all b.number ≡ true) bs
  Answered (err e) = e ≢ out_of_fuel

  -- a state of the walk with room for `fuel` more issues on its path
  pub record HasRoom (fuel : ℕ) (w : Walk) : Type 0 where
    pub good : IsGood w
    pub unique : Unique w.on_path
    pub inside : All (λ (n : ℕ). contains all n ≡ true) w.on_path
    pub room : suc (length all) ≤ fuel + length w.on_path

  abbrev Ends : ℕ → Walks → Type 0
  Ends fuel rec =
      (n : ℕ) (w : Walk) (s : S)
      → HasRoom fuel w
      → contains all n ≡ true
      → IsFueled (rec n (w, s)).0

  note_blockers_lem :
      (n : ℕ) (bs : List Issue) (t : Table ℕ Issue) → IsFueled (note_blockers repo n bs t)
  unfolding note_blockers
  note_blockers_lem n [] t h = absurd (cc h)
  note_blockers_lem n (b ∷ bs) t h = elim (Bool-cases (is_foreign repo b)) [
    | inl foreign ↦ (let crossed = rw foreign at h in absurd (cc crossed))
    | inr local ↦ note_blockers_lem n bs (setdefault b.number b t) (rw local at h)
  ]

  module _ (fuel : ℕ) (rec : Walks) (spec : Visits repo list_blocked_by rec)
      (ends : Ends fuel rec) where
    step_ends :
        (b : Issue) (bs : List Issue) (w : Walk) (s : S) (r : Result Error (Unit {0}) × (Walk × S))
        → rec b.number (w, s) ≡ r
        → HasRoom fuel w
        → contains all b.number ≡ true
        → ((v : Walk) (u : S)
            → HasRoom fuel v
            → IsFueled (visit_all repo list_blocked_by rec bs (v, u)).0)
        → IsFueled (continue r.0 (λ _. visit_all repo list_blocked_by rec bs) r.1).0
    step_ends b bs w s (ok x, (v, u)) e h known rest =
        let d = spec b.number w v s u h.good e in
        rest v u (record {
          good = d.0.good;
          unique = subst Unique (sym d.0.path) h.unique;
          inside = subst (All (λ (n : ℕ). contains all n ≡ true)) (sym d.0.path) h.inside;
          room =
              subst (λ (path : List ℕ). suc (length all) ≤ fuel + length path) (sym d.0.path)
                h.room;
        })
    step_ends b bs w s (err x, (v, u)) e h known rest = λ k.
        ends b.number w s h known (ap (λ (r : Result Error (Unit {0}) × (Walk × S)). r.0) e ∙ k)

    visit_all_ends :
        (bs : List Issue) (w : Walk) (s : S)
        → HasRoom fuel w
        → All (λ (b : Issue). contains all b.number ≡ true) bs
        → IsFueled (visit_all repo list_blocked_by rec bs (w, s)).0
    unfolding visit_all ◌>>=◌
    visit_all_ends [] w s h known = λ k. absurd (cc k)
    visit_all_ends (b ∷ bs) w s h known =
        step_ends b bs w s (rec b.number (w, s)) refl h known.0
          (λ v u k. visit_all_ends bs v u k known.1)

    leave_ends :
        (n : ℕ) (r : Result Error (Unit {0})) (v : Walk × S)
        → IsFueled r
        → IsFueled (continue r (λ _. modify repo list_blocked_by (leave n)) v).0
    leave_ends n (ok x) v k = λ e. absurd (cc e)
    leave_ends n (err x) v k = λ e. k e

    -- the part of `expand` behind the read
    module _ (n : ℕ) (w : Walk) (g : HasRoom (suc fuel) w) (known : contains all n ≡ true)
        (fresh_path : contains w.on_path n ≡ false) (fresh_done : contains w.done n ≡ false) where
      entered-HasRoom : (t : Table ℕ Issue) (bs : List ℕ) → HasRoom fuel (entered w n t bs)
      entered-HasRoom t bs = record {
        good = entered-IsGood w n g.good fresh_path fresh_done t bs;
        unique = Unique-append w.on_path n g.unique fresh_path;
        inside =
            All-append (λ (m : ℕ). contains all m ≡ true) w.on_path (n ∷ []) g.inside (known, tt);
        room = omega (arith, g.room, length-append w.on_path (n ∷ []));
      }

      noted_ends :
          (bs : List Issue) (r : Result Error (Table ℕ Issue)) (u : S)
          → All (λ (b : Issue). contains all b.number ≡ true) bs
          → IsFueled r
          → IsFueled
              ((record_edges repo list_blocked_by n bs r
                  >> (visit_all repo list_blocked_by rec bs
                      >> modify repo list_blocked_by (leave n)))
                (enter n w, u)).0
      unfolding ◌>>=◌
      noted_ends bs (err x) u inside k = λ e. k (ap err (err-injective e))
      noted_ends bs (ok t) u inside k =
          let visited =
            visit_all repo list_blocked_by rec bs (entered w n t (map number_of bs), u) in
          leave_ends n visited.0 visited.1 (
            visit_all_ends bs (entered w n t (map number_of bs)) u
              (entered-HasRoom t (map number_of bs)) inside)

      read_ends :
          (r : Result Error (List Issue)) (u : S)
          → Answered r
          → IsFueled
              (continue r
                (λ found.
                  note repo list_blocked_by n (order_by number_le found)
                  >> (visit_all repo list_blocked_by rec (order_by number_le found)
                      >> modify repo list_blocked_by (leave n)))
                (enter n w, u)).0
      unfolding ◌>>=◌
      read_ends (err x) u k = λ e. k (err-injective e)
      read_ends (ok found) u k =
          noted_ends (order_by number_le found)
            (note_blockers repo n (order_by number_le found) w.issues) u
            (All-order_by (λ (b : Issue). contains all b.number ≡ true) number_le found k)
            (note_blockers_lem n (order_by number_le found) w.issues)

  module _ (reads : (n : ℕ) (s : S) → Answered (list_blocked_by n s).0) where
    visit-Ends : (fuel : ℕ) → Ends fuel (visit repo list_blocked_by fuel)
    unfolding visit expand ◌>>=◌
    visit-Ends zero n w s h known =
        λ e. omega (arith, length-Unique-le w.on_path all h.unique h.inside, h.room)
    visit-Ends (suc fuel) n w s h known = elim (Bool-cases (contains w.on_path n)) [
      | inl looped ↦ rw (looped, visit) (λ e. absurd (cc e))
      | inr fresh_path ↦ elim (Bool-cases (contains w.done n)) [
        | inl walked ↦ rw (fresh_path, walked, visit) (λ e. absurd (cc e))
        | inr unseen ↦
            rw (fresh_path, unseen, visit)
              (read_ends fuel (visit repo list_blocked_by fuel)
                (visit_lem repo list_blocked_by fuel) (visit-Ends fuel) n w h known fresh_path
                unseen (list_blocked_by n s).0 (list_blocked_by n s).1 (reads n s))
      ]
    ]

    finish_ends :
        (r : Result Error (Unit {0}) × (Walk × S))
        → IsFueled r.0
        → IsFueled (finish repo list_blocked_by r).0
    finish_ends (ok x, (w, s)) k = λ e. absurd (cc e)
    finish_ends (err x, (w, s)) k = λ e. k (ap err (err-injective e))

    -- The walk ends by itself: when every issue that the service answers is one of a list, fuel for as
    -- many issues as the list holds and one more is enough, whatever cycles the edges have.
    pub walk_closure-IsFueled :
        (number : ℕ) (s : S)
        → contains all number ≡ true
        → IsFueled (walk_closure repo list_blocked_by (suc (length all)) number s).0
    unfolding walk_closure
    walk_closure-IsFueled number s known =
        finish_ends (visit repo list_blocked_by (suc (length all)) number (start, s)) (
          visit-Ends (suc (length all)) number start s
            (record { good = start-IsGood; unique = tt; inside = tt; room = omega arith }) known)
