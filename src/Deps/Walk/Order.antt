-- ===== src/Deps/Walk/Order.antt =====
-- A walk that returns has visited the issues in a topological order of the edges that it read.
use the_ozolith.Common.{
  ℕ, zero, suc, String, ◌≡◌, refl, sym, ap, subst, ◌∙◌, inl, inr, true, false, some, List, [], ◌∷◌,
  ◌++◌, map, Bool-cases, last?, nat_eq, string_eq, pair_eq, triple_eq, list_eq, contains,
}
use the_ozolith.Common.Table.{Table}
use the_ozolith.Common.Exec.{Result, ok, err, Exec, continue, ◌>>=◌, ◌>>◌, bind-eq-ok}
use the_ozolith.Common.Order.{order_by}
use the_ozolith.Deps.{Issue, Error, DependencyClosure}
use the_ozolith.Deps.Walk.{
  Walk, start, number_le, number_of, note_blockers, enter, leave, record_edges, note, modify,
  visit_all, expand, visit, closure_of, finish, walk_closure,
}
use the_ozolith.Deps.Walk.Visited.{
  Topological, Within, IsGood, Visited, Visited-refl, Visited-trans, entered, entered-IsGood,
  leave-Visited, leave_has,
}

last?-append : (ns : List ℕ) (n : ℕ) → last? (ns ++ n ∷ []) ≡ some n
last?-append [] n = refl
last?-append (m ∷ []) n = refl
last?-append (m ∷ k ∷ ns) n = last?-append (k ∷ ns) n

pub start-IsGood : IsGood start
start-IsGood = record { topological = tt; done_eq = λ m. refl; apart = λ m h. cc }

module _ {S : Type 0} (repo : String) (list_blocked_by : ℕ → Exec Error S (List Issue)) where
  -- the specification of a visit: what it has done if it returns
  abbrev pub Visits : (ℕ → Exec Error (Walk × S) (Unit {0})) → Type 0
  Visits rec =
      (n : ℕ) (w w' : Walk) (s s' : S)
      → IsGood w
      → rec n (w, s) ≡ (ok tt, (w', s'))
      → Visited w w' × (contains w'.order n ≡ true)

  visit_all_lem :
      (rec : ℕ → Exec Error (Walk × S) (Unit {0})) (spec : Visits rec) (bs : List Issue)
      (w w' : Walk) (s s' : S)
      → IsGood w
      → visit_all repo list_blocked_by rec bs (w, s) ≡ (ok tt, (w', s'))
      → Visited w w' × Within w'.order (map number_of bs)
  unfolding visit_all ◌>>=◌
  visit_all_lem rec spec [] w w' s s' g h =
      let e : w ≡ w' = cc h in (subst (λ v. Visited w v) e (Visited-refl w g), tt)
  visit_all_lem rec spec (b ∷ bs) w w' s s' g h =
      let (a, (v, u), e, f) =
        bind-eq-ok (rec b.number) (λ _. visit_all repo list_blocked_by rec bs) (w, s) h in
      let one = spec b.number w v s u g e in
      let rest = visit_all_lem rec spec bs v w' u s' one.0.good f in
      (Visited-trans one.0 rest.0, (rest.0.grows b.number one.1, rest.1))

  module _ (rec : ℕ → Exec Error (Walk × S) (Unit {0})) (spec : Visits rec) (n : ℕ) (w : Walk)
      (g : IsGood w) (fresh_path : contains w.on_path n ≡ false)
      (fresh_done : contains w.done n ≡ false) where
    -- the last two lines of `expand`
    abbrev visits : List Issue → Exec Error (Walk × S) (Unit {0})
    visits bs = visit_all repo list_blocked_by rec bs >> modify repo list_blocked_by (leave n)

    Concluded : Walk → Type 0
    Concluded w' = Visited w w' × (contains w'.order n ≡ true) × (last? w'.order ≡ some n)

    visits_lem :
        (bs : List Issue) (t : Table ℕ Issue) (w' : Walk) (u s' : S)
        → visits bs (entered w n t (map number_of bs), u) ≡ (ok tt, (w', s'))
        → Concluded w'
    unfolding Concluded
    visits_lem bs t w' u s' h =
        let (a, (v, u'), e, f) =
          bind-eq-ok (visit_all repo list_blocked_by rec bs)
            (λ _. modify repo list_blocked_by (leave n)) (entered w n t (map number_of bs), u) h in
        let good = entered-IsGood w n g fresh_path fresh_done t (map number_of bs) in
        let d = visit_all_lem rec spec bs (entered w n t (map number_of bs)) v u u' good e in
        let left : leave n v ≡ w' = cc f in
        subst Concluded left (
          leave-Visited w n g fresh_path fresh_done t (map number_of bs) v d.0 d.1,
          leave_has w n g fresh_path fresh_done t (map number_of bs) v d.0 d.1,
          last?-append v.order n,
        )

    noted_lem :
        (bs : List Issue) (r : Result Error (Table ℕ Issue)) (w' : Walk) (u s' : S)
        → (record_edges repo list_blocked_by n bs r >> visits bs) (enter n w, u) ≡ (ok tt, (w', s'))
        → Concluded w'
    unfolding ◌>>=◌
    noted_lem bs (err e) w' u s' h =
        absurd (cc (ap (λ (p : Result Error (Unit {0}) × (Walk × S)). p.0) h))
    noted_lem bs (ok t) w' u s' h = visits_lem bs t w' u s' h

    -- the body of `expand` behind the read
    abbrev body : List Issue → Exec Error (Walk × S) (Unit {0})
    body bs = note repo list_blocked_by n bs >> visits bs

    read_lem :
        (r : Result Error (List Issue)) (w' : Walk) (u s' : S)
        → continue r (λ found. body (order_by number_le found)) (enter n w, u) ≡ (ok tt, (w', s'))
        → Concluded w'
    unfolding ◌>>=◌
    read_lem (err e) w' u s' h =
        absurd (cc (ap (λ (p : Result Error (Unit {0}) × (Walk × S)). p.0) h))
    read_lem (ok found) w' u s' h =
        noted_lem (order_by number_le found)
          (note_blockers repo n (order_by number_le found) w.issues) w' u s' h

    expand_lem :
        (w' : Walk) (s s' : S)
        → expand repo list_blocked_by rec n (w, s) ≡ (ok tt, (w', s'))
        → Visited w w' × (contains w'.order n ≡ true) × (last? w'.order ≡ some n)
    unfolding expand Concluded ◌>>=◌
    expand_lem w' s s' h = read_lem (list_blocked_by n s).0 w' (list_blocked_by n s).1 s' h

  pub visit_lem : (fuel : ℕ) → Visits (visit repo list_blocked_by fuel)
  unfolding visit
  visit_lem zero n w w' s s' g h =
      absurd (cc (ap (λ (p : Result Error (Unit {0}) × (Walk × S)). p.0) h))
  visit_lem (suc fuel) n w w' s s' g h = elim (Bool-cases (contains w.on_path n)) [
    | inl on ↦
        absurd (cc (ap (λ (p : Result Error (Unit {0}) × (Walk × S)). p.0) (rw (on, visit) at h)))
    | inr off ↦ elim (Bool-cases (contains w.done n)) [
      | inl seen ↦
          let same : w ≡ w' = cc (rw (off, seen) at h) in
          subst (λ v. Visited w v × (contains v.order n ≡ true)) same
            (Visited-refl w g, sym (g.done_eq n) ∙ seen)
      | inr unseen ↦
          let done =
            expand_lem (visit repo list_blocked_by fuel) (visit_lem fuel) n w g off unseen w' s s'
              (rw (off, unseen) at h) in
          (done.0, done.1)
    ]
  ]

  root_lem :
      (fuel n : ℕ) (w' : Walk) (s s' : S)
      → visit repo list_blocked_by (suc fuel) n (start, s) ≡ (ok tt, (w', s'))
      → Topological w'.edges [] w'.order × (last? w'.order ≡ some n)
  unfolding visit
  root_lem fuel n w' s s' h =
      let done =
        expand_lem (visit repo list_blocked_by fuel) (visit_lem fuel) n start start-IsGood refl refl
          w' s s' h in
      (done.0.good.topological, done.2)

  finish_lem :
      (fuel n : ℕ) (r : Result Error (Unit {0})) (w : Walk) (s u s' : S) (c : DependencyClosure)
      → visit repo list_blocked_by fuel n (start, s) ≡ (r, (w, u))
      → finish repo list_blocked_by (r, (w, u)) ≡ (ok c, s')
      → Topological c.edges [] c.order × (last? c.order ≡ some n)
  unfolding visit
  finish_lem fuel n (err e') w s u s' c e h =
      absurd (cc (ap (λ (p : Result Error DependencyClosure × S). p.0) h))
  finish_lem zero n (ok o) w s u s' c e h =
      absurd (cc (ap (λ (p : Result Error (Unit {0}) × (Walk × S)). p.0) e))
  finish_lem (suc fuel) n (ok o) w s u s' c e h =
      let same : closure_of repo list_blocked_by w ≡ c = cc h in
      subst (λ (d : DependencyClosure). Topological d.edges [] d.order × (last? d.order ≡ some n))
        same (root_lem fuel n w s u e)

  -- A walk that returns lists the issue last, each listed issue once, and every blocker that the
  -- walk recorded for a listed issue before that issue.
  pub walk_closure-Topological :
      (fuel n : ℕ) (s s' : S) (c : DependencyClosure)
      → walk_closure repo list_blocked_by fuel n s ≡ (ok c, s')
      → Topological c.edges [] c.order × (last? c.order ≡ some n)
  unfolding walk_closure
  walk_closure-Topological fuel n s s' c h =
      let (r, (w, u)) = visit repo list_blocked_by fuel n (start, s) in
      finish_lem fuel n r w s u s' c refl h
