-- ===== src/Deps/Walk/Kept.antt =====
-- deps.py: the walk does to the state of its reads what the reads do.
use the_ozolith.Common.{
  ℕ, zero, suc, String, inl, inr, List, [], ◌∷◌, Bool-cases, nat_eq, string_eq, pair_eq, triple_eq,
  list_eq, contains,
}
use the_ozolith.Common.Exec.{Result, ok, err, Exec, pure}
use the_ozolith.Common.Table.{Table}
use the_ozolith.Common.Order.{order_by}
use the_ozolith.Common.Keeps.{Preorder, Keeps, Keeps-bind}
use the_ozolith.Deps.{Issue, Error}
use the_ozolith.Deps.Walk.{
  Walk, start, number_le, note_blockers, record_edges, visit_all, expand, visit, finish,
  walk_closure,
}

-- a relation on the second of two states
abbrev pub beside : {S : Type 0} → Preorder S → Preorder (Walk × S)
beside R = record {
  Rel = λ p q. R.Rel p.1 q.1;
  same = λ p. R.same p.1;
  along = λ p q r. R.along p.1 q.1 r.1;
}

module _ {S : Type 0} (R : Preorder S) (repo : String)
    (list_blocked_by : ℕ → Exec Error S (List Issue)) where
  note_lem :
      (n : ℕ) (blockers : List Issue) (r : Result Error (Table ℕ Issue)) (w : Walk) (s : S)
      → R.Rel s (record_edges repo list_blocked_by n blockers r (w, s)).1.1
  note_lem n blockers (ok t) w s = R.same s
  note_lem n blockers (err e) w s = R.same s

  Keeps-visit_all :
      (rec : ℕ → Exec Error (Walk × S) (Unit {0}))
      → ((n : ℕ) → Keeps (beside R) (rec n))
      → (bs : List Issue) → Keeps (beside R) (visit_all repo list_blocked_by rec bs)
  unfolding visit_all pure
  Keeps-visit_all rec k [] = λ p. R.same p.1
  Keeps-visit_all rec k (b ∷ bs) =
      Keeps-bind (beside R) (rec b.number) (λ _. visit_all repo list_blocked_by rec bs) (k b.number)
        (λ _. Keeps-visit_all rec k bs)

  Keeps-expand :
      (rec : ℕ → Exec Error (Walk × S) (Unit {0}))
      → ((n : ℕ) → Keeps R (list_blocked_by n))
      → ((n : ℕ) → Keeps (beside R) (rec n))
      → (n : ℕ) → Keeps (beside R) (expand repo list_blocked_by rec n)
  unfolding expand
  Keeps-expand rec reads k n =
      Keeps-bind (beside R) _ _ (λ p. R.same p.1)
        (λ _.
          Keeps-bind (beside R) _ _ (λ p. reads n p.1)
            (λ unsorted.
              Keeps-bind (beside R) _ _
                (λ p.
                  note_lem n (order_by number_le unsorted)
                    (note_blockers repo n (order_by number_le unsorted) p.0.issues) p.0 p.1)
                (λ _.
                  Keeps-bind (beside R) _ _ (Keeps-visit_all rec k (order_by number_le unsorted))
                    (λ _ p. R.same p.1))))

  Keeps-visit :
      ((n : ℕ) → Keeps R (list_blocked_by n))
      → (fuel n : ℕ) → Keeps (beside R) (visit repo list_blocked_by fuel n)
  unfolding visit
  Keeps-visit reads zero n p = R.same p.1
  Keeps-visit reads (suc fuel) n (w, s) = elim (Bool-cases (contains w.on_path n)) [
    | inl looped ↦ rw looped (R.same s)
    | inr fresh_path ↦ elim (Bool-cases (contains w.done n)) [
      | inl walked ↦ rw (fresh_path, walked) (R.same s)
      | inr new ↦
          rw (fresh_path, new)
            (Keeps-expand (visit repo list_blocked_by fuel) reads (Keeps-visit reads fuel) n (w, s))
    ]
  ]

  finish_lem :
      (s : S) (r : Result Error (Unit {0}) × (Walk × S))
      → R.Rel s r.1.1
      → R.Rel s (finish repo list_blocked_by r).1
  finish_lem s (ok u, (w, t)) h = h
  finish_lem s (err e, (w, t)) h = h

  pub Keeps-walk_closure :
      ((n : ℕ) → Keeps R (list_blocked_by n))
      → (fuel n : ℕ) → Keeps R (walk_closure repo list_blocked_by fuel n)
  unfolding walk_closure
  Keeps-walk_closure reads fuel n s =
      finish_lem s (visit repo list_blocked_by fuel n (start, s))
        (Keeps-visit reads fuel n (start, s))
