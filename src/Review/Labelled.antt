-- ===== src/Review/Labelled.antt =====
-- reviewer.py: a revision puts the attempt label on the pull request before it is returned.
pub mod Calls
mod Last
use the_ozolith.Common.{
  ℕ, suc, String, ◌≡◌, refl, sym, subst, inl, inr, false, Option, none, some, List, [], ◌∷◌, leb,
  Bool-cases, nat_eq, string_eq, pair_eq, triple_eq, list_eq,
}
use the_ozolith.Common.Message.{Message}
use the_ozolith.Common.Exec.{Result, ok, err, Exec, continue, ◌>>=◌}
use the_ozolith.Common.Keeps.{Keeps}
use the_ozolith.Common.Steady.{Steady, Steady-bind, invariant, steady_rules}
use the_ozolith.Vocabulary.{plan_ready, in_progress, pr_ready}
use the_ozolith.Deps.{PullRequest}
use the_ozolith.Deps.Branch.{issue_for_branch}
use the_ozolith.Review.{
  Fault, VerdictKind, approve, revise, escalate, Verdict, ReviewInputs, File, Event, Desk,
}
use the_ozolith.Review.Base.{github, ask, each, finally, after, mapped, push_evidence_files}
use the_ozolith.Review.Labelled.Calls.{
  Labels, Steady-github, Steady-emit, Steady-push, Steady-requeue, Steady-discard,
}
use the_ozolith.Review.Labelled.Last.{IsOther, IsLast, Ends-wait, Ends-invalid, Ends-other}
use the_ozolith.Review.Outcome.{
  Steady-gets, Holds, Ends, Ends-pure, Ends-raise, Ends-catch, Ends-finally, Ends-then, Ends-bind,
}
use the_ozolith.Review.Publish.{
  round_budget, attempt_label, publish, apply, strip_claim_and_requeue, escalate_invalid_verdict,
  escalate_identity_failure,
}
use the_ozolith.Review.Round.{
  rounds_spent, of_detail, session_failed, wait, conclude, after_wait, session, discard,
  review_issue, review_pr,
}
use the_ozolith.Review.Sound.{IsSound, IsSoundFor, validated_lem}

module _ {H : Type 0} (desk : Desk H) (pr : PullRequest) (IsLabelled : H → Type 0) where
  -- a revision is returned on a labelled host
  abbrev LabelledFor : VerdictKind → H → Type 0
  LabelledFor revise u = IsLabelled u
  LabelledFor approve u = Unit
  LabelledFor escalate u = Unit

  abbrev LabelledBy : Option Verdict → H → Type 0
  LabelledBy none u = Unit
  LabelledBy (some v) u = LabelledFor v.verdict u

  for_lem :
      (k : VerdictKind) (t u : H)
      → (IsLabelled t → IsLabelled u)
      → LabelledFor k t
      → LabelledFor k u
  for_lem revise t u k h = k h
  for_lem approve t u k h = tt
  for_lem escalate t u k h = tt

  by_lem :
      (o : Option Verdict) (t u : H)
      → (IsLabelled t → IsLabelled u)
      → LabelledBy o t
      → LabelledBy o u
  by_lem none t u k h = tt
  by_lem (some v) t u k h = for_lem v.verdict t u k h

  kind_lem : (k : VerdictKind) (u : H) → IsOther k → LabelledFor k u
  kind_lem approve u h = tt
  kind_lem revise u h = absurd h
  kind_lem escalate u h = tt

  last_lem : (o : Option Verdict) (u : H) → IsLast o → LabelledBy o u
  last_lem none u h = tt
  last_lem (some v) u h = kind_lem v.verdict u h

  labelled_kind : (k : VerdictKind) (u : H) → IsLabelled u → LabelledFor k u
  labelled_kind approve u h = tt
  labelled_kind revise u h = h
  labelled_kind escalate u h = tt

  labelled_lem : (o : Option Verdict) (u : H) → IsLabelled u → LabelledBy o u
  labelled_lem none u h = tt
  labelled_lem (some v) u h = labelled_kind v.verdict u h

  abbrev Returned : Result Fault (Option Verdict) → H → Type 0
  Returned (ok o) u = LabelledBy o u
  Returned (err e) u = Unit

  -- what is returned is so
  record Lands (m : Exec Fault H (Option Verdict)) : Type 0 where
    lands : (h : H) → Returned (m h).0 (m h).1

  Lands-last : (m : Exec Fault H (Option Verdict)) → Ends IsLast m → Lands m
  Lands-last m k = record { lands = λ h. last (m h).0 (m h).1 (k.ends h) }
    where
      last : (r : Result Fault (Option Verdict)) (u : H) → Holds IsLast r → Returned r u
      last (ok o) u h = last_lem o u h
      last (err e) u h = tt

  continue_lem :
      {A : Type 0} (r : Result Fault A) (f : A → Exec Fault H (Option Verdict)) (u : H)
      → ((a : A) → Lands (f a))
      → Returned (continue r f u).0 (continue r f u).1
  continue_lem (ok a) f u k = (k a).lands u
  continue_lem (err e) f u k = tt

  Lands-bind :
      {A : Type 0} (m : Exec Fault H A) (f : A → Exec Fault H (Option Verdict))
      → ((a : A) → Lands (f a))
      → Lands (m >>= f)
  unfolding ◌>>=◌
  Lands-bind m f k = record { lands = λ h. continue_lem (m h).0 f (m h).1 k }

  Lands-then :
      (m : Exec Fault H (Option Verdict)) (f : Option Verdict → Exec Fault H (Option Verdict))
      (P : Option Verdict → Type 0)
      → Ends P m
      → ((o : Option Verdict) → P o → Lands (f o))
      → Lands (m >>= f)
  unfolding ◌>>=◌
  Lands-then m f P k l = record { lands = λ h. then_lem (m h).0 (m h).1 (k.ends h) }
    where
      then_lem :
          (r : Result Fault (Option Verdict)) (u : H)
          → Holds P r
          → Returned (continue r f u).0 (continue r f u).1
      then_lem (ok o) u h = (l o h).lands u
      then_lem (err e) u h = tt

  Lands-finally :
      (m : Exec Fault H (Option Verdict)) (k : Exec Fault H (Unit {0}))
      → Lands m
      → Steady (invariant IsLabelled) k
      → Lands (finally m k)
  unfolding finally
  Lands-finally m k l steady = record {
    lands = λ h. after_lem (m h).0 (m h).1 (k (m h).1) (l.lands h) (steady.at (m h).1);
  }
    where
      after_lem :
          (r : Result Fault (Option Verdict)) (t : H) (p : Result Fault (Unit {0}) × H)
          → Returned r t
          → (IsLabelled t → IsLabelled p.1)
          → Returned (after r p).0 (after r p).1
      after_lem (ok o) t (ok x, u) h k = by_lem o t u k h
      after_lem (err e) t (ok x, u) h k = tt
      after_lem r t (err e, u) h k = tt

  -- whatever it returns, the host is labelled then
  abbrev Marked : {A : Type 0} → Result Fault A → H → Type 0
  Marked (ok a) u = IsLabelled u
  Marked (err e) u = Unit

  record Marks {A : Type 0} (m : Exec Fault H A) : Type 0 where
    marks : (h : H) → Marked (m h).0 (m h).1

  Lands-Marks : (m : Exec Fault H (Option Verdict)) → Marks m → Lands m
  Lands-Marks m k = record { lands = λ h. marked (m h).0 (m h).1 (k.marks h) }
    where
      marked : (r : Result Fault (Option Verdict)) (u : H) → Marked r u → Returned r u
      marked (ok o) u h = labelled_lem o u h
      marked (err e) u h = tt

  marked_lem : {A : Type 0} (r : Result Fault A) (u : H) → IsLabelled u → Marked r u
  marked_lem (ok b) u h = h
  marked_lem (err e) u h = tt

  module _ {A B : Type 0} where
    bind_lem :
        (r : Result Fault A) (f : A → Exec Fault H B) (u : H)
        → ((a : A) → Marks (f a))
        → Marked (continue r f u).0 (continue r f u).1
    bind_lem (ok a) f u k = (k a).marks u
    bind_lem (err e) f u k = tt

    Marks-bind :
        (m : Exec Fault H A) (f : A → Exec Fault H B) → ((a : A) → Marks (f a)) → Marks (m >>= f)
    unfolding ◌>>=◌
    Marks-bind m f k = record { marks = λ h. bind_lem (m h).0 f (m h).1 k }

    keep_lem :
        (r : Result Fault A) (f : A → Exec Fault H B) (u : H)
        → Marked r u
        → ((a : A) → Steady (invariant IsLabelled) (f a))
        → Marked (continue r f u).0 (continue r f u).1
    keep_lem (ok a) f u h k = marked_lem (f a u).0 (f a u).1 ((k a).at u h)
    keep_lem (err e) f u h k = tt

    Marks-keep :
        (m : Exec Fault H A) (f : A → Exec Fault H B)
        → Marks m
        → ((a : A) → Steady (invariant IsLabelled) (f a))
        → Marks (m >>= f)
    unfolding ◌>>=◌
    Marks-keep m f k l = record { marks = λ h. keep_lem (m h).0 f (m h).1 (k.marks h) l }

  module _ (calls : Labels desk pr IsLabelled) where
    Marks-label :
        Marks
          (github (desk.client.add_labels pr.number (attempt_label (suc (rounds_spent pr)) ∷ [])))
    unfolding github
    Marks-label = record { marks = λ h. answered (add h).0 (add h).1 h refl }
      where
        add : Exec Message H (Unit {0})
        add = desk.client.add_labels pr.number (attempt_label (suc (rounds_spent pr)) ∷ [])

        answered :
            (r : Result Message (Unit {0})) (u h : H)
            → add h ≡ (r, u)
            → Marked (mapped Fault.github_error r) u
        answered (ok x) u h e = calls.labelled h u e
        answered (err m) u h e = tt

    Marks-apply :
        (n : ℕ) (v : Verdict) (transcript : String) (raw : Option String)
        → v.verdict ≡ revise
        → v.round ≡ suc (rounds_spent pr)
        → Marks (apply desk pr n v transcript raw)
    unfolding apply publish
    Marks-apply n v transcript raw kind next =
        Marks-keep _ _
          (rw (kind, next)
            (Marks-bind _ _ (λ _. Marks-keep _ _ Marks-label (λ _.
              search
                (
                  steady_rules,
                  Steady-github desk pr IsLabelled calls,
                  calls.reviewed,
                  Steady-requeue desk pr IsLabelled calls,
                )
                depth 12))))
          (λ _. Steady-push desk pr IsLabelled calls _ _)

    Lands-valid :
        (n : ℕ) (transcript : String) (v : Verdict) (k : VerdictKind)
        → v.verdict ≡ k
        → IsSoundFor (rounds_spent pr) v k
        → Lands (conclude desk pr n (suc (rounds_spent pr)) transcript (ok v))
    Lands-valid n transcript v approve kind sound =
        Lands-last _ (Ends-other desk pr n transcript v (subst IsOther (sym kind) tt))
    Lands-valid n transcript v escalate kind sound =
        Lands-last _ (Ends-other desk pr n transcript v (subst IsOther (sym kind) tt))
    Lands-valid n transcript v revise kind sound = Lands-Marks _ (
        Marks-bind _ _ (λ raw.
          Marks-keep _ _ (Marks-apply n v transcript raw kind sound.0)
            (λ _. search (steady_rules, Steady-emit desk pr IsLabelled calls) depth 8)))

    Lands-conclude :
        (n : ℕ) (transcript : String) (r : Result Message Verdict)
        → Holds (IsSound (rounds_spent pr)) r
        → Lands (conclude desk pr n (suc (rounds_spent pr)) transcript r)
    Lands-conclude n transcript (ok v) sound = Lands-valid n transcript v v.verdict refl sound
    Lands-conclude n transcript (err why) sound =
        Lands-last _ (Ends-invalid desk pr n _ transcript why)

    Lands-after_wait :
        (n : ℕ) (early : Option Verdict)
        → leb round_budget (rounds_spent pr) ≡ false
        → IsLast early
        → Lands (after_wait desk pr n (suc (rounds_spent pr)) early)
    Lands-after_wait n (some v) left last = Lands-last _ (Ends-pure (some v) last)
    Lands-after_wait n none left last = Lands-bind _ _ (λ fields.
        Lands-bind _ _
          (λ transcript. Lands-conclude n transcript _ (validated_lem desk pr n fields left)))

    Lands-session :
        (n : ℕ) (inputs : Option ReviewInputs)
        → leb round_budget (rounds_spent pr) ≡ false
        → Lands (session desk pr n (suc (rounds_spent pr)) inputs)
    Lands-session n none left = Lands-last _ (Ends-pure none tt)
    Lands-session n (some inputs) left = Lands-bind _ _ (λ _. Lands-bind _ _ (λ _.
        Lands-bind _ _ (λ trusted. Lands-bind _ _ (λ id. Lands-bind _ _ (λ _.
          Lands-then _ _ IsLast (Ends-wait desk pr n (suc (rounds_spent pr)) trusted id)
            (λ early last. Lands-after_wait n early left last))))))

    Lands-issue : (fuel : ℕ) (issue : Option ℕ) → Lands (review_issue desk fuel pr issue)
    Lands-issue fuel none = Lands-last _ (Ends-pure none tt)
    Lands-issue fuel (some n) = elim (Bool-cases (leb round_budget (rounds_spent pr))) [
      | inl spent ↦
          rw spent (Lands-last _ (Ends-bind _ _ (λ _. Ends-bind _ _ (λ _. Ends-pure _ tt))))
      | inr left ↦ rw left (
          Lands-bind _ _ (λ _.
            Lands-finally _ _ (Lands-bind _ _ (λ inputs. Lands-session n inputs left))
              (Steady-discard desk pr IsLabelled calls (suc (rounds_spent pr)))))
    ]

    -- a revision that is returned was put on the pull request as its attempt label
    pub review_pr-labelled :
        (fuel : ℕ) (v : Verdict) (h u : H)
        → review_pr desk fuel pr h ≡ (ok (some v), u)
        → v.verdict ≡ revise
        → IsLabelled u
    unfolding review_pr
    review_pr-labelled fuel v h u e kind =
        let landed =
          subst (λ (p : Result Fault (Option Verdict) × H). Returned p.0 p.1) e
            ((Lands-issue fuel (issue_for_branch pr.head_ref)).lands h) in
        subst (λ k. LabelledFor k u) kind landed
