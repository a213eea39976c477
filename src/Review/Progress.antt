-- ===== src/Review/Progress.antt =====
-- reviewer.py and bootstrap/vocabulary.py: the attempt label of a revision counts a round.
use the_ozolith.Common.{
  ℕ, zero, suc, ◌+◌, ◌-◌, ◌<◌, max, String, ◌≡◌, refl, ap, subst, ◌∙◌, true, some, List, [], ◌∷◌,
  ◌++◌, map, arith, &&-eq-true, length, nat_eq, string_eq, pair_eq, triple_eq, list_eq,
}
use the_ozolith.Common.Exec.{ok}
use Prim.Native.Char.{code}
use the_ozolith.Common.Decimal.{
  decimal, is_digit, all_digits, all_digits-decimal, is_digits-decimal, value-decimal,
}
use the_ozolith.Deps.{PullRequest}
use the_ozolith.Vocabulary.{codes, attempts_on, attempt_prefix, strip_prefix-append}
use the_ozolith.Review.{revise, Verdict, Desk}
use the_ozolith.Review.Publish.{
  round_budget, append_text, digit_texts, nth, digits_text, attempt_label,
}
use the_ozolith.Review.Round.{rounds_spent, review_pr}
use the_ozolith.Review.Labelled.{review_pr-labelled}
use the_ozolith.Review.Labelled.Calls.{Labels}
use the_ozolith.Review.Sound.{IsSoundFor, review_pr-IsSound}

codes-append : (s t : String) → codes (append_text s t) ≡ codes s ++ codes t
codes-append String.[] t = refl
codes-append (String.◌∷◌ c s) t = ap (λ rest. code c ∷ rest) (codes-append s t)

-- the texts are those of one character each, from a code point on
AreFrom : ℕ → List String → Type 0
AreFrom c [] = Unit
AreFrom c (s ∷ texts) = (codes s ≡ c ∷ []) × AreFrom (suc c) texts

codes-nth :
    (c : ℕ) (texts : List String) (n : ℕ)
    → AreFrom c texts
    → n < length texts
    → codes (nth texts n) ≡ (c + n) ∷ []
unfolding AreFrom nth
codes-nth c [] n h le = absurd (omega arith)
codes-nth c (s ∷ texts) zero h le = h.0 ∙ ap (λ k. k ∷ []) (omega arith)
codes-nth c (s ∷ texts) (suc n) h le =
    codes-nth (suc c) texts n h.1 (omega arith) ∙ ap (λ k. k ∷ []) (omega arith)

codes-digit : (c : ℕ) → is_digit c ≡ true → codes (nth digit_texts (c - 48)) ≡ c ∷ []
unfolding AreFrom
codes-digit c h =
    codes-nth 48 digit_texts (c - 48)
      (refl, (refl, (refl, (refl, (refl, (refl, (refl, (refl, (refl, (refl, tt))))))))))
      (ground (arith, h))
    ∙ ap (λ n. n ∷ []) (ground (arith, h))

codes-digits_text : (s : List ℕ) → all_digits s ≡ true → codes (digits_text s) ≡ s
unfolding digits_text all_digits
codes-digits_text [] h = refl
codes-digits_text (c ∷ s) h =
    let (d, ds) = &&-eq-true (is_digit c) (all_digits s) h in
    codes-append (nth digit_texts (c - 48)) (digits_text s)
    ∙ rw (codes-digit c d, codes-digits_text s ds) refl

codes-attempt_label : (n : ℕ) → codes (attempt_label n) ≡ attempt_prefix ++ decimal n
unfolding attempt_label
codes-attempt_label n =
    codes-append "attempt-" (digits_text (decimal n))
    ∙ ap (λ s. attempt_prefix ++ s) (codes-digits_text (decimal n) (all_digits-decimal n))

attempts_on-label :
    (n : ℕ) (labels : List (List ℕ))
    → attempts_on (codes (attempt_label n) ∷ labels) ≡ max n (attempts_on labels)
unfolding attempts_on
attempts_on-label n labels = rw (
  codes-attempt_label n,
  strip_prefix-append attempt_prefix (decimal n),
  is_digits-decimal n,
  value-decimal n,
)

module _ {H : Type 0} (desk : Desk H) where
  -- A revision makes progress. When it is returned, the attempt label of the round after those that
  -- the labels count was put on the pull request, for any view of the host that holds once GitHub
  -- answered that call and that the calls which may follow it keep: taking pr_ready and the claim
  -- off, plan_ready, the evidence, the event and the removal of the job. With that label one more
  -- round is counted than before, and fewer than the budget.
  pub review_pr-progress :
      (pr : PullRequest) (IsLabelled : H → Type 0)
      → Labels desk pr IsLabelled
      → (fuel : ℕ) (v : Verdict) (h u : H) → review_pr desk fuel pr h ≡ (ok (some v), u)
      → v.verdict ≡ revise
      → IsLabelled u
        × (rounds_spent (record pr { labels = attempt_label (suc (rounds_spent pr)) ∷ pr.labels })
            ≡ suc (rounds_spent pr))
        × (suc (rounds_spent pr) < round_budget)
  review_pr-progress pr IsLabelled calls fuel v h u e kind =
      let (closes, within, plan) =
        subst (IsSoundFor (rounds_spent pr) v) kind (review_pr-IsSound desk fuel pr v h u e) in
      (
        review_pr-labelled desk pr IsLabelled calls fuel v h u e kind,
        attempts_on-label (suc (rounds_spent pr)) (map codes pr.labels) ∙ ground arith,
        ground (arith, closes, within),
      )
