-- ===== src/Vocabulary.antt =====
-- worker/src/theozolith_worker/bootstrap/vocabulary.py: the labels of the pipeline.
use the_ozolith.Common.{
  ℕ, max, String, ◌≡◌, refl, Bool, not, ◌&&◌, Option, none, some, List, [], ◌∷◌, ◌++◌, arith,
  if◌then◌else◌, ◌==◌, nat_eq, string_eq, pair_eq, triple_eq, contains,
}
use Prim.Native.Char.{code}
use the_ozolith.Common.Decimal.{is_digits, value}

abbrev pub draft : String
draft = "draft"

abbrev pub plan_ready : String
plan_ready = "plan_ready"

abbrev pub in_progress : String
in_progress = "in_progress"

abbrev pub pr_ready : String
pr_ready = "pr_ready"

abbrev pub blocked : String
blocked = "blocked"

abbrev pub failed : String
failed = "failed"

abbrev pub needs_human : String
needs_human = "needs_human"

-- the code points of a text
abbrev pub codes : String → List ℕ
codes String.[] = []
codes (String.◌∷◌ c s) = code c ∷ codes s

-- `s.removeprefix(p)`, where `s` starts with `p`
unfoldable pub strip_prefix : List ℕ → List ℕ → Option (List ℕ)
strip_prefix [] s = some s
strip_prefix (c ∷ p) [] = none
strip_prefix (c ∷ p) (d ∷ s) = let rest = strip_prefix p s in if c == d then rest else none

pub strip_prefix-append : (p s : List ℕ) → strip_prefix p (p ++ s) ≡ some s
unfolding strip_prefix
strip_prefix-append [] s = refl
strip_prefix-append (c ∷ p) s = ground (arith, strip_prefix-append p s)

-- ATTEMPT_PREFIX
abbrev pub attempt_prefix : List ℕ
attempt_prefix = codes "attempt-"

abbrev round_of : Option (List ℕ) → ℕ
round_of none = 0
round_of (some suffix) = if is_digits suffix then value suffix else 0

-- the highest attempt-N among the labels, given by their code points; 0 if there is none
unfoldable pub attempts_on : List (List ℕ) → ℕ
attempts_on [] = 0
attempts_on (name ∷ labels) = max (round_of (strip_prefix attempt_prefix name)) (attempts_on labels)

unfoldable pub reviewable : List String → Bool
reviewable labels =
    contains labels pr_ready && not (contains labels needs_human) && not (contains labels blocked)
