-- ===== src/Deps/Branch.antt =====
-- deps.py: the branch naming convention.
use the_ozolith.Common.{
  ℕ, ◌≡◌, sym, ap, ◌∙◌, Option, none, some, ◌++◌, if◌then◌else◌, nat_eq, string_eq, pair_eq,
  triple_eq,
}
use the_ozolith.Common.Decimal.{decimal, is_digits, value, is_digits-decimal, value-decimal}
use the_ozolith.Vocabulary.{codes, strip_prefix, strip_prefix-append}
use the_ozolith.Deps.{Ref}

-- BRANCH_PREFIX
abbrev pub branch_prefix : Ref
branch_prefix = codes "ozolith/issue-"

unfoldable pub branch_for : ℕ → Ref
branch_for issue_number = branch_prefix ++ decimal issue_number

abbrev number_of : Option Ref → Option ℕ
number_of none = none
number_of (some suffix) = if is_digits suffix then some (value suffix) else none

unfoldable pub issue_for_branch : Ref → Option ℕ
issue_for_branch head_ref = number_of (strip_prefix branch_prefix head_ref)

-- A branch is traced back to the issue that it was named for, whatever the issue.
pub issue_for_branch-branch_for : (n : ℕ) → issue_for_branch (branch_for n) ≡ some n
unfolding issue_for_branch branch_for
issue_for_branch-branch_for n =
    rw (strip_prefix-append branch_prefix (decimal n), is_digits-decimal n, value-decimal n)

some-injective : {m n : ℕ} → some m ≡ some n → m ≡ n
some-injective e = cc

-- so no two issues share a branch.
pub branch_for-injective : (m n : ℕ) → branch_for m ≡ branch_for n → m ≡ n
branch_for-injective m n e =
    some-injective
      (sym (issue_for_branch-branch_for m) ∙ ap issue_for_branch e ∙ issue_for_branch-branch_for n)
