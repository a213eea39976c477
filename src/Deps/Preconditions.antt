-- ===== src/Deps/Preconditions.antt =====
-- deps.py: the repository settings under which dependents may be chained.
use the_ozolith.Common.{
  String, ◌≡◌, ◌↔◌, Bool, true, false, not, ◌&&◌, Option, none, some, List, [], ◌∷◌, arith,
  if◌then◌else◌, nat_eq, string_eq, pair_eq, triple_eq, list_eq,
}
use the_ozolith.Common.Message.{Message, lit, say}
use the_ozolith.Deps.{RepoMergeSettings}

abbrev when : Bool → String → List String → List String
when true s rest = s ∷ rest
when false s rest = rest

abbrev pub failing : RepoMergeSettings → List String
failing settings = when (not settings.merge_commit_allowed) "merge commits disabled" (
    when settings.squash_allowed "squash merge enabled" (
      when settings.rebase_allowed "rebase merge enabled"
        (when (not settings.delete_branch_on_merge) "delete-branch-on-merge disabled" [])))

-- `", ".join(failing)`
abbrev pub joined : List String → Message
joined [] = []
joined (s ∷ []) = say s
joined (s ∷ t ∷ ss) = lit s ∷ lit ", " ∷ joined (t ∷ ss)

abbrev chaining_off : List String → Option Message
chaining_off [] = none
chaining_off (s ∷ ss) = some (lit "chaining off: " ∷ joined (s ∷ ss))

unfoldable pub chain_preconditions : RepoMergeSettings → Option Message
chain_preconditions settings =
    if not settings.complete
    then some (say "chaining off: merge settings unreadable with this token")
    else chaining_off (failing settings)

-- Chaining is on exactly when the settings were read whole, merge commits are on, squash and rebase
-- merges are off, and a merged branch is deleted.
pub chain_preconditions_iff :
    (s : RepoMergeSettings)
    → (chain_preconditions s ≡ none) ↔ (
        (s.complete
          && s.merge_commit_allowed
          && not s.squash_allowed
          && not s.rebase_allowed
          && s.delete_branch_on_merge)
        ≡ true)
unfolding chain_preconditions
chain_preconditions_iff s = ground arith
