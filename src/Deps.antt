-- ===== src/Deps.antt =====
-- worker/src/theozolith_worker/deps.py: Dependency Edges, and the records of githubapi.py that it reads.
-- A git ref is given by its code points; labels and assignees are lists read as sets.
pub mod Branch
pub mod Walk
pub mod Resolve
pub mod Preconditions
mod Tests
use the_ozolith.Common.{
  ℕ, String, refl, Bool, false, List, [], arith, nat_eq, string_eq, pair_eq, triple_eq,
}
use the_ozolith.Common.Table.{Table}
use the_ozolith.Common.Message.{Message}

abbrev pub Ref : Type 0
Ref = List ℕ

pub record Issue : Type 0 where
  pub number : ℕ
  pub title : String
  pub body : String
  pub labels : List String
  pub assignees : List String
  pub is_pr : Bool
  pub state : String
  pub state_reason : String
  pub repo : String

pub record PullRequest : Type 0 where
  pub number : ℕ
  pub title : String
  pub body : String
  pub head_ref : Ref
  pub head_sha : String
  pub base_ref : Ref
  pub labels : List String
  pub state : String
  pub merged : Bool
  pub merge_commit_sha : String

pub record RepoMergeSettings : Type 0 where
  pub merge_commit_allowed : Bool
  pub squash_allowed : Bool
  pub rebase_allowed : Bool
  pub delete_branch_on_merge : Bool
  pub complete : Bool

-- what a routine may raise; `key_error` is Python's, and `out_of_fuel` is the model's
pub data Error : Type 0 where
  cycle : List ℕ → Error
  cross_repo : ℕ → String → Error
  github : Message → Error
  key_error : ℕ → Error
  out_of_fuel : Error

pub record DependencyClosure : Type 0 where
  pub order : List ℕ
  pub edges : Table ℕ (List ℕ)
  pub issues : Table ℕ Issue

pub data Kind : Type 0 where
  ready chained wait malformed : Kind

pub record ChainDecision : Type 0 where
  pub kind : Kind
  pub reason : Message
  pub base_branch : Ref
  pub base_is_chained : Bool
  pub tip_issue : ℕ

-- `ChainDecision(kind=…, reason=…)`, the other fields at their defaults
abbrev pub refusal : Kind → Message → ChainDecision
refusal kind reason = record {
  kind = kind;
  reason = reason;
  base_branch = [];
  base_is_chained = false;
  tip_issue = 0;
}
