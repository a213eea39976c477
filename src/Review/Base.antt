-- ===== src/Review/Base.antt =====
-- reviewer.py: `try: … finally: …`, the calls of the client, and the best-effort push of evidence.
use the_ozolith.Common.{String, List, [], ◌∷◌, nat_eq, string_eq, pair_eq, triple_eq, list_eq}
use the_ozolith.Common.Message.{Message, lit, num, say}
use the_ozolith.Common.Exec.{Result, ok, err, Exec, pure, ◌>>◌, catch}
use the_ozolith.Deps.{Error}
use the_ozolith.Review.{Fault, File, Event, Desk}

module _ {E S A : Type 0} where
  abbrev pub after : Result E A → Result E (Unit {0}) × S → Result E A × S
  after r (ok u, s) = (r, s)
  after r (err e, s) = (err e, s)

  -- `try: m finally: k`
  unfoldable pub finally : Exec E S A → Exec E S (Unit {0}) → Exec E S A
  finally m k s = let (r, t) = m s in after r (k t)

abbrev pub text_of : Fault → Message
text_of (Fault.git_error m) = m
text_of (Fault.github_error m) = m
text_of (Fault.judge_isolation_error m) = m
text_of (Fault.session_error m) = m
text_of (Fault.os_error m) = m
text_of (Fault.cycle_error path) = say "dependency cycle"
text_of (Fault.cross_repo_error n repo) = say "blocked by an issue of another repository"
text_of (Fault.other name m) = m

abbrev pub class_of : Fault → String
class_of (Fault.git_error m) = "GitError"
class_of (Fault.github_error m) = "GitHubError"
class_of (Fault.judge_isolation_error m) = "JudgeIsolationError"
class_of (Fault.session_error m) = "SessionError"
class_of (Fault.os_error m) = "OSError"
class_of (Fault.cycle_error path) = "DependencyCycleError"
class_of (Fault.cross_repo_error n repo) = "CrossRepoEdgeError"
class_of (Fault.other name m) = name

-- an error of the walk of the Dependency Edges
abbrev pub of_edges : Error → Fault
of_edges (Error.cycle path) = Fault.cycle_error path
of_edges (Error.cross_repo n repo) = Fault.cross_repo_error n repo
of_edges (Error.github m) = Fault.github_error m
of_edges (Error.key_error n) = Fault.other "KeyError" (num n ∷ [])
of_edges Error.out_of_fuel = Fault.other "RecursionError" []

abbrev pub mapped : {E F A : Type 0} → (E → F) → Result E A → Result F A
mapped f (ok a) = ok a
mapped f (err e) = err (f e)

module _ {H A : Type 0} where
  -- a call of the client of GitHub
  unfoldable pub github : Exec Message H A → Exec Fault H A
  github m h = let (r, h') = m h in (mapped Fault.github_error r, h')

  -- a call that never raises
  unfoldable pub ask : (H → A × H) → Exec Fault H A
  ask m h = let (a, h') = m h in (ok a, h')

  unfoldable pub lift : Result Fault A → Exec Fault H A
  lift r h = (r, h)

module _ {H : Type 0} where
  abbrev pub skip : Exec Fault H (Unit {0})
  skip = pure tt

  -- a loop that an exception ends
  unfoldable pub each :
      {A : Type 0} → (A → Exec Fault H (Unit {0})) → List A → Exec Fault H (Unit {0})
  each body [] = skip
  each body (x ∷ xs) = body x >> each body xs

module _ {H : Type 0} (desk : Desk H) where
  abbrev push_failed : Fault → Exec Fault H (Unit {0})
  push_failed e =
      ask (desk.emit (Event.error (class_of e) (lit "evidence push failed: " ∷ text_of e)))

  -- `_push_evidence_files`: never fatal
  unfoldable pub push_evidence_files : Message → List File → Exec Fault H (Unit {0})
  push_evidence_files prefix files = catch (desk.push_bundle prefix files) push_failed
