-- ===== src/Dispatch/Kept/Granting.antt =====
-- dispatch.py: a granting pass keeps what its own operations on the store keep.
use the_ozolith.Common.{
  ℕ, String, inl, inr, Bool, true, false, not, ◌||◌, Option, none, some, List, [], ◌∷◌, Bool-cases,
  nat_eq, string_eq, pair_eq, triple_eq, list_eq, contains,
}
use the_ozolith.Common.Message.{Message}
use the_ozolith.Common.Exec.{Exec}
use the_ozolith.Common.Keeps.{Preorder, Keeps, Keeps-bind, Keeps-pure}
use the_ozolith.Vocabulary.{plan_ready}
use the_ozolith.Deps.{Issue, Error}
use the_ozolith.Store.{Store}
use the_ozolith.Store.Grants.{record_grant, granted_issues}
use the_ozolith.Store.Flags.{
  record_malformed, clear_malformed, record_wait, clear_wait, malformed_issues, waiting_issues,
}
use the_ozolith.Store.Events.{live_claims}
use the_ozolith.GitHub.{Client, query, write}
use the_ozolith.GitHub.Kept.{Keeps-query, Keeps-write}
use the_ozolith.Dispatch.Reads.{Pass, Lane, is_malformed, is_waiting}
use the_ozolith.Dispatch.Grant.{
  Request, Snapshot, Answer, ask, is_failed, is_taken, note, note_if, clear_departed, keep_back,
  park, claim, settle, consider, candidates_loop, granting_pass, granted_answer, live_in, numbers,
}
use the_ozolith.Dispatch.Kept.{
  on_pass, Keeps-within, Keeps-read, Keeps-dependency_block, Keeps-github_writes,
}

-- the store operations of a pass, each keeping the relation
pub record PassOps (R : Preorder Store) (repo : String) : Type 0 where
  pub malformed_kept :
      (n : ℕ) (detail : Message) (now : ℕ) (s : Store)
      → R.Rel s (record_malformed repo n detail now s)
  pub unflagged : (n now : ℕ) (s : Store) → R.Rel s (clear_malformed repo n s)
  pub wait_kept :
      (n : ℕ) (detail : Message) (now : ℕ) (s : Store) → R.Rel s (record_wait repo n detail now s)
  pub unwaited : (n now : ℕ) (s : Store) → R.Rel s (clear_wait repo n s)
  pub grant_kept :
      (n : ℕ) (worker node login : String) (now : ℕ) (s : Store)
      → R.Rel s (record_grant repo n worker node login now s)

module _ {G : Type 0} (client : Client G) (R : Preorder Store) (ops : PassOps R client.repo) where
  Keeps-note :
      (op : ℕ → Store → Store)
      → ((now : ℕ) (s : Store) → R.Rel s (op now s))
      → Keeps (on_pass R) (note client op)
  Keeps-note op k = Keeps-within R (write client.clock op) (Keeps-write R client.clock op k)

  Keeps-note_if :
      (b : Bool) (op : ℕ → Store → Store)
      → ((now : ℕ) (s : Store) → R.Rel s (op now s))
      → Keeps (on_pass R) (note_if client b op)
  Keeps-note_if true op k = Keeps-note op k
  Keeps-note_if false op k = Keeps-pure (on_pass R) Error tt

  Keeps-clear_departed :
      (listed : List ℕ) (clear : ℕ → Store → Store)
      → ((n now : ℕ) (s : Store) → R.Rel s (clear n s))
      → (ns : List ℕ) → Keeps (on_pass R) (clear_departed client listed clear ns)
  unfolding clear_departed
  Keeps-clear_departed listed clear k [] = Keeps-pure (on_pass R) Error tt
  Keeps-clear_departed listed clear k (n ∷ ns) =
      Keeps-bind (on_pass R) _ _ (Keeps-note_if (not (contains listed n)) (λ _. clear n) (k n))
        (λ _. Keeps-clear_departed listed clear k ns)

  Keeps-keep_back : (snap : Snapshot) (n : ℕ) → Keeps (on_pass R) (keep_back client snap n)
  Keeps-keep_back snap n =
      Keeps-bind (on_pass R) _ _ (Keeps-note _ (ops.malformed_kept n _))
        (λ _. Keeps-note_if (contains snap.waiting n) _ (ops.unwaited n))

  Keeps-park : (snap : Snapshot) (n : ℕ) (lane : Lane) → Keeps (on_pass R) (park client snap n lane)
  Keeps-park snap n (is_malformed detail) =
      Keeps-bind (on_pass R) _ _ (Keeps-note _ (ops.malformed_kept n detail))
        (λ _. Keeps-note_if (contains snap.waiting n) _ (ops.unwaited n))
  Keeps-park snap n (is_waiting detail) =
      Keeps-bind (on_pass R) _ _ (Keeps-note _ (ops.wait_kept n detail))
        (λ _. Keeps-note_if (contains snap.flagged n) _ (ops.unflagged n))

  Keeps-claim :
      (req : Request) (snap : Snapshot) (i : Issue) → Keeps (on_pass R) (claim client req snap i)
  Keeps-claim req snap i =
      Keeps-bind (on_pass R) _ _
        (Keeps-note_if (contains snap.flagged i.number) _ (ops.unflagged i.number))
        (λ _.
          Keeps-bind (on_pass R) _ _
            (Keeps-note_if (contains snap.waiting i.number) _ (ops.unwaited i.number))
            (λ _.
              Keeps-bind (on_pass R) _ _
                (Keeps-note _ (ops.grant_kept i.number req.worker req.node req.login))
                (λ _. Keeps-github_writes client R i.number req.login (granted_answer i))))

  Keeps-settle :
      (req : Request) (snap : Snapshot) (i : Issue) (rest : Exec Error (Pass G) Answer)
      (lane : Option Lane)
      → Keeps (on_pass R) rest
      → Keeps (on_pass R) (settle client req snap i rest lane)
  Keeps-settle req snap i rest none k = Keeps-claim req snap i
  Keeps-settle req snap i rest (some lane) k =
      Keeps-bind (on_pass R) _ _ (Keeps-park snap i.number lane) (λ _. k)

  Keeps-consider :
      (fuel : ℕ) (req : Request) (snap : Snapshot) (i : Issue) (rest : Exec Error (Pass G) Answer)
      → Keeps (on_pass R) rest
      → Keeps (on_pass R) (consider client fuel req snap i rest)
  Keeps-consider fuel req snap i rest k = elim (Bool-cases (is_failed i)) [
    | inl e ↦ rw e (Keeps-bind (on_pass R) _ _ (Keeps-keep_back snap i.number) (λ _. k))
    | inr e ↦ elim (Bool-cases (is_taken i)) [
      | inl f ↦ rw (e, f) k
      | inr f ↦ elim (Bool-cases (contains snap.granted i.number || contains snap.live i.number)) [
        | inl g ↦ rw (e, f, g) k
        | inr g ↦
            rw (e, f, g)
              (Keeps-bind (on_pass R) _ _ (Keeps-dependency_block client R fuel i.number)
                (λ lane. Keeps-settle req snap i rest lane k))
      ]
    ]
  ]

  pub Keeps-candidates_loop :
      (fuel : ℕ) (req : Request) (snap : Snapshot) (is : List Issue)
      → Keeps (on_pass R) (candidates_loop client fuel req snap is)
  unfolding candidates_loop
  Keeps-candidates_loop fuel req snap [] = Keeps-pure (on_pass R) Error _
  Keeps-candidates_loop fuel req snap (i ∷ is) =
      Keeps-consider fuel req snap i (candidates_loop client fuel req snap is)
        (Keeps-candidates_loop fuel req snap is)

  Keeps-ask : {A : Type 0} (f : Store → A) → Keeps (on_pass {G = G} R) (ask f)
  unfolding ask
  Keeps-ask f = Keeps-within R (query f) (Keeps-query R f)

  pub Keeps-granting_pass :
      (fuel : ℕ) (req : Request) → Keeps (on_pass R) (granting_pass client fuel req)
  unfolding granting_pass
  Keeps-granting_pass fuel req =
      Keeps-bind (on_pass R) _ _ (Keeps-ask (granted_issues client.repo)) (λ granted.
        Keeps-bind (on_pass R) _ _ (Keeps-ask (λ s. live_in client.repo (live_claims s))) (λ live.
          Keeps-bind (on_pass R) _ _ (Keeps-read R (client.list_open_issues plan_ready))
            (λ candidates.
              Keeps-bind (on_pass R) _ _ (Keeps-ask (malformed_issues client.repo))
                (λ malformed_now.
                  Keeps-bind (on_pass R) _ _
                    (Keeps-clear_departed (numbers candidates) _ ops.unflagged malformed_now)
                    (λ _.
                      Keeps-bind (on_pass R) _ _ (Keeps-ask (waiting_issues client.repo)) (λ waits.
                        Keeps-bind (on_pass R) _ _
                          (Keeps-clear_departed (numbers candidates) _ ops.unwaited waits)
                          (λ _.
                            Keeps-bind (on_pass R) _ _ (Keeps-ask (malformed_issues client.repo))
                              (λ flagged.
                                Keeps-bind (on_pass R) _ _ (Keeps-ask (waiting_issues client.repo))
                                  (λ waiting. Keeps-candidates_loop fuel req _ candidates)))))))))
