-- ===== src/Store/Commands/Redelivery.antt =====
-- store.py: a command is delivered at every heartbeat until its node reports it completed.
use the_ozolith.Common.{
  ℕ, String, ◌≡◌, refl, ap, ◌∙◌, inl, inr, Bool, false, not, ◌&&◌, Option, List, [], ◌∷◌, ◌++◌, map,
  arith, if◌then◌else◌, Bool-cases, &&-eq-true, append_nil, select, ◌==◌, nat_eq, string_eq,
  pair_eq, triple_eq, list_eq, ==_true, contains,
}
use the_ozolith.Common.Table.{Table}
use the_ozolith.Store.{Store, CommandRow}
use the_ozolith.Store.Commands.{
  is_pending, Delivery, delivery, delivered, pending_commands, completed, complete_commands,
  queue_command, record_deferrals, deferred, reasons_of,
}

abbrev of_row : String → List CommandRow → List Delivery
of_row node rows = map delivery (select (is_pending node) rows)

-- a delivery of none of the ids
abbrev pub is_left : List ℕ → Delivery → Bool
is_left ids d = not (contains ids d.id)

deliveries-delivered :
    (node other : String) (now : ℕ) (rows : List CommandRow)
    → of_row node (map (delivered other now) rows) ≡ of_row node rows
deliveries-delivered node other now [] = refl
deliveries-delivered node other now (c ∷ rows) =
    ground (arith, deliveries-delivered node other now rows)

deliveries-completed :
    (node : String) (ids : List ℕ) (now : ℕ) (rows : List CommandRow)
    → of_row node (map (completed node ids now) rows) ≡ select (is_left ids) (of_row node rows)
deliveries-completed node ids now [] = refl
deliveries-completed node ids now (c ∷ rows) =
    ground (arith, deliveries-completed node ids now rows)

-- a row that is not the node's
cons-foreign :
    (node : String) (c : CommandRow) (rows : List CommandRow)
    → (c.node == node) ≡ false
    → of_row node (c ∷ rows) ≡ of_row node rows
cons-foreign node c rows h = rw h refl

of_row-completed :
    (node other : String) (ids : List ℕ) (now : ℕ) (c : CommandRow) (rows : List CommandRow)
    → (other == node) ≡ false
    → of_row node (completed other ids now c ∷ rows) ≡ of_row node (c ∷ rows)
of_row-completed node other ids now c rows h =
    elim (Bool-cases (contains ids c.id && c.node == other)) [
      | inl done ↦
          let theirs : c.node ≡ other =
            ==_true c.node other ((&&-eq-true (contains ids c.id) (c.node == other) done).1) in
          let foreign : (c.node == node) ≡ false = rw theirs h in rw (done, foreign) refl
      | inr open_still ↦ rw open_still refl
    ]

cons-of_row :
    (node : String) (c : CommandRow) (l m : List CommandRow)
    → of_row node l ≡ of_row node m
    → of_row node (c ∷ l) ≡ of_row node (c ∷ m)
cons-of_row node c l m h = elim (Bool-cases (is_pending node c)) [
  | inl e ↦ rw e (ap (λ (ds : List Delivery). delivery c ∷ ds) h)
  | inr e ↦ rw e h
]

deliveries-completed_other :
    (node other : String) (ids : List ℕ) (now : ℕ) (rows : List CommandRow)
    → (other == node) ≡ false
    → of_row node (map (completed other ids now) rows) ≡ of_row node rows
deliveries-completed_other node other ids now [] h = refl
deliveries-completed_other node other ids now (c ∷ rows) h =
    of_row-completed node other ids now c (map (completed other ids now) rows) h
    ∙ cons-of_row node c (map (completed other ids now) rows) rows
        (deliveries-completed_other node other ids now rows h)

deliveries-deferred :
    (node other : String) (reasons : Table ℕ String) (rows : List CommandRow)
    → of_row node (map (deferred other reasons) rows) ≡ of_row node rows
deliveries-deferred node other reasons [] = refl
deliveries-deferred node other reasons (c ∷ rows) =
    ground (arith, deliveries-deferred node other reasons rows)

deliveries-append :
    (node : String) (rows new : List CommandRow)
    → of_row node (rows ++ new) ≡ of_row node rows ++ of_row node new
deliveries-append node [] new = refl
deliveries-append node (c ∷ rows) new = ground (arith, deliveries-append node rows new)

-- what happens to the commands of the fleet
pub data CommandStep : Type 0 where
  queue : String → String → Option String → Bool → ℕ → CommandStep
  deliver : String → ℕ → CommandStep
  report : String → List ℕ → ℕ → CommandStep
  defer : String → List (ℕ × String) → CommandStep

abbrev pub stepped : CommandStep → Store → Store
stepped (queue node verb target force now) s = (queue_command node verb target force now s).1
stepped (deliver node now) s = (pending_commands node now s).1
stepped (report node ids now) s = complete_commands node ids now s
stepped (defer node deferrals) s = record_deferrals node deferrals s

-- what it does to the queue that one node sees
abbrev pub queue_after : String → ℕ → CommandStep → List Delivery → List Delivery
queue_after node id (queue other verb target force now) ds =
    if other == node
    then ds ++ record { id = id; verb = verb; target = target; force = force } ∷ []
    else ds
queue_after node id (deliver other now) ds = ds
queue_after node id (report other ids now) ds =
    if other == node then select (is_left ids) ds else ds
queue_after node id (defer other deferrals) ds = ds

-- To its node the table of commands is a queue: a command joins it at the end, is delivered at every
-- heartbeat and leaves it only when the node itself reports its id, in whatever order commands
-- are queued, delivered, deferred and reported for this node and others.
pub pending_commands-stepped :
    (node : String) (step : CommandStep) (beat : ℕ) (s : Store)
    → (pending_commands node beat (stepped step s)).0
      ≡ queue_after node s.next_command step (pending_commands node beat s).0
unfolding pending_commands queue_command complete_commands record_deferrals
pending_commands-stepped node (queue other verb target force now) beat s =
    rw (deliveries-append node s.commands) (elim (Bool-cases (other == node)) [
      | inl same ↦ rw same refl
      | inr differs ↦ rw differs (append_nil (of_row node s.commands))
    ])
pending_commands-stepped node (deliver other now) beat s =
    deliveries-delivered node other now s.commands
pending_commands-stepped node (report other ids now) beat s = elim (Bool-cases (other == node)) [
  | inl same ↦ rw (same, ==_true other node same) (deliveries-completed node ids now s.commands)
  | inr differs ↦ rw differs (deliveries-completed_other node other ids now s.commands differs)
]
pending_commands-stepped node (defer other deferrals) beat s =
    deliveries-deferred node other (reasons_of deferrals []) s.commands
