-- ===== src/Store/Events.antt =====
-- store.py: typed events, and the claim state read back from them.
pub mod Claims
pub mod Failures
pub mod Standing
use the_ozolith.Common.{
  ℕ, ◌+◌, max, String, Bool, not, ◌&&◌, Option, none, some, List, [], ◌∷◌, ◌++◌, ltb, if◌then◌else◌,
  is_some, any, ◌==◌, nat_eq, string_eq, pair_eq, triple_eq, contains, is_value, same_option,
}
use the_ozolith.Common.Table.{find, delete}
use the_ozolith.Store.{Store, EventRow, Payload, Value, text, int, real, flag, other}
use the_ozolith.Store.Quarantine.{bump_failures, reset_failures}

abbrev pub event_run : String
event_run = "theozolith.run"

abbrev pub event_review : String
event_review = "theozolith.review"

abbrev pub event_progress : String
event_progress = "theozolith.run.progress"

abbrev pub event_error : String
event_error = "theozolith.error"

-- LIVE_RUN_PHASES
abbrev pub live_run_phases : List String
live_run_phases = "claimed" ∷ "gate" ∷ "failed" ∷ []

-- `_int`: a bool is an int in Python, and `int` of a float is its integer part
abbrev int_value : Option Value → Option ℕ
int_value none = none
int_value (some (text s)) = none
int_value (some (int n)) = some n
int_value (some (real n)) = some n
int_value (some (flag b)) = some (if b then 1 else 0)
int_value (some other) = none

-- `_str`: a text that is not empty
abbrev str_value : Option Value → Option String
str_value none = none
str_value (some (text s)) = if s == "" then none else some s
str_value (some (int n)) = none
str_value (some (real n)) = none
str_value (some (flag b)) = none
str_value (some other) = none

unfoldable pub int_of : String → Payload → Option ℕ
int_of key event = int_value (find key event)

unfoldable pub str_of : String → Payload → Option String
str_of key event = str_value (find key event)

abbrev or_else : Option String → Option String → Option String
or_else none b = b
or_else (some a) b = some a

-- `str(event.get("type", ""))`; what is no text prints as no event type that the program knows
abbrev pub type_text : Option Value → String
type_text none = ""
type_text (some (text s)) = s
type_text (some (int n)) = "?"
type_text (some (real n)) = "?"
type_text (some (flag b)) = "?"
type_text (some other) = "?"

unfoldable pub event_row : ℕ → ℕ → Payload → EventRow
event_row id now event = record {
  id = id;
  type = type_text (find "type" event);
  received_at = now;
  payload = event;
  node = str_of "node" event;
  driver = or_else (str_of "driver" event) (str_of "reviewer" event);
  issue = int_of "issue" event;
  run_id = str_of "run_id" event;
  attempt = int_of "attempt" event;
  phase = str_of "phase" event;
  pr = int_of "pr" event;
  round = int_of "round" event;
  verdict = str_of "verdict" event;
  component = str_of "component" event;
  repo = str_of "repo" event;
}

abbrev pub is_phase : String → EventRow → Bool
is_phase phase row = is_value row.phase phase

-- a claimed event retires its grant
abbrev pub retire : Option String → Option ℕ → Store → Store
retire (some repo) (some issue) s = record s { grants = delete (repo, issue) s.grants }
retire (some repo) none s = s
retire none issue s = s

unfoldable pub activate : EventRow → Store → Store
activate row s = if is_phase "claimed" row then retire row.repo row.issue s else s

abbrev pub count_failure : EventRow → Option String → ℕ → Store → Store
count_failure row none now s = s
count_failure row (some node) now s =
    if is_phase "failed" row
    then bump_failures node row.issue row.run_id now s
    else if is_phase "pr-open" row
    then reset_failures node s
    else s

-- the caches that hang off a Run event
unfoldable pub apply_run : EventRow → ℕ → Store → Store
unfolding activate
apply_run row now s = count_failure row row.node now (activate row s)

abbrev pub append_event : EventRow → Store → Store
append_event row s = record s { events = s.events ++ row ∷ []; next_event = s.next_event + 1 }

unfoldable pub record_event : Payload → ℕ → Store → Store
unfolding apply_run
record_event event now s =
    let row = event_row s.next_event now event in
    if row.type == event_run then apply_run row now (append_event row s) else append_event row s

-- live_claims

-- the latest non-terminal Run event of a (repo, issue)
pub record LiveClaim : Type 0 where
  pub repo : String
  pub issue : ℕ
  pub driver : String
  pub node : String
  pub run_id : String
  pub last_event_at : ℕ

-- WHERE type = ? AND issue IS NOT NULL
abbrev pub is_run : EventRow → Bool
is_run e = e.type == event_run && is_some e.issue

-- GROUP BY repo, issue
abbrev pub same_claim : EventRow → EventRow → Bool
same_claim e f = same_option e.repo f.repo && same_option e.issue f.issue

-- no row of the group has a greater id: `e.id = MAX(id)`
abbrev pub is_latest : List EventRow → EventRow → Bool
is_latest events e =
    not (any (λ (f : EventRow). is_run f && same_claim e f && ltb e.id f.id) events)

abbrev or_blank : Option String → String
or_blank none = ""
or_blank (some s) = s

-- `r["phase"] in LIVE_RUN_PHASES and r["repo"]`, with the columns of the claim
abbrev pub claim_of : EventRow → Option String → Option ℕ → Option String → Option LiveClaim
claim_of e (some repo) (some issue) (some phase) =
    if contains live_run_phases phase && not (repo == "")
    then some (record {
      repo = repo;
      issue = issue;
      driver = or_blank e.driver;
      node = or_blank e.node;
      run_id = or_blank e.run_id;
      last_event_at = e.received_at;
    })
    else none
claim_of e (some repo) (some issue) none = none
claim_of e (some repo) none phase = none
claim_of e none issue phase = none

abbrev pub claim_at : List EventRow → EventRow → Option LiveClaim
claim_at events e =
    if is_run e && is_latest events e then claim_of e e.repo e.issue e.phase else none

abbrev pub cons_option : Option LiveClaim → List LiveClaim → List LiveClaim
cons_option none l = l
cons_option (some c) l = c ∷ l

unfoldable pub claims_among : List EventRow → List EventRow → List LiveClaim
claims_among events [] = []
claims_among events (e ∷ rest) = cons_option (claim_at events e) (claims_among events rest)

-- the statement has no ORDER BY: the rows are in the order of their events here; what is proved of
-- them holds in any order.
unfoldable pub live_claims : Store → List LiveClaim
unfolding claims_among
live_claims s = claims_among s.events s.events

abbrev pub later : Option ℕ → ℕ → Option ℕ
later none t = some t
later (some u) t = some (max u t)

-- SELECT MAX(received_at) … WHERE driver = ?
seen_among : String → List EventRow → Option ℕ
seen_among driver [] = none
seen_among driver (e ∷ rest) =
    let seen = seen_among driver rest in
    if is_value e.driver driver then later seen e.received_at else seen

unfoldable pub driver_last_seen : String → Store → Option ℕ
unfolding seen_among
driver_last_seen driver s = seen_among driver s.events
