-- ===== src/Daemon/Runs.antt =====
-- daemon.py: the in-flight signal, a live driver child whose jobs directory holds a Run.
use the_ozolith.Common.{
  String, Bool, false, not, ◌&&◌, ◌||◌, Option, none, some, List, [], ◌∷◌, if◌then◌else◌, select,
  ◌==◌, nat_eq, string_eq, pair_eq, triple_eq, list_eq, contains,
}
use the_ozolith.Common.Table.{Table, find}
use the_ozolith.Common.Message.{Message, lit, say}
use the_ozolith.Common.Order.{insert_by, text_le}
use text.Mathlib.Text.{starts_with}
use the_ozolith.Daemon.{WireStack, Daemon, Entry, Host}
use the_ozolith.Daemon.Base.{concat}
use the_ozolith.Daemon.Supervisor.{alive}

-- a `dict.get(key, "")`
abbrev pub get_or_empty : String → Table String String → String
get_or_empty key t = elim (find key t) [ none ↦ "" | some v ↦ v ]

abbrev pub default_jobs_base : String
default_jobs_base = "/var/tmp/theozolith/jobs"

-- `stack_jobs_dir`
abbrev pub stack_jobs_dir : WireStack → String
stack_jobs_dir s =
    let explicit = get_or_empty "THEOZOLITH_JOBS_DIR" s.env in
    if explicit == "" then concat (concat default_jobs_base "/") s.name else explicit

-- `_live_jobs_dir`: the directory that the running child was launched with
abbrev pub live_jobs_dir : WireStack → Daemon → String
live_jobs_dir s d = elim (find s.name d.applied_jobs_dir) [
  | none ↦ stack_jobs_dir s
  | some dir ↦ if dir == "" then stack_jobs_dir s else dir
]

-- a dot-prefixed name is a tombstone, never a Run
abbrev pub is_run : Entry → Bool
is_run e = e.is_dir && not (starts_with e.name ".")

unfoldable pub sorted_names : List Entry → List String
sorted_names [] = []
sorted_names (e ∷ es) = insert_by text_le e.name (sorted_names es)

abbrev pub runs_of : Option (List Entry) → List String
runs_of none = []
runs_of (some es) = sorted_names (select is_run es)

abbrev pub behind : List String → String → Option Message
behind [] name = none
behind (run ∷ runs) name = some (lit "behind run " ∷ lit run ∷ lit " (stack " ∷ lit name ∷ say ")")

-- `names is not None and stack.name not in names`
abbrev pub is_left_out : Option (List String) → String → Bool
is_left_out none name = false
is_left_out (some names) name = not (contains names name)

abbrev pub first_some : Option Message → Option Message → Option Message
first_some none o = o
first_some (some m) o = some m

module _ {H : Type 0} (host : Host H) where
  -- `_active_runs`
  unfoldable pub active_runs : String → H → List String
  active_runs dir h = runs_of (host.iterdir dir h)

  abbrev pub stack_blocker : Option (List String) → WireStack → Daemon → H → Option Message
  stack_blocker names s d h =
      if is_left_out names s.name || not (s.kind == "process") || not (alive host s.name d h)
      then none
      else behind (active_runs (live_jobs_dir s d) h) s.name

  unfoldable pub first_blocker : Option (List String) → List WireStack → Daemon → H → Option Message
  unfolding active_runs
  first_blocker names [] d h = none
  first_blocker names (s ∷ stacks) d h =
      let rest = first_blocker names stacks d h in first_some (stack_blocker names s d h) rest

  -- `_inflight_blocker`
  abbrev pub inflight_blocker : Option (List String) → Daemon → H → Option Message
  inflight_blocker names d h = first_blocker names d.desired.stacks d h

  abbrev pub applied_blocker : String → Option String → H → Option Message
  applied_blocker name none h = none
  applied_blocker name (some dir) h = if dir == "" then none else behind (active_runs dir h) name

  -- `_child_inflight_blocker`
  unfoldable pub child_inflight_blocker : String → Daemon → H → Option Message
  unfolding active_runs alive
  child_inflight_blocker name d h =
      if not (alive host name d h)
      then none
      else applied_blocker name (find name d.applied_jobs_dir) h
