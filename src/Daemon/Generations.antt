-- ===== src/Daemon/Generations.antt =====
-- daemon.py: the sweep of the materialized compose generations that no record references.
use the_ozolith.Common.{
  String, Bool, true, false, Option, none, some, List, [], ◌∷◌, if◌then◌else◌, nat_eq, string_eq,
  pair_eq, triple_eq, list_eq, contains, set_add,
}
use the_ozolith.Common.Table.{Table}
use the_ozolith.Common.Message.{lit, say}
use the_ozolith.Common.Exec.{pure, raise, ◌>>=◌}
use the_ozolith.Common.Order.{insert_by, text_le}
use the_ozolith.Daemon.{Fault, ComposeState, AppliedCompose, Entry, Host}
use the_ozolith.Daemon.Base.{Act, concat, call, observe, skip, each, isolated}

-- what is kept: whole Stack directories, and entries of others
pub record Kept : Type 0 where
  pub retain_all : List String
  pub keep_by_name : List (String × String)

abbrev keep_whole : String → Kept → Kept
keep_whole name k = record k { retain_all = set_add k.retain_all name }

-- one file of a record: an unmappable path keeps the record's Stack whole
abbrev pub keep_file : String → Option (List String) → Kept → Kept
keep_file stack none k = keep_whole stack k
keep_file stack (some []) k = keep_whole stack k
keep_file stack (some (dir ∷ [])) k = keep_whole dir k
keep_file stack (some (dir ∷ entry ∷ parts)) k = record k {
  keep_by_name = set_add k.keep_by_name (dir, entry);
}

-- a pending record's predecessors are unrecorded
abbrev pub keep_state : String → ComposeState → Kept → Kept
keep_state stack ComposeState.applied k = k
keep_state stack ComposeState.pending k = keep_whole stack k

unfoldable pub directories : List Entry → List String
directories [] = []
directories (e ∷ es) =
    let rest = directories es in if e.is_dir then insert_by text_le e.name rest else rest

abbrev pub stacks_root : String → String
stacks_root state_dir = concat state_dir "/stacks"

module _ {H : Type 0} (host : Host H) where
  unfoldable pub keep_files : String → List String → H → Kept → Kept
  keep_files stack [] h k = k
  keep_files stack (file ∷ files) h k =
      keep_files stack files h (keep_file stack (host.parts_below file h) k)

  unfoldable pub keep_records : Table String AppliedCompose → H → Kept → Kept
  unfolding keep_files
  keep_records [] h k = k
  keep_records ((stack, r) ∷ rows) h k =
      keep_records rows h (keep_files stack r.files h (keep_state stack r.state k))

  abbrev pub root : String
  root = stacks_root host.config.state_dir

  abbrev pub stack_dir : String → String
  stack_dir name = concat (concat root "/") name

  abbrev pub listed : String → Option (List Entry) → Act H (List String)
  listed dir none = raise (Fault.os_error (lit "cannot list " ∷ say dir))
  listed dir (some es) = pure (directories es)

  -- the directories in a directory, sorted
  unfoldable pub subdirectories : String → Act H (List String)
  unfolding directories
  subdirectories dir = do es ← observe (λ d. host.iterdir dir); listed dir es

  abbrev pub reclaim : Kept → String → String → Act H (Unit {0})
  reclaim k stack entry =
      if contains k.keep_by_name (stack, entry)
      then skip
      else isolated host
          (lit "stack " ∷ lit stack ∷ lit ": reclaiming obsolete compose generation " ∷ say entry)
          (call (host.rmtree (concat (concat (stack_dir stack) "/") entry)))

  -- `_gc_compose_generations`
  unfoldable pub gc_compose_generations : Kept → String → Act H (Unit {0})
  unfolding subdirectories
  gc_compose_generations k stack = do
    is_there ← observe (λ d. host.is_dir (stack_dir stack))
    if is_there
        then (do entries ← subdirectories (stack_dir stack); each (reclaim k stack) entries)
        else skip

  abbrev pub sweep_stack : Kept → String → Act H (Unit {0})
  sweep_stack k stack = if contains k.retain_all stack then skip else gc_compose_generations k stack

  abbrev pub sweep_root : Bool → Act H (Unit {0})
  sweep_root false = skip
  sweep_root true = do
    k ←
        observe
          (λ d h. keep_records d.applied_compose h (record { retain_all = []; keep_by_name = [] }))
    stacks ← subdirectories root
    each (sweep_stack k) stacks

  -- `_sweep_compose_generations`
  unfoldable pub sweep_compose_generations : Act H (Unit {0})
  unfolding keep_records gc_compose_generations
  sweep_compose_generations = do is_there ← observe (λ d. host.is_dir root); sweep_root is_there
