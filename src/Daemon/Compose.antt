-- ===== src/Daemon/Compose.antt =====
-- daemon.py: the recovery records of compose projects, written ahead of `up` and dropped after `down`.
use the_ozolith.Common.{
  String, Bool, Option, none, some, List, [], ◌∷◌, any, ◌==◌, nat_eq, string_eq, pair_eq, triple_eq,
  list_eq,
}
use the_ozolith.Common.Table.{Table, find, put, delete}
use the_ozolith.Common.Message.{lit, say}
use the_ozolith.Common.Exec.{pure, raise, ◌>>=◌, ◌>>◌, catch}
use the_ozolith.Daemon.{Fault, AppliedCompose, Daemon, StateFile, Container, Host}
use the_ozolith.Daemon.Base.{Act, concat, call, look, change, skip, atomic_json}

abbrev pub project : String → String
project name = concat "ozolith-" name

abbrev pub with_records : Table String AppliedCompose → Daemon → Daemon
with_records t d = record d { applied_compose = t }

-- the prior entry, put back where the record stood
abbrev pub rolled_back :
    String → Option AppliedCompose → Table String AppliedCompose → Table String AppliedCompose
rolled_back name none t = delete name t
rolled_back name (some prior) t = put name prior t

abbrev pub is_running : Container → Bool
is_running c = c.state == "running"

module _ {H : Type 0} (host : Host H) where
  -- `_persist_applied_compose`
  unfoldable pub persist_applied_compose : Act H (Unit {0})
  persist_applied_compose =
      atomic_json host StateFile.applied_compose_path
        (λ d f. record f { applied_compose = d.applied_compose })

  abbrev pub adopt : String → AppliedCompose → Act H (Unit {0})
  adopt name r = change (λ d. with_records (put name r d.applied_compose) d)

  abbrev pub roll_back : String → Option AppliedCompose → Fault → Act H (Unit {0})
  roll_back name prior e = do
    change (λ d. with_records (rolled_back name prior d.applied_compose) d)
    raise e

  abbrev pub write_ahead_files : String → AppliedCompose → List String → Act H (Unit {0})
  write_ahead_files name r [] = raise (
      Fault.runtime_error
        (lit "stack " ∷ lit name ∷ say ": refusing a compose recovery record with no files"))
  write_ahead_files name r (file ∷ files) = do
    prior ← look (λ d. find name d.applied_compose)
    adopt name r
    catch persist_applied_compose (roll_back name prior)

  -- `_write_ahead_compose`
  unfoldable pub write_ahead_compose : String → AppliedCompose → Act H (Unit {0})
  unfolding persist_applied_compose
  write_ahead_compose name r = write_ahead_files name r r.files

  -- `_compose_running`
  unfoldable pub compose_running : String → Act H Bool
  compose_running name = do rows ← call (host.compose_ps (project name)); pure (any is_running rows)

  abbrev pub down : String → Option AppliedCompose → Act H (Unit {0})
  down name none = skip
  down name (some r) = do
    call (host.compose (project name) r.files "down")
    change (λ d. with_records (delete name d.applied_compose) d)
    persist_applied_compose

  -- `_compose_down`: the record is dropped only after the project is down
  unfoldable pub compose_down : String → Act H (Unit {0})
  unfolding persist_applied_compose
  compose_down name = do r ← look (λ d. find name d.applied_compose); down name r
