-- ===== src/Daemon/Reclaimed.antt =====
-- daemon.py: the sweep of compose generations deletes no file that a record needs.
use the_ozolith.Common.{
  String, ◌≡◌, ◌≢◌, inl, inr, Bool, true, false, Option, none, some, List, [], ◌∷◌, arith,
  Bool-cases, All, Eq, nat_eq, string_eq, pair_eq, triple_eq, list_eq, contains, set_add,
  contains-append,
}
use the_ozolith.Common.Table.{Table}
use the_ozolith.Common.Message.{Message}
use the_ozolith.Common.Exec.{Exec, ◌>>=◌}
use the_ozolith.Common.Keeps.{Preorder, Keeps}
use the_ozolith.Common.Steady.{
  Steady, Steady-pure, Steady-raise, Steady-if, Steady-catch, Steady-bind,
}
use the_ozolith.Daemon.{Fault, ComposeState, AppliedCompose, Daemon, Entry, Event, Host, Machine}
use the_ozolith.Daemon.Base.{Act, concat, call, observe, each, emit_event, isolated}
use the_ozolith.Daemon.Generations.{
  Kept, keep_file, keep_state, keep_files, keep_records, root, stack_dir, listed, subdirectories,
  reclaim, gc_compose_generations, sweep_stack, sweep_root, sweep_compose_generations,
}

-- a file of the record of `name` leaves an entry of a Stack's directory free; a path that is not
-- below two levels keeps a whole directory
abbrev IsFreeOf : String → String → String → Option (List String) → Type 0
IsFreeOf stack entry name none = name ≢ stack
IsFreeOf stack entry name (some []) = name ≢ stack
IsFreeOf stack entry name (some (dir ∷ [])) = dir ≢ stack
IsFreeOf stack entry name (some (dir ∷ e ∷ parts)) =
    ◌≢◌ {A = String × String} (dir, e) (stack, entry)

abbrev IsSettled : String → String → ComposeState → Type 0
IsSettled stack name ComposeState.pending = name ≢ stack
IsSettled stack name ComposeState.applied = Unit

module _ {H : Type 0} (host : Host H) where
  abbrev IsFreeOfRecord : H → String → String → String × AppliedCompose → Type 0
  IsFreeOfRecord h stack entry (name, r) =
      IsSettled stack name r.state
      × All (λ (file : String). IsFreeOf stack entry name (host.parts_below file h)) r.files

  -- no record's file lies in the entry, and no pending record is the Stack's
  abbrev pub IsFree : Table String AppliedCompose → H → String → String → Type 0
  IsFree t h stack entry = All (IsFreeOfRecord h stack entry) t

module _ {A : Type 0} ⦃e : Eq A⦄ where
  set_add-false :
      (xs : List A) (a b : A)
      → contains (set_add xs a) b ≡ false
      → (a ≢ b) × (contains xs b ≡ false)
  set_add-false xs a b h = (
    λ same. ground (arith, contains-append xs (a ∷ []) b, e.equal_iff a b),
    ground (arith, contains-append xs (a ∷ []) b),
  )

module _ (stack entry : String) where
  abbrev IsDropped : Kept → Type 0
  IsDropped k =
      (contains k.retain_all stack ≡ false) × (contains k.keep_by_name (stack, entry) ≡ false)

  whole_lem :
      (name : String) (k : Kept)
      → IsDropped (record k { retain_all = set_add k.retain_all name })
      → (name ≢ stack) × IsDropped k
  whole_lem name k h =
      let (other, kept) = set_add-false k.retain_all name stack h.0 in (other, (kept, h.1))

  keep_file_lem :
      (name : String) (o : Option (List String)) (k : Kept)
      → IsDropped (keep_file name o k)
      → IsFreeOf stack entry name o × IsDropped k
  keep_file_lem name none k h = whole_lem name k h
  keep_file_lem name (some []) k h = whole_lem name k h
  keep_file_lem name (some (dir ∷ [])) k h = whole_lem dir k h
  keep_file_lem name (some (dir ∷ e ∷ parts)) k h =
      let (other, kept) = set_add-false k.keep_by_name (dir, e) (stack, entry) h.1 in
      (other, (h.0, kept))

  keep_state_lem :
      (name : String) (c : ComposeState) (k : Kept)
      → IsDropped (keep_state name c k)
      → IsSettled stack name c × IsDropped k
  keep_state_lem name ComposeState.pending k h = whole_lem name k h
  keep_state_lem name ComposeState.applied k h = (tt, h)

  module _ {H : Type 0} (host : Host H) (h : H) where
    keep_files_lem :
        (name : String) (files : List String) (k : Kept)
        → IsDropped (keep_files host name files h k)
        → All (λ (file : String). IsFreeOf stack entry name (host.parts_below file h)) files
          × IsDropped k
    unfolding keep_files
    keep_files_lem name [] k d = (tt, d)
    keep_files_lem name (file ∷ files) k d =
        let (free, d1) = keep_files_lem name files (keep_file name (host.parts_below file h) k) d in
        let (first, d2) = keep_file_lem name (host.parts_below file h) k d1 in ((first, free), d2)

    keep_records_lem :
        (t : Table String AppliedCompose) (k : Kept)
        → IsDropped (keep_records host t h k)
        → IsFree host t h stack entry × IsDropped k
    unfolding keep_records
    keep_records_lem [] k d = (tt, d)
    keep_records_lem ((name, r) ∷ t) k d =
        let k1 = keep_state name r.state k in
        let (free, d1) = keep_records_lem t (keep_files host name r.files h k1) d in
        let (files, d2) = keep_files_lem name r.files k1 d1 in
        let (settled, d3) = keep_state_lem name r.state k d2 in (((settled, files), free), d3)

module _ {H : Type 0} (host : Host H) (R : Preorder H) where
  abbrev on_host : Preorder (Machine H)
  on_host = record {
    Rel = λ w u. R.Rel w.host u.host;
    same = λ w. R.same w.host;
    along = λ w u v. R.along w.host u.host v.host;
  }

  Steady-observe : {A : Type 0} (f : Daemon → H → A) → Steady on_host (observe f)
  unfolding observe
  Steady-observe f = record { at = λ w. R.same w.host }

  Steady-call : {A : Type 0} (m : Exec Fault H A) → Keeps R m → Steady on_host (call m)
  unfolding call
  Steady-call m k = record { at = λ w. k w.host }

  abbrev pub entry_path : String → String → String
  entry_path stack entry = concat (concat (stack_dir host stack) "/") entry

  module _ (t : Table String AppliedCompose) (h : H)
      (emits : (e : Event) → Keeps R (host.emit_event e))
      (reclaims : (stack entry : String)
        → IsFree host t h stack entry
        → Keeps R (host.rmtree (entry_path stack entry))) where
    Steady-emit_event : (e : Event) → Steady on_host (emit_event host e)
    unfolding emit_event
    Steady-emit_event e =
        Steady-if _ _ _ (Steady-catch _ _ (Steady-call _ (emits e)) (λ x. Steady-pure tt))
          (Steady-pure tt)

    Steady-isolated :
        (what : Message) (m : Act H (Unit {0}))
        → Steady on_host m
        → Steady on_host (isolated host what m)
    unfolding isolated
    Steady-isolated what m k = Steady-catch m _ k (λ e. Steady-emit_event _)

    Steady-each :
        {A : Type 0} (body : A → Act H (Unit {0})) (xs : List A)
        → ((x : A) → Steady on_host (body x))
        → Steady on_host (each body xs)
    unfolding each
    Steady-each body [] k = Steady-pure tt
    Steady-each body (x ∷ xs) k = Steady-bind _ _ (k x) (λ _. Steady-each body xs k)

    Steady-listed : (dir : String) (o : Option (List Entry)) → Steady on_host (listed host dir o)
    Steady-listed dir none = Steady-raise _
    Steady-listed dir (some es) = Steady-pure _

    Steady-subdirectories : (dir : String) → Steady on_host (subdirectories host dir)
    unfolding subdirectories
    Steady-subdirectories dir = Steady-bind _ _ (Steady-observe _) (Steady-listed dir)

    abbrev kept : Kept
    kept = keep_records host t h (record { retain_all = []; keep_by_name = [] })

    Steady-reclaim :
        (stack entry : String)
        → contains kept.retain_all stack ≡ false
        → Steady on_host (reclaim host kept stack entry)
    Steady-reclaim stack entry gone =
        elim (Bool-cases (contains kept.keep_by_name (stack, entry))) [
          | inl there ↦ rw there (Steady-pure tt)
          | inr free ↦ rw free (
              Steady-isolated _ _ (
                Steady-call _
                  (reclaims stack entry (keep_records_lem stack entry host h t _ (gone, free)).0)))
        ]

    Steady-gc :
        (stack : String)
        → contains kept.retain_all stack ≡ false
        → Steady on_host (gc_compose_generations host kept stack)
    unfolding gc_compose_generations
    Steady-gc stack gone = Steady-bind _ _ (Steady-observe _) (λ there.
        Steady-if _ _ _
          (Steady-bind _ _ (Steady-subdirectories _)
            (λ entries. Steady-each _ entries (λ entry. Steady-reclaim stack entry gone)))
          (Steady-pure tt))

    Steady-sweep_stack : (stack : String) → Steady on_host (sweep_stack host kept stack)
    Steady-sweep_stack stack = elim (Bool-cases (contains kept.retain_all stack)) [
      | inl there ↦ rw there (Steady-pure tt)
      | inr gone ↦ rw gone (Steady-gc stack gone)
    ]

    Steady-swept :
        Steady on_host
          (do stacks ← subdirectories host (root host); each (sweep_stack host kept) stacks)
    Steady-swept =
        Steady-bind _ _ (Steady-subdirectories _)
          (λ stacks. Steady-each _ stacks Steady-sweep_stack)

  -- The sweep deletes an entry of a Stack's directory only if no record has a file in the entry or
  -- names the directory itself, and the Stack's own record, if any, is confirmed and has no path
  -- that cannot be placed: whatever such deletions and the posting of events keep of the host, the
  -- sweep keeps.
  pub sweep_compose_generations-IsFree :
      (w : Machine H)
      → ((e : Event) → Keeps R (host.emit_event e))
      → ((stack entry : String)
          → IsFree host w.daemon.applied_compose w.host stack entry
          → Keeps R (host.rmtree (entry_path stack entry)))
      → R.Rel w.host (sweep_compose_generations host w).1.host
  unfolding sweep_compose_generations ◌>>=◌ observe
  sweep_compose_generations-IsFree w emits reclaims = root_lem (host.is_dir (root host) w.host)
    where
      root_lem : (there : Bool) → R.Rel w.host (sweep_root host there w).1.host
      root_lem false = R.same w.host
      root_lem true = (Steady-swept w.daemon.applied_compose w.host emits reclaims).at w
