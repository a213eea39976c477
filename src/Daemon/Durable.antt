-- ===== src/Daemon/Durable.antt =====
-- daemon.py: the recovery records of compose projects outlive the daemon.
use the_ozolith.Common.{
  String, ◌≡◌, refl, sym, subst, ◌∙◌, ◌≢◌, inl, inr, Option, none, some, List, [], ◌∷◌, arith,
  Bool-cases, ◌==◌, nat_eq, string_eq, pair_eq, triple_eq, list_eq, ==_true,
}
use the_ozolith.Common.Table.{
  Table, find, put, delete, update, map_option, find-put, find-delete, find-update,
}
use the_ozolith.Common.Exec.{Result, ok, err, raise, continue, ◌>>=◌, recover, catch}
use the_ozolith.Common.Keeps.{Preorder}
use the_ozolith.Common.Steady.{Steady, invariant, Steady-bind, Steady-pure, Steady-raise}
use the_ozolith.Daemon.{Fault, AppliedCompose, Daemon, Disk, StateFile, Host, Machine}
use the_ozolith.Daemon.Base.{call, ask, look, change, on_disk, atomic_json}
use the_ozolith.Daemon.Compose.{
  project, with_records, rolled_back, persist_applied_compose, roll_back, write_ahead_files,
  write_ahead_compose, down, compose_down,
}
use the_ozolith.Daemon.Kept.{Ground, Leaves, Steady-look}
use the_ozolith.Daemon.Kept.Pass.{Steady-once}
use the_ozolith.Daemon.Pass.{once}

abbrev IsKept : AppliedCompose → Option AppliedCompose → Type 0
IsKept r none = ⊥
IsKept r (some q) = (r.files ≢ []) × (q.files ≡ r.files) × (q.fingerprint ≡ r.fingerprint)

abbrev Backed : Option AppliedCompose → Option AppliedCompose → Type 0
Backed none o = Unit
Backed (some r) o = IsKept r o

-- each record of the first table names files, and the second has it with the same files
abbrev pub Covered : Table String AppliedCompose → Table String AppliedCompose → Type 0
Covered t u = (name : String) → Backed (find name t) (find name u)

Backed-self : (o p : Option AppliedCompose) → Backed o p → Backed o o
Backed-self none p h = tt
Backed-self (some r) none h = absurd h
Backed-self (some r) (some q) h = (h.0, refl, refl)

Covered-self : (t u : Table String AppliedCompose) → Covered t u → Covered t t
Covered-self t u h name = Backed-self (find name t) (find name u) (h name)

Covered-delete :
    (k : String) (t u : Table String AppliedCompose) → Covered t u → Covered (delete k t) u
Covered-delete k t u h name = elim (Bool-cases (k == name)) [
  | inl e ↦ rw (find-delete k name t, e) tt
  | inr e ↦ rw (find-delete k name t, e) (h name)
]

Covered-put :
    (k : String) (r : AppliedCompose) (t : Table String AppliedCompose)
    → r.files ≢ []
    → Covered t t
    → Covered (put k r t) (put k r t)
Covered-put k r t named h name = elim (Bool-cases (k == name)) [
  | inl e ↦ rw (find-put k name r t, e) (named, refl, refl)
  | inr e ↦ rw (find-put k name r t, e) (h name)
]

find-rolled_back :
    (k name : String) (r : AppliedCompose) (t : Table String AppliedCompose)
    → find name (rolled_back k (find k t) (put k r t)) ≡ find name t
find-rolled_back k name r t = with_prior (find k t) refl
  where
    with_prior :
        (o : Option AppliedCompose)
        → find k t ≡ o
        → find name (rolled_back k o (put k r t)) ≡ find name t
    with_prior none e =
        ground (arith, find-delete k name (put k r t), find-put k name r t, ==_true k name)
    with_prior (some q) e =
        ground (arith, find-put k name q (put k r t), find-put k name r t, ==_true k name)

-- a change that keeps the files and the fingerprint
abbrev KeepsFiles : (AppliedCompose → AppliedCompose) → Type 0
KeepsFiles f = (r : AppliedCompose) → ((f r).files ≡ r.files) × ((f r).fingerprint ≡ r.fingerprint)

Backed-map :
    (f : AppliedCompose → AppliedCompose) (o p : Option AppliedCompose)
    → KeepsFiles f
    → Backed o p
    → Backed (map_option f o) p
Backed-map f none p k h = tt
Backed-map f (some r) none k h = h
Backed-map f (some r) (some q) k h =
    (λ e. h.0 (sym (k r).0 ∙ e), h.1 ∙ sym (k r).0, h.2 ∙ sym (k r).1)

Covered-update :
    (k : String) (f : AppliedCompose → AppliedCompose) (t u : Table String AppliedCompose)
    → KeepsFiles f
    → Covered t u
    → Covered (update k f t) u
Covered-update k f t u same h name = elim (Bool-cases (k == name)) [
  | inl e ↦ rw (find-update k name f t, e) (Backed-map f _ _ same (h name))
  | inr e ↦ rw (find-update k name f t, e) (h name)
]

-- every record in memory of an applied compose project is on disk, with the same files
abbrev pub IsDurable : {H : Type 0} → Machine H → Type 0
IsDurable w = Covered w.daemon.applied_compose w.disk.applied_compose

module _ {H : Type 0} where
  abbrev durable : Preorder (Machine H)
  durable = invariant IsDurable

  Steady-disk :
      (f : Daemon → Disk → Disk)
      → ((d : Daemon) (k : Disk)
          → Covered d.applied_compose k.applied_compose
          → Covered d.applied_compose (f d k).applied_compose)
      → Steady durable (on_disk f)
  unfolding on_disk
  Steady-disk f k = record { at = λ w h. k w.daemon w.disk h }

  Steady-records :
      (f : Daemon → Daemon)
      → ((d : Daemon) (u : Table String AppliedCompose)
          → Covered d.applied_compose u
          → Covered (f d).applied_compose u)
      → Steady durable (change f)
  unfolding change
  Steady-records f k = record { at = λ w h. k w.daemon w.disk.applied_compose h }

  facts : Ground durable
  unfolding call ask
  facts = record {
    calls = λ A m. record { at = λ w h. h };
    asks = λ A m. record { at = λ w h. h };
    others = λ f same.
        Steady-records f
          (λ d u h. subst (λ (t : Table String AppliedCompose). Covered t u) (same d).projects h);
    files = λ f same. Steady-disk f (λ d k h. subst (Covered d.applied_compose) (same d k) h);
  }

  module _ (host : Host H) where
    Steady-persist : Steady durable (persist_applied_compose host)
    unfolding persist_applied_compose atomic_json
    Steady-persist =
        Steady-bind _ _ (facts.calls _ (host.replace StateFile.applied_compose_path))
          (λ _. Steady-disk _ (λ d k h. Covered-self d.applied_compose k.applied_compose h))

    Steady-down_of : (name : String) (o : Option AppliedCompose) → Steady durable (down host name o)
    Steady-down_of name none = Steady-pure tt
    Steady-down_of name (some r) =
        Steady-bind _ _ (facts.calls _ (host.compose (project name) r.files "down")) (λ _.
          Steady-bind _ _ (Steady-records _ (λ d u h. Covered-delete name d.applied_compose u h))
            (λ _. Steady-persist))

    Steady-down : (name : String) → Steady durable (compose_down host name)
    unfolding compose_down
    Steady-down name = Steady-bind _ _ (Steady-look durable _) (Steady-down_of name)

    -- the record is on disk, or memory is as it was
    persisted :
        (name : String) (r : AppliedCompose) (w : Machine H) (o : Result Fault (Unit {0})) (h : H)
        → r.files ≢ []
        → IsDurable w
        → IsDurable
            (let u : Machine H = record w {
              daemon = with_records (put name r w.daemon.applied_compose) w.daemon;
              host = h;
            } in
              let (q, v) =
                continue o
                  (λ _. on_disk (λ d f. record f { applied_compose = d.applied_compose }))
                  u in
              recover q (roll_back host name (find name w.daemon.applied_compose)) v).1
    unfolding on_disk change raise ◌>>=◌
    persisted name r w (ok _) h named k n =
        Covered-put name r w.daemon.applied_compose named
          (Covered-self w.daemon.applied_compose w.disk.applied_compose k) n
    persisted name r w (err e) h named k n =
        rw (find-rolled_back name n r w.daemon.applied_compose) (k n)

    Steady-ahead_files :
        (name : String) (r : AppliedCompose) (files : List String)
        → r.files ≡ files
        → Steady durable (write_ahead_files host name r files)
    unfolding ◌>>=◌ catch look change persist_applied_compose atomic_json call
    Steady-ahead_files name r [] e = Steady-raise _
    Steady-ahead_files name r (file ∷ files) e = record {
      at = λ w h.
          let ne : r.files ≢ [] = λ g. cc in
          persisted name r w (host.replace StateFile.applied_compose_path w.host).0
            (host.replace StateFile.applied_compose_path w.host).1 (λ g. ne g) h;
    }

    Steady-ahead :
        (name : String) (r : AppliedCompose) → Steady durable (write_ahead_compose host name r)
    unfolding write_ahead_compose
    Steady-ahead name r = Steady-ahead_files name r r.files refl

    leaves : (name : String) → Leaves durable facts host name
    unfolding change
    leaves name = record {
      forget = record { at = λ w h. h };
      noted = λ code. record { at = λ w h. h };
      displaced = λ code. record { at = λ w h. h };
      born = λ c f p. record { at = λ w h. h };
      forget_dir = record { at = λ w h. h };
      note_dir = λ dir. record { at = λ w h. h };
      ahead = Steady-ahead name;
      down = Steady-down name;
      promote =
          λ f same. Steady-records _ (λ d u h. Covered-update name f d.applied_compose u same h);
      persist = Steady-persist;
    }

    -- Whatever a pass of the daemon does, and wherever it fails, every compose project that the
    -- daemon has a record of can be taken down after a restart: the record is on disk too, with the
    -- same files, and it names at least one. It was so before the pass.
    pub once-IsDurable : (w : Machine H) → IsDurable w → IsDurable (once host w).1
    once-IsDurable w h = (Steady-once durable facts host leaves).at w h
