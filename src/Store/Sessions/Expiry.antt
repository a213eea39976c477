-- ===== src/Store/Sessions/Expiry.antt =====
-- store.py: the absolute expiry of browser sessions.
use the_ozolith.Common.{
  ℕ, ◌+◌, ◌≤◌, String, ◌≡◌, refl, sym, ap, subst, ◌∙◌, inl, inr, false, Option, none, some, List,
  [], ◌∷◌, arith, ltb, leb, leb→le, Bool-cases, All, ◌==◌, nat_eq, string_eq, pair_eq, triple_eq,
  list_eq, ==_true,
}
use the_ozolith.Common.Table.{Table, find, delete, find-delete, find-put_self}
use the_ozolith.Store.{Store, Session}
use the_ozolith.Store.Sessions.{create_session, session_active, answer}

module _ (digest : String → String) where
  -- checks of session ids at given times, one after the other
  pub checked : List (String × ℕ) → Store → Store
  checked [] s = s
  checked ((raw, now) ∷ checks) s = checked checks (session_active digest raw now s).1

  abbrev pub NotAfter : ℕ → String × ℕ → Type 0
  NotAfter t (raw, now) = now ≤ t

  -- the row stands, or was reaped once it was due
  abbrev Stands : String → ℕ → ℕ → Option Session → Type 0
  Stands raw due t none = due ≤ t
  Stands raw due t (some row) = row.expires_at ≡ due

  Stands-delete :
      (raw : String) (due t : ℕ) (k : String) (now : ℕ) (row : Session)
      (sessions : Table String Session)
      → now ≤ t
      → find k sessions ≡ some row
      → row.expires_at ≤ now
      → Stands raw due t (find (digest raw) sessions)
      → Stands raw due t (find (digest raw) (delete k sessions))
  Stands-delete raw due t k now row sessions h found over st = elim (Bool-cases (k == digest raw)) [
    | inl same ↦
        let this : k ≡ digest raw = ==_true k (digest raw) same in
        let stands : Stands raw due t (some row) =
          subst (Stands raw due t) (ap (λ (j : String). find j sessions) (sym this) ∙ found) st in
        rw (find-delete, same) (omega (arith, stands))
    | inr other ↦ rw (find-delete, other) st
  ]

  Stands-answer :
      (raw : String) (due t : ℕ) (k : String) (now : ℕ) (found : Option Session) (s : Store)
      → now ≤ t
      → find k s.sessions ≡ found
      → Stands raw due t (find (digest raw) s.sessions)
      → Stands raw due t (find (digest raw) (answer digest k now found s).1.sessions)
  Stands-answer raw due t k now none s h e st = st
  Stands-answer raw due t k now (some row) s h e st = elim (Bool-cases (leb row.expires_at now)) [
    | inl over ↦
        rw over
          (Stands-delete raw due t k now row s.sessions h e (leb→le row.expires_at now over) st)
    | inr live ↦ rw live st
  ]

  Stands-session_active :
      (raw : String) (due t : ℕ) (r : String) (now : ℕ) (s : Store)
      → now ≤ t
      → Stands raw due t (find (digest raw) s.sessions)
      → Stands raw due t (find (digest raw) (session_active digest r now s).1.sessions)
  unfolding session_active
  Stands-session_active raw due t r now s h st = elim (Bool-cases (r == "")) [
    | inl blank ↦ rw blank st
    | inr some_id ↦
        rw some_id (Stands-answer raw due t (digest r) now (find (digest r) s.sessions) s h refl st)
  ]

  Stands-checked :
      (raw : String) (due t : ℕ) (checks : List (String × ℕ)) (s : Store)
      → All (NotAfter t) checks
      → Stands raw due t (find (digest raw) s.sessions)
      → Stands raw due t (find (digest raw) (checked checks s).sessions)
  unfolding checked
  Stands-checked raw due t [] s h st = st
  Stands-checked raw due t ((r, now) ∷ checks) s h st =
      Stands-checked raw due t checks (session_active digest r now s).1 h.1
        (Stands-session_active raw due t r now s h.0 st)

  answer-Stands :
      (raw : String) (due t : ℕ) (found : Option Session) (s : Store)
      → Stands raw due t found
      → (answer digest (digest raw) t found s).0 ≡ ltb t due
  answer-Stands raw due t none s st = ground arith
  answer-Stands raw due t (some row) s st = ground arith

  active-Stands :
      (raw : String) (due t : ℕ) (s : Store)
      → (raw == "") ≡ false
      → Stands raw due t (find (digest raw) s.sessions)
      → (session_active digest raw t s).0 ≡ ltb t due
  unfolding session_active
  active-Stands raw due t s some_id st =
      rw some_id (answer-Stands raw due t (find (digest raw) s.sessions) s st)

  -- A session is active until its time to live is over and never after it: what was checked in
  -- between, of this session or of others, neither prolongs nor ends it.
  pub session_active-create_session :
      (raw : String) (ttl now t : ℕ) (checks : List (String × ℕ)) (s : Store)
      → (raw == "") ≡ false
      → All (NotAfter t) checks
      → (session_active digest raw t (checked checks (create_session digest raw ttl now s).1)).0
        ≡ ltb t (now + ttl)
  unfolding create_session
  session_active-create_session raw ttl now t checks s some_id h =
      active-Stands raw (now + ttl) t (checked checks (create_session digest raw ttl now s).1)
        some_id
        (Stands-checked raw (now + ttl) t checks (create_session digest raw ttl now s).1 h
          (rw find-put_self refl))
