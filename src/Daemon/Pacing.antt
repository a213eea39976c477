-- ===== src/Daemon/Pacing.antt =====
-- daemon.py: the pause between passes.
use the_ozolith.Common.{
  some, ◌≡◌, refl, inl, inr, false, Bool-cases, ℕ, zero, suc, ◌-◌, ◌*◌, ◌≤◌, min, arith, leb,
  if◌then◌else◌, nat_eq, string_eq, pair_eq, triple_eq, list_eq,
}
use Prim.Native.Nat.{◌^◌}
use the_ozolith.Daemon.{Daemon, Host}
use the_ozolith.Daemon.Beat.{backoff_cap_seconds, heartbeat_seconds, next_delay}

pow_pos : (n : ℕ) → 1 ≤ 2 ^ n
pow_pos zero = omega arith
pow_pos (suc n) = omega (arith, pow_pos n)

pow_mono : (m n : ℕ) → m ≤ n → 2 ^ m ≤ 2 ^ n
pow_mono zero n h = pow_pos n
pow_mono (suc m) zero h = absurd (omega arith)
pow_mono (suc m) (suc n) h = omega (arith, pow_mono m n (omega arith))

mul_mono : (a b c : ℕ) → b ≤ c → a * b ≤ a * c
mul_mono a b c h = grind arith

backoff : ℕ → ℕ → ℕ
backoff base k = if leb k 1 then base else min backoff_cap_seconds (base * 2 ^ (k - 1))

backoff_bounds :
    (base k : ℕ)
    → base ≤ backoff_cap_seconds
    → (base ≤ backoff base k) × (backoff base k ≤ backoff_cap_seconds)
unfolding backoff
backoff_bounds base k h = ground (arith, mul_mono base 1 (2 ^ (k - 1)) (pow_pos (k - 1)))

backoff_mono : (base k l : ℕ) → base ≤ backoff_cap_seconds → k ≤ l → backoff base k ≤ backoff base l
unfolding backoff
backoff_mono base k l h le = ground (
  arith,
  backoff_bounds base l h,
  mul_mono base (2 ^ (k - 1)) (2 ^ (l - 1)) (pow_mono (k - 1) (l - 1) (omega arith)),
)

module _ {H : Type 0} (host : Host H) where
  delay_lem :
      (d : Daemon)
      → d.unreachable_streak ≤ 1024
      → next_delay host d ≡ some (backoff (heartbeat_seconds host d) d.unreachable_streak)
  unfolding next_delay backoff
  delay_lem d h = elim (Bool-cases (leb d.unreachable_streak 1)) [
    | inl short ↦ rw short refl
    | inr long ↦
        let fits : leb 1024 (d.unreachable_streak - 1) ≡ false = ground (arith, long, h) in
        rw (long, fits) refl
  ]

  -- Up to the 1024th pass in a row without an answer, the pause between two passes is at least the
  -- heartbeat's interval and at most the cap, and it never falls while the Control Node stays
  -- unreachable; the interval is within the cap.
  pub next_delay_bounds :
      (d : Daemon) (k : ℕ)
      → heartbeat_seconds host d ≤ backoff_cap_seconds
      → d.unreachable_streak ≤ k
      → k ≤ 1024
      → (now : ℕ) × (later : ℕ) × (next_delay host d ≡ some now)
        × (next_delay host (record d { unreachable_streak = k }) ≡ some later)
        × (heartbeat_seconds host d ≤ now)
        × (now ≤ later)
        × (later ≤ backoff_cap_seconds)
  next_delay_bounds d k h le small =
      let base = heartbeat_seconds host d in
      let streak = d.unreachable_streak in
      (
        backoff base streak,
        backoff base k,
        delay_lem d (omega (arith, le, small)),
        delay_lem (record d { unreachable_streak = k }) small,
        (backoff_bounds base streak h).0,
        backoff_mono base streak k h le,
        (backoff_bounds base k h).1,
      )
