-- ===== src/Occurrences/Interval.antt =====
-- src/enoch/schedules.py: the targets of an interval schedule.
use native.Mathlib.Nat.{lt-div-mul-add, div-mul-le_self}
use enoch.Base.{
  ℕ, zero, suc, ◌+◌, ◌-◌, ◌*◌, ◌/◌, ◌≤◌, ◌<◌, ◌≡◌, ◌⊎◌, inl, inr, refl, some, arith, Bool-cases,
  ltb,
}
use enoch.Occurrences.{second, whole_seconds, after_target, next_interval_run}

-- The first slot after `moment` on the grid of `interval` from `target`.
pub record IsNextSlot (target interval moment next : ℕ) : Type 0 where
  pub slot : ℕ
  pub on_grid : next ≡ target + suc slot * interval
  pub later : moment < next
  pub first : (slot ≡ 0) ⊎ (next ≤ moment + interval)

one_more : (q i : ℕ) → (q + 1) * i ≡ q * i + i
one_more q i = grind arith

after_target-IsNextSlot :
    (target interval moment : ℕ)
    → 0 < interval
    → IsNextSlot target interval moment (after_target target interval moment)
after_target-IsNextSlot target interval moment h =
    elim (Bool-cases (ltb moment (target + interval))) [
      | inl e ↦
          rw e (record {
            slot = 0;
            on_grid = omega arith;
            later = ground (arith, e);
            first = inl refl;
          })
      | inr e ↦
          let d = moment - (target + interval) in
          let q = d / interval in
          let above : d < q * interval + interval = lt-div-mul-add h in
          let below : q * interval ≤ d = div-mul-le_self d interval in
          let late : target + interval ≤ moment = ground (arith, e) in
          rw e (record {
            slot = q + 1;
            on_grid = omega (arith, one_more q interval, one_more (q + 1) interval);
            later = omega (arith, above, late, one_more q interval);
            first = inr (omega (arith, below, late, one_more q interval));
          })
    ]

-- For an interval above 0 and a target that was aimed at, the next run is on the grid of the
-- interval from that target, to the second, after the current time, and it is either the first
-- slot behind the target or at most one interval after the current time.
pub next_interval_run-IsNextSlot :
    (target interval current : ℕ)
    → 0 < interval
    → (next : ℕ) × (next_interval_run (some target) interval current ≡ some next)
      × IsNextSlot (whole_seconds target) (interval * second) (whole_seconds current) next
unfolding next_interval_run
next_interval_run-IsNextSlot target zero current h = absurd (omega arith)
next_interval_run-IsNextSlot target (suc n) current h = (
  after_target (whole_seconds target) (suc n * second) (whole_seconds current),
  refl,
  after_target-IsNextSlot (whole_seconds target) (suc n * second) (whole_seconds current)
      (omega arith),
)
