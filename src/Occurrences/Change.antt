-- ===== src/Occurrences/Change.antt =====
-- src/enoch/schedules.py: the search for the instant at which a zone changes its offset.
use enoch.Base.{
  ℕ, zero, suc, ◌+◌, ◌-◌, ◌*◌, ◌≤◌, ◌<◌, ◌≡◌, true, false, arith, Bool-cases, inl, inr, ltb,
}
use enoch.Base.Int.{ℤ, same_int}
use enoch.Occurrences.{second, half, Zone, narrow, offset_change_instant}

half_inside : (n : ℕ) → second < n → (0 < half n) × (half n < n)
half_inside n h = ground arith

module _ (zone : Zone) (offset : ℤ) (from until change : ℕ)
    (same : (x : ℕ) → from ≤ x → x < change → same_int (zone.utcoffset x) offset ≡ true)
    (other : (x : ℕ) → change ≤ x → x ≤ until → same_int (zone.utcoffset x) offset ≡ false) where
  narrow-finds :
      (fuel before after : ℕ)
      → from ≤ before
      → before < change
      → change ≤ after
      → after ≤ until
      → after - before ≤ fuel
      → (change ≤ narrow fuel zone offset before after)
        × (narrow fuel zone offset before after < change + second)
  unfolding narrow
  narrow-finds zero before after a b c d f = absurd (omega arith)
  narrow-finds (suc fuel) before after a b c d f = elim (Bool-cases (ltb second (after - before))) [
    | inr e ↦ rw e (c, ground (arith, e, b))
    | inl e ↦
        let (low, high) = half_inside (after - before) (ground (arith, e)) in
        elim (Bool-cases (ltb (before + half (after - before)) change)) [
          | inl l ↦
              let m = before + half (after - before) in
              rw (e, same m (omega (arith, a)) (ground (arith, l)))
                (narrow-finds fuel m after (omega (arith, a)) (ground (arith, l)) c d
                  (omega (arith, low, f)))
          | inr l ↦
              let m = before + half (after - before) in
              rw (e, other m (ground (arith, l)) (omega (arith, high, d)))
                (narrow-finds fuel before m a b (ground (arith, l)) (omega (arith, high, d))
                  (omega (arith, high, f)))
        ]
  ]

-- When the offset of a zone changes once between two instants, at a whole second, the search for
-- the change, with the fuel that it is given, ends at that second.
pub offset_change_instant-eq :
    (zone : Zone) (before after change_at : ℕ)
    → before < change_at * second
    → change_at * second ≤ after
    → ((x : ℕ)
        → before ≤ x
        → x < change_at * second
        → same_int (zone.utcoffset x) (zone.utcoffset before) ≡ true)
    → ((x : ℕ)
        → change_at * second ≤ x
        → x ≤ after
        → same_int (zone.utcoffset x) (zone.utcoffset before) ≡ false)
    → offset_change_instant before after zone ≡ change_at * second
unfolding offset_change_instant
offset_change_instant-eq zone before after change_at b c same other =
    let (low, high) =
      narrow-finds zone (zone.utcoffset before) before after (change_at * second) same other
        (after - before) before after (omega arith) b c (omega arith) (omega arith) in
    omega (arith, low, high)
