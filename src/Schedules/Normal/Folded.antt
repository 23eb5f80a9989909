-- ===== src/Schedules/Normal/Folded.antt =====
-- src/enoch/extensions/schedules.py: the records that reconciliation folds and disables.
use enoch.Base.{
  ℕ, Bool, true, false, not, ◌&&◌, String, Option, none, some, List, [], ◌∷◌, ◌≡◌, refl, sym, ap,
  ap₂, subst, ◌∙◌, arith, inl, inr, Bool-cases, Option-cases, if◌then◌else◌, some-injective,
}
use enoch.Schedules.Types.{disabled, ExtensionScheduleStatus, ExtensionScheduleSpec}
use enoch.Schedules.Times.{Env, iso, first_run, text_of}
use enoch.Schedules.Store.{find_item, same_state, ids}
use enoch.Schedules.Reconcile.{
  Desired, fold_desired, Reconciled, fold_all, disable_all, disabled_status,
}
use enoch.Schedules.Declare.{
  Folded, reconcile_status, matches_spec, declared_status, declared_target, needs_target,
  new_status,
}
use enoch.Schedules.Normal.{IsNormal}
use enoch.Schedules.Normal.Dates.{IsIsoClock}
use enoch.Schedules.Normal.Lists.{AllNormal, nil, cons, find_item-IsNormal}
use enoch.Schedules.Normal.Updates.{IsDate, text_of-IsDate, next_run_at-IsDate}
use enoch.Schedules.Normal.Gathered.{IsDesired, AllDesired, declared_ids}
use enoch.Schedules.Normal.Declared.{
  new_status-IsNormal, declared_status-IsNormal, disabled_status-IsNormal,
}
use enoch.Schedules.Normal.Identities.{schedule_id-name}

module _ (env : Env) (dates : IsIsoClock env.clock) (t : ℕ) where
  declared_target-IsDate :
      (prior : ExtensionScheduleStatus) (spec : ExtensionScheduleSpec) {next : String}
      → IsNormal env prior
      → declared_target env prior spec t ≡ some next
      → IsDate env next
  unfolding declared_target
  declared_target-IsDate prior spec {next} n h = go (needs_target env prior spec) h
    where
      go :
          (b : Bool)
          → (if b then text_of env (first_run env spec t) else some prior.next_run_at) ≡ some next
          → IsDate env next
      go true e = text_of-IsDate env dates (first_run env spec t) e
      go false e = subst (λ v. IsDate env v) (some-injective e) (next_run_at-IsDate env prior n)

  -- A record that a declaration has, or gets.
  fold_desired-IsNormal :
      (d : Desired) (o : Option ExtensionScheduleStatus) {f : Folded}
      → IsDesired env d
      → ((s : ExtensionScheduleStatus) → o ≡ some s → IsNormal env s × (s.id ≡ d.id))
      → fold_desired env t d o ≡ some f
      → IsNormal env f.item × (f.item.id ≡ d.id)
  unfolding fold_desired reconcile_status new_status declared_status
  fold_desired-IsNormal d none {f} k p h =
      elim (Option-cases (text_of env (first_run env d.spec t))) [
        | inl e ↦ absurd (ground (arith, e, h))
        | inr (next, e) ↦
            let same : new_status d.extension d.spec (iso env t) next ≡ f.item =
              ap (λ (g : Folded). g.item) (some-injective (rw e at h)) in
            (
              subst (λ v. IsNormal env v) same
                  (new_status-IsNormal env dates t d.extension d.spec next k.spec k.extension
                    (text_of-IsDate env dates (first_run env d.spec t) e)),
              ap (λ (v : ExtensionScheduleStatus). v.id) (sym same) ∙ sym k.id,
            )
      ]
  fold_desired-IsNormal d (some prior) {f} k p h =
      let (n, i) = p prior refl in
      elim (Bool-cases (matches_spec prior d.spec && not (same_state prior.state disabled))) [
        | inl e ↦
            let same : prior ≡ f.item = ap (λ (g : Folded). g.item) (some-injective (rw e at h)) in
            (
              subst (λ v. IsNormal env v) same n,
              ap (λ (v : ExtensionScheduleStatus). v.id) (sym same) ∙ i,
            )
        | inr e ↦ elim (Option-cases (declared_target env prior d.spec t)) [
          | inl g ↦ absurd (ground (arith, e, g, h))
          | inr (next, g) ↦
              let same : declared_status prior d.spec (iso env t) next ≡ f.item =
                ap (λ (g : Folded). g.item) (some-injective (rw (e, g) at h)) in
              let named =
                schedule_id-name prior.extension_name d.extension prior.name d.spec.name
                  n.declared.extension k.extension (sym n.declared.id ∙ i ∙ k.id) in
              (
                subst (λ v. IsNormal env v) same
                    (declared_status-IsNormal env dates t prior d.spec next n k.spec named
                      (declared_target-IsDate prior d.spec n g)),
                ap (λ (v : ExtensionScheduleStatus). v.id) (sym same) ∙ i,
              )
        ]
      ]

  pub fold_all-AllNormal :
      (existing : List ExtensionScheduleStatus) (ds : List Desired) {r : Reconciled}
      → AllNormal env existing
      → AllDesired env ds
      → fold_all env t existing ds ≡ some r
      → AllNormal env r.items × (ids r.items ≡ declared_ids ds)
  unfolding fold_all
  fold_all-AllNormal existing [] {r} a tt h =
      let same = some-injective h in
      subst (λ v. AllNormal env (Reconciled.items v) × (ids v.items ≡ [])) same (nil, refl)
  fold_all-AllNormal existing (d ∷ ds) {r} a (k, rest) h =
      elim (Option-cases (fold_desired env t d (find_item d.id existing))) [
        | inl e ↦ absurd (ground (arith, e, h))
        | inr (f, e) ↦ elim (Option-cases (fold_all env t existing ds)) [
          | inl g ↦ absurd (ground (arith, e, g, h))
          | inr (r', g) ↦
              let (n, i) =
                fold_desired-IsNormal d (find_item d.id existing) k
                  (λ s p. find_item-IsNormal d.id existing a p) e in
              let (b, j) = fold_all-AllNormal existing ds a rest g in
              let same : f.item ∷ r'.items ≡ r.items =
                ap (λ (v : Reconciled). v.items) (some-injective (rw (e, g) at h)) in
              (
                subst (λ v. AllNormal env v) same (cons n b),
                ap ids (sym same) ∙ ap₂ (λ (x : String) (l : List String). x ∷ l) i j,
              )
        ]
      ]

  pub disable_all-AllNormal :
      (existing : List ExtensionScheduleStatus)
      → AllNormal env existing
      → AllNormal env (disable_all (iso env t) existing).items
        × (ids (disable_all (iso env t) existing).items ≡ ids existing)
  unfolding disable_all disabled_status
  disable_all-AllNormal [] nil = (nil, refl)
  disable_all-AllNormal (s ∷ ss) (cons n a) =
      let (b, j) = disable_all-AllNormal ss a in
      elim (Bool-cases (same_state s.state disabled)) [
        | inl e ↦ rw e (cons n b, ap (λ (l : List String). s.id ∷ l) j)
        | inr e ↦ rw e (
          cons (disabled_status-IsNormal env dates t s n) b,
          ap (λ (l : List String). s.id ∷ l) j,
        )
      ]
