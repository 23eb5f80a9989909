-- ===== src/Schedules/Normal/Bodies.antt =====
-- src/enoch/extensions/schedules.py: what the bodies of the transactions write, reconciliation
-- aside.
use enoch.Base.{
  ℕ, suc, Bool, true, false, not, ◌&&◌, ◌||◌, String, some, List, [], ◌∷◌, ◌≡◌, refl, ap, subst,
  ◌∙◌, inl, inr, Bool-cases, Option-cases, if◌then◌else◌, some-injective, ◌==◌,
}
use enoch.Base.Text.{strip, lower, truthy, one_of, or_else}
use enoch.Base.Text.Laws.{strip-strip, strip-lower}
use enoch.Payloads.Names.{key_name}
use enoch.Schedules.Types.{active, disabled, ExtensionScheduleStatus, Control}
use enoch.Schedules.Times.{Env, iso, text_of, run_now_key, distinct_texts, next_run, error_code}
use enoch.Schedules.Store.{find_item, same_state, ids}
use enoch.Schedules.Control.{transition_body, target_of, request_body}
use enoch.Schedules.Claims.{claim_items, claim_body, claimed_status, is_waiting}
use enoch.Schedules.Acknowledge.{
  Acknowledgement, acknowledge_body, next_target, is_scheduled, failed_with,
}
use enoch.Schedules.Normal.{IsNormal}
use enoch.Schedules.Normal.Dates.{IsIsoClock, IsHex}
use enoch.Schedules.Normal.Lists.{AllNormal, nil, cons, find_item-IsNormal}
use enoch.Schedules.Normal.Files.{
  IsReadable, Writes, raised, left, written, Writes-if, replace_item-IsReadable,
}
use enoch.Schedules.Normal.Updates.{
  IsDate, IsCleanResult, text_of-IsDate, next_run_at-IsDate, moved_status-IsNormal,
  keyed_status-IsNormal, requested_status-IsNormal, claimed_status-IsNormal,
  acknowledged_status-IsNormal,
}

module _ (env : Env) (dates : IsIsoClock env.clock) (t : ℕ) (items : List ExtensionScheduleStatus)
    (r : IsReadable env items) where
  pub transition_body-IsReadable :
      (operation : Control) (id name actor : String)
      → Writes (IsReadable env) (transition_body operation id name (iso env t) actor items)
  unfolding transition_body
  transition_body-IsReadable operation id name actor = elim (Option-cases (find_item id items)) [
    | inl e ↦ rw e (raised _)
    | inr (s, e) ↦
        let (n, same) = find_item-IsNormal id items r.normal e in
        rw e (
          Writes-if (same_state s.state disabled) (λ h. raised _)
            (λ h.
              Writes-if (same_state s.state (target_of operation)) (λ k. left _)
                (λ k. written (
                  replace_item-IsReadable _ items
                    (moved_status-IsNormal env dates t s n (target_of operation)) r))))
  ]

  pub request_body-IsReadable :
      (id name hex key actor : String)
      → IsHex hex
      → run_now_key key ≡ some key
      → Writes (IsReadable env) (request_body id name hex (iso env t) key actor items)
  unfolding request_body
  request_body-IsReadable id name hex key actor h k = elim (Option-cases (find_item id items)) [
    | inl e ↦ rw e (raised _)
    | inr (s, e) ↦
        let (n, same) = find_item-IsNormal id items r.normal e in
        rw e (
          Writes-if (not (same_state s.state active)) (λ h. raised _)
            (λ a.
              Writes-if (truthy key && one_of key s.run_now_history) (λ b. left _)
                (λ b.
                  Writes-if (truthy s.claim_id || truthy s.run_now_id)
                    (λ c.
                      Writes-if (not (truthy key)) (λ d. left _)
                        (λ d. written (
                          replace_item-IsReadable _ items
                            (keyed_status-IsNormal env dates t s n key k) r)))
                    (λ c. written (
                      replace_item-IsReadable _ items
                        (requested_status-IsNormal env dates t s n hex key h k) r)))))
  ]

  pub next_target-IsDate :
      (s : ExtensionScheduleStatus) {next : String}
      → IsNormal env s
      → next_target env t s ≡ some next
      → IsDate env next
  unfolding next_target
  next_target-IsDate s {next} n h = go (is_scheduled s.claim_kind) h
    where
      go :
          (b : Bool)
          → (if b then text_of env (next_run env s t) else some s.next_run_at) ≡ some next
          → IsDate env next
      go true e = text_of-IsDate env dates (next_run env s t) e
      go false e = subst (λ v. IsDate env v) (some-injective e) (next_run_at-IsDate env s n)

  pub acknowledge_body-IsReadable :
      (id claim_id : String) (a : Acknowledgement)
      → IsCleanResult a
      → Writes (IsReadable env) (acknowledge_body env t id claim_id a items)
  unfolding acknowledge_body
  acknowledge_body-IsReadable id claim_id a c = elim (Option-cases (find_item id items)) [
    | inl e ↦ rw e (left _)
    | inr (s, e) ↦
        let (n, same) = find_item-IsNormal id items r.normal e in
        rw e (
          Writes-if (not (s.claim_id == claim_id)) (λ h. left _)
            (λ h. elim (Option-cases (next_target env t s)) [
              | inl f ↦ rw f (raised _)
              | inr (next, f) ↦ rw f (
                  written (
                    replace_item-IsReadable _ items
                      (acknowledged_status-IsNormal env dates t s n next a
                        (next_target-IsDate s n f) c)
                      r))
            ]))
  ]

module _ (env : Env) (dates : IsIsoClock env.clock) (t : ℕ) (hexes : ℕ → String)
    (hex : (n : ℕ) → IsHex (hexes n)) where
  -- The loop that claims keeps the records readable, and their identities.
  pub claim_items-AllNormal :
      (n : ℕ) (items : List ExtensionScheduleStatus)
      → AllNormal env items
      → AllNormal env (claim_items env t hexes n items).items
        × (ids (claim_items env t hexes n items).items ≡ ids items)
  unfolding claim_items claimed_status
  claim_items-AllNormal n [] nil = (nil, refl)
  claim_items-AllNormal n (s ∷ ss) (cons m h) =
      let (a, a') = claim_items-AllNormal n ss h in
      let (b, b') = claim_items-AllNormal (suc n) ss h in
      elim (Bool-cases (not (same_state s.state active))) [
        | inl e ↦ rw e (cons m a, ap (λ (l : List String). s.id ∷ l) a')
        | inr e ↦ elim (Bool-cases (truthy s.claim_id)) [
          | inl f ↦ rw (e, f) (cons m a, ap (λ (l : List String). s.id ∷ l) a')
          | inr f ↦ elim (Bool-cases (is_waiting env t s)) [
            | inl g ↦ rw (e, f, g) (cons m a, ap (λ (l : List String). s.id ∷ l) a')
            | inr g ↦
                rw (e, f, g)
                  (
                    cons (claimed_status-IsNormal env dates t s m (hexes n) (hex n)) b,
                    ap (λ (l : List String). s.id ∷ l) b',
                  )
          ]
        ]
      ]

  pub claim_body-IsReadable :
      (items : List ExtensionScheduleStatus)
      → IsReadable env items
      → Writes (IsReadable env) (claim_body env t hexes items)
  unfolding claim_body
  claim_body-IsReadable items r =
      let (normal, same) = claim_items-AllNormal 0 items r.normal in
      Writes-if (claim_items env t hexes 0 items).changed
        (λ e. written (record { normal = normal; distinct = ap distinct_texts same ∙ r.distinct }))
        (λ e. left _)

pub failed_with-IsCleanResult : (code error : String) → IsCleanResult (failed_with code error)
unfolding failed_with error_code strip
failed_with-IsCleanResult code error = record {
  outcome = refl;
  code = elim (Bool-cases (key_name (lower (strip (or_else code "schedule_failed"))))) [
    | inl e ↦ rw e (
        strip-lower (strip (or_else code "schedule_failed"))
        ∙ ap lower (strip-strip (or_else code "schedule_failed")))
    | inr e ↦ rw e refl
  ];
  task = refl;
}
