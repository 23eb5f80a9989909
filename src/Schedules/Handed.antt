-- ===== src/Schedules/Handed.antt =====
-- src/enoch/extensions/schedules.py: which occurrences a call of the claim hands out.
use enoch.Base.{
  ℕ, suc, String, Bool, true, false, not, ◌||◌, Option, some, List, [], ◌∷◌, ◌≡◌, refl, sym, ap,
  subst, ◌∙◌, arith, ◌⊎◌, inl, inr, Bool-cases, if◌then◌else◌, some-injective, ◌==◌,
}
use enoch.Base.Text.{truthy, strip}
use enoch.Queue.Clock.{Datetime}
use enoch.Schedules.Types.{active, ExtensionScheduleStatus, World, Result, ok, commit, leave}
use enoch.Schedules.Times.{Env, current_time}
use enoch.Schedules.Store.{finish, find_item, same_state}
use enoch.Schedules.Claims.{
  Claims, claim_items, claim_body, claims_outcome, claimed_status, is_waiting,
  claim_due_extension_schedules,
}
use enoch.Schedules.Normal.{tidy}
use enoch.Schedules.Normal.Dates.{IsIsoClock, IsHex, new_claim_id-clean}
use enoch.Schedules.Normal.Files.{
  IsReadable, FileIsReadable, loaded, loaded-IsReadable, transaction-readable_file,
}
use enoch.Schedules.Normal.Bodies.{claim_items-AllNormal}
use enoch.Schedules.Times.{distinct_texts}
use enoch.Schedules.Lookup.{record_at, record_at-tidy, record_at-write, tidied}

-- The occurrence of `s` that is handed out: its claim is on it, and an older claim stays.
pub record IsHanded (s c : ExtensionScheduleStatus) : Type 0 where
  pub claimed : truthy c.claim_id ≡ true
  pub kept : (truthy s.claim_id ≡ false) ⊎ (c ≡ s)
  pub same_error : c.last_error ≡ s.last_error

module _ (env : Env) (t : ℕ) (hexes : ℕ → String) (hex : (n : ℕ) → IsHex (hexes n)) (k : String)
    (s : ExtensionScheduleStatus) (on : same_state s.state active ≡ true)
    (wanted : truthy s.claim_id || not (is_waiting env t s) ≡ true) where
  claimed_status-IsHanded :
      (m : ℕ) → truthy s.claim_id ≡ false → IsHanded s (claimed_status env t (hexes m) s)
  unfolding claimed_status
  claimed_status-IsHanded m f = record {
    claimed = (new_claim_id-clean (hexes m) (hex m) s _).1;
    kept = inl f;
    same_error = refl;
  }

  -- The record at the head of the list.
  first-IsHanded :
      (n : ℕ) (xs : List ExtensionScheduleStatus)
      → (s.id == k) ≡ true
      → (c : ExtensionScheduleStatus) × (find_item k (claim_items env t hexes n (s ∷ xs)).claimed
          ≡ some c)
        × (find_item k (claim_items env t hexes n (s ∷ xs)).items ≡ some c)
        × IsHanded s c
  unfolding claim_items claimed_status
  first-IsHanded n xs e = elim (Bool-cases (truthy s.claim_id)) [
    | inl g ↦ (
      s,
      rw (on, g, e) refl,
      rw (on, g, e) refl,
      record { claimed = g; kept = inr refl; same_error = refl },
    )
    | inr g ↦
        let due : is_waiting env t s ≡ false = ground (arith, wanted, g) in
        (
          claimed_status env t (hexes n) s,
          rw (on, g, due, e) refl,
          rw (on, g, due, e) refl,
          claimed_status-IsHanded n g,
        )
  ]

  -- The loop hands the record out, and keeps what it handed out.
  claim_items-IsHanded :
      (n : ℕ) (items : List ExtensionScheduleStatus)
      → find_item k items ≡ some s
      → (c : ExtensionScheduleStatus) × (find_item k (claim_items env t hexes n items).claimed
          ≡ some c)
        × (find_item k (claim_items env t hexes n items).items ≡ some c)
        × IsHanded s c
  unfolding claim_items claimed_status
  claim_items-IsHanded n [] h = absurd (cc)
  claim_items-IsHanded n (x ∷ xs) h = elim (Bool-cases (x.id == k)) [
    | inl e ↦
        let same : x ≡ s = some-injective (rw e at h) in
        rw same
          (first-IsHanded n xs (ap (λ (v : ExtensionScheduleStatus). v.id == k) (sym same) ∙ e))
    | inr e ↦
        let old = claim_items-IsHanded n xs (rw e at h) in
        let new = claim_items-IsHanded (suc n) xs (rw e at h) in
        elim (Bool-cases (not (same_state x.state active))) [
          | inl f ↦ rw f (rw e old)
          | inr f ↦ elim (Bool-cases (truthy x.claim_id)) [
            | inl g ↦ rw (f, g) (rw e old)
            | inr g ↦ elim (Bool-cases (is_waiting env t x)) [
              | inl i ↦ rw (f, g, i) (rw e old)
              | inr i ↦ rw (f, g, i) (rw e new)
            ]
          ]
        ]
  ]

claim_items-unchanged :
    (env : Env) (t : ℕ) (hexes : ℕ → String) (n : ℕ) (items : List ExtensionScheduleStatus)
    → (claim_items env t hexes n items).changed ≡ false
    → (claim_items env t hexes n items).items ≡ items
unfolding claim_items
claim_items-unchanged env t hexes n [] h = refl
claim_items-unchanged env t hexes n (x ∷ xs) h =
    let old = claim_items-unchanged env t hexes n xs in
    let whole = λ (e : (claim_items env t hexes n xs).items ≡ xs).
      ap (λ (l : List ExtensionScheduleStatus). x ∷ l) e in
    elim (Bool-cases (not (same_state x.state active))) [
      | inl f ↦ rw f (whole (old (rw f at h)))
      | inr f ↦ elim (Bool-cases (truthy x.claim_id)) [
        | inl g ↦ rw (f, g) (whole (old (rw (f, g) at h)))
        | inr g ↦ elim (Bool-cases (is_waiting env t x)) [
          | inl i ↦ rw (f, g, i) (whole (old (rw (f, g, i) at h)))
          | inr i ↦ absurd (cc (rw (f, g, i) at h))
        ]
      ]
    ]

module _ (env : Env) (dates : IsIsoClock env.clock) (w : World) (h : FileIsReadable env w.file)
    (now : Option Datetime) (hexes : ℕ → String) (hex : (n : ℕ) → IsHex (hexes n)) (k : String)
    (s : ExtensionScheduleStatus) (found : record_at k w.file ≡ some s)
    (on : same_state s.state active ≡ true)
    (wanted : truthy s.claim_id || not (is_waiting env (current_time env now) s) ≡ true) where
  -- The occurrence is in the result and in the file.
  abbrev Handed : Result (List ExtensionScheduleStatus) × World → Type 0
  Handed (r, v) =
      (cs : List ExtensionScheduleStatus) × (c : ExtensionScheduleStatus) × (r ≡ ok cs)
      × (find_item k cs ≡ some c)
      × (record_at k v.file ≡ some c)
      × (truthy c.claim_id ≡ true)
      × ((truthy s.claim_id ≡ false) ⊎ (c ≡ s))

  finish-Handed :
      (c : Claims)
      → (c.changed ≡ false → record_at k w.file ≡ find_item k c.items)
      → (c.changed ≡ true → IsReadable env c.items)
      → ((o : ExtensionScheduleStatus) × (find_item k c.claimed ≡ some o)
          × (find_item k c.items ≡ some o)
          × IsHanded s o)
      → Handed (finish w (claims_outcome c))
  finish-Handed c still readable (o, p, q, i) = go c.changed refl
    where
      clean : tidy o ≡ o
      clean =
          let stripped : strip s.last_error ≡ s.last_error =
            λ j. (record_at-tidy k w.file found j).last_error in
          let again : strip o.last_error ≡ o.last_error =
            ap strip i.same_error ∙ stripped ∙ sym i.same_error in
          λ j. record o { last_error = again j }

      go :
          (b : Bool)
          → c.changed ≡ b
          → Handed (finish w (if b then commit c.items [] c.claimed else leave c.claimed))
      go true e = (
        c.claimed,
        o,
        refl,
        p,
        record_at-write env k c.items (readable e) ∙ ap tidied q ∙ ap some clean,
        i.claimed,
        i.kept,
      )
      go false e = (c.claimed, o, refl, p, still e ∙ q, i.claimed, i.kept)

  -- When the file is readable, a record stands in it, it is active, and it is claimed, due or
  -- asked to run, then the call that claims succeeds, hands the record out, and the file holds
  -- the record as it was handed out, with a claim that is not blank; if it was claimed before, it
  -- is handed out unchanged.
  pub claim_due_extension_schedules-hands_out :
      (cs : List ExtensionScheduleStatus) × (c : ExtensionScheduleStatus)
      × ((claim_due_extension_schedules env now hexes w).0 ≡ ok cs)
      × (find_item k cs ≡ some c)
      × (record_at k (claim_due_extension_schedules env now hexes w).1.file ≡ some c)
      × (truthy c.claim_id ≡ true)
      × ((truthy s.claim_id ≡ false) ⊎ (c ≡ s))
  unfolding claim_due_extension_schedules claim_body
  claim_due_extension_schedules-hands_out =
      let items = loaded w.file in
      let t = current_time env now in
      let r = loaded-IsReadable w.file h in
      let (normal, same) = claim_items-AllNormal env dates t hexes hex 0 items r.normal in
      subst (λ v. Handed v) (sym (transaction-readable_file env (claim_body env t hexes) w h))
        (finish-Handed (claim_items env t hexes 0 items)
          (λ e. ap (find_item k) (sym (claim_items-unchanged env t hexes 0 items e)))
          (λ e. record { normal = normal; distinct = ap distinct_texts same ∙ r.distinct })
          (claim_items-IsHanded env t hexes hex k s on wanted 0 items found))
