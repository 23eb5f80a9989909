-- ===== src/Schedules/Normal/Updates.antt =====
-- src/enoch/extensions/schedules.py: the records that the operations build.
use Prim.Native.String.{String}
use enoch.Base.{
  ℕ, Bool, true, false, not, ◌&&◌, Option, none, some, ◌≡◌, refl, subst, some-injective, arith,
  is_some, inl, inr, Bool-cases, if◌then◌else◌,
}
use enoch.Base.Text.{strip, truthy}
use enoch.Schedules.Types.{State, paused, ExtensionScheduleStatus, unclaimed, scheduled, run_now}
use enoch.Schedules.Times.{
  Env, iso, text_of, parse_time, run_now_key, run_now_history, append_run_now_key,
}
use enoch.Schedules.Spec.{consistent, optional_positive}
use enoch.Schedules.Store.{same_state}
use enoch.Schedules.Control.{moved_status, keyed_status, requested_status, drop_if}
use enoch.Schedules.Claims.{claimed_status, scheduled_due}
use enoch.Schedules.Acknowledge.{acknowledged_status, Acknowledgement, or_last}
use enoch.Schedules.Normal.{IsNormal, clean_texts}
use enoch.Schedules.Normal.Dates.{
  IsIsoClock, IsHex, strip-iso, iso-reads, run_now_id-clean, new_claim_id-clean,
}
use enoch.Schedules.Normal.History.{read-IsHistory, IsHistory-read, append_run_now_key-IsHistory}

drop_if-clean : (b : Bool) (s : String) → strip s ≡ s → strip (drop_if b s) ≡ drop_if b s
unfolding drop_if strip
drop_if-clean true s h = refl
drop_if-clean false s h = h

pub text_if-clean :
    (b : Bool) (s : String) → strip s ≡ s → strip (if b then s else "") ≡ (if b then s else "")
unfolding strip
text_if-clean true s h = h
text_if-clean false s h = refl

-- A text that a record may hold as a date.
pub record IsDate (env : Env) (s : String) : Type 0 where
  pub clean : strip s ≡ s
  pub reads : is_some (parse_time env s) ≡ true

-- A target that was calculated.
pub text_of-IsDate :
    (env : Env) (dates : IsIsoClock env.clock) (o : Option ℕ) {next : String}
    → text_of env o ≡ some next
    → IsDate env next
text_of-IsDate env dates none h = absurd (cc)
text_of-IsDate env dates (some t) {next} h =
    let same : iso env t ≡ next = some-injective h in
    subst (λ v. IsDate env v) same
      (record { clean = strip-iso env dates t; reads = iso-reads env dates t })

pub next_run_at-IsDate :
    (env : Env) (s : ExtensionScheduleStatus) → IsNormal env s → IsDate env s.next_run_at
unfolding clean_texts consistent
next_run_at-IsDate env s n = record {
  clean = λ i. (n.texts i).next_run_at;
  reads = ground (arith, n.consistent);
}

-- A result whose parts can be stored.
pub record IsCleanResult (a : Acknowledgement) : Type 0 where
  pub outcome : strip a.outcome ≡ a.outcome
  pub code : strip a.error_code ≡ a.error_code
  pub task : optional_positive a.task_id ≡ some a.task_id

task_after :
    (new old : Option ℕ)
    → optional_positive new ≡ some new
    → optional_positive old ≡ some old
    → optional_positive (or_last new old) ≡ some (or_last new old)
task_after none old h k = k
task_after (some m) old h k = h

module _ (env : Env) (dates : IsIsoClock env.clock) (t : ℕ) (s : ExtensionScheduleStatus)
    (n : IsNormal env s) where
  clean_now : strip (iso env t) ≡ iso env t
  clean_now = strip-iso env dates t

  pub moved_status-IsNormal : (target : State) → IsNormal env (moved_status target (iso env t) s)
  unfolding moved_status clean_texts consistent
  moved_status-IsNormal target = record {
    declared = n.declared;
    texts = λ i. record (n.texts i) {
      state = target;
      updated_at = clean_now i;
      paused_at = drop_if-clean (not (same_state target paused)) (iso env t) clean_now i;
      run_now_id =
          drop_if-clean (same_state target paused && not (truthy s.claim_id)) s.run_now_id
            (λ j. (n.texts j).run_now_id) i;
      run_now_key =
          drop_if-clean (same_state target paused && not (truthy s.claim_id)) s.run_now_key
            (λ j. (n.texts j).run_now_key) i;
    };
    task = n.task;
    history = n.history;
    consistent = n.consistent;
  }

  -- A key that is added to the history of a record.
  appended :
      (key : String)
      → run_now_key key ≡ some key
      → run_now_history (append_run_now_key s.run_now_history key)
        ≡ some (append_run_now_key s.run_now_history key)
  appended key k =
      IsHistory-read _
        (append_run_now_key-IsHistory s.run_now_history key (read-IsHistory _ n.history) k)

  pub keyed_status-IsNormal :
      (key : String) → run_now_key key ≡ some key → IsNormal env (keyed_status (iso env t) key s)
  unfolding keyed_status clean_texts consistent
  keyed_status-IsNormal key k = record {
    declared = n.declared;
    texts = λ i. record (n.texts i) {
      updated_at = clean_now i;
      run_now_history = append_run_now_key s.run_now_history key;
    };
    task = n.task;
    history = appended key k;
    consistent = n.consistent;
  }

  pub requested_status-IsNormal :
      (hex key : String)
      → IsHex hex
      → run_now_key key ≡ some key
      → IsNormal env (requested_status hex (iso env t) key s)
  unfolding requested_status clean_texts consistent run_now_key
  requested_status-IsNormal hex key h k =
      let (id_clean, named) = run_now_id-clean hex h in
      let key_clean : strip key ≡ key = ground (arith, k) in
      record {
        declared = n.declared;
        texts = λ i. record (n.texts i) {
          updated_at = clean_now i;
          run_now_id = id_clean i;
          run_now_key = key_clean i;
          run_now_history = append_run_now_key s.run_now_history key;
        };
        task = n.task;
        history = appended key k;
        consistent = n.consistent;
      }

  next_reads : is_some (parse_time env s.next_run_at) ≡ true
  unfolding consistent
  next_reads = ground (arith, n.consistent)

  created_reads : is_some (parse_time env s.created_at) ≡ true
  unfolding consistent
  created_reads = ground (arith, n.consistent)

  pub claimed_status-IsNormal :
      (hex : String) → IsHex hex → IsNormal env (claimed_status env t hex s)
  unfolding claimed_status clean_texts consistent
  claimed_status-IsNormal hex h = elim (Bool-cases (scheduled_due env t s)) [
    | inl e ↦
        let (id_clean, named) = new_claim_id-clean hex h s s.next_run_at in
        rw e (record {
          declared = n.declared;
          texts = λ i. record (n.texts i) {
            updated_at = clean_now i;
            claim_id = id_clean i;
            claimed_at = clean_now i;
            claim_kind = scheduled;
            claim_scheduled_for = (n.texts i).next_run_at;
          };
          task = n.task;
          history = n.history;
          consistent = rw (named, created_reads, next_reads, iso-reads env dates t) refl;
        })
    | inr e ↦
        let (id_clean, named) = new_claim_id-clean hex h s s.run_now_id in
        rw e (record {
          declared = n.declared;
          texts = λ i. record (n.texts i) {
            updated_at = clean_now i;
            claim_id = id_clean i;
            claimed_at = clean_now i;
            claim_kind = run_now;
            claim_scheduled_for = clean_now i;
          };
          task = n.task;
          history = n.history;
          consistent = rw (named, created_reads, next_reads, iso-reads env dates t) refl;
        })
  ]

  -- An acknowledgement, with the target that follows.
  pub acknowledged_status-IsNormal :
      (next : String) (a : Acknowledgement)
      → IsDate env next
      → IsCleanResult a
      → IsNormal env (acknowledged_status env t next a s)
  unfolding acknowledged_status clean_texts consistent strip
  acknowledged_status-IsNormal next a d c = record {
    declared = n.declared;
    texts = λ i. record (n.texts i) {
      updated_at = clean_now i;
      next_run_at = d.clean i;
      last_scheduled_at = (n.texts i).claim_scheduled_for;
      last_run_at = clean_now i;
      last_task_id = or_last a.task_id s.last_task_id;
      last_outcome = c.outcome i;
      last_error_code = c.code i;
      last_error = strip a.error;
      last_error_at = text_if-clean (truthy a.error_code) (iso env t) clean_now i;
      claim_id = "";
      claimed_at = "";
      claim_kind = unclaimed;
      claim_scheduled_for = "";
      run_now_id = "";
      run_now_key = "";
    };
    task = task_after a.task_id s.last_task_id c.task n.task;
    history = n.history;
    consistent = rw (created_reads, d.reads) refl;
  }
