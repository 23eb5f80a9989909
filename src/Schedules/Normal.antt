-- ===== src/Schedules/Normal.antt =====
-- src/enoch/extensions/schedules.py: durable records in the form in which they are read back.
pub mod Dates
pub mod History
pub mod Lists
pub mod Files
pub mod Updates
pub mod Declared
pub mod Identities
pub mod Bodies
pub mod Gathered
pub mod Folded
pub mod Reconciled
use enoch.Base.{
  ℕ, String, Bool, true, false, ◌&&◌, Option, none, some, List, [], ◌∷◌, ◌≡◌, refl, sym, ◌∙◌,
  if◌then◌else◌, ◌==◌, eq_iff, Bool-cases,
}
use enoch.Base.Text.{strip, truthy}
use enoch.Base.Text.Laws.{strip-strip}
use enoch.Payloads.References.{references_from_json}
use enoch.Schedules.Types.{ExtensionScheduleSpec, ExtensionScheduleStatus, Cadence, cadence_of}
use enoch.Schedules.Times.{Env, schedule_name, extension_name, schedule_id, run_now_history}
use enoch.Schedules.Spec.{
  new_spec, spec_of, read_spec, optional_positive, same_cadence, clean_status, consistent,
  finish_status, reparse_status,
}

-- The names and the declaration of a record.
pub record IsDeclared (env : Env) (i e n : String) (c : Cadence) (d : ExtensionScheduleSpec)
    : Type 0 where
  pub extension : extension_name e ≡ some e
  pub name : schedule_name n ≡ some n
  pub id : i ≡ schedule_id e n
  pub spec : new_spec env d ≡ some d
  pub references : references_from_json d.artifact_refs ≡ some d.artifact_refs
  pub cadence : same_cadence c (cadence_of d.interval_seconds) ≡ true

-- The declaration that a record holds.
abbrev pub declaration : ExtensionScheduleStatus → ExtensionScheduleSpec
declaration s = spec_of s s.name s.artifact_refs

-- The record with its texts stripped.
unfoldable pub clean_texts : ExtensionScheduleStatus → ExtensionScheduleStatus
clean_texts s = record s {
  created_at = strip s.created_at;
  updated_at = strip s.updated_at;
  next_run_at = strip s.next_run_at;
  last_scheduled_at = strip s.last_scheduled_at;
  last_run_at = strip s.last_run_at;
  last_outcome = strip s.last_outcome;
  last_error_code = strip s.last_error_code;
  last_error = strip s.last_error;
  last_error_at = strip s.last_error_at;
  claim_id = strip s.claim_id;
  claimed_at = strip s.claimed_at;
  claim_scheduled_for = strip s.claim_scheduled_for;
  run_now_id = strip s.run_now_id;
  run_now_key = strip s.run_now_key;
  paused_at = strip s.paused_at;
  disabled_at = strip s.disabled_at;
}

-- What reading a record back may change: the text of an error that was cut behind a blank.
abbrev pub tidy : ExtensionScheduleStatus → ExtensionScheduleStatus
tidy s = record s { last_error = strip s.last_error }

-- A record that is read back as it is, but for the blanks around its error.
pub record IsNormal (env : Env) (s : ExtensionScheduleStatus) : Type 0 where
  pub declared : IsDeclared env s.id s.extension_name s.name s.cadence (declaration s)
  pub texts : clean_texts s ≡ tidy s
  pub task : optional_positive s.last_task_id ≡ some s.last_task_id
  pub history : run_now_history s.run_now_history ≡ some s.run_now_history
  pub consistent : consistent env s ≡ true

same : (s : String) → (s == s) ≡ true
same s = (eq_iff s s).1 refl

pub reparse_status-normal :
    (env : Env) (s : ExtensionScheduleStatus)
    → IsNormal env s
    → reparse_status env s ≡ some (tidy s)
unfolding reparse_status clean_texts clean_status read_spec finish_status
reparse_status-normal env s n =
    let d = n.declared in
    let whole : clean_status s s.extension_name s.name (declaration s) s.last_task_id
          s.run_now_history
        ≡ tidy s =
      (λ i. record (clean_texts s) { id = sym d.id i }) ∙ n.texts in
    rw (d.extension, d.name, d.references, d.spec, n.task, n.history)
      ((λ i.
          if s.id == (whole i).id
            && same_cadence s.cadence (cadence_of s.interval_seconds)
            && consistent env (whole i)
          then some (whole i)
          else none)
        ∙ rw (same s.id, d.cadence, n.consistent) refl)

pub tidy-IsNormal :
    (env : Env) (s : ExtensionScheduleStatus) → IsNormal env s → IsNormal env (tidy s)
unfolding clean_texts consistent
tidy-IsNormal env s n = record {
  declared = n.declared;
  texts =
      (λ i. record (n.texts i) { last_error = strip-strip s.last_error i })
      ∙ (λ i. record s { last_error = sym (strip-strip s.last_error) i });
  task = n.task;
  history = n.history;
  consistent = n.consistent;
}
