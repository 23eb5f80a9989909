-- ===== src/Schedules/Normal/Declared.antt =====
-- src/enoch/extensions/schedules.py: the records that reconciliation builds from declarations.
use Prim.Native.String.{String}
use enoch.Base.{
  ℕ, Bool, true, false, Option, none, some, List, ◌≡◌, refl, sym, subst, arith, if◌then◌else◌, eqb,
}
use enoch.Base.Text.{strip, truthy}
use enoch.Payloads.Bounds.{Metadata}
use enoch.Payloads.References.{ArtifactReference, references_from_json}
use enoch.Schedules.Types.{
  disabled, cadence_of, interval, daily, Cadence, ExtensionScheduleStatus, ExtensionScheduleSpec,
}
use enoch.Schedules.Times.{
  Env, iso, extension_name, schedule_name, schedule_id, run_now_history, distinct_texts,
}
use enoch.Schedules.Spec.{consistent, same_cadence, new_spec, assemble_spec}
use enoch.Schedules.Store.{same_state}
use enoch.Schedules.Reconcile.{disabled_status}
use enoch.Schedules.Declare.{new_status, declared_status}
use enoch.Schedules.Normal.{IsNormal, IsDeclared, clean_texts}
use enoch.Schedules.Normal.Dates.{IsIsoClock, strip-iso, iso-reads}
use enoch.Schedules.Normal.Updates.{IsDate, text_if-clean}

-- A declaration that was built, with references that were built.
pub record IsSpec (env : Env) (spec : ExtensionScheduleSpec) : Type 0 where
  pub built : new_spec env spec ≡ some spec
  pub references : references_from_json spec.artifact_refs ≡ some spec.artifact_refs

assemble_spec-parts :
    (raw : ExtensionScheduleSpec) (a b c : Option String) (d : Option (List String))
    (e : Option Metadata) (f : Option (List ArtifactReference)) (g : Option String)
    {s : ExtensionScheduleSpec}
    → assemble_spec raw a b c d e f g ≡ some s
    → (a ≡ some s.name) × (eqb raw.api_version 1 ≡ true)
unfolding assemble_spec
assemble_spec-parts raw none b c d e f g h = absurd (cc)
assemble_spec-parts raw (some a) none c d e f g h = absurd (cc)
assemble_spec-parts raw (some a) (some b) none d e f g h = absurd (cc)
assemble_spec-parts raw (some a) (some b) (some c) none e f g h = absurd (cc)
assemble_spec-parts raw (some a) (some b) (some c) (some d) none f g h = absurd (cc)
assemble_spec-parts raw (some a) (some b) (some c) (some d) (some e) none g h = absurd (cc)
assemble_spec-parts raw (some a) (some b) (some c) (some d) (some e) (some f) none h = absurd (cc)
assemble_spec-parts raw (some a) (some b) (some c) (some d) (some e) (some f) (some g) h =
    ground arith

pub spec_parts :
    (env : Env) (spec : ExtensionScheduleSpec)
    → IsSpec env spec
    → (schedule_name spec.name ≡ some spec.name) × (spec.api_version ≡ 1)
unfolding new_spec
spec_parts env spec h =
    let (named, version) = assemble_spec-parts spec _ _ _ _ _ _ _ h.built in
    (named, ground (arith, version))

same_cadence_refl : (c : Cadence) → same_cadence c c ≡ true
same_cadence_refl interval = refl
same_cadence_refl daily = refl

pub declared-IsDeclared :
    (env : Env) (id extension name : String) (spec : ExtensionScheduleSpec)
    → IsSpec env spec
    → extension_name extension ≡ some extension
    → id ≡ schedule_id extension name
    → name ≡ spec.name
    → IsDeclared env id extension name
        (cadence_of spec.interval_seconds)
        (record spec { name = name })
declared-IsDeclared env id extension name spec h e i n =
    let (named, version) = spec_parts env spec h in
    record {
      extension = e;
      name = subst (λ (v : String). schedule_name v ≡ some v) (sym n) named;
      id = i;
      spec =
          subst
            (λ (v : String).
              new_spec env (record spec { name = v }) ≡ some (record spec { name = v }))
            (sym n) h.built;
      references = h.references;
      cadence = same_cadence_refl (cadence_of spec.interval_seconds);
    }

text_unless-clean :
    (b : Bool) (s : String) → strip s ≡ s → strip (if b then "" else s) ≡ (if b then "" else s)
unfolding strip
text_unless-clean true s h = refl
text_unless-clean false s h = h

module _ (env : Env) (dates : IsIsoClock env.clock) (t : ℕ) where
  pub new_status-IsNormal :
      (extension : String) (spec : ExtensionScheduleSpec) (next : String)
      → IsSpec env spec
      → extension_name extension ≡ some extension
      → IsDate env next
      → IsNormal env (new_status extension spec (iso env t) next)
  unfolding new_status clean_texts consistent strip run_now_history distinct_texts
  new_status-IsNormal extension spec next h e d =
      let (named, version) = spec_parts env spec h in
      let made =
        declared-IsDeclared env (schedule_id extension spec.name) extension spec.name spec h e refl
          refl in
      let now = strip-iso env dates t in
      record {
        declared =
            subst
              (λ (v : ℕ).
                IsDeclared env (schedule_id extension spec.name) extension spec.name
                  (cadence_of spec.interval_seconds) (record spec { api_version = v }))
              version made;
        texts = λ i. record (new_status extension spec (iso env t) next) {
          created_at = now i;
          updated_at = now i;
          next_run_at = d.clean i;
        };
        task = refl;
        history = refl;
        consistent = rw (iso-reads env dates t, d.reads) refl;
      }

  pub declared_status-IsNormal :
      (prior : ExtensionScheduleStatus) (spec : ExtensionScheduleSpec) (next : String)
      → IsNormal env prior
      → IsSpec env spec
      → prior.name ≡ spec.name
      → IsDate env next
      → IsNormal env (declared_status prior spec (iso env t) next)
  unfolding declared_status clean_texts consistent strip
  declared_status-IsNormal prior spec next n h same d = record {
    declared =
        declared-IsDeclared env prior.id prior.extension_name prior.name spec h n.declared.extension
          n.declared.id same;
    texts = λ i. record (declared_status prior spec (iso env t) next) {
      created_at = (n.texts i).created_at;
      updated_at = strip-iso env dates t i;
      next_run_at = d.clean i;
      last_scheduled_at = (n.texts i).last_scheduled_at;
      last_run_at = (n.texts i).last_run_at;
      last_outcome = (n.texts i).last_outcome;
      last_error_code = (n.texts i).last_error_code;
      last_error = strip prior.last_error;
      last_error_at = (n.texts i).last_error_at;
      claim_id = (n.texts i).claim_id;
      claimed_at = (n.texts i).claimed_at;
      claim_scheduled_for = (n.texts i).claim_scheduled_for;
      run_now_id =
          text_if-clean (truthy prior.claim_id) prior.run_now_id (λ j. (n.texts j).run_now_id) i;
      run_now_key =
          text_if-clean (truthy prior.claim_id) prior.run_now_key (λ j. (n.texts j).run_now_key) i;
      paused_at =
          text_unless-clean (same_state prior.state disabled) prior.paused_at
            (λ j. (n.texts j).paused_at) i;
    };
    task = n.task;
    history = n.history;
    consistent = rw d.reads (ground (arith, n.consistent));
  }

  pub disabled_status-IsNormal :
      (prior : ExtensionScheduleStatus)
      → IsNormal env prior
      → IsNormal env (disabled_status (iso env t) prior)
  unfolding disabled_status clean_texts consistent strip
  disabled_status-IsNormal prior n = record {
    declared = n.declared;
    texts = λ i. record (n.texts i) {
      state = disabled;
      updated_at = strip-iso env dates t i;
      disabled_at = strip-iso env dates t i;
      run_now_id =
          text_if-clean (truthy prior.claim_id) prior.run_now_id (λ j. (n.texts j).run_now_id) i;
      run_now_key =
          text_if-clean (truthy prior.claim_id) prior.run_now_key (λ j. (n.texts j).run_now_key) i;
    };
    task = n.task;
    history = n.history;
    consistent = n.consistent;
  }
