-- ===== src/Queue/Invariant.antt =====
-- What holds of a queue between two operations, and how reading, writing and a transaction keep
-- it.
use enoch.Base.{
  ℕ, suc, ◌+◌, ◌≤◌, ◌≡◌, refl, Bool, true, false, Option, String, none, some, List, [], ◌∷◌, arith,
  eqb, traverse, if◌then◌else◌, inl, inr, Bool-cases, Option-cases, some-injective,
}
use enoch.Job.{TaskJob}
use enoch.Job.Reparse.{reparse}
use enoch.Job.Facts.{id-reparse, reparse_stable}
use enoch.Queue.Types.{
  on_option, on_list, Error, EventRequest, QueueData, Outcome, raise, leave, commit, Result, ok,
  err, World, TaskReconciliationResult,
}
use enoch.Queue.Store.{
  next_id, write_queue, load_data, load_queue, empty_queue, transaction, finish, run_body,
  parse_present, loaded, reparse_reconciliation, stored_jobs, first_problem, unless, all_parse,
}
use enoch.Queue.Count.{
  count, count_option, tasks_with_id, AllStored, nil, OptionStored, count-parsed, AllStored-parsed,
  count-running, OptionStored-running, traverse-reparse, one-reparse,
}

-- Every task of the queue can be read back, where `urlsplit` returns on its addresses.
pub record IsStoredData (d : QueueData) : Type 0 where
  pub pending : AllStored d.pending
  pub paused : AllStored d.paused
  pub running : OptionStored d.running
  pub history : AllStored d.history

-- Besides, no id occurs twice, and none from `next_id` on occurs at all.
pub record IsSound (d : QueueData) : Type 0 where
  pub stored : IsStoredData d
  pub unique : (n : ℕ) → tasks_with_id n d ≤ 1
  pub fresh : (n : ℕ) → d.next_id ≤ n → tasks_with_id n d ≡ 0

-- The same tasks, by id, stand in the queue `d'`.
pub record Kept (d d' : QueueData) : Type 0 where
  pub stored : IsStoredData d'
  pub same : (n : ℕ) → tasks_with_id n d' ≡ tasks_with_id n d
  pub next : d'.next_id ≡ d.next_id

-- One task more, with the next id.
pub record Added (d d' : QueueData) : Type 0 where
  pub stored : IsStoredData d'
  pub more : (n : ℕ) → tasks_with_id n d' ≡ tasks_with_id n d + (if eqb (next_id d) n then 1 else 0)
  pub next : d'.next_id ≡ suc (next_id d)

-- What a body writes satisfies `P`; it may write nothing.
pub data Writes {A : Type 0} (P : QueueData → Type 0) : Outcome A → Type 0 where
  raised : (e : Error) → Writes P (raise e)
  left : (a : A) → Writes P (leave a)
  written :
      {d : QueueData} {events : List EventRequest} {a : A} → P d → Writes P (commit d events a)

module _ {A : Type 0} {B : Type 0} {P : QueueData → Type 0} where
  pub Writes-on_option :
      (o : Option A) {n : Outcome B} {f : A → Outcome B}
      → (o ≡ none → Writes P n)
      → ((a : A) → o ≡ some a → Writes P (f a))
      → Writes P (on_option o n f)
  Writes-on_option none hn hf = hn refl
  Writes-on_option (some a) hn hf = hf a refl

  pub Writes-on_list :
      (l : List A) {n : Outcome B} {f : A → List A → Outcome B}
      → (l ≡ [] → Writes P n)
      → ((a : A) (as' : List A) → l ≡ a ∷ as' → Writes P (f a as'))
      → Writes P (on_list l n f)
  Writes-on_list [] hn hf = hn refl
  Writes-on_list (a ∷ as') hn hf = hf a as' refl

module _ {B : Type 0} {P : QueueData → Type 0} where
  pub Writes-if :
      (b : Bool) {x y : Outcome B}
      → (b ≡ true → Writes P x)
      → (b ≡ false → Writes P y)
      → Writes P (if b then x else y)
  Writes-if true hx hy = hx refl
  Writes-if false hx hy = hy refl

  pub Writes-mono :
      {Q : QueueData → Type 0} {o : Outcome B}
      → ((d : QueueData) → P d → Q d)
      → Writes P o
      → Writes Q o
  Writes-mono f (raised e) = raised e
  Writes-mono f (left a) = left a
  Writes-mono f (written h) = written (f _ h)

pub Kept-IsSound : {d d' : QueueData} → IsSound d → Kept d d' → IsSound d'
Kept-IsSound s k = record {
  stored = k.stored;
  unique = λ n. omega (arith, k.same n, s.unique n);
  fresh = λ n h. omega (arith, k.same n, s.fresh n (omega (arith, k.next)));
}

pub Added-IsSound : {d d' : QueueData} → IsSound d → Added d d' → IsSound d'
Added-IsSound {d} s k = record {
  stored = k.stored;
  unique = λ n. elim (Bool-cases (eqb (next_id d) n)) [
    | inl e ↦ ground (arith, k.more n, s.fresh n (ground arith), e)
    | inr e ↦ ground (arith, k.more n, s.unique n, e)
  ];
  fresh = λ n h. ground (arith, k.more n, s.fresh n (ground (arith, k.next)), k.next);
}

-- Writing keeps the ids.
pub tasks_with_id-write_queue :
    (n : ℕ) (d : QueueData) → IsStoredData d → tasks_with_id n (write_queue d) ≡ tasks_with_id n d
unfolding write_queue
tasks_with_id-write_queue n d s = omega (
  arith,
  count-parsed n d.pending s.pending,
  count-parsed n d.paused s.paused,
  count-running n d.running s.running,
  count-parsed n d.history s.history,
)

pub write_queue-IsSound : {d : QueueData} → IsSound d → IsSound (write_queue d)
unfolding write_queue
write_queue-IsSound {d} s = record {
  stored = record {
    pending = AllStored-parsed d.pending s.stored.pending;
    paused = AllStored-parsed d.paused s.stored.paused;
    running = OptionStored-running d.running s.stored.running;
    history = AllStored-parsed d.history s.stored.history;
  };
  unique = λ n. omega (arith, tasks_with_id-write_queue n d s.stored, s.unique n);
  fresh = λ n h. omega (arith, tasks_with_id-write_queue n d s.stored, s.fresh n (omega arith));
}

ok-injective : {a b : QueueData} → ok a ≡ ok b → a ≡ b
ok-injective h = cc

parse_present-reparse :
    (raw : Option TaskJob) {o : Option TaskJob}
    → parse_present reparse raw ≡ some o
    → OptionStored o × ((n : ℕ) → count_option n o ≡ count_option n raw)
parse_present-reparse none h = rw (← some-injective h) (tt, λ n. refl)
parse_present-reparse (some x) {o} h = elim (Option-cases (reparse x)) [
  | inl e ↦ absurd (ground (arith, e))
  | inr (j, e) ↦
      let same : o ≡ some j = ground (arith, e) in
      rw same (reparse_stable x j e, λ n. one-reparse n x j (id-reparse x j e))
]

-- Reading succeeds only on tasks that can be read back, and keeps their ids.
unless-eq-ok :
    (o : Option Error) (r : Result QueueData) {d : QueueData} → unless o r ≡ ok d → r ≡ ok d
unless-eq-ok none r h = h
unless-eq-ok (some e) r h = absurd (cc)

load_data-eq-ok :
    (splits : String → Bool) (raw : QueueData) {d : QueueData}
    → load_data splits raw ≡ ok d
    → IsStoredData d
      × ((n : ℕ) → tasks_with_id n d ≡ tasks_with_id n raw)
      × (raw.next_id ≤ d.next_id)
unfolding load_data
load_data-eq-ok splits raw {d} h =
    go (traverse reparse raw.pending) (traverse reparse raw.paused) (traverse reparse raw.history)
      (parse_present reparse raw.running) (parse_present reparse_reconciliation raw.reconciliation)
      refl refl refl refl (unless-eq-ok (first_problem splits (stored_jobs raw)) _ h)
  where
    go :
        (p q r : Option (List TaskJob)) (o : Option (Option TaskJob))
        (c : Option (Option TaskReconciliationResult))
        → traverse reparse raw.pending ≡ p
        → traverse reparse raw.paused ≡ q
        → traverse reparse raw.history ≡ r
        → parse_present reparse raw.running ≡ o
        → loaded raw.next_id p q r o c ≡ ok d
        → IsStoredData d
          × ((n : ℕ) → tasks_with_id n d ≡ tasks_with_id n raw)
          × (raw.next_id ≤ d.next_id)
    go (some p) (some q) (some r) (some o) (some c) ep eq er eo e =
        let (sp, cp) = traverse-reparse raw.pending ep in
        let (sq, cq) = traverse-reparse raw.paused eq in
        let (sr, cr) = traverse-reparse raw.history er in
        let (so, co) = parse_present-reparse raw.running eo in
        rw (← ok-injective e) (
          record { pending = sp; paused = sq; running = so; history = sr },
          λ n. omega (arith, cp n, cq n, cr n, co n),
          omega arith,
        )
    go none _ _ _ _ ep eq er eo e = absurd (cc)
    go (some p) none _ _ _ ep eq er eo e = absurd (cc)
    go (some p) (some q) none _ _ ep eq er eo e = absurd (cc)
    go (some p) (some q) (some r) none _ ep eq er eo e = absurd (cc)
    go (some p) (some q) (some r) (some o) none ep eq er eo e = absurd (cc)

pub load_data-IsSound :
    (splits : String → Bool) (raw : QueueData) {d : QueueData}
    → IsSound raw
    → load_data splits raw ≡ ok d
    → IsSound d
load_data-IsSound splits raw {d} s h =
    let (stored, same, next) = load_data-eq-ok splits raw h in
    record {
      stored = stored;
      unique = λ n. omega (arith, same n, s.unique n);
      fresh = λ n k. omega (arith, same n, s.fresh n (omega arith));
    }

-- The file is absent or sound.
abbrev pub FileIsSound : Option QueueData → Type 0
FileIsSound none = Unit
FileIsSound (some d) = IsSound d

empty_queue-IsSound : IsSound empty_queue
unfolding count
empty_queue-IsSound = record {
  stored = record { pending = nil; paused = nil; running = tt; history = nil };
  unique = λ n. omega arith;
  fresh = λ n h. omega arith;
}

load_queue-IsSound :
    (w : World) {d : QueueData} → FileIsSound w.file → load_queue w ≡ ok d → IsSound d
unfolding load_queue
load_queue-IsSound w {d} s h = go w.file s h
  where
    go :
        (f : Option QueueData)
        → FileIsSound f
        → (elim f [ none ↦ load_data w.splits empty_queue | some raw ↦ load_data w.splits raw ])
          ≡ ok d
        → IsSound d
    go none s h = load_data-IsSound w.splits empty_queue empty_queue-IsSound h
    go (some raw) s h = load_data-IsSound w.splits raw s h

-- A transaction whose body writes sound files keeps the file sound.
pub transaction-IsSound :
    {A : Type 0} (body : QueueData → Outcome A)
    → ((d : QueueData) → IsSound d → Writes (λ d'. IsSound (write_queue d')) (body d))
    → (w : World) → FileIsSound w.file
    → FileIsSound (transaction body w).1.file
unfolding transaction
transaction-IsSound {A} body keeps w s = go (load_queue w) (λ d e. load_queue-IsSound w s e)
  where
    end :
        (o : Outcome A)
        → Writes (λ d'. IsSound (write_queue d')) o
        → FileIsSound (finish w o).1.file
    end (raise e) h = s
    end (leave a) h = s
    end (commit d events a) (written h) = elim (Bool-cases (all_parse w.splits (stored_jobs d))) [
      | inl e ↦ rw e h
      | inr e ↦ rw e s
    ]

    go :
        (r : Result QueueData)
        → ((d : QueueData) → r ≡ ok d → IsSound d)
        → FileIsSound (run_body w body r).1.file
    go (err e) h = s
    go (ok d) h = end (body d) (keeps d (h d refl))
