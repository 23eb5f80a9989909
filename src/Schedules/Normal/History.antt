-- ===== src/Schedules/Normal/History.antt =====
-- src/enoch/extensions/schedules.py: the history of run-now keys.
use enoch.Base.{
  ℕ, suc, ◌≤◌, String, true, false, not, ◌||◌, some, List, [], ◌∷◌, ◌≡◌, refl, sym, ap, ◌∙◌, arith,
  inl, inr, traverse, length, any, ltb, ◌==◌, eq_iff, Bool-cases, Option-cases, some-injective,
}
use enoch.Base.Text.{truthy, one_of, strip}
use enoch.Base.Text.Laws.{strip-strip}
use enoch.Schedules.Times.{
  run_now_key, run_now_history, distinct_texts, last, snoc, append_run_now_key,
}

-- Keys that are read as they are, and are not blank.
abbrev pub AllKeys : List String → Type 0
AllKeys [] = Unit
AllKeys (k ∷ ks) = (run_now_key k ≡ some k) × (truthy k ≡ true) × AllKeys ks

pub record IsHistory (ks : List String) : Type 0 where
  pub keys : AllKeys ks
  pub short : length ks ≤ 64
  pub distinct : distinct_texts ks ≡ true

AllKeys-traverse : (ks : List String) → AllKeys ks → traverse run_now_key ks ≡ some ks
AllKeys-traverse [] h = refl
AllKeys-traverse (k ∷ ks) (a, b, h) = rw (a, AllKeys-traverse ks h) refl

AllKeys-any : (ks : List String) → AllKeys ks → any (λ key. not (truthy key)) ks ≡ false
AllKeys-any [] h = refl
AllKeys-any (k ∷ ks) (a, b, h) = rw (b, AllKeys-any ks h) refl

pub IsHistory-read : (ks : List String) → IsHistory ks → run_now_history ks ≡ some ks
unfolding run_now_history
IsHistory-read ks h =
    let short = h.short in
    let b : ltb 64 (length ks) ≡ false = ground (arith, short) in
    rw (AllKeys-traverse ks h.keys, AllKeys-any ks h.keys, b, h.distinct) refl

traverse-AllKeys :
    (ks : List String)
    → traverse run_now_key ks ≡ some ks
    → any (λ key. not (truthy key)) ks ≡ false
    → AllKeys ks
traverse-AllKeys [] h b = tt
traverse-AllKeys (k ∷ ks) h b = elim (Option-cases (run_now_key k)) [
  | inl e ↦ absurd (ground (arith, e, h))
  | inr (k', e) ↦ elim (Option-cases (traverse run_now_key ks)) [
    | inl f ↦ absurd (ground (arith, e, f, h))
    | inr (ks', f) ↦
        let same : k' ∷ ks' ≡ k ∷ ks = some-injective (rw (e, f) at h) in
        let first : k' ≡ k = cc in
        let others : ks' ≡ ks = cc in
        (
          e ∙ ap some first,
          ground (arith, b),
          traverse-AllKeys ks (f ∙ ap some others) (ground (arith, b)),
        )
  ]
]

pub read-IsHistory : (ks : List String) → run_now_history ks ≡ some ks → IsHistory ks
unfolding run_now_history
read-IsHistory ks h = elim (Option-cases (traverse run_now_key ks)) [
  | inl e ↦ absurd (ground (arith, e, h))
  | inr (ks', e) ↦
      let same : ks' ≡ ks = ground (arith, e, h) in
      let whole = e ∙ ap some same in
      record {
        keys = traverse-AllKeys ks whole (ground (arith, whole, h));
        short = ground (arith, whole, h);
        distinct = ground (arith, whole, h);
      }
]

AllKeys-snoc :
    (ks : List String) {k : String}
    → AllKeys ks
    → run_now_key k ≡ some k
    → truthy k ≡ true
    → AllKeys (snoc ks k)
AllKeys-snoc [] h a b = (a, b, tt)
AllKeys-snoc (x ∷ xs) (c, d, h) a b = (c, d, AllKeys-snoc xs h a b)

one_of-snoc :
    (x : String) (ks : List String) (k : String) → one_of x (snoc ks k) ≡ (one_of x ks || x == k)
one_of-snoc x [] k = ground arith
one_of-snoc x (y ∷ ks) k = rw (one_of-snoc x ks k) (ground arith)

pub same-sym : (s t : String) → (s == t) ≡ (t == s)
same-sym s t = elim (Bool-cases (s == t)) [
  | inl e ↦ e ∙ sym ((eq_iff t s).1 (sym ((eq_iff s t).0 e)))
  | inr e ↦ elim (Bool-cases (t == s)) [
    | inl f ↦ absurd (cc ((eq_iff s t).1 (sym ((eq_iff t s).0 f)), e))
    | inr f ↦ e ∙ sym f
  ]
]

pub distinct-snoc :
    (ks : List String) (k : String)
    → distinct_texts ks ≡ true
    → one_of k ks ≡ false
    → distinct_texts (snoc ks k) ≡ true
unfolding distinct_texts
distinct-snoc [] k d n = refl
distinct-snoc (x ∷ xs) k d n =
    rw (one_of-snoc x xs k, same-sym x k)
      (let rest = distinct-snoc xs k (ground (arith, d)) (ground (arith, n)) in
        rw rest (ground (arith, d, n)))

length-last : (n : ℕ) (ks : List String) → length (last n ks) ≤ n
unfolding last
length-last n [] = omega arith
length-last n (x ∷ xs) = elim (Bool-cases (ltb n (suc (length xs)))) [
  | inl e ↦ rw e (length-last n xs)
  | inr e ↦ rw e (ground (arith, e))
]

AllKeys-last : (n : ℕ) (ks : List String) → AllKeys ks → AllKeys (last n ks)
unfolding last
AllKeys-last n [] h = tt
AllKeys-last n (x ∷ xs) (a, b, h) = elim (Bool-cases (ltb n (suc (length xs)))) [
  | inl e ↦ rw e (AllKeys-last n xs h)
  | inr e ↦ rw e (a, b, h)
]

distinct-last :
    (n : ℕ) (ks : List String) → distinct_texts ks ≡ true → distinct_texts (last n ks) ≡ true
unfolding last distinct_texts
distinct-last n [] h = refl
distinct-last n (x ∷ xs) h = elim (Bool-cases (ltb n (suc (length xs)))) [
  | inl e ↦ rw e (distinct-last n xs (ground (arith, h)))
  | inr e ↦ rw e h
]

pub append_run_now_key-IsHistory :
    (ks : List String) (k : String)
    → IsHistory ks
    → run_now_key k ≡ some k
    → IsHistory (append_run_now_key ks k)
unfolding append_run_now_key
append_run_now_key-IsHistory ks k h a = elim (Bool-cases (not (truthy k) || one_of k ks)) [
  | inl e ↦ rw e h
  | inr e ↦
      let named : truthy k ≡ true = ground (arith, e) in
      let new : one_of k ks ≡ false = ground (arith, e) in
      rw e (record {
        keys = AllKeys-last 64 (snoc ks k) (AllKeys-snoc ks h.keys a named);
        short = length-last 64 (snoc ks k);
        distinct = distinct-last 64 (snoc ks k) (distinct-snoc ks k h.distinct new);
      })
]

-- A key that was accepted is accepted again.
pub run_now_key_stable : (s : String) {k : String} → run_now_key s ≡ some k → run_now_key k ≡ some k
unfolding run_now_key
run_now_key_stable s {k} h =
    let same : strip s ≡ k = ground (arith, h) in
    rw (← same) (rw (strip-strip s) (h ∙ ap some (sym same)))
