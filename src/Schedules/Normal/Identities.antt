-- ===== src/Schedules/Normal/Identities.antt =====
-- src/enoch/extensions/schedules.py: what the identity of a schedule tells of its name.
use Prim.Native.Char.{Char}
use Prim.Native.String.{String, ◌++◌}
use Prim.Native.String.append
use enoch.Base.{Bool, true, some, ◌≡◌, refl, sym, subst, ◌∙◌, arith, inl, inr, Bool-cases}
use enoch.Base.Text.{strip, lower, all_chars}
use enoch.Base.Text.Laws.{lower-strip_idem}
use enoch.Payloads.Names.{name_char, lane_name}
use enoch.Schedules.Times.{extension_name, schedule_id}

-- An identity tells the names that it was made of.
abbrev plain : String → Bool
plain s = all_chars name_char s

cons-injective : (c d : Char) (s t : String) → String.◌∷◌ c s ≡ String.◌∷◌ d t → (c ≡ d) × (s ≡ t)
cons-injective c d s t h = (cc, cc)

append-left : (p s t : String) → p ++ s ≡ p ++ t → s ≡ t
append-left String.[] s t h = sym (append.nil s) ∙ h ∙ append.nil t
append-left (String.◌∷◌ c p) s t h =
    let (first, rest) =
      cons-injective c c (p ++ s) (p ++ t) (sym (append.cons c p s) ∙ h ∙ append.cons c p t) in
    append-left p s t rest

colon_not_plain : (c : Char) (s : String) → plain (String.◌∷◌ c s) ≡ true → ":" ≡ c → ⊥
colon_not_plain c s p h =
    let q : plain (String.◌∷◌ ":" s) ≡ true =
      subst (λ (v : Char). plain (String.◌∷◌ v s) ≡ true) (sym h) p in
    cc

append-colon :
    (e f n m : String)
    → plain e ≡ true
    → plain f ≡ true
    → e ++ (":" ++ n) ≡ f ++ (":" ++ m)
    → ":" ++ n ≡ ":" ++ m
append-colon String.[] String.[] n m p q h = append-left "" _ _ h
append-colon String.[] (String.◌∷◌ d f) n m p q h =
    let (first, rest) =
      cons-injective ":" d _ _
        (sym (append.cons ":" "" n) ∙ sym (append.nil _) ∙ h ∙ append.cons d f _) in
    absurd (colon_not_plain d f q first)
append-colon (String.◌∷◌ c e) String.[] n m p q h =
    let (first, rest) =
      cons-injective ":" c _ _
        (sym (append.cons ":" "" m) ∙ sym (append.nil _) ∙ sym h ∙ append.cons c e _) in
    absurd (colon_not_plain c e p first)
append-colon (String.◌∷◌ c e) (String.◌∷◌ d f) n m p q h =
    let (first, rest) = cons-injective c d _ _ (sym (append.cons c e _) ∙ h ∙ append.cons d f _) in
    append-colon e f n m (ground (arith, p)) (ground (arith, q)) rest

lane_plain : (e : String) → lane_name e ≡ true → plain e ≡ true
unfolding lane_name
lane_plain String.[] h = refl
lane_plain (String.◌∷◌ c s) h = ground (arith, h)

extension_plain : (e : String) → extension_name e ≡ some e → plain e ≡ true
unfolding extension_name
extension_plain e h = elim (Bool-cases (lane_name (lower (strip e)))) [
  | inl t ↦
      let same : lower (strip e) ≡ e = ground (arith, t, h) in
      lane_plain e (subst (λ v. lane_name v ≡ true) same t)
  | inr f ↦ absurd (ground (arith, f, h))
]

-- One identity, one name.
pub schedule_id-name :
    (e f n m : String)
    → extension_name e ≡ some e
    → extension_name f ≡ some f
    → schedule_id e n ≡ schedule_id f m
    → n ≡ m
unfolding schedule_id
schedule_id-name e f n m p q h = append-left ":" n m (
    append-colon e f n m (extension_plain e p) (extension_plain f q)
      (append-left "extension:" _ _ h))

pub extension_name_stable :
    (s : String) {e : String} → extension_name s ≡ some e → extension_name e ≡ some e
unfolding extension_name
extension_name_stable s {e} h = elim (Bool-cases (lane_name (lower (strip s)))) [
  | inl t ↦
      let same : lower (strip s) ≡ e = ground (arith, t, h) in
      rw (← same) (rw (lower-strip_idem s, t) refl)
  | inr f ↦ absurd (ground (arith, f, h))
]
