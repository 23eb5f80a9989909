-- ===== src/Schedules/Normal/Gathered.antt =====
-- src/enoch/extensions/schedules.py: the declarations that reconciliation gathers.
use enoch.Base.{
  true, String, some, List, [], ◌∷◌, ◌++◌, map, any, ◌≡◌, refl, ap, subst, ◌∙◌, arith, inl, inr,
  Bool-cases, Option-cases, some-injective, ◌==◌,
}
use enoch.Base.Text.{one_of}
use enoch.Schedules.Types.{ExtensionScheduleSpec}
use enoch.Schedules.Times.{Env, extension_name, schedule_id, distinct_texts, snoc}
use enoch.Schedules.Reconcile.{Declarations, Desired, gather, gather_specs}
use enoch.Schedules.Normal.History.{distinct-snoc, same-sym}
use enoch.Schedules.Normal.Declared.{IsSpec}
use enoch.Schedules.Normal.Identities.{extension_name_stable}

-- A declaration as it is gathered.
pub record IsDesired (env : Env) (d : Desired) : Type 0 where
  pub spec : IsSpec env d.spec
  pub extension : extension_name d.extension ≡ some d.extension
  pub id : d.id ≡ schedule_id d.extension d.spec.name

abbrev pub AllDesired : Env → List Desired → Type 0
AllDesired env [] = Unit
AllDesired env (d ∷ ds) = IsDesired env d × AllDesired env ds

-- The identities that are declared.
abbrev pub declared_ids : List Desired → List String
declared_ids ds = map (λ d. d.id) ds

pub record IsGathered (env : Env) (ds : List Desired) : Type 0 where
  pub all : AllDesired env ds
  pub distinct : distinct_texts (declared_ids ds) ≡ true

declared_ids-append :
    (ds : List Desired) (d : Desired) → declared_ids (ds ++ d ∷ []) ≡ snoc (declared_ids ds) d.id
declared_ids-append [] d = refl
declared_ids-append (x ∷ xs) d = ap (λ (l : List String). x.id ∷ l) (declared_ids-append xs d)

append-AllDesired :
    {env : Env} (ds : List Desired) (d : Desired)
    → AllDesired env ds
    → IsDesired env d
    → AllDesired env (ds ++ d ∷ [])
append-AllDesired [] d tt h = (h, tt)
append-AllDesired (x ∷ xs) d (k, a) h = (k, append-AllDesired xs d a h)

pub one_of-declared :
    (k : String) (ds : List Desired) → one_of k (declared_ids ds) ≡ any (λ d. d.id == k) ds
one_of-declared k [] = refl
one_of-declared k (d ∷ ds) = rw (one_of-declared k ds, same-sym k d.id) refl

-- Specs that were built.
abbrev pub AllSpecs : Env → List ExtensionScheduleSpec → Type 0
AllSpecs env [] = Unit
AllSpecs env (s ∷ ss) = IsSpec env s × AllSpecs env ss

abbrev pub AllDeclared : Env → Declarations → Type 0
AllDeclared env [] = Unit
AllDeclared env ((name, specs) ∷ ds) = AllSpecs env specs × AllDeclared env ds

gather_specs-IsGathered :
    (env : Env) (extension : String) (specs : List ExtensionScheduleSpec) (acc : List Desired)
    {ds : List Desired}
    → extension_name extension ≡ some extension
    → AllSpecs env specs
    → IsGathered env acc
    → gather_specs extension specs acc ≡ some ds
    → IsGathered env ds
unfolding gather_specs
gather_specs-IsGathered env extension [] acc e a g h =
    subst (λ l. IsGathered env l) (some-injective h) g
gather_specs-IsGathered env extension (spec ∷ specs) acc e (s, a) g h =
    let id = schedule_id extension spec.name in
    let d : Desired = record { id = id; extension = extension; spec = spec } in
    elim (Bool-cases (any (λ d. d.id == id) acc)) [
      | inl t ↦ absurd (ground (arith, t, h))
      | inr f ↦
          gather_specs-IsGathered env extension specs (acc ++ d ∷ []) e a
            (record {
              all = append-AllDesired acc d g.all (record { spec = s; extension = e; id = refl });
              distinct =
                  rw (declared_ids-append acc d)
                    (distinct-snoc (declared_ids acc) id g.distinct (one_of-declared id acc ∙ f));
            })
            (rw f at h)
    ]

pub gather-IsGathered :
    (env : Env) (declarations : Declarations) (acc : List Desired) {ds : List Desired}
    → AllDeclared env declarations
    → IsGathered env acc
    → gather declarations acc ≡ some ds
    → IsGathered env ds
unfolding gather
gather-IsGathered env [] acc a g h = subst (λ l. IsGathered env l) (some-injective h) g
gather-IsGathered env ((name, specs) ∷ rest) acc (s, a) g h =
    elim (Option-cases (extension_name name)) [
      | inl e ↦ absurd (ground (arith, e, h))
      | inr (extension, e) ↦ elim (Option-cases (gather_specs extension specs acc)) [
        | inl f ↦ absurd (ground (arith, e, f, h))
        | inr (acc', f) ↦
            gather-IsGathered env rest acc' a
              (gather_specs-IsGathered env extension specs acc (extension_name_stable name e) s g f)
              (rw (e, gather, f) at h)
      ]
    ]
