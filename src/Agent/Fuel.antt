-- ===== src/Agent/Fuel.antt =====
-- The fuel of `resolve` (internal/agent/skill_loader.go): a chain of parents visits each raw skill
-- at most once, so one more than their number is enough.
use kubeminds.Prelude.{
  ℕ, zero, suc, ◌≤◌, ◌<◌, ◌≡◌, sym, ap, inl, inr, Bool, true, false, not, List, [], ◌∷◌, Option,
  none, some, arith, Bool-cases, Option-cases,
}
use kubeminds.Prelude.Tests.{if◌then◌else◌}
use kubeminds.Prelude.Lists.{any, length}
use kubeminds.Prelude.Bytes.{Str, str_eq, str_eq_sound, str_eq_iff, is_empty}
use kubeminds.Prelude.Maps.{Map, lookup, insert}
use kubeminds.Prelude.Errors.{Fallible, ok, err}
use kubeminds.Agent.Skill.{Skill}
use kubeminds.Agent.SkillLoader.{
  LoadError, walk_failed, open_failed, parse_failed, missing_name, not_found, circular,
  parent_failed, no_fuel, Loaded, loaded, failed, Resolved, inherit, and_rest, resolve, resolve_all,
  Visit, and_then, read_documents, read_opened, read_file, read_all, load_skills, is_yaml,
}

abbrev holds : Str → List Str → Bool
holds name = any (λ n. str_eq n name)

-- How many raw skills are not being resolved.
remaining : List Str → Map Skill → ℕ
remaining resolving [] = 0
remaining resolving ((k, _) ∷ m) =
    let rest = remaining resolving m in if holds k resolving then rest else suc rest

remaining-le :
    (name : Str) (rs : List Str) (m : Map Skill) → remaining (name ∷ rs) m ≤ remaining rs m
unfolding remaining
remaining-le name rs [] = omega arith
remaining-le name rs ((k, r) ∷ m) = ground (arith, remaining-le name rs m)

remaining-lt :
    (name : Str) (rs : List Str) (m : Map Skill) (r : Skill)
    → lookup name m ≡ some r
    → holds name rs ≡ false
    → remaining (name ∷ rs) m < remaining rs m
unfolding remaining lookup
remaining-lt name rs [] r e h = absurd (none_ne_some e)
  where
    none_ne_some : ◌≡◌ {A = Option Skill} none (some r) → ⊥
    none_ne_some q = cc
remaining-lt name rs ((k, v) ∷ m) r e h = elim (Bool-cases (str_eq k name)) [
  | inl q ↦
      let same = str_eq_sound k name q in
      ground
        (arith, ap (λ x. holds x rs) same, (str_eq_iff name k).1 (sym same), remaining-le name rs m)
  | inr q ↦ ground (arith, remaining-lt name rs m r)
]

remaining-length : (rs : List Str) (m : Map Skill) → remaining rs m ≤ length m
unfolding remaining
remaining-length rs [] = omega arith
remaining-length rs ((k, _) ∷ m) = ground (arith, remaining-length rs m)

-- An error of the source.
abbrev pub IsReal : LoadError → Type 0
IsReal no_fuel = ⊥
IsReal (parent_failed _ e) = IsReal e
IsReal (walk_failed _) = Unit
IsReal (open_failed _ _) = Unit
IsReal (parse_failed _ _) = Unit
IsReal (missing_name _) = Unit
IsReal (not_found _) = Unit
IsReal (circular _) = Unit

abbrev pub EndsWell : {A : Type 0} → Loaded A → Type 0
EndsWell (failed e) = IsReal e
EndsWell (loaded _) = Unit

inherit-EndsWell :
    (name : Str) (r : Skill) (m : Resolved) → EndsWell m → EndsWell (inherit name r m)
inherit-EndsWell name r (failed e) h = h
inherit-EndsWell name r (loaded (p, skills)) h = tt

resolve-EndsWell :
    (fuel : ℕ) (raw : Map Skill) (rs : List Str) (skills : Map Skill) (name : Str)
    → remaining rs raw < fuel
    → EndsWell (resolve fuel raw rs skills name)
unfolding resolve
resolve-EndsWell zero raw rs skills name h = absurd (omega arith)
resolve-EndsWell (suc fuel) raw rs skills name h = elim (Option-cases (lookup name skills)) [
  | inr (s, e) ↦ rw (e, resolve) tt
  | inl e ↦
      rw (e, resolve)
        (elim (Option-cases (lookup name raw)) [
          | inl f ↦ rw (f, resolve) tt
          | inr (r, f) ↦
              rw (f, resolve)
                (elim (Bool-cases (holds name rs)) [
                  | inl c ↦ rw (c, resolve) tt
                  | inr c ↦
                      rw (c, resolve)
                        (elim (Bool-cases (is_empty r.parent)) [
                          | inl q ↦ rw (q, resolve) tt
                          | inr q ↦
                              rw (q, resolve)
                                (inherit-EndsWell name r
                                  (resolve fuel raw (name ∷ rs) skills r.parent)
                                  (resolve-EndsWell fuel raw (name ∷ rs) skills r.parent
                                    (omega (arith, remaining-lt name rs raw r f c))))
                        ])
                ])
        ])
]

and_rest-EndsWell :
    (f : Map Skill → Loaded (Map Skill)) (m : Resolved)
    → EndsWell m
    → ((skills : Map Skill) → EndsWell (f skills))
    → EndsWell (and_rest f m)
and_rest-EndsWell f (failed e) h g = h
and_rest-EndsWell f (loaded (s, skills)) h g = g skills

resolve_all-EndsWell :
    (fuel : ℕ) (raw todo skills : Map Skill)
    → length raw < fuel
    → EndsWell (resolve_all fuel raw todo skills)
unfolding resolve_all
resolve_all-EndsWell fuel raw [] skills h = tt
resolve_all-EndsWell fuel raw ((name, r) ∷ rest) skills h =
    and_rest-EndsWell _ (resolve fuel raw [] skills name)
      (resolve-EndsWell fuel raw [] skills name (omega (arith, remaining-length [] raw)))
      (λ skills'. resolve_all-EndsWell fuel raw rest skills' h)

read_documents-EndsWell :
    (path : Str) (ds : List (Fallible Skill)) (raw : Map Skill)
    → EndsWell (read_documents path ds raw)
unfolding read_documents
read_documents-EndsWell path [] raw = tt
read_documents-EndsWell path (err e ∷ ds) raw = tt
read_documents-EndsWell path (ok s ∷ ds) raw = elim (Bool-cases (is_empty s.name)) [
  | inl q ↦ rw q tt
  | inr q ↦ rw q (read_documents-EndsWell path ds (insert s.name s raw))
]

read_opened-EndsWell :
    (path : Str) (o : Fallible (List (Fallible Skill))) (raw : Map Skill)
    → EndsWell (read_opened path o raw)
unfolding read_opened
read_opened-EndsWell path (err e) raw = tt
read_opened-EndsWell path (ok docs) raw = read_documents-EndsWell path docs raw

read_file-EndsWell : (v : Visit) (raw : Map Skill) → EndsWell (read_file v raw)
unfolding read_file
read_file-EndsWell v raw = if-EndsWell v.is_dir (loaded raw) _ tt (
    if-EndsWell (not (is_yaml v.path)) (loaded raw) _ tt (read_opened-EndsWell v.path v.opened raw))
  where
    if-EndsWell :
        (b : Bool) (m n : Loaded (Map Skill))
        → EndsWell m
        → EndsWell n
        → EndsWell (if b then m else n)
    if-EndsWell true m n h k = h
    if-EndsWell false m n h k = k

and_then-EndsWell :
    {A B : Type 0} (m : Loaded A) (f : A → Loaded B)
    → EndsWell m
    → ((a : A) → EndsWell (f a))
    → EndsWell (and_then m f)
and_then-EndsWell (failed e) f h g = h
and_then-EndsWell (loaded a) f h g = g a

read_all-EndsWell : (vs : List (Fallible Visit)) (raw : Map Skill) → EndsWell (read_all vs raw)
unfolding read_all
read_all-EndsWell [] raw = tt
read_all-EndsWell (err e ∷ vs) raw = tt
read_all-EndsWell (ok v ∷ vs) raw =
    and_then-EndsWell (read_file v raw) _ (read_file-EndsWell v raw)
      (λ raw'. read_all-EndsWell vs raw')

-- Loading never runs out of fuel: it returns a map, or one of the errors of the source.
pub load_skills-EndsWell : (visits : List (Fallible Visit)) → EndsWell (load_skills visits)
unfolding load_skills
load_skills-EndsWell visits =
    and_then-EndsWell (read_all visits []) _ (read_all-EndsWell visits [])
      (λ raw. resolve_all-EndsWell (suc (length raw)) raw raw [] (omega arith))
