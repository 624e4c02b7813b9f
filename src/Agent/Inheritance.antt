-- ===== src/Agent/Inheritance.antt =====
-- The inheritance of skills (internal/agent/skill_loader.go) against a relation that follows the
-- chain of parents, and the fuel of `resolve`.
use mathlib.Core.Path.{subst, subst₂}
use kubeminds.Prelude.{
  ℕ, zero, suc, ◌≡◌, ◌≢◌, refl, sym, ap, ◌∙◌, inl, inr, true, false, List, [], ◌∷◌, some, arith,
  Bool-cases, Option-cases,
}
use kubeminds.Prelude.Lists.{any, length}
use kubeminds.Prelude.Bytes.{Str, str_eq, str_eq_sound, is_empty}
use kubeminds.Prelude.Maps.{Map, lookup, insert, lookup-insert, lookup-insert_self}
use kubeminds.Prelude.Errors.{Fallible}
use kubeminds.Agent.Skill.{Skill, merge_with}
use kubeminds.Agent.SkillLoader.{
  LoadError, Loaded, loaded, failed, Resolved, inherit, and_rest, resolve, resolve_all, load_skills,
  read_all, Visit,
}

-- A skill after inheritance: a root is as it was read, and any other is merged into its parent.
pub data Resolves (raw : Map Skill) : Str → Skill → Type 0 where
  root :
      {name : Str} {r : Skill}
      → lookup name raw ≡ some r
      → is_empty r.parent ≡ true
      → Resolves raw name r
  child :
      {name : Str} {r p : Skill}
      → lookup name raw ≡ some r
      → is_empty r.parent ≡ false
      → Resolves raw r.parent p
      → Resolves raw name (merge_with p r)

module _ (raw : Map Skill) where
  -- All that a map holds is resolved.
  abbrev pub IsResolved : Map Skill → Type 0
  IsResolved skills = (name : Str) (s : Skill) → lookup name skills ≡ some s → Resolves raw name s

  abbrev Keeps : Map Skill → Map Skill → Type 0
  Keeps m n =
      (name : Str) (s : Skill) → lookup name m ≡ some s → (t : Skill) × (lookup name n ≡ some t)

  -- A successful result of `resolve`.
  abbrev Good : Str → Map Skill → Resolved → Type 0
  Good name before (failed e) = Unit {0}
  Good name before (loaded (s, skills)) =
      Resolves raw name s × IsResolved skills × (lookup name skills ≡ some s) × Keeps before skills

  insert-IsResolved :
      (name : Str) (s : Skill) (skills : Map Skill)
      → Resolves raw name s
      → IsResolved skills
      → IsResolved (insert name s skills)
  insert-IsResolved name s skills r h n t e = elim (Bool-cases (str_eq name n)) [
    | inl q ↦
        subst₂ (Resolves raw) (str_eq_sound name n q)
          (ground (arith, lookup-insert name n s skills)) r
    | inr q ↦ h n t (ground (arith, lookup-insert name n s skills))
  ]

  insert-Keeps :
      (name : Str) (s : Skill) (before skills : Map Skill)
      → Keeps before skills
      → Keeps before (insert name s skills)
  insert-Keeps name s before skills k n t e = elim (Bool-cases (str_eq name n)) [
    | inl q ↦ (s, ground (arith, lookup-insert name n s skills))
    | inr q ↦ let (u, h) = k n t e in (u, ground (arith, lookup-insert name n s skills))
  ]

  inherit-Good :
      (name : Str) (r : Skill) (before : Map Skill) (m : Resolved)
      → lookup name raw ≡ some r
      → is_empty r.parent ≡ false
      → Good r.parent before m
      → Good name before (inherit name r m)
  inherit-Good name r before (failed e) h q g = tt
  inherit-Good name r before (loaded (p, skills)) h q (rp, res, e, k) =
      let merged = child h q rp in
      (
        merged,
        insert-IsResolved name (merge_with p r) skills merged res,
        lookup-insert_self name (merge_with p r) skills,
        insert-Keeps name (merge_with p r) before skills k,
      )

  resolve-Good :
      (fuel : ℕ) (resolving : List Str) (skills : Map Skill) (name : Str)
      → IsResolved skills
      → Good name skills (resolve fuel raw resolving skills name)
  unfolding resolve
  resolve-Good zero resolving skills name h = tt
  resolve-Good (suc fuel) resolving skills name h = elim (Option-cases (lookup name skills)) [
    | inr (s, e) ↦ rw (e, resolve) (h name s e, h, e, λ n t q. (t, q))
    | inl e ↦
        rw (e, resolve)
          (elim (Option-cases (lookup name raw)) [
            | inl f ↦ rw (f, resolve) tt
            | inr (r, f) ↦
                rw (f, resolve)
                  (elim (Bool-cases (any (λ n. str_eq n name) resolving)) [
                    | inl c ↦ rw (c, resolve) tt
                    | inr c ↦
                        rw (c, resolve)
                          (elim (Bool-cases (is_empty r.parent)) [
                            | inl q ↦
                                rw (q, resolve)
                                  (
                                    root f q,
                                    insert-IsResolved name r skills (root f q) h,
                                    lookup-insert_self name r skills,
                                    insert-Keeps name r skills skills (λ n t p. (t, p)),
                                  )
                            | inr q ↦
                                rw (q, resolve)
                                  (inherit-Good name r skills _ f q
                                    (resolve-Good fuel (name ∷ resolving) skills r.parent h))
                          ])
                  ])
          ])
  ]

  -- A successful result of the second pass over the skills `todo`.
  abbrev AllGood : Map Skill → Map Skill → Loaded (Map Skill) → Type 0
  AllGood todo before (failed e) = Unit {0}
  AllGood todo before (loaded skills) = IsResolved skills × Keeps before skills × Keeps todo skills

  -- One name, and then the others.
  step-AllGood :
      (name : Str) (r : Skill) (rest before : Map Skill) (m : Resolved)
      (f : Map Skill → Loaded (Map Skill))
      → Good name before m
      → ((skills : Map Skill) → IsResolved skills → AllGood rest skills (f skills))
      → AllGood ((name, r) ∷ rest) before (and_rest f m)
  unfolding lookup
  step-AllGood name r rest before (failed e) f g h = tt
  step-AllGood name r rest before (loaded (s, skills)) f (_, res, e, k) h =
      finish (f skills) (h skills res)
    where
      finish :
          (m : Loaded (Map Skill)) → AllGood rest skills m → AllGood ((name, r) ∷ rest) before m
      finish (failed e) g = tt
      finish (loaded final) (all, kept, done) = (
        all,
        λ n t p. let (u, q) = k n t p in kept n u q,
        λ n t p. elim (Bool-cases (str_eq name n)) [
          | inl q ↦
              let (u, z) = kept name s e in
              (u, ap (λ l. lookup l final) (sym (str_eq_sound name n q)) ∙ z)
          | inr q ↦ done n t (ground arith)
        ],
      )

  resolve_all-AllGood :
      (fuel : ℕ) (todo skills : Map Skill)
      → IsResolved skills
      → AllGood todo skills (resolve_all fuel raw todo skills)
  unfolding resolve_all lookup
  resolve_all-AllGood fuel [] skills h = (h, λ n t p. (t, p), λ n t p. cc)
  resolve_all-AllGood fuel ((name, r) ∷ rest) skills h =
      step-AllGood name r rest skills _ _ (resolve-Good fuel [] skills name h)
        (λ skills' g. resolve_all-AllGood fuel rest skills' g)

failed_ne_loaded : {A : Type 0} {x : LoadError} {a : A} → failed x ≢ loaded a
failed_ne_loaded e = cc

-- What a loaded map owes to the files.
pub record Inherits (visits : List (Fallible Visit)) (m : Map Skill) : Type 0 where
  pub raw : Map Skill
  pub read : read_all visits [] ≡ loaded raw
  pub resolved : (name : Str) (s : Skill) → lookup name m ≡ some s → Resolves raw name s
  pub covered :
      (name : Str) (r : Skill) → lookup name raw ≡ some r → (s : Skill) × (lookup name m ≡ some s)

-- When the loading of a directory succeeds, each loaded skill is the raw skill of its name merged
-- into its chain of parents, and every raw skill of the directory has one.
pub load_skills-Inherits :
    (visits : List (Fallible Visit)) (m : Map Skill)
    → load_skills visits ≡ loaded m
    → Inherits visits m
unfolding load_skills lookup
load_skills-Inherits visits m e = go (read_all visits []) refl
  where
    go : (first : Loaded (Map Skill)) → read_all visits [] ≡ first → Inherits visits m
    go (failed x) q = absurd (failed_ne_loaded (rw (q, load_skills) at e))
    go (loaded raw) q =
        let h : resolve_all (suc (length raw)) raw raw [] ≡ loaded m = rw (q, load_skills) at e in
        let g : AllGood raw raw [] (loaded m) =
          subst (AllGood raw raw []) h
            (resolve_all-AllGood raw (suc (length raw)) raw [] (λ n s p. cc)) in
        record { raw = raw; read = q; resolved = g.0; covered = g.2 }
