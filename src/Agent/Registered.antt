-- ===== src/Agent/Registered.antt =====
-- What a manager (internal/agent/skill_manager.go) finds under a name.
use mathlib.Core.Path.{subst}
use kubeminds.Prelude.{
  ◌≡◌, refl, ap, ◌∙◌, Bool, true, false, if◌then◌else◌, ◌++◌, List, [], ◌∷◌, Option, none, some,
}
use kubeminds.Prelude.Bytes.{Str, str_eq}
use kubeminds.Prelude.Maps.{Map, values, lookup, lookup-insert}
use kubeminds.Prelude.Errors.{Fallible}
use kubeminds.Agent.Skill.{Skill, base_skill, oom_skill}
use kubeminds.Agent.SkillLoader.{Loaded, loaded, failed, Visit, load_skills}
use kubeminds.Agent.SkillManager.{
  SkillManager, register, register_all, register_loaded, new_skill_manager, get_skill_by_name,
}

abbrev pub first_of : Option Skill → Option Skill → Option Skill
first_of none o = o
first_of (some s) o = some s

-- The last of the skills with a name.
abbrev pub last_named : Str → List Skill → Option Skill
last_named j [] = none
last_named j (s ∷ ss) = first_of (last_named j ss) (if str_eq s.name j then some s else none)

-- The skills that a new manager is made of.
pub data Begins : Option (List (Fallible Visit)) → List Skill → Type 0 where
  built_in : Begins none (base_skill ∷ oom_skill ∷ [])
  from_directory :
      {visits : List (Fallible Visit)} (skills : Map Skill)
      → load_skills visits ≡ loaded skills
      → Begins (some visits) (values skills)

register_all-get :
    (ss : List Skill) (sm : SkillManager) (j : Str)
    → get_skill_by_name j (register_all ss sm) ≡ first_of (last_named j ss) (get_skill_by_name j sm)
unfolding get_skill_by_name register_all register
register_all-get [] sm j = refl
register_all-get (s ∷ ss) sm j =
    register_all-get ss (register s sm) j
    ∙ ap (first_of (last_named j ss)) (lookup-insert s.name j s sm.skills)
    ∙ here (last_named j ss) (str_eq s.name j) (lookup j sm.skills)
  where
    here :
        (o : Option Skill) (b : Bool) (p : Option Skill)
        → first_of o (if b then some s else p)
          ≡ first_of (first_of o (if b then some s else none)) p
    here none true p = refl
    here none false p = refl
    here (some t) b p = refl

register_all-append :
    (first more : List Skill) (sm : SkillManager)
    → register_all more (register_all first sm) ≡ register_all (first ++ more) sm
unfolding register_all
register_all-append [] more sm = refl
register_all-append (s ∷ first) more sm = register_all-append first more (register s sm)

-- A new manager has registered what it is made of.
abbrev Made : Option (List (Fallible Visit)) → Loaded SkillManager → Type 0
Made o (failed e) = Unit
Made o (loaded sm) =
    (first : List Skill) × Begins o first × (sm ≡ register_all first (record { skills = [] }))

new_skill_manager-Made : (o : Option (List (Fallible Visit))) → Made o (new_skill_manager o)
unfolding new_skill_manager register_all
new_skill_manager-Made none = (base_skill ∷ oom_skill ∷ [], built_in, refl)
new_skill_manager-Made (some visits) = go (load_skills visits) refl
  where
    go : (m : Loaded (Map Skill)) → load_skills visits ≡ m → Made (some visits) (register_loaded m)
    go (failed e) h = tt
    go (loaded skills) h = (values skills, from_directory skills h, refl)

or-none : (o : Option Skill) → first_of o none ≡ o
or-none none = refl
or-none (some s) = refl

-- A new manager, made of a directory or of the two built-in skills, and after any further
-- registrations, finds under a name exactly the last skill of that name among those it is made of,
-- in the order of the map, and those registered since, and none if there is none.
pub get_skill_by_name_lem :
    (o : Option (List (Fallible Visit))) (sm : SkillManager) (more : List Skill) (j : Str)
    → new_skill_manager o ≡ loaded sm
    → (first : List Skill) × Begins o first
      × (get_skill_by_name j (register_all more sm) ≡ last_named j (first ++ more))
unfolding get_skill_by_name
get_skill_by_name_lem o sm more j e =
    let (first, begins, made) = subst (Made o) e (new_skill_manager-Made o) in
    (
      first,
      begins,
      ap (λ m. get_skill_by_name j (register_all more m)) made
          ∙ ap (get_skill_by_name j) (register_all-append first more _)
          ∙ register_all-get (first ++ more) _ j
          ∙ or-none (last_named j (first ++ more)),
    )
