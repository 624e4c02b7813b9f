-- ===== src/Agent/SkillManager.antt =====
-- internal/agent/skill_manager.go: registration, and the choice of a skill for a task. The order of
-- the map is that of the `range` loop in one call of `Match`.
use kubeminds.Prelude.{Bool, false, ◌&&◌, ◌||◌, List, [], ◌∷◌, Option, none, some}
use kubeminds.Prelude.Tests.{if◌then◌else◌}
use kubeminds.Prelude.Lists.{any, all}
use kubeminds.Prelude.Bytes.{Str, lit, str_eq, is_empty}
use kubeminds.Prelude.Maps.{Map, lookup, insert, label, values}
use kubeminds.Prelude.Errors.{Fallible}
use kubeminds.Agent.SkillLoader.{Loaded, loaded, failed, Visit, load_skills}
use kubeminds.Crd.{AlertContext, DiagnosisTask}
use kubeminds.Agent.Skill.{TriggerRule, Skill, base_skill, oom_skill}

pub record SkillManager : Type 0 where
  pub skills : Map Skill

unfoldable pub register : Skill → SkillManager → SkillManager
register skill sm = record { skills = insert skill.name skill sm.skills }

unfoldable pub register_all : List Skill → SkillManager → SkillManager
unfolding register
register_all [] sm = sm
register_all (s ∷ ss) sm = register_all ss (register s sm)

-- The skills of a directory, once loaded.
unfoldable pub register_loaded : Loaded (Map Skill) → Loaded SkillManager
unfolding register_all
register_loaded (failed e) = failed e
register_loaded (loaded skills) = loaded (register_all (values skills) (record { skills = [] }))

-- `NewSkillManager`: what the walk over the directory visits, if the directory is there.
unfoldable pub new_skill_manager : Option (List (Fallible Visit)) → Loaded SkillManager
unfolding register register_loaded load_skills
new_skill_manager none = loaded (register oom_skill (register base_skill (record { skills = [] })))
new_skill_manager (some visits) = register_loaded (load_skills visits)

unfoldable pub get_skill_by_name : Str → SkillManager → Option Skill
unfolding lookup
get_skill_by_name name sm = lookup name sm.skills

unfoldable pub list_skills : SkillManager → List Skill
list_skills sm = values sm.skills

unfoldable pub matches_context : AlertContext → TriggerRule → Bool
unfolding label str_eq
matches_context context trigger =
    (is_empty trigger.alert_name || str_eq context.name trigger.alert_name)
    && all (λ e. str_eq (label e.0 context.labels) e.1) trigger.labels

unfoldable pub matches_trigger : Option AlertContext → TriggerRule → Bool
unfolding matches_context
matches_trigger none trigger = false
matches_trigger (some context) trigger = matches_context context trigger

-- Some trigger of the skill matches.
unfoldable pub triggers_on : Option AlertContext → Skill → Bool
unfolding matches_trigger
triggers_on context skill = any (matches_trigger context) skill.triggers

unfoldable pub first_match : Option AlertContext → List Skill → Option Skill
unfolding triggers_on
first_match context [] = none
first_match context (s ∷ ss) = if triggers_on context s then some s else first_match context ss

-- The hardcoded check for an OOM kill.
unfoldable pub is_oom : Option AlertContext → Bool
unfolding label str_eq lit
is_oom none = false
is_oom (some c) =
    str_eq (label (lit "reason") c.labels) (lit "OOMKilled")
    || str_eq (label (lit "alertname") c.labels) (lit "KubeContainerOOMKilled")

abbrev pub or_else : Option Skill → Skill → Skill
or_else none d = d
or_else (some s) d = s

unfoldable pub fallback_skill : Option AlertContext → SkillManager → Skill
unfolding get_skill_by_name is_oom lit
fallback_skill context sm =
    let base = or_else (get_skill_by_name (lit "base_skill") sm) base_skill in
    if is_oom context then or_else (get_skill_by_name (lit "oom_diagnosis") sm) base else base

unfoldable pub match_skill : DiagnosisTask → SkillManager → Skill
unfolding first_match fallback_skill
match_skill task sm =
    or_else (first_match task.spec.alert_context (values sm.skills))
      (fallback_skill task.spec.alert_context sm)
