-- ===== src/Agent/Matching.antt =====
-- What `Match` of internal/agent/skill_manager.go chooses, and where its choice is open.
use mathlib.Core.List.{Memᴰ}
use mathlib.Core.List.Memᴰ
use mathlib.Core.Path.{subst}
use kubeminds.Agent.Fallbacks.{Fallback, fallback_skill-Fallback}
use kubeminds.Prelude.{
  sym, ap, ◌∙◌, ◌≡◌, ◌↔◌, refl, ◌⊎◌, inl, inr, true, false, ◌||◌, List, [], ◌∷◌, Option, none, some,
  arith, Bool-cases, &&-eq_true,
}
use mathlib.Core.Bool.{true≢false}
use kubeminds.Prelude.Lists.{any, All, all}
use kubeminds.Prelude.Bytes.{Str, str_eq, str_eq_iff, is_empty}
use kubeminds.Prelude.Maps.{label, values}
use kubeminds.Crd.{AlertContext, DiagnosisTask}
use kubeminds.Agent.Skill.{Skill, TriggerRule}
use kubeminds.Agent.SkillManager.{
  SkillManager, or_else, matches_context, matches_trigger, triggers_on, first_match, fallback_skill,
  match_skill,
}

-- The reading of a trigger: the alert has its name, if it states one, and each of its labels.
abbrev pub Fits : AlertContext → TriggerRule → Type 0
Fits c t =
    ((t.alert_name ≡ []) ⊎ (c.name ≡ t.alert_name)) × All (λ e. label e.0 c.labels ≡ e.1) t.labels

named_iff :
    (name alert : Str)
    → ((is_empty alert || str_eq name alert) ≡ true) ↔ ((alert ≡ []) ⊎ (name ≡ alert))
named_iff name [] = (λ _. inl refl, λ _. refl)
named_iff name (b ∷ bs) = (
  λ h. inr ((str_eq_iff name (b ∷ bs)).0 h),
  λ h. elim h [ inl e ↦ cc | inr e ↦ (str_eq_iff name (b ∷ bs)).1 e ],
)

labels_iff :
    (c : AlertContext) (ls : List (Str × Str))
    → (all (λ e. str_eq (label e.0 c.labels) e.1) ls ≡ true)
      ↔ All (λ e. label e.0 c.labels ≡ e.1) ls
labels_iff c [] = (λ _. tt, λ _. refl)
labels_iff c ((k, v) ∷ ls) = (
  λ h.
      let (p, q) = &&-eq_true (str_eq (label k c.labels) v) _ h in
      ((str_eq_iff (label k c.labels) v).0 p, (labels_iff c ls).0 q),
  λ h. ground (arith, (str_eq_iff (label k c.labels) v).1 h.0, (labels_iff c ls).1 h.1),
)

-- A trigger matches exactly the alerts that it describes; a task with no alert matches none.
pub matches_trigger_iff :
    (c : AlertContext) (t : TriggerRule)
    → ((matches_trigger (some c) t ≡ true) ↔ Fits c t) × (matches_trigger none t ≡ false)
unfolding matches_trigger matches_context
matches_trigger_iff c t = (
  (
    λ h.
        let (p, q) = &&-eq_true (is_empty t.alert_name || str_eq c.name t.alert_name) _ h in
        ((named_iff c.name t.alert_name).0 p, (labels_iff c t.labels).0 q),
    λ h. ground (arith, (named_iff c.name t.alert_name).1 h.0, (labels_iff c t.labels).1 h.1),
  ),
  refl,
)

-- One of the skill's triggers describes the alert of the task.
pub data Fires (context : Option AlertContext) (s : Skill) : Type 0 where
  fires :
      (c : AlertContext) (t : TriggerRule)
      → context ≡ some c
      → Memᴰ t s.triggers
      → Fits c t
      → Fires context s

matches-Fits :
    (context : Option AlertContext) (t : TriggerRule)
    → matches_trigger context t ≡ true
    → (c : AlertContext) × (context ≡ some c) × Fits c t
matches-Fits none t e = absurd (true≢false (sym e ∙ (matches_trigger_iff empty_alert t).1))
  where
    empty_alert : AlertContext
    empty_alert = record { name = []; labels = [] }
matches-Fits (some c) t e = (c, refl, (matches_trigger_iff c t).0.0 e)

any-Fits :
    (context : Option AlertContext) (ts : List TriggerRule)
    → any (matches_trigger context) ts ≡ true
    → (c : AlertContext) × (t : TriggerRule) × (context ≡ some c) × Memᴰ t ts × Fits c t
any-Fits context [] e = cc
any-Fits context (t ∷ ts) e = elim (Bool-cases (matches_trigger context t)) [
  | inl h ↦ let (c, p, f) = matches-Fits context t h in (c, t, p, Memᴰ.head refl, f)
  | inr h ↦ let (c, u, p, m, f) = any-Fits context ts (ground arith) in (c, u, p, Memᴰ.tail m, f)
]

Fits-any :
    (c : AlertContext) (t : TriggerRule) (ts : List TriggerRule)
    → Memᴰ t ts
    → Fits c t
    → any (matches_trigger (some c)) ts ≡ true
Fits-any c t [] m f = absurd (Memᴰ.not-nil m)
Fits-any c t (u ∷ ts) m f = elim (Memᴰ.cases_cons m) [
  | inl e ↦ let hit = (matches_trigger_iff c u).0.1 (subst (Fits c) e f) in ground arith
  | inr n ↦ let rest = Fits-any c t ts n f in ground arith
]

triggers_on-Fires :
    (context : Option AlertContext) (s : Skill) → triggers_on context s ≡ true → Fires context s
unfolding triggers_on
triggers_on-Fires context s e =
    let (c, t, p, m, f) = any-Fits context s.triggers e in fires c t p m f

silent-Fires :
    (context : Option AlertContext) (s : Skill)
    → triggers_on context s ≡ false
    → Fires context s
    → ⊥
unfolding triggers_on
silent-Fires context s e (fires c t p m f) =
    let hit = Fits-any c t s.triggers m f in
    true≢false (sym hit ∙ (sym (ap (λ o. any (matches_trigger o) s.triggers) p) ∙ e))

-- How a skill comes to be chosen: one of its triggers describes the alert, or no registered skill
-- has such a trigger, and it is the one for such tasks.
pub data Chosen (task : DiagnosisTask) (sm : SkillManager) (s : Skill) : Type 0 where
  by_trigger : Memᴰ s (values sm.skills) → Fires task.spec.alert_context s → Chosen task sm s
  by_fallback :
      All (λ u. Fires task.spec.alert_context u → ⊥) (values sm.skills)
      → Fallback task.spec.alert_context sm s
      → Chosen task sm s

-- The two ways out of the loop over the skills.
data FirstOf (context : Option AlertContext) (ss : List Skill) : Option Skill → Type 0 where
  found : {s : Skill} → Memᴰ s ss → Fires context s → FirstOf context ss (some s)
  missing : All (λ u. Fires context u → ⊥) ss → FirstOf context ss none

first_match-FirstOf :
    (context : Option AlertContext) (ss : List Skill) → FirstOf context ss (first_match context ss)
unfolding first_match
first_match-FirstOf context [] = missing tt
first_match-FirstOf context (s ∷ ss) = elim (Bool-cases (triggers_on context s)) [
  | inl e ↦ rw e (found (Memᴰ.head refl) (triggers_on-Fires context s e))
  | inr e ↦ rw e (later (first_match context ss) e (first_match-FirstOf context ss))
]
  where
    later :
        (o : Option Skill)
        → triggers_on context s ≡ false
        → FirstOf context ss o
        → FirstOf context (s ∷ ss) o
    later _ e (found m t) = found (Memᴰ.tail m) t
    later _ e (missing all) = missing (silent-Fires context s e, all)

-- The chosen skill is a registered one with a trigger that describes the alert, or no registered skill
-- has one. Then it is the registered "oom_diagnosis", if the alert is that of a container killed for
-- its memory and there is such a skill, else the registered "base_skill", else the built-in one.
pub match_skill-Chosen :
    (task : DiagnosisTask) (sm : SkillManager) → Chosen task sm (match_skill task sm)
unfolding match_skill
match_skill-Chosen task sm =
    go (first_match task.spec.alert_context (values sm.skills))
      (first_match-FirstOf task.spec.alert_context (values sm.skills))
  where
    go :
        (o : Option Skill)
        → FirstOf task.spec.alert_context (values sm.skills) o
        → Chosen task sm (or_else o (fallback_skill task.spec.alert_context sm))
    go _ (found m e) = by_trigger m e
    go _ (missing all) = by_fallback all (fallback_skill-Fallback task.spec.alert_context sm)
