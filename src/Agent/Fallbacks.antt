-- ===== src/Agent/Fallbacks.antt =====
-- The skill for a task that fires no trigger (internal/agent/skill_manager.go).
use kubeminds.Prelude.{
  sym, ◌∙◌, Option-cases, ◌≡◌, refl, ◌⊎◌, inl, inr, true, false, Option, none, some, Bool-cases,
}
use mathlib.Core.Bool.{true≢false}
use kubeminds.Prelude.Bytes.{lit, str_eq, str_eq_iff, str_eq_sound}
use kubeminds.Prelude.Maps.{lookup, label}
use kubeminds.Agent.Skill.{base_skill, Skill}
use kubeminds.Agent.SkillManager.{is_oom, get_skill_by_name, SkillManager, or_else, fallback_skill}
use kubeminds.Crd.{AlertContext}

-- There is an alert, and it is that of a container that was killed for its memory.
abbrev pub IsOom : Option AlertContext → Type 0
IsOom none = ⊥
IsOom (some c) =
    (label (lit "reason") c.labels ≡ lit "OOMKilled")
    ⊎ (label (lit "alertname") c.labels ≡ lit "KubeContainerOOMKilled")

-- The alert is none of these, or there is no skill for them.
abbrev pub NotForOom : Option AlertContext → SkillManager → Type 0
NotForOom context sm = (IsOom context → ⊥) ⊎ (lookup (lit "oom_diagnosis") sm.skills ≡ none)

-- The skill for a task that fires no trigger.
pub data Fallback (context : Option AlertContext) (sm : SkillManager) (s : Skill) : Type 0 where
  for_oom : IsOom context → lookup (lit "oom_diagnosis") sm.skills ≡ some s → Fallback context sm s
  base : NotForOom context sm → lookup (lit "base_skill") sm.skills ≡ some s → Fallback context sm s
  built_in :
      NotForOom context sm
      → lookup (lit "base_skill") sm.skills ≡ none
      → s ≡ base_skill
      → Fallback context sm s

IsOom-cases :
    (context : Option AlertContext)
    → ((is_oom context ≡ true) × IsOom context) ⊎ ((is_oom context ≡ false) × (IsOom context → ⊥))
unfolding is_oom
IsOom-cases none = inr (refl, λ h. h)
IsOom-cases (some c) =
    let reason = label (lit "reason") c.labels in
    let alert = label (lit "alertname") c.labels in
    elim (Bool-cases (str_eq reason (lit "OOMKilled"))) [
      | inl r ↦ inl (rw r refl, inl (str_eq_sound _ _ r))
      | inr r ↦ elim (Bool-cases (str_eq alert (lit "KubeContainerOOMKilled"))) [
        | inl a ↦ inl (rw (r, a) refl, inr (str_eq_sound _ _ a))
        | inr a ↦ inr (
          rw (r, a) refl,
          λ h. elim h [
            | inl p ↦ true≢false (sym ((str_eq_iff reason (lit "OOMKilled")).1 p) ∙ r)
            | inr p ↦ true≢false (sym ((str_eq_iff alert (lit "KubeContainerOOMKilled")).1 p) ∙ a)
          ],
        )
      ]
    ]

base-Fallback :
    (context : Option AlertContext) (sm : SkillManager)
    → NotForOom context sm
    → Fallback context sm (or_else (get_skill_by_name (lit "base_skill") sm) base_skill)
unfolding get_skill_by_name
base-Fallback context sm n = elim (Option-cases (lookup (lit "base_skill") sm.skills)) [
  | inl e ↦ rw e (built_in n e refl)
  | inr (s, e) ↦ rw e (base n e)
]

oom-Fallback :
    (context : Option AlertContext) (sm : SkillManager)
    → IsOom context
    → Fallback context sm (
        or_else
          (get_skill_by_name (lit "oom_diagnosis") sm)
          (or_else (get_skill_by_name (lit "base_skill") sm) base_skill))
unfolding get_skill_by_name
oom-Fallback context sm h = elim (Option-cases (lookup (lit "oom_diagnosis") sm.skills)) [
  | inl e ↦ rw e (base-Fallback context sm (inr e))
  | inr (s, e) ↦ rw e (for_oom h e)
]

pub fallback_skill-Fallback :
    (context : Option AlertContext) (sm : SkillManager)
    → Fallback context sm (fallback_skill context sm)
unfolding fallback_skill
fallback_skill-Fallback context sm = elim (IsOom-cases context) [
  | inr (e, n) ↦ rw e (base-Fallback context sm (inl n))
  | inl (e, h) ↦ rw e (oom-Fallback context sm h)
]
