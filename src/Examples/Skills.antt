-- ===== src/Examples/Skills.antt =====
-- Skills as the repository ships them (skills/), matched and loaded.
use kubeminds.Prelude.{◌≡◌, ◌↔◌, refl, true, false, List, [], ◌∷◌, ◌++◌, none, some}
use kubeminds.Prelude.Bytes.{Str, lit, str_eq}
use kubeminds.Prelude.Int.{pos}
use kubeminds.Prelude.Maps.{Map}
use kubeminds.Prelude.Errors.{Fallible, ok}
use kubeminds.Crd.{AlertContext, DiagnosisTask, DiagnosisPhase}
use kubeminds.Agent.Skill.{TriggerRule, Skill, base_skill, oom_skill}
use kubeminds.Agent.SkillManager.{
  SkillManager, matches_trigger, match_skill, register_all, new_skill_manager, get_skill_by_name,
}
use kubeminds.Agent.Registered.{Begins, last_named, get_skill_by_name_lem}
use kubeminds.Agent.Matching.{Fits, Chosen, matches_trigger_iff, match_skill-Chosen}
use kubeminds.Agent.SkillLoader.{Visit, loaded, load_skills}
use kubeminds.Agent.Inheritance.{Inherits, load_skills-Inherits}
use kubeminds.Agent.Fuel.{EndsWell, load_skills-EndsWell}

abbrev crash_loop : TriggerRule
crash_loop = record { alert_name = lit "KubePodCrashLooping"; labels = [] }

abbrev killed : TriggerRule
killed = record {
  alert_name = lit "KubePodCrashLooping";
  labels = (lit "reason", lit "OOMKilled") ∷ [];
}

abbrev skill : Str → Str → List TriggerRule → Skill
skill name parent triggers = record {
  name = name;
  description = [];
  parent = parent;
  triggers = triggers;
  system_prompt = lit "look";
  allowed_tools = [];
  memory_policy = none;
}

abbrev crashloop_backoff : Skill
crashloop_backoff = skill (lit "crashloop_backoff") (lit "base_skill") (crash_loop ∷ [])

abbrev oom_diagnosis : Skill
oom_diagnosis = skill (lit "oom_diagnosis") (lit "base_skill") (killed ∷ [])

abbrev alert : AlertContext
alert = record { name = lit "KubePodCrashLooping"; labels = (lit "reason", lit "OOMKilled") ∷ [] }

abbrev task : DiagnosisTask
task = record {
  name = lit "t";
  namespace = lit "default";
  is_deleting = false;
  spec = record {
    target = record { namespace = lit "default"; name = lit "web"; kind = lit "Pod" };
    policy = record { max_steps = pos 5 };
    alert_context = some alert;
    approved = false;
  };
  status = record {
    phase = DiagnosisPhase.running;
    report = none;
    history = [];
    checkpoint = [];
    matched_skill = [];
    message = [];
  };
}

matches_trigger_iff_example :
    ((matches_trigger (some alert) killed ≡ true) ↔ Fits alert killed)
    × (matches_trigger none killed ≡ false)
matches_trigger_iff_example = matches_trigger_iff alert killed

abbrev shipped : SkillManager
shipped = record {
  skills = (lit "crashloop_backoff", crashloop_backoff) ∷ (lit "oom_diagnosis", oom_diagnosis) ∷ [];
}

match_skill-Chosen_example : Chosen task shipped (match_skill task shipped)
match_skill-Chosen_example = match_skill-Chosen task shipped

-- Both shipped skills match the alert.
-- Which of them is chosen is up to the order in which the map is gone through.
first_order : match_skill task shipped ≡ crashloop_backoff
unfolding match_skill lit
first_order = refl

other_order :
    match_skill task (record {
      skills =
          (lit "oom_diagnosis", oom_diagnosis) ∷ (lit "crashloop_backoff", crashloop_backoff) ∷ [];
    })
    ≡ oom_diagnosis
unfolding match_skill lit
other_order = refl

abbrev file : Str → List (Fallible Skill) → Visit
file path docs = record { path = path; is_dir = false; opened = ok docs }

-- The child stands before its parent, so that the parent is resolved first.
abbrev visits : List (Fallible Visit)
visits =
    ok (file (lit "a.yaml") (ok oom_diagnosis ∷ []))
    ∷ ok (file (lit "b.yaml") (ok (skill (lit "base_skill") [] []) ∷ []))
    ∷ []

abbrev library : Map Skill
library =
    (lit "base_skill", skill (lit "base_skill") [] [])
    ∷ (lit "oom_diagnosis", record oom_diagnosis { system_prompt = lit "look\n\nlook" })
    ∷ []

visits_load : load_skills visits ≡ loaded library
unfolding load_skills str_eq
visits_load = refl

load_skills-Inherits_example : Inherits visits library
load_skills-Inherits_example = load_skills-Inherits visits library visits_load

load_skills-EndsWell_example : EndsWell (load_skills visits)
load_skills-EndsWell_example = load_skills-EndsWell visits

-- The manager without a directory.
abbrev built_in : SkillManager
built_in = record {
  skills = (lit "base_skill", base_skill) ∷ (lit "oom_diagnosis", oom_skill) ∷ [];
}

no_directory : new_skill_manager none ≡ loaded built_in
unfolding new_skill_manager str_eq base_skill oom_skill
no_directory = refl

get_skill_by_name_lem_example :
    (first : List Skill) × Begins none first
    × (get_skill_by_name
          (lit "base_skill")
          (register_all (oom_diagnosis ∷ crashloop_backoff ∷ []) built_in)
        ≡ last_named (lit "base_skill") (first ++ oom_diagnosis ∷ crashloop_backoff ∷ []))
get_skill_by_name_lem_example =
    get_skill_by_name_lem none built_in (oom_diagnosis ∷ crashloop_backoff ∷ []) (lit "base_skill")
      no_directory
