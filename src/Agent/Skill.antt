-- ===== src/Agent/Skill.antt =====
-- internal/agent/skill.go: skills and their inheritance.
use kubeminds.Prelude.{List, [], ◌∷◌, ◌++◌, Option, none, some}
use kubeminds.Prelude.Bytes.{Str, lit, is_empty}
use kubeminds.Prelude.Tests.{if◌then◌else◌}
use kubeminds.Prelude.Int.{ℤ}
use kubeminds.Prelude.Maps.{Labels}

pub record TriggerRule : Type 0 where
  pub alert_name : Str
  pub labels : Labels

pub record MemoryPolicy : Type 0 where
  pub short_term_window : Str
  pub long_term_top_k : ℤ
  pub relevant_metrics : List Str

pub record Skill : Type 0 where
  pub name : Str
  pub description : Str
  pub parent : Str
  pub triggers : List TriggerRule
  pub system_prompt : Str
  pub allowed_tools : List Str
  pub memory_policy : Option MemoryPolicy

-- `len(xs) > 0` picks the child's list.
abbrev override : List Str → List Str → List Str
override base [] = base
override base (x ∷ xs) = x ∷ xs

abbrev override_policy : Option MemoryPolicy → Option MemoryPolicy → Option MemoryPolicy
override_policy base none = base
override_policy base (some p) = some p

unfoldable pub merge_with : Skill → Skill → Skill
merge_with base domain = record {
  name = domain.name;
  description = domain.description;
  parent = domain.parent;
  triggers = domain.triggers;
  system_prompt =
      if is_empty domain.system_prompt
      then base.system_prompt
      else base.system_prompt ++ (10 ∷ 10 ∷ domain.system_prompt);
  allowed_tools = override base.allowed_tools domain.allowed_tools;
  memory_policy = override_policy base.memory_policy domain.memory_policy;
}

base_prompt : Str
unfolding lit
base_prompt =
    lit "You are a Kubernetes Expert Agent. Your goal is to diagnose issues in a K8s cluster.\n"
    ++ (lit "You have access to a set of tools to gather information.\n"
        ++ (lit "Follow this process:\n"
            ++ (lit
                  "1. Think: Analyze the current situation and decide what information you need.\n"
                ++ (lit "2. Act: Execute a tool to gather that information.\n"
                    ++ (lit "3. Observe: Analyze the tool output.\n"
                        ++ (lit "4. Repeat until you identify the root cause.\n"
                            ++ (lit "5. Conclude: Provide a Root Cause and a Suggestion.")))))))

oom_prompt : Str
unfolding lit
oom_prompt =
    lit "You are a Kubernetes Memory Expert. You are diagnosing a Pod that was OOMKilled.\n"
    ++ (lit "Focus your investigation on:\n"
        ++ (lit "1. Check the Pod's memory limit in its Spec.\n"
            ++ (lit
                  "2. Check the container's actual memory usage (if metrics are available) or look for \"Out of Memory\" logs.\n"
                ++ (lit "3. Determine if the limit is too tight or if there is a memory leak.\n"
                    ++ (lit
                        "4. Do NOT suggest increasing limits immediately; first identify why it is consuming so much memory.")))))

-- `BaseSkill`
unfoldable pub base_skill : Skill
unfolding lit base_prompt
base_skill = record {
  name = lit "base_skill";
  description = lit "General Kubernetes troubleshooting skill";
  parent = [];
  triggers = [];
  system_prompt = base_prompt;
  allowed_tools = [];
  memory_policy = none;
}

-- `OOMSkill`
unfoldable pub oom_skill : Skill
unfolding lit oom_prompt
oom_skill = record {
  name = lit "oom_diagnosis";
  description = lit "Specialized skill for diagnosing OOMKilled pods";
  parent = [];
  triggers = [];
  system_prompt = oom_prompt;
  allowed_tools = lit "get_pod_logs" ∷ lit "get_pod_events" ∷ lit "get_pod_spec" ∷ [];
  memory_policy = none;
}
