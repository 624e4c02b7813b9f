-- ===== src/Agent/Engine.antt =====
-- internal/agent/engine.go: the agent, its construction and what the controller injects. Logging
-- is left out. What the agent asks of the outside goes through its fields and a `Runtime`, and
-- every call hands on the state `W`.
use kubeminds.Prelude.{ℕ, ◌-◌, Bool, false, ◌&&◌, List, [], ◌∷◌, ◌++◌, Option}
use kubeminds.Prelude.Tests.{ltb, if◌then◌else◌}
use kubeminds.Prelude.Lists.{length, take, drop, keep, any, all}
use kubeminds.Prelude.Bytes.{Str, lit, str_eq, is_empty, itoa}
use kubeminds.Prelude.Int.{ℤ}
use kubeminds.Crd.{Finding}
use kubeminds.Agent.Types.{Tool, LlmProvider, Result, AgentError}
use kubeminds.Agent.Memory.{L1Memory, new_l1_memory, add_user_message}
use kubeminds.Agent.Skill.{Skill}

-- `onStepComplete`, and what the runtime gives: the error of a done context, the time of day in
-- RFC 3339, and the lower-case table outside ASCII.
abbrev pub StepCallback : Type 0 → Type 0
StepCallback W = Option Finding → Str → W → W

pub record Runtime (W : Type 0) : Type 0 where
  pub done : W → Option Str × W
  pub now : W → Str × W
  pub fold : ℕ → ℕ

pub record BaseAgent (W : Type 0) : Type 0 where
  pub llm : LlmProvider W
  pub tools : List (Tool W)
  pub memory : L1Memory
  pub max_steps : ℤ
  pub on_step_complete : Option (StepCallback W)
  pub skill : Skill

pub data Outcome : Type 0 where
  concluded : Result → Outcome
  aborted : AgentError → Outcome

-- `if len(s) > n { s = s[:n] + "..." }`
unfoldable pub truncate : ℕ → Str → Str
unfolding lit
truncate n s = if ltb n (length s) then take n s ++ lit "..." else s

module _ {W : Type 0} where
  -- The tools that a skill allows: all of them if it lists none.
  unfoldable pub available_tools : List Str → List (Tool W) → List (Tool W)
  unfolding keep
  available_tools [] tools = tools
  available_tools (n ∷ ns) tools = keep (λ t. any (λ name. str_eq name t.name) (n ∷ ns)) tools

  unfoldable pub new_agent :
      LlmProvider W → List (Tool W) → ℤ → Option (StepCallback W) → Skill → BaseAgent W
  unfolding available_tools add_user_message lit
  new_agent llm tools max_steps on_step_complete skill = record {
    llm = llm;
    tools = available_tools skill.allowed_tools tools;
    memory =
        if is_empty skill.system_prompt
        then new_l1_memory
        else add_user_message (lit "SYSTEM INSTRUCTION: " ++ skill.system_prompt) new_l1_memory;
    max_steps = max_steps;
    on_step_complete = on_step_complete;
    skill = skill;
  }

  unfoldable pub inject_context : Str → BaseAgent W → BaseAgent W
  unfolding add_user_message
  inject_context msg a = record a { memory = add_user_message msg a.memory }

-- "- Step %d [%s]: %s\n" for each finding
unfoldable pub restore_lines : List Finding → Str
unfolding lit itoa
restore_lines [] = []
restore_lines (f ∷ fs) =
    (lit "- Step "
      ++ (itoa f.step ++ (lit " [" ++ (f.tool_name ++ (lit "]: " ++ (f.summary ++ lit "\n"))))))
    ++ restore_lines fs

unfoldable pub restore : {W : Type 0} → List Finding → BaseAgent W → BaseAgent W
unfolding restore_lines add_user_message lit
restore [] a = a
restore (f ∷ fs) a = record a {
  memory =
      add_user_message
        (lit "Previous diagnosis findings (restored from checkpoint):\n" ++ restore_lines (f ∷ fs))
        a.memory;
}

-- Two findings of the same call.
unfoldable pub same_call : Finding → Finding → Bool
same_call f g = str_eq f.tool_name g.tool_name && str_eq f.tool_args g.tool_args

-- The comparison of `tail[1:]` with `tail[0]`. A window of 0 would panic; the agent passes 3.
abbrev all_same : List Finding → Bool
all_same [] = false
all_same (first ∷ rest) = all (λ f. same_call f first) rest

unfoldable pub detect_loop : List Finding → ℕ → Bool
unfolding same_call
detect_loop findings window =
    if ltb (length findings) window
    then false
    else all_same (drop (length findings - window) findings)
