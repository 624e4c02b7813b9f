-- ===== src/Agent/Loop.antt =====
-- internal/agent/engine.go, `Run`: the loop of thinking, acting and observing.
use kubeminds.Prelude.{ℕ, zero, suc, ◌+◌, Bool, false, List, [], ◌∷◌, ◌++◌, Option, none, some}
use kubeminds.Prelude.Tests.{if◌then◌else◌}
use kubeminds.Prelude.Bytes.{Str, lit, str_eq, itoa}
use kubeminds.Prelude.Int.{rounds}
use kubeminds.Prelude.Errors.{Fallible, ok, err}
use kubeminds.Crd.{Finding}
use kubeminds.Agent.Types.{
  Message, ToolCall, SafetyLevel, high_risk, forbidden, Tool, Result, cancelled, chat_failed,
  waiting_for_approval, loop_detected, exceeded_steps,
}
use kubeminds.Agent.Memory.{
  L1Memory, add_user_message, add_assistant_message, add_tool_output, add_assistant_tool_call,
  get_history,
}
use kubeminds.Agent.RootCause.{extract_root_cause}
use kubeminds.Agent.Engine.{Runtime, BaseAgent, Outcome, concluded, aborted, truncate, detect_loop}

-- What the loop changes: the memory, `recentFindings` and the outside.
pub record Run (W : Type 0) : Type 0 where
  pub memory : L1Memory
  pub recent_findings : List Finding
  pub world : W

-- A part of the loop goes on, or returns from `Run`.
pub data Flow (W : Type 0) : Type 0 where
  next : Run W → Flow W
  return : Outcome → Run W → Flow W

module _ {W : Type 0} where
  abbrev pub and_then : Flow W → (Run W → Flow W) → Flow W
  and_then (next s) f = f s
  and_then (return o s) f = return o s

  abbrev pub resume : (Run W → Outcome × Run W) → Flow W → Outcome × Run W
  resume f (next s) = f s
  resume f (return o s) = (o, s)

  unfoldable pub find_tool : Str → List (Tool W) → Option (Tool W)
  find_tool name [] = none
  find_tool name (t ∷ ts) = if str_eq t.name name then some t else find_tool name ts

-- A call yields an output for the conversation, or stops the run.
pub data Invocation : Type 0 where
  output : Str → Invocation
  needs_approval : Str → Invocation

module _ {W : Type 0} where
  unfoldable pub execute_tool : Tool W → Str → W → Invocation × W
  unfolding lit
  execute_tool t args w = elim ((t.execute args w).0) [
    | ok text ↦ (output text, (t.execute args w).1)
    | err e ↦ (output (lit "Error executing tool: " ++ e), (t.execute args w).1)
  ]

  -- The safety check.
  unfoldable pub check_safety : SafetyLevel → Tool W → Bool → Str → W → Invocation × W
  unfolding execute_tool lit
  check_safety forbidden t approved args w =
      (output (lit "Error: Tool " ++ (t.name ++ lit " is forbidden by safety policy.")), w)
  check_safety high_risk t false args w = (needs_approval t.name, w)
  check_safety _ t approved args w = execute_tool t args w

  unfoldable pub invoke : List (Tool W) → Bool → ToolCall → W → Invocation × W
  unfolding find_tool check_safety lit
  invoke tools approved call w = elim (find_tool call.function.name tools) [
    | none ↦ (output (lit "Error: Tool " ++ (call.function.name ++ lit " not found")), w)
    | some t ↦ check_safety t.safety_level t approved call.function.arguments w
  ]

  unfoldable pub notify : BaseAgent W → Option Finding → Str → W → W
  notify a finding entry w = elim a.on_step_complete [ none ↦ w | some f ↦ f finding entry w ]

-- `recentFindings[len(recentFindings)-1].ToolName`
abbrev pub last_tool : List Finding → Str
last_tool [] = []
last_tool (f ∷ []) = f.tool_name
last_tool (f ∷ g ∷ fs) = last_tool (g ∷ fs)

-- `Step %d (Act): %s(%s) -> %s`
unfoldable pub act_entry : Finding → Str
unfolding lit itoa
act_entry f =
    lit "Step "
    ++ (itoa f.step
        ++ (lit " (Act): "
            ++ (f.tool_name ++ (lit "(" ++ (f.tool_args ++ (lit ") -> " ++ f.summary))))))

-- `Step %d (Conclude): RootCause: %s | Suggestion: %s`
unfoldable pub conclude_entry : ℕ → Result → Str
unfolding lit itoa
conclude_entry step r =
    lit "Step "
    ++ (itoa (step + 1)
        ++ (lit " (Conclude): RootCause: "
            ++ (r.root_cause ++ (lit " | Suggestion: " ++ r.suggestion))))

-- `Step %d (Think): %s`
unfoldable pub think_entry : ℕ → Str → Str
unfolding truncate lit itoa
think_entry step content =
    lit "Step " ++ (itoa (step + 1) ++ (lit " (Think): " ++ truncate 500 content))

unfoldable pub goal_message : Str → Str
unfolding lit
goal_message goal =
    lit "Diagnosis Goal: "
    ++ (goal
        ++ (lit "\n\nWhen you have enough information to conclude, respond with:\n"
            ++ (lit "Root Cause: <concise root cause>\n"
                ++ lit "Suggestion: <actionable remediation>")))

module _ {W : Type 0} (rt : Runtime W) (a : BaseAgent W) (approved : Bool) where
  -- Observe and checkpoint: from `AddToolOutput` to the end of the turn.
  unfoldable pub observe : ℕ → ToolCall → Str → Run W → Run W
  unfolding truncate notify act_entry add_tool_output
  observe step call text s =
      let (timestamp, w) = rt.now s.world in
      let finding : Finding = record {
        step = step + 1;
        tool_name = call.function.name;
        tool_args = call.function.arguments;
        summary = truncate 200 text;
        timestamp = timestamp;
      } in
      record {
        memory = add_tool_output call.id text s.memory;
        recent_findings = s.recent_findings ++ finding ∷ [];
        world = notify a (some finding) (act_entry finding) w;
      }

  -- One turn of the loop over the tool calls.
  unfoldable pub settle : ℕ → ToolCall → Invocation → Run W → Flow W
  unfolding observe
  settle step call (output text) s = next (observe step call text s)
  settle step call (needs_approval name) s = return (aborted (waiting_for_approval name)) s

  unfoldable pub act : ℕ → ToolCall → Run W → Flow W
  unfolding invoke settle
  act step call s =
      let (result, w) = invoke a.tools approved call s.world in
      settle step call result (record s { world = w })

  unfoldable pub act_all : ℕ → List ToolCall → Run W → Flow W
  unfolding act
  act_all step [] s = next s
  act_all step (call ∷ calls) s = and_then (act step call s) (λ s'. act_all step calls s')

  unfoldable pub check_loop : Run W → Flow W
  unfolding detect_loop
  check_loop s =
      if detect_loop s.recent_findings 3
      then return (aborted (loop_detected (last_tool s.recent_findings))) s
      else next s

  -- From the assistant's message to the end of the step.
  unfoldable pub respond : ℕ → Str → List ToolCall → Run W → Flow W
  unfolding notify conclude_entry act_all check_loop extract_root_cause add_assistant_message
      add_assistant_tool_call
  respond step content [] s =
      let result = extract_root_cause rt.fold content in
      return (concluded result) (record s {
        memory = add_assistant_message content s.memory;
        world = notify a none (conclude_entry step result) s.world;
      })
  respond step content (call ∷ calls) s =
      and_then
        (act_all step (call ∷ calls)
          (record s { memory = add_assistant_tool_call (call ∷ calls) s.memory }))
        check_loop

  unfoldable pub receive : ℕ → Fallible Message → Run W → Flow W
  unfolding notify think_entry respond
  receive step (err e) s = return (aborted (chat_failed e)) s
  receive step (ok m) s =
      respond step m.content m.tool_calls
        (record s { world = notify a none (think_entry step m.content) s.world })

  unfoldable pub think : ℕ → Run W → Flow W
  unfolding receive
  think step s =
      let (reply, w) = a.llm (get_history s.memory) a.tools s.world in
      receive step reply (record s { world = w })

  -- The body of the loop; the argument before the state is the error of the context.
  unfoldable pub unless_done : ℕ → Option Str → Run W → Flow W
  unfolding think
  unless_done step (some e) s = return (aborted (cancelled e)) s
  unless_done step none s = think step s

  unfoldable pub run_step : ℕ → Run W → Flow W
  unfolding unless_done
  run_step step s =
      let (cause, w) = rt.done s.world in unless_done step cause (record s { world = w })

  -- `for step := 0; step < a.maxSteps; step++`, on the rounds left.
  unfoldable pub run_steps : ℕ → ℕ → Run W → Outcome × Run W
  unfolding run_step
  run_steps zero step s = (aborted (exceeded_steps a.max_steps), s)
  run_steps (suc left) step s = resume (λ s'. run_steps left (suc step) s') (run_step step s)

  unfoldable pub run : Str → W → Outcome × Run W
  unfolding run_steps goal_message add_user_message
  run goal w = run_steps (rounds a.max_steps) 0 (record {
    memory = add_user_message (goal_message goal) a.memory;
    recent_findings = [];
    world = w;
  })
