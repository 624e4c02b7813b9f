-- ===== src/Agent/Rules.antt =====
-- A proof rule for `Run` of internal/agent/engine.go: what holds between its parts, and when it
-- returns.
use mathlib.Core.Path.{subst}
use kubeminds.Prelude.{
  ℕ, zero, suc, ◌+◌, ◌<◌, ◌≡◌, refl, inl, inr, Bool, true, List, [], ◌∷◌, Option, none, some, arith,
  Bool-cases,
}
use kubeminds.Prelude.Bytes.{Str}
use kubeminds.Prelude.Int.{rounds}
use kubeminds.Prelude.Errors.{Fallible, ok, err}
use kubeminds.Agent.Types.{Message, ToolCall, cancelled, chat_failed, loop_detected, exceeded_steps}
use kubeminds.Agent.Engine.{detect_loop, Runtime, BaseAgent, Outcome, concluded, aborted}
use kubeminds.Agent.Memory.{
  get_history, add_user_message, add_assistant_message, add_assistant_tool_call,
}
use kubeminds.Agent.RootCause.{extract_root_cause}
use kubeminds.Agent.Loop.{
  goal_message, last_tool, Run, Flow, next, return, and_then, resume, notify, act, act_all,
  check_loop, respond, receive, think, unless_done, run_step, run_steps, run,
}

module _ {W : Type 0} (rt : Runtime W) (a : BaseAgent W) (approved : Bool)
    (P N : ℕ → Run W → Type 0) (M : ℕ → List ToolCall → Run W → Type 0)
    (Q : Outcome → Run W → Type 0) where
  -- In a step, `M` holds where a flow goes on, with the tool calls that are left, and `Q` where it
  -- returns.
  abbrev pub Post : ℕ → List ToolCall → Flow W → Type 0
  Post step calls (next s) = M step calls s
  Post step calls (return o s) = Q o s

  -- What each part of the loop has to keep or establish: `P` holds when a step begins, `N` from the
  -- answer of the model on, and `M` from the first tool call on.
  pub record Rule : Type 0 where
    pub on_done :
        (step : ℕ) (s : Run W) → P step s → P step (record s { world = (rt.done s.world).1 })
    pub on_cancel :
        (step : ℕ) (s : Run W) (e : Str)
        → step < rounds a.max_steps
        → P step s
        → (w : W) → rt.done w ≡ (some e, s.world)
        → Q (aborted (cancelled e)) s
    pub on_chat :
        (step : ℕ) (s : Run W)
        → step < rounds a.max_steps
        → P step s
        → N step (record s { world = (a.llm (get_history s.memory) a.tools s.world).1 })
    pub on_fail :
        (step : ℕ) (s : Run W) (e : Str)
        → N step s
        → (w : W) → a.llm (get_history s.memory) a.tools w ≡ (err e, s.world)
        → Q (aborted (chat_failed e)) s
    pub on_notify :
        (step : ℕ) (s : Run W) (entry : Str)
        → N step s
        → N step (record s { world = notify a none entry s.world })
    pub on_conclude :
        (step : ℕ) (s : Run W) (content entry : Str)
        → N step s
        → Q (concluded (extract_root_cause rt.fold content)) (record s {
          memory = add_assistant_message content s.memory;
          world = notify a none entry s.world;
        })
    pub on_request :
        (step : ℕ) (s : Run W) (call : ToolCall) (calls : List ToolCall)
        → N step s
        → M step
            (call ∷ calls)
            (record s { memory = add_assistant_tool_call (call ∷ calls) s.memory })
    pub on_act :
        (step : ℕ) (call : ToolCall) (calls : List ToolCall) (s : Run W)
        → M step (call ∷ calls) s
        → Post step calls (act rt a approved step call s)
    pub on_loop :
        (step : ℕ) (s : Run W)
        → M step [] s
        → detect_loop s.recent_findings 3 ≡ true
        → Q (aborted (loop_detected (last_tool s.recent_findings))) s
    pub on_next : (step : ℕ) (s : Run W) → M step [] s → P (suc step) s
    pub on_limit :
        (s : Run W) → P (rounds a.max_steps) s → Q (aborted (exceeded_steps a.max_steps)) s

  module _ (r : Rule) where
    and_then-Post :
        (step : ℕ) (before after : List ToolCall) (m : Flow W) (f : Run W → Flow W)
        → Post step before m
        → ((s : Run W) → M step before s → Post step after (f s))
        → Post step after (and_then m f)
    and_then-Post step before after (next s) f h g = g s h
    and_then-Post step before after (return o s) f h g = h

    act_all-Post :
        (step : ℕ) (calls : List ToolCall) (s : Run W)
        → M step calls s
        → Post step [] (act_all rt a approved step calls s)
    unfolding act_all
    act_all-Post step [] s p = p
    act_all-Post step (call ∷ calls) s p =
        and_then-Post step calls [] _ _ (r.on_act step call calls s p)
          (λ t. act_all-Post step calls t)

    check_loop-Post :
        (step : ℕ) (s : Run W) → M step [] s → Post step [] (check_loop rt a approved s)
    unfolding check_loop
    check_loop-Post step s p = elim (Bool-cases (detect_loop s.recent_findings 3)) [
      | inl e ↦ rw e (r.on_loop step s p e)
      | inr e ↦ rw e p
    ]

    respond-Post :
        (step : ℕ) (content : Str) (calls : List ToolCall) (s : Run W)
        → N step s
        → Post step [] (respond rt a approved step content calls s)
    unfolding respond
    respond-Post step content [] s p = r.on_conclude step s content _ p
    respond-Post step content (call ∷ calls) s p =
        and_then-Post step [] [] _ _
          (act_all-Post step (call ∷ calls) _ (r.on_request step s call calls p))
          (check_loop-Post step)

    receive-Post :
        (step : ℕ) (reply : Fallible Message) (s : Run W) (w : W)
        → N step s
        → a.llm (get_history s.memory) a.tools w ≡ (reply, s.world)
        → Post step [] (receive rt a approved step reply s)
    unfolding receive
    receive-Post step (err e) s w p h = r.on_fail step s e p w h
    receive-Post step (ok m) s w p h =
        respond-Post step m.content m.tool_calls _ (r.on_notify step s _ p)

    unless_done-Post :
        (step : ℕ) (cause : Option Str) (s : Run W) (w : W)
        → step < rounds a.max_steps
        → P step s
        → rt.done w ≡ (cause, s.world)
        → Post step [] (unless_done rt a approved step cause s)
    unfolding unless_done think
    unless_done-Post step (some e) s w h p d = r.on_cancel step s e h p w d
    unless_done-Post step none s w h p d = receive-Post step _ _ s.world (r.on_chat step s h p) refl

    run_step-Post :
        (step : ℕ) (s : Run W)
        → step < rounds a.max_steps
        → P step s
        → Post step [] (run_step rt a approved step s)
    unfolding run_step
    run_step-Post step s h p = unless_done-Post step _ _ s.world h (r.on_done step s p) refl

    resume-Post :
        (step : ℕ) (f : Run W → Outcome × Run W) (m : Flow W)
        → ((s : Run W) → M step [] s → Q (f s).0 (f s).1)
        → Post step [] m
        → Q (resume f m).0 (resume f m).1
    resume-Post step f (next s) g h = g s h
    resume-Post step f (return o s) g h = h

    run_steps-Post :
        (left step : ℕ) (s : Run W)
        → left + step ≡ rounds a.max_steps
        → P step s
        → Q (run_steps rt a approved left step s).0 (run_steps rt a approved left step s).1
    unfolding run_steps
    run_steps-Post zero step s h p = r.on_limit s (subst (λ n. P n s) (omega (arith, h)) p)
    run_steps-Post (suc left) step s h p =
        resume-Post step _ _
          (λ t q. run_steps-Post left (suc step) t (omega (arith, h)) (r.on_next step t q))
          (run_step-Post step s (omega (arith, h)) p)

    -- From the state in which the loop starts to the state in which `Run` returns.
    pub run-Post :
        (goal : Str) (w : W)
        → P 0 (record {
          memory = add_user_message (goal_message goal) a.memory;
          recent_findings = [];
          world = w;
        })
        → Q (run rt a approved goal w).0 (run rt a approved goal w).1
    unfolding run
    run-Post goal w p = run_steps-Post (rounds a.max_steps) 0 _ (omega arith) p
