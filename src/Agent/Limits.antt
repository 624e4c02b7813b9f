-- ===== src/Agent/Limits.antt =====
-- The bounds of a run (internal/agent/engine.go): how often it asks the model, and how much each
-- of its findings holds.
use mathlib.Core.List.{Memᴰ}
use native.Mathlib.Nat.{mul-le-mul_right}
use kubeminds.Agent.Safety.{find_tool-mem}
use kubeminds.Prelude.{
  ℕ, suc, ◌+◌, ◌*◌, ◌≤◌, ◌<◌, ◌≡◌, refl, Bool, List, Option, none, arith, Option-cases, inl, inr,
  true, false,
}
use kubeminds.Prelude.Lists.{length, take, All, All-append, All-map, length-append, length-take}
use kubeminds.Prelude.Bytes.{Str, lit}
use kubeminds.Prelude.Int.{rounds}
use kubeminds.Crd.{Finding}
use kubeminds.Agent.Types.{
  Message, ToolCall, Tool, SafetyLevel, read_only, low_risk, high_risk, forbidden, other,
}
use kubeminds.Agent.Engine.{Runtime, BaseAgent, Outcome, truncate}
use kubeminds.Agent.Rules.{Post, Rule, run-Post}
use kubeminds.Agent.Memory.{add_assistant_message}
use kubeminds.Agent.Loop.{
  Run, Invocation, output, needs_approval, execute_tool, check_safety, find_tool, invoke, notify,
  observe, settle, act, run,
}

-- A cut text is at most three bytes longer than the cut.
pub truncate_bounded : (n : ℕ) (s : Str) → length (truncate n s) ≤ n + 3
unfolding truncate lit
truncate_bounded n s = ground (arith, length-append (take n s) (lit "..."), length-take n s)

abbrev pub IsBounded : ℕ → Finding → Type 0
IsBounded n f = (1 ≤ f.step) × (f.step ≤ n) × (length f.summary ≤ 203)

IsBounded-mono : (n m : ℕ) → n ≤ m → (f : Finding) → IsBounded n f → IsBounded m f
IsBounded-mono n m h f b = (b.0, omega arith, b.2)

module _ {W : Type 0} (rt : Runtime W) (a : BaseAgent W) (approved : Bool) (calls : W → ℕ)
    (cost : ℕ) where
  -- What a run does beside asking the model does not count.
  pub record Quiet : Type 0 where
    pub count_done : (w : W) → calls (rt.done w).1 ≡ calls w
    pub count_now : (w : W) → calls (rt.now w).1 ≡ calls w
    pub count_notify :
        (f : Option Finding) (entry : Str) (w : W) → calls (notify a f entry w) ≡ calls w
    pub count_execute :
        (t : Tool W) (args : Str) (w : W) → Memᴰ t a.tools → calls (t.execute args w).1 ≡ calls w

  -- And asking the model costs at most `cost`.
  pub record Counts : Type 0 where
    pub quiet : Quiet
    pub count_chat : (ms : List Message) (w : W) → calls (a.llm ms a.tools w).1 ≤ calls w + cost

  module _ (c : Counts) (start : ℕ) where
    execute_tool-calls :
        (t : Tool W) (args : Str) (w : W)
        → Memᴰ t a.tools
        → calls (execute_tool t args w).1 ≡ calls w
    unfolding execute_tool
    execute_tool-calls t args w m = ground (arith, c.quiet.count_execute t args w m)

    check_safety-calls :
        (l : SafetyLevel) (t : Tool W) (b : Bool) (args : Str) (w : W)
        → Memᴰ t a.tools
        → calls (check_safety l t b args w).1 ≡ calls w
    unfolding check_safety
    check_safety-calls forbidden t b args w m = refl
    check_safety-calls high_risk t false args w m = refl
    check_safety-calls high_risk t true args w m = execute_tool-calls t args w m
    check_safety-calls read_only t b args w m = execute_tool-calls t args w m
    check_safety-calls low_risk t b args w m = execute_tool-calls t args w m
    check_safety-calls (other l) t b args w m = execute_tool-calls t args w m

    invoke-calls : (call : ToolCall) (w : W) → calls (invoke a.tools approved call w).1 ≡ calls w
    unfolding invoke
    invoke-calls call w = elim (Option-cases (find_tool call.function.name a.tools)) [
      | inl e ↦ rw (e, invoke) refl
      | inr (t, e) ↦
          rw (e, invoke)
            (check_safety-calls t.safety_level t approved _ w
              (find_tool-mem call.function.name a.tools e).0)
    ]

    -- Before a step there was at most the cost of `step` calls, and all findings are bounded.
    abbrev Before : ℕ → Run W → Type 0
    Before step s = (calls s.world ≤ start + step * cost) × All (IsBounded step) s.recent_findings

    abbrev Within : ℕ → Run W → Type 0
    Within step s = (step < rounds a.max_steps) × Before (suc step) s

    abbrev After : Outcome → Run W → Type 0
    After o = Before (rounds a.max_steps)

    Before-mono : (n m : ℕ) (s : Run W) → n ≤ m → Before n s → Before m s
    Before-mono n m s h (k, b) =
        (omega (arith, mul-le-mul_right cost h), All-map s.recent_findings (IsBounded-mono n m h) b)

    Within-After : (step : ℕ) (s : Run W) → Within step s → Before (rounds a.max_steps) s
    Within-After step s p = Before-mono (suc step) _ s (omega arith) p.1

    observe-Within :
        (step : ℕ) (call : ToolCall) (text : Str) (s : Run W)
        → Within step s
        → Within step (observe rt a approved step call text s)
    unfolding observe
    observe-Within step call text s (h, p) = (
      h,
      (
        omega (arith, c.quiet.count_notify _ _ (rt.now s.world).1, c.quiet.count_now s.world),
        All-append (IsBounded (suc step)) s.recent_findings _ p.1
            ((omega arith, omega arith, truncate_bounded 200 text), tt),
      ),
    )

    settle-Post :
        (step : ℕ) (call : ToolCall) (calls : List ToolCall) (i : Invocation) (s : Run W)
        → Within step s
        → Post rt a approved Before Within
            (λ n _. Within n)
            After
            step
            calls
            (settle rt a approved step call i s)
    unfolding settle
    settle-Post step call calls (output text) s p = observe-Within step call text s p
    settle-Post step call calls (needs_approval name) s p = Within-After step s p

    act-Post :
        (step : ℕ) (call : ToolCall) (calls : List ToolCall) (s : Run W)
        → Within step s
        → Post rt a approved Before Within
            (λ n _. Within n)
            After
            step
            calls
            (act rt a approved step call s)
    unfolding act
    act-Post step call calls s p =
        settle-Post step call calls _ _ (p.0, (omega (arith, p, invoke-calls call s.world), p.1.1))

    Limits-Rule : Rule rt a approved Before Within (λ n _. Within n) After
    Limits-Rule = record {
      on_done = λ _ s p. (omega (arith, p, c.quiet.count_done s.world), p.1);
      on_cancel = λ step s e h p w d. Before-mono step _ s (omega arith) p;
      on_chat = λ step s h p. (
        h,
        (
          omega (arith, p, c.count_chat s.memory s.world),
          All-map s.recent_findings (IsBounded-mono step (suc step) (omega arith)) p.1,
        ),
      );
      on_fail = λ step s e p w d. Within-After step s p;
      on_notify = λ step s entry p.
          (p.0, (omega (arith, p, c.quiet.count_notify none entry s.world), p.1.1));
      on_conclude = λ step s content entry p.
          Within-After step
            (record s {
              memory = add_assistant_message content s.memory;
              world = notify a none entry s.world;
            })
            (p.0, (omega (arith, p, c.quiet.count_notify none entry s.world), p.1.1));
      on_request = λ _ s call calls p. p;
      on_act = act-Post;
      on_loop = λ step s p e. Within-After step s p;
      on_next = λ _ s p. p.1;
      on_limit = λ s p. p;
    }

-- A run costs at most `max_steps` questions to the model, and the findings that it leaves are numbered from
-- 1 to `max_steps` and hold at most 203 bytes of a tool's output, however the run ends. The measure
-- `calls` counts a question by at most its cost and nothing else.
pub run_limits :
    {W : Type 0} (rt : Runtime W) (a : BaseAgent W) (approved : Bool) (calls : W → ℕ) (cost : ℕ)
    → Counts rt a approved calls cost
    → (goal : Str) (w : W)
    → let s = (run rt a approved goal w).1 in
      (calls s.world ≤ calls w + rounds a.max_steps * cost)
      × All (IsBounded (rounds a.max_steps)) s.recent_findings
run_limits rt a approved calls cost c goal w =
    run-Post rt a approved _ _ _ _ (Limits-Rule rt a approved calls cost c (calls w)) goal w
      (omega arith, tt)
