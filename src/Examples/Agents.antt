-- ===== src/Examples/Agents.antt =====
-- Runs of the agent of the lab (internal/agent/engine.go).
use mathlib.Core.List.{Memᴰ}
use mathlib.Core.List.Memᴰ
use mathlib.Core.Bool.{true≢false}
use kubeminds.Prelude.{◌≤◌, ◌≡◌, ◌⊎◌, ◌↔◌, refl, sym, inl, inr, true, false, List, [], ◌∷◌, arith}
use kubeminds.Prelude.Lists.{All}
use kubeminds.Prelude.Bytes.{Str, lit, str_eq}
use kubeminds.Crd.{Finding}
use kubeminds.Agent.Types.{Tool, waiting_for_approval, loop_detected}
use kubeminds.Agent.Memory.{add_user_message}
use kubeminds.Agent.Engine.{aborted, detect_loop}
use kubeminds.Agent.Loop.{notify, run, goal_message}
use kubeminds.Agent.Safety.{May, Keeps, run-keeps}
use kubeminds.Agent.Protocol.{Asks, Left, empty, run-Asks}
use kubeminds.Agent.Approval.{Waits, run-Waits}
use kubeminds.Agent.Repetition.{Repeats, detect_loop_iff}
use kubeminds.Agent.Limits.{Counts, IsBounded, run_limits}
use kubeminds.Agent.Conversation.{Extends, Explains, run-Explains}
use kubeminds.Examples.Lab.{Lab, fresh, get_pods, delete_pod, drop_node, tools, runtime, doctor}

abbrev pub Untouched : Lab → Type 0
Untouched w = w.deletions ≡ 0

tools-cases : (t : Tool Lab) → Memᴰ t tools → (t ≡ get_pods) ⊎ ((t ≡ delete_pod) ⊎ (t ≡ drop_node))
tools-cases t m = elim (Memᴰ.cases_cons m) [
  | inl e ↦ inl e
  | inr n ↦ elim (Memᴰ.cases_cons n) [
    | inl e ↦ inr (inl e)
    | inr o ↦ elim (Memᴰ.cases_cons o) [ inl e ↦ inr (inr e) | inr q ↦ absurd (Memᴰ.not-nil q) ]
  ]
]

-- Without an approval, none of the tools that may run deletes anything.
pub allowed-Untouched :
    (t : Tool Lab) (args : Str) (w : Lab)
    → May tools false t
    → Untouched w
    → Untouched (t.execute args w).1
allowed-Untouched t args w may p = elim (tools-cases t may.offered) [
  | inl e ↦ rw e p
  | inr (inl e) ↦ absurd (true≢false (sym (may.cleared (rw e))))
  | inr (inr e) ↦ absurd (may.allowed (rw e))
]

doctor-Keeps : Keeps runtime doctor false Untouched
unfolding notify
doctor-Keeps = record {
  keeps_done = λ w p. p;
  keeps_now = λ w p. p;
  keeps_chat = λ ms w p. p;
  keeps_notify = λ f entry w p. p;
  keeps_execute = λ t args w may p. allowed-Untouched t args w may p;
}

run-keeps_example : Untouched (run runtime doctor false (lit "heal") fresh).1.world
run-keeps_example = run-keeps runtime doctor false Untouched doctor-Keeps (lit "heal") fresh refl

doctor-Asks : Asks runtime doctor false Untouched
unfolding notify
doctor-Asks = record {
  acts = record {
    keeps_done = λ w p. p;
    keeps_now = λ w p. p;
    keeps_notify = λ f entry w p. p;
    keeps_execute = λ t args w may p. allowed-Untouched t args w may p;
  };
  keeps_chat = λ ms w h p. p;
}

run-Asks_example :
    let (o, s) = run runtime doctor false (lit "heal") fresh in Untouched s.world × Left o s
run-Asks_example = run-Asks runtime doctor false Untouched doctor-Asks empty (lit "heal") fresh refl

-- The third call of the model is that of the high-risk tool.
doctor_waits :
    (run runtime doctor false (lit "heal") fresh).0
    ≡ aborted (waiting_for_approval (lit "delete_pod"))
unfolding run str_eq
doctor_waits = refl

run-Waits_example : Waits runtime doctor false (lit "delete_pod")
run-Waits_example =
    run-Waits runtime doctor false (lit "heal") fresh (lit "delete_pod") doctor_waits

-- With an approval it deletes the pod, three times in a row.
doctor_loops :
    (run runtime doctor true (lit "heal") fresh).0 ≡ aborted (loop_detected (lit "delete_pod"))
unfolding run str_eq
doctor_loops = refl

execute-chats :
    (t : Tool Lab) (args : Str) (w : Lab) → Memᴰ t tools → (t.execute args w).1.chats ≡ w.chats
execute-chats t args w m = elim (tools-cases t m) [
  | inl e ↦ rw e
  | inr (inl e) ↦ rw e
  | inr (inr e) ↦ rw e
]

doctor-Counts : Counts runtime doctor true (λ w. w.chats) 1
unfolding notify
doctor-Counts = record {
  quiet = record {
    count_done = λ w. refl;
    count_now = λ w. refl;
    count_notify = λ f entry w. refl;
    count_execute = λ t args w m. execute-chats t args w m;
  };
  count_chat = λ ms w. omega arith;
}

run_limits_example :
    let s = (run runtime doctor true (lit "heal") fresh).1 in
    (s.world.chats ≤ 5) × All (IsBounded 5) s.recent_findings
run_limits_example =
    run_limits runtime doctor true (λ w. w.chats) 1 doctor-Counts (lit "heal") fresh

run-Explains_example :
    let (o, s) = run runtime doctor true (lit "heal") fresh in
    let start = add_user_message (goal_message (lit "heal")) [] in
    Extends start s.memory × Explains runtime doctor true start o s
run-Explains_example = run-Explains runtime doctor true (lit "heal") fresh

abbrev found_by : Str → Finding
found_by name = record {
  step = 1;
  tool_name = name;
  tool_args = lit "{}";
  summary = [];
  timestamp = [];
}

abbrev findings : List Finding
findings =
    found_by (lit "get_pods")
    ∷ found_by (lit "get_logs")
    ∷ found_by (lit "get_logs")
    ∷ found_by (lit "get_logs")
    ∷ []

detect_loop_iff_example : (detect_loop findings 3 ≡ true) ↔ Repeats findings
detect_loop_iff_example = detect_loop_iff findings
