-- ===== src/Controller/Writes.antt =====
-- The changes of a task's status that its goroutine makes
-- (internal/controller/diagnosistask_controller.go).
use kubeminds.Prelude.{List, [], ◌∷◌, ◌++◌, Option, none, some}
use kubeminds.Prelude.Bytes.{Str, lit}
use kubeminds.Crd.{DiagnosisTaskStatus, Finding, waiting_approval, completed, failed}
use kubeminds.Agent.Types.{
  Result, AgentError, cancelled, chat_failed, waiting_for_approval, loop_detected, exceeded_steps,
}
use kubeminds.Agent.Engine.{Outcome, concluded, aborted}
use kubeminds.Controller.Job.{error_text, checkpoint_status, result_status}

-- The second list is the first, or has one more entry.
pub data Adds {A : Type 0} (xs : List A) : List A → Type 0 where
  same : Adds xs xs
  one : (x : A) → Adds xs (xs ++ x ∷ [])

-- The changes of status that the goroutine makes: the record of a step, the skill, and the end.
pub data Writes (quote : Str → Str) (s : DiagnosisTaskStatus) : DiagnosisTaskStatus → Type 0 where
  records :
      (checkpoint : List Finding) (history : List Str)
      → Adds s.checkpoint checkpoint
      → Adds s.history history
      → Writes quote s (record s { checkpoint = checkpoint; history = history })
  names_skill : (name : Str) → Writes quote s (record s { matched_skill = name })
  concludes :
      (r : Result)
      → Writes quote s (record s {
        phase = completed;
        report = some (record { root_cause = r.root_cause; suggestion = r.suggestion });
      })
  waits :
      (name : Str)
      → Writes quote s (record s {
        phase = waiting_approval;
        message = lit "Tool " ++ (name ++ lit " requires approval.");
      })
  fails_with :
      (e : AgentError)
      → Writes quote s (record s {
        phase = failed;
        report =
            some (record {
              root_cause = lit "Agent execution failed";
              suggestion = error_text quote e;
            });
      })

pub checkpoint_status-Writes :
    (quote : Str → Str) (f : Option Finding) (entry : Str) (s : DiagnosisTaskStatus)
    → Writes quote s (checkpoint_status f entry s)
unfolding checkpoint_status
checkpoint_status-Writes quote none [] s = records s.checkpoint s.history same same
checkpoint_status-Writes quote none (b ∷ bs) s =
    records s.checkpoint (s.history ++ (b ∷ bs) ∷ []) same (one (b ∷ bs))
checkpoint_status-Writes quote (some f) [] s =
    records (s.checkpoint ++ f ∷ []) s.history (one f) same
checkpoint_status-Writes quote (some f) (b ∷ bs) s =
    records (s.checkpoint ++ f ∷ []) (s.history ++ (b ∷ bs) ∷ []) (one f) (one (b ∷ bs))

pub result_status-Writes :
    (quote : Str → Str) (o : Outcome) (s : DiagnosisTaskStatus)
    → Writes quote s (result_status quote o s)
unfolding result_status
result_status-Writes quote (concluded r) s = concludes r
result_status-Writes quote (aborted (waiting_for_approval name)) s = waits _
result_status-Writes quote (aborted (cancelled e)) s = fails_with (cancelled e)
result_status-Writes quote (aborted (chat_failed e)) s = fails_with (chat_failed e)
result_status-Writes quote (aborted (loop_detected name)) s = fails_with (loop_detected name)
result_status-Writes quote (aborted (exceeded_steps n)) s = fails_with (exceeded_steps n)
