-- ===== src/Crd/Copiers.antt =====
-- The copiers of the types of api/v1alpha1, by their parts.
use kubeminds.Prelude.{refl, Bool, List, [], Option, none, some}
use kubeminds.Prelude.Bytes.{Str}
use kubeminds.Crd.{
  AlertContext, DiagnosisTaskSpec, DiagnosisReport, Finding, DiagnosisTaskStatus, DiagnosisTask,
  DiagnosisTarget, DiagnosisPolicy, DiagnosisPhase,
}
use kubeminds.Crd.Heap.{
  spec_cell, spec_of, status_cell, status_of, Pointer, ContextAt, SpecAt, StatusAt, TaskAt,
  TaskListAt, labels_cell, context_cell, report_cell, history_cell, checkpoint_cell, task_cell,
  items_cell, list_cell, labels_of, context_of, report_of, history_of, checkpoint_of, task_of,
  items_of, list_of,
}
use kubeminds.Crd.Copier.{Copier, value, both}
use kubeminds.Crd.Pointing.{along, pointer}
use kubeminds.Crd.Slices.{each}

-- A nil slice or map has no elements.
abbrev pub or_empty : {A : Type 0} → Option (List A) → List A
or_empty none = []
or_empty (some l) = l

abbrev pub contexts : Copier ContextAt AlertContext
contexts =
    along (both value (pointer value labels_cell labels_of (λ l. refl))) (λ c. (c.name, c.labels))
      (λ p. record { name = p.0; labels = p.1 }) (λ r. record { name = r.0; labels = or_empty r.1 })
      (λ p. refl)

abbrev pub spec_parts :
    Copier
      ((DiagnosisTarget × DiagnosisPolicy × Bool) × Pointer)
      ((DiagnosisTarget × DiagnosisPolicy × Bool) × Option AlertContext)
spec_parts = both value (pointer contexts context_cell context_of (λ c. refl))

abbrev pub specs : Copier SpecAt DiagnosisTaskSpec
specs =
    along spec_parts (λ s. ((s.target, s.policy, s.approved), s.alert_context))
      (λ p. record { target = p.0.0; policy = p.0.1; alert_context = p.1; approved = p.0.2 })
      (λ r. record { target = r.0.0; policy = r.0.1; alert_context = r.1; approved = r.0.2 })
      (λ p. refl)

abbrev pub status_parts : Copier ((DiagnosisPhase × Str × Str) × (Pointer × (Pointer × Pointer))) (
    (DiagnosisPhase × Str × Str)
    × (Option DiagnosisReport × (Option (List Str) × Option (List Finding))))
status_parts = both value (
    both (pointer value report_cell report_of (λ r. refl)) (
      both (pointer value history_cell history_of (λ l. refl))
        (pointer value checkpoint_cell checkpoint_of (λ l. refl))))

abbrev pub statuses : Copier StatusAt DiagnosisTaskStatus
statuses =
    along status_parts
      (λ s. ((s.phase, s.matched_skill, s.message), (s.report, (s.history, s.checkpoint))))
      (λ p. record {
        phase = p.0.0;
        report = p.1.0;
        history = p.1.1.0;
        checkpoint = p.1.1.1;
        matched_skill = p.0.1;
        message = p.0.2;
      })
      (λ r. record {
        phase = r.0.0;
        report = r.1.0;
        history = or_empty r.1.1.0;
        checkpoint = or_empty r.1.1.1;
        matched_skill = r.0.1;
        message = r.0.2;
      })
      (λ p. refl)

abbrev pub task_parts :
    Copier
      ((Str × Str × Bool) × (SpecAt × StatusAt))
      ((Str × Str × Bool) × (DiagnosisTaskSpec × DiagnosisTaskStatus))
task_parts = both value (both specs statuses)

abbrev pub tasks : Copier TaskAt DiagnosisTask
tasks =
    along task_parts (λ t. ((t.name, t.namespace, t.is_deleting), (t.spec, t.status)))
      (λ p. record {
        name = p.0.0;
        namespace = p.0.1;
        is_deleting = p.0.2;
        spec = p.1.0;
        status = p.1.1;
      })
      (λ r. record {
        name = r.0.0;
        namespace = r.0.1;
        is_deleting = r.0.2;
        spec = r.1.0;
        status = r.1.1;
      })
      (λ p. refl)

abbrev pub task_lists : Copier TaskListAt (List DiagnosisTask)
task_lists =
    along (pointer (each tasks) items_cell items_of (λ l. refl)) (λ l. l.items)
      (λ p. record { items = p }) or_empty (λ p. refl)

abbrev pub specs_at : Copier Pointer (Option DiagnosisTaskSpec)
specs_at = pointer specs spec_cell spec_of (λ s. refl)

abbrev pub statuses_at : Copier Pointer (Option DiagnosisTaskStatus)
statuses_at = pointer statuses status_cell status_of (λ s. refl)

abbrev pub tasks_at : Copier Pointer (Option DiagnosisTask)
tasks_at = pointer tasks task_cell task_of (λ t. refl)

abbrev pub lists_at : Copier Pointer (Option (List DiagnosisTask))
lists_at = pointer task_lists list_cell list_of (λ l. refl)
