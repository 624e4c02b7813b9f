-- ===== src/Crd/DeepCopy.antt =====
-- api/v1alpha1/zz_generated.deepcopy.go: the copies that the caches of the client hand out.
use kubeminds.Prelude.{List, [], ◌∷◌, none, some}
use kubeminds.Crd.Heap.{
  policy_cell, policy_of, target_cell, target_of, finding_cell, finding_of, spec_cell, spec_of,
  status_cell, status_of, Pointer, ContextAt, SpecAt, StatusAt, TaskAt, TaskListAt, Cell,
  labels_cell, context_cell, report_cell, history_cell, checkpoint_cell, task_cell, items_cell,
  list_cell, labels_of, context_of, report_of, history_of, checkpoint_of, task_of, items_of,
  list_of, Heap, store, alloc,
}

-- `if *in != nil { *out = new(T); (*in).DeepCopyInto(*out) }`, and the like for a slice or a map.
-- The new cell starts with `*out = *in`, and ends with the fields that DeepCopyInto has copied.
unfoldable pub copy_pointer :
    {T : Type 0} → (T → Cell) → (Cell → T) → (T → Heap → T × Heap) → Pointer → Heap → Pointer × Heap
copy_pointer cell_of of_cell into none h = (none, h)
copy_pointer cell_of of_cell into (some a) h =
    let (b, h₁) = alloc (h.cells a) h in
    let (t, h₂) = into (of_cell (h.cells a)) h₁ in (some b, store b (cell_of t) h₂)

-- `for i := range *in { (*in)[i].DeepCopyInto(&(*out)[i]) }`
unfoldable pub copy_each : {T : Type 0} → (T → Heap → T × Heap) → List T → Heap → List T × Heap
copy_each into [] h = ([], h)
copy_each into (t ∷ ts) h =
    let (u, h₁) = into t h in let (us, h₂) = copy_each into ts h₁ in (u ∷ us, h₂)

-- `*out = *in`, of a value without pointers, and the loops over such values.
abbrev pub value_into : {T : Type 0} → T → Heap → T × Heap
value_into t h = (t, h)

-- The `DeepCopyInto` of each type.
unfoldable pub context_into : ContextAt → Heap → ContextAt × Heap
unfolding copy_pointer
context_into c h =
    let (labels, h') = copy_pointer labels_cell labels_of value_into c.labels h in
    (record { name = c.name; labels = labels }, h')

unfoldable pub spec_into : SpecAt → Heap → SpecAt × Heap
unfolding copy_pointer context_into
spec_into s h =
    let (context, h') = copy_pointer context_cell context_of context_into s.alert_context h in
    (
      record {
        target = s.target;
        policy = s.policy;
        alert_context = context;
        approved = s.approved;
      },
      h',
    )

unfoldable pub status_into : StatusAt → Heap → StatusAt × Heap
unfolding copy_pointer
status_into s h =
    let (report, h₁) = copy_pointer report_cell report_of value_into s.report h in
    let (history, h₂) = copy_pointer history_cell history_of value_into s.history h₁ in
    let (checkpoint, h₃) = copy_pointer checkpoint_cell checkpoint_of value_into s.checkpoint h₂ in
    (
      record {
        phase = s.phase;
        report = report;
        history = history;
        checkpoint = checkpoint;
        matched_skill = s.matched_skill;
        message = s.message;
      },
      h₃,
    )

unfoldable pub task_into : TaskAt → Heap → TaskAt × Heap
unfolding spec_into status_into
task_into t h =
    let (spec, h₁) = spec_into t.spec h in
    let (status, h₂) = status_into t.status h₁ in
    (
      record {
        name = t.name;
        namespace = t.namespace;
        is_deleting = t.is_deleting;
        spec = spec;
        status = status;
      },
      h₂,
    )

unfoldable pub list_into : TaskListAt → Heap → TaskListAt × Heap
unfolding copy_pointer copy_each task_into
list_into l h =
    let (items, h') = copy_pointer items_cell items_of (copy_each task_into) l.items h in
    (record { items = items }, h')

-- The `DeepCopy` of each type, and the `DeepCopyObject` of a task and of a list.
unfoldable pub deep_copy_context : Pointer → Heap → Pointer × Heap
unfolding copy_pointer context_into
deep_copy_context = copy_pointer context_cell context_of context_into

unfoldable pub deep_copy_policy : Pointer → Heap → Pointer × Heap
unfolding copy_pointer
deep_copy_policy = copy_pointer policy_cell policy_of value_into

unfoldable pub deep_copy_report : Pointer → Heap → Pointer × Heap
unfolding copy_pointer
deep_copy_report = copy_pointer report_cell report_of value_into

unfoldable pub deep_copy_target : Pointer → Heap → Pointer × Heap
unfolding copy_pointer
deep_copy_target = copy_pointer target_cell target_of value_into

unfoldable pub deep_copy_finding : Pointer → Heap → Pointer × Heap
unfolding copy_pointer
deep_copy_finding = copy_pointer finding_cell finding_of value_into

unfoldable pub deep_copy_spec : Pointer → Heap → Pointer × Heap
unfolding copy_pointer spec_into
deep_copy_spec = copy_pointer spec_cell spec_of spec_into

unfoldable pub deep_copy_status : Pointer → Heap → Pointer × Heap
unfolding copy_pointer status_into
deep_copy_status = copy_pointer status_cell status_of status_into

unfoldable pub deep_copy_task : Pointer → Heap → Pointer × Heap
unfolding copy_pointer task_into
deep_copy_task = copy_pointer task_cell task_of task_into

unfoldable pub deep_copy_list : Pointer → Heap → Pointer × Heap
unfolding copy_pointer list_into
deep_copy_list = copy_pointer list_cell list_of list_into
