-- ===== src/Crd/Copied.antt =====
-- What a deep copy of api/v1alpha1/zz_generated.deepcopy.go is worth: it reads as the object does,
-- and neither of them sees what is written to the cells of the other.
use kubeminds.Prelude.{◌≡◌, ◌∙◌, Option, List}
use kubeminds.Crd.{DiagnosisTask}
use kubeminds.Crd.Heap.{Pointer, Heap}
use kubeminds.Crd.DeepCopy.{
  copy_pointer, copy_each, context_into, spec_into, status_into, task_into, list_into,
  deep_copy_spec, deep_copy_status, deep_copy_task, deep_copy_list,
}
use kubeminds.Crd.Stores.{Agree}
use kubeminds.Crd.Copier.{Copier}
use kubeminds.Crd.Copiers.{specs_at, statuses_at, tasks_at, lists_at}

-- What a pointer to a task, or to a list of tasks, stands for.
abbrev pub read_task : Heap → Pointer → Option DiagnosisTask
read_task = tasks_at.view

abbrev pub read_list : Heap → Pointer → Option (List DiagnosisTask)
read_list = lists_at.view

-- The pointers of a task, or of a list of tasks, are to cells in use.
abbrev pub IsTask : Heap → Pointer → Type 0
IsTask h p = tasks_at.Within 0 h.next h p

abbrev pub IsList : Heap → Pointer → Type 0
IsList h p = lists_at.Within 0 h.next h p

-- In a heap with the new cells of a copy, the copy reads as the object did; in one with the cells
-- that were in use before, the object does.
copy-Apart :
    {T R : Type 0} (c : Copier T R) (t : T) (h g₁ g₂ : Heap)
    → c.Within 0 h.next h t
    → Agree h.next (c.copy t h).1.next g₁ (c.copy t h).1
    → Agree 0 h.next g₂ (c.copy t h).1
    → (c.view g₁ (c.copy t h).0 ≡ c.view h t) × (c.view g₂ t ≡ c.view h t)
copy-Apart c t h g₁ g₂ held new old =
    let (u, h') = c.copy t h in
    let (copied, _) = c.depends h.next h'.next g₁ h' u new (c.is_new t h held) in
    let (kept, _) = c.depends 0 h.next g₂ h t (λ a l m. old a l m ∙ c.leaves t h a l m) held in
    (copied ∙ c.is_same t h held, kept)

-- The pointers of the task are to cells in use. Then the deep copy reads as the task did in every
-- heap that keeps the cells which the copying took, whatever is written to others; and the task
-- still reads so in every heap that keeps the cells in use before, whatever is written to the copy.
deep_copy_task-Apart :
    (p : Pointer) (h g₁ g₂ : Heap)
    → IsTask h p
    → Agree h.next (deep_copy_task p h).1.next g₁ (deep_copy_task p h).1
    → Agree 0 h.next g₂ (deep_copy_task p h).1
    → (read_task g₁ (deep_copy_task p h).0 ≡ read_task h p) × (read_task g₂ p ≡ read_task h p)
unfolding deep_copy_task copy_pointer context_into spec_into status_into task_into
deep_copy_task-Apart = copy-Apart tasks_at

-- The like of a specification and of a status.
deep_copy_spec-Apart :
    (p : Pointer) (h g₁ g₂ : Heap)
    → specs_at.Within 0 h.next h p
    → Agree h.next (deep_copy_spec p h).1.next g₁ (deep_copy_spec p h).1
    → Agree 0 h.next g₂ (deep_copy_spec p h).1
    → (specs_at.view g₁ (deep_copy_spec p h).0 ≡ specs_at.view h p)
      × (specs_at.view g₂ p ≡ specs_at.view h p)
unfolding deep_copy_spec copy_pointer context_into spec_into
deep_copy_spec-Apart = copy-Apart specs_at

deep_copy_status-Apart :
    (p : Pointer) (h g₁ g₂ : Heap)
    → statuses_at.Within 0 h.next h p
    → Agree h.next (deep_copy_status p h).1.next g₁ (deep_copy_status p h).1
    → Agree 0 h.next g₂ (deep_copy_status p h).1
    → (statuses_at.view g₁ (deep_copy_status p h).0 ≡ statuses_at.view h p)
      × (statuses_at.view g₂ p ≡ statuses_at.view h p)
unfolding deep_copy_status copy_pointer status_into
deep_copy_status-Apart = copy-Apart statuses_at

-- The pointers of the list, and of its tasks, are to cells in use. Then the deep copy reads as the
-- list did in every heap that keeps the cells which the copying took, whatever is written to
-- others; and the list still reads so in every heap that keeps the cells in use before, whatever
-- is written to the copy.
pub deep_copy_list-Apart :
    (p : Pointer) (h g₁ g₂ : Heap)
    → IsList h p
    → Agree h.next (deep_copy_list p h).1.next g₁ (deep_copy_list p h).1
    → Agree 0 h.next g₂ (deep_copy_list p h).1
    → (read_list g₁ (deep_copy_list p h).0 ≡ read_list h p) × (read_list g₂ p ≡ read_list h p)
unfolding deep_copy_list copy_pointer copy_each context_into spec_into status_into task_into
    list_into
deep_copy_list-Apart = copy-Apart lists_at
