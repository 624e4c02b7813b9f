-- ===== src/Examples/Copies.antt =====
-- A task with an alert context and a history, in memory, and its deep copies.
use kubeminds.Prelude.{ℕ, zero, suc, ◌≡◌, refl, false, [], ◌∷◌, none, some, arith}
use kubeminds.Prelude.Bytes.{lit}
use kubeminds.Prelude.Int.{pos}
use kubeminds.Crd.{DiagnosisPhase}
use kubeminds.Crd.Heap.{
  TaskAt, Cell, labels_cell, context_cell, history_cell, items_cell, list_cell, Heap, store,
}
use kubeminds.Crd.DeepCopy.{
  copy_pointer, copy_each, context_into, spec_into, status_into, task_into, list_into,
  deep_copy_list,
}
use kubeminds.Crd.Stores.{store-Agree, store_above-Agree}
use kubeminds.Crd.Slices.{WithinEach}
use kubeminds.Crd.Copied.{IsList, read_list, deep_copy_list-Apart}

abbrev a_task : TaskAt
a_task = record {
  name = (lit "t");
  namespace = (lit "d");
  is_deleting = false;
  spec = record {
    target = record { namespace = (lit "d"); name = (lit "p"); kind = (lit "Pod") };
    policy = record { max_steps = pos 3 };
    alert_context = some 1;
    approved = false;
  };
  status = record {
    phase = DiagnosisPhase.running;
    report = none;
    history = some 2;
    checkpoint = none;
    matched_skill = [];
    message = [];
  };
}

abbrev cells : ℕ → Cell
cells zero = labels_cell (((lit "a"), (lit "b")) ∷ [])
cells (suc zero) = context_cell record { name = (lit "A"); labels = some 0 }
cells (suc (suc zero)) = history_cell ((lit "s") ∷ [])
cells (suc (suc (suc zero))) = items_cell (a_task ∷ [])
cells _ = list_cell record { items = some 3 }

abbrev memory : Heap
memory = record { next = 5; cells = cells }

abbrev copied : Heap
copied = (deep_copy_list (some 4) memory).1

memory-IsList : IsList memory (some 4)
unfolding WithinEach
memory-IsList = (
  omega arith,
  omega arith,
  (
    omega arith,
    omega arith,
    (
      (
        tt,
        (
          (tt, (omega arith, omega arith, (tt, (omega arith, omega arith, tt)))),
          (tt, (tt, ((omega arith, omega arith, tt), tt))),
        ),
      ),
      tt,
    ),
  ),
)

-- The labels of the original are overwritten, and, apart from that, a cell of the copy.
deep_copy_list-Apart_example :
    let p' = (deep_copy_list (some 4) memory).0 in
    (read_list (store 0 (labels_cell []) copied) p' ≡ read_list memory (some 4))
    × (read_list (store 5 (history_cell []) copied) (some 4) ≡ read_list memory (some 4))
deep_copy_list-Apart_example =
    deep_copy_list-Apart (some 4) memory (store 0 (labels_cell []) copied)
      (store 5 (history_cell []) copied) memory-IsList
      (store-Agree 5 copied.next 0 (labels_cell []) copied (omega arith))
      (store_above-Agree 0 5 5 (history_cell []) copied (omega arith))

-- The copy has taken five cells.
copied_next : copied.next ≡ 10
unfolding deep_copy_list copy_pointer copy_each context_into spec_into status_into task_into
    list_into
copied_next = refl
