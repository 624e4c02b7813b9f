-- ===== src/Crd/Heap.antt =====
-- The objects of api/v1alpha1 in memory: what a pointer, a slice or a map refers to is a cell.
use kubeminds.Prelude.{ℕ, ◌+◌, ◌==◌, Bool, false, List, [], Option, none, if◌then◌else◌}
use kubeminds.Prelude.Bytes.{Str}
use kubeminds.Prelude.Int.{pos}
use kubeminds.Prelude.Maps.{Labels}
use kubeminds.Crd.{DiagnosisTarget, DiagnosisPolicy, DiagnosisPhase, DiagnosisReport, Finding}

-- An address, or nil.
abbrev pub Pointer : Type 0
Pointer = Option ℕ

pub record ContextAt : Type 0 where
  pub name : Str
  pub labels : Pointer

pub record SpecAt : Type 0 where
  pub target : DiagnosisTarget
  pub policy : DiagnosisPolicy
  pub alert_context : Pointer
  pub approved : Bool

pub record StatusAt : Type 0 where
  pub phase : DiagnosisPhase
  pub report : Pointer
  pub history : Pointer
  pub checkpoint : Pointer
  pub matched_skill : Str
  pub message : Str

-- Of the metadata, which the library copies, the values that the controller reads.
pub record TaskAt : Type 0 where
  pub name : Str
  pub namespace : Str
  pub is_deleting : Bool
  pub spec : SpecAt
  pub status : StatusAt

-- `DiagnosisTaskList`
pub record TaskListAt : Type 0 where
  pub items : Pointer

pub data Cell : Type 0 where
  labels_cell : Labels → Cell
  context_cell : ContextAt → Cell
  report_cell : DiagnosisReport → Cell
  history_cell : List Str → Cell
  checkpoint_cell : List Finding → Cell
  task_cell : TaskAt → Cell
  items_cell : List TaskAt → Cell
  list_cell : TaskListAt → Cell
  target_cell : DiagnosisTarget → Cell
  policy_cell : DiagnosisPolicy → Cell
  finding_cell : Finding → Cell
  spec_cell : SpecAt → Cell
  status_cell : StatusAt → Cell

-- What a cell holds; Go's types leave no cell of another kind at a pointer.
abbrev pub labels_of : Cell → Labels
labels_of (labels_cell l) = l
labels_of _ = []

abbrev pub context_of : Cell → ContextAt
context_of (context_cell c) = c
context_of _ = record { name = []; labels = none }

abbrev pub report_of : Cell → DiagnosisReport
report_of (report_cell r) = r
report_of _ = record { root_cause = []; suggestion = [] }

abbrev pub history_of : Cell → List Str
history_of (history_cell l) = l
history_of _ = []

abbrev pub checkpoint_of : Cell → List Finding
checkpoint_of (checkpoint_cell l) = l
checkpoint_of _ = []

abbrev pub target_of : Cell → DiagnosisTarget
target_of (target_cell t) = t
target_of _ = record { namespace = []; name = []; kind = [] }

abbrev pub policy_of : Cell → DiagnosisPolicy
policy_of (policy_cell p) = p
policy_of _ = record { max_steps = pos 0 }

abbrev pub finding_of : Cell → Finding
finding_of (finding_cell f) = f
finding_of _ = record { step = 0; tool_name = []; tool_args = []; summary = []; timestamp = [] }

abbrev pub spec_of : Cell → SpecAt
spec_of (spec_cell s) = s
spec_of _ = record {
  target = target_of (labels_cell []);
  policy = policy_of (labels_cell []);
  alert_context = none;
  approved = false;
}

abbrev pub status_of : Cell → StatusAt
status_of (status_cell s) = s
status_of _ = record {
  phase = DiagnosisPhase.unset;
  report = none;
  history = none;
  checkpoint = none;
  matched_skill = [];
  message = [];
}

abbrev pub task_of : Cell → TaskAt
task_of (task_cell t) = t
task_of _ = record {
  name = [];
  namespace = [];
  is_deleting = false;
  spec = spec_of (labels_cell []);
  status = status_of (labels_cell []);
}

abbrev pub items_of : Cell → List TaskAt
items_of (items_cell l) = l
items_of _ = []

abbrev pub list_of : Cell → TaskListAt
list_of (list_cell l) = l
list_of _ = record { items = none }

-- The cells below `next` are in use.
pub record Heap : Type 0 where
  pub next : ℕ
  pub cells : ℕ → Cell

abbrev pub store : ℕ → Cell → Heap → Heap
store a v h = record h { cells = λ b. if b == a then v else h.cells b }

abbrev pub alloc : Cell → Heap → ℕ × Heap
alloc v h =
    (h.next, record { next = h.next + 1; cells = λ b. if b == h.next then v else h.cells b })
