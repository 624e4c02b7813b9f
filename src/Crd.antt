-- ===== src/Crd.antt =====
-- api/v1alpha1/diagnosistask_types.go: the DiagnosisTask resource.
pub mod Heap
pub mod DeepCopy
pub mod Stores
pub mod Copier
pub mod Pointing
pub mod Slices
pub mod Copiers
pub mod Copied
use kubeminds.Prelude.{ℕ, Bool, Option, List}
use kubeminds.Prelude.Bytes.{Str}
use kubeminds.Prelude.Int.{ℤ}
use kubeminds.Prelude.Maps.{Labels}

pub record DiagnosisTarget : Type 0 where
  pub namespace : Str
  pub name : Str
  pub kind : Str

pub record DiagnosisPolicy : Type 0 where
  pub max_steps : ℤ

pub record AlertContext : Type 0 where
  pub name : Str
  pub labels : Labels

pub record DiagnosisTaskSpec : Type 0 where
  pub target : DiagnosisTarget
  pub policy : DiagnosisPolicy
  pub alert_context : Option AlertContext
  pub approved : Bool

-- `unset` is the empty string, the phase of a task that the controller has not seen.
pub data DiagnosisPhase : Type 0 where
  unset pending running waiting_approval completed failed : DiagnosisPhase

pub record Finding : Type 0 where
  pub step : ℕ
  pub tool_name : Str
  pub tool_args : Str
  pub summary : Str
  pub timestamp : Str

pub record DiagnosisReport : Type 0 where
  pub root_cause : Str
  pub suggestion : Str

pub record DiagnosisTaskStatus : Type 0 where
  pub phase : DiagnosisPhase
  pub report : Option DiagnosisReport
  pub history : List Str
  pub checkpoint : List Finding
  pub matched_skill : Str
  pub message : Str

-- Of the object's metadata, the name, the namespace and whether a deletion timestamp is set.
pub record DiagnosisTask : Type 0 where
  pub name : Str
  pub namespace : Str
  pub is_deleting : Bool
  pub spec : DiagnosisTaskSpec
  pub status : DiagnosisTaskStatus
