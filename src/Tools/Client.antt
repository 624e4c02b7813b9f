-- ===== src/Tools/Client.antt =====
-- What the tools (internal/tools) use of client-go and of the JSON library. `O` is the type of an
-- object of the cluster, `S` that of an open stream.
use kubeminds.Prelude.{ℕ, List, Option}
use kubeminds.Prelude.Bytes.{Str}
use kubeminds.Prelude.Int.{ℤ}
use kubeminds.Prelude.Errors.{Fallible}

pub data Kind : Type 0 where
  pod node service endpoints pvc pv : Kind

-- The namespace and the name of an object. A kind with no namespace has the empty one.
pub record ObjectArgs : Type 0 where
  pub namespace : Str
  pub name : Str

pub record PatchDeploymentArgs : Type 0 where
  pub namespace : Str
  pub deployment_name : Str
  pub patch_json : Str

pub record ScaleStatefulSetArgs : Type 0 where
  pub namespace : Str
  pub stateful_set_name : Str
  pub replicas : ℤ

pub record KubeEvent : Type 0 where
  pub type : Str
  pub reason : Str
  pub message : Str
  pub count : ℤ

-- The calls of the cluster, the decoding of arguments, and the printing of an object without its
-- managed fields.
pub record Kube (W O S : Type 0) : Type 0 where
  pub get : Kind → Str → Str → W → Fallible O × W
  pub list_events : Str → Str → W → Fallible (List KubeEvent) × W
  pub open_logs : Str → Str → ℕ → W → Fallible S × W
  pub read_stream : S → W → Fallible Str × W
  pub delete_pod : Str → Str → W → Option Str × W
  pub patch_deployment : Str → Str → Str → W → Option Str × W
  pub update_scale : Str → Str → ℤ → W → Option Str × W
  pub pod_args : Str → Fallible ObjectArgs
  pub node_args : Str → Fallible ObjectArgs
  pub service_args : Str → Fallible ObjectArgs
  pub pvc_args : Str → Fallible ObjectArgs
  pub pv_args : Str → Fallible ObjectArgs
  pub delete_pod_args : Str → Fallible ObjectArgs
  pub patch_deployment_args : Str → Fallible PatchDeploymentArgs
  pub scale_stateful_set_args : Str → Fallible ScaleStatefulSetArgs
  pub marshal_clean : O → Fallible Str
