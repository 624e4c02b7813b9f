-- ===== src/Alert/Creator.antt =====
-- internal/alert/creator.go: the task that is created for a group. The cluster is outside: its
-- `Create` call answers, and may change the state `W`.
use kubeminds.Prelude.{ℕ, false, [], ◌∷◌, ◌++◌, Option, none, some}
use kubeminds.Prelude.Bytes.{Str, lit}
use kubeminds.Prelude.Int.{pos}
use kubeminds.Crd.{DiagnosisTarget, DiagnosisTask, DiagnosisPhase}
use kubeminds.Alert.Types.{AlertGroup, GroupKey, or_default}
use kubeminds.Alert.Names.{build_task_name}

-- The answer to a `Create` call.
pub data CreateReply : Type 0 where
  created : CreateReply
  already_exists : CreateReply
  refused : Str → CreateReply

pub record Cluster (W : Type 0) : Type 0 where
  pub create : DiagnosisTask → W → CreateReply × W
  pub unix_milli : W → ℕ × W
  pub fold : ℕ → ℕ

target_of : Str → Str → Str → DiagnosisTarget
unfolding lit
target_of ns fallback [] = record { namespace = fallback; name = fallback; kind = lit "Namespace" }
target_of ns fallback (b ∷ bs) = record { namespace = ns; name = b ∷ bs; kind = lit "Pod" }

unfoldable pub build_target : Str → AlertGroup → DiagnosisTarget
unfolding target_of
build_target creator_namespace group =
    target_of group.namespace (or_default group.namespace creator_namespace) group.pod

-- Copying the merged labels is the identity on values. The fields that the source leaves out have
-- their zero values.
unfoldable pub build_task : Str → Str → AlertGroup → DiagnosisTask
unfolding build_target
build_task name creator_namespace group = record {
  name = name;
  namespace = creator_namespace;
  is_deleting = false;
  spec = record {
    target = build_target creator_namespace group;
    policy = record { max_steps = pos 0 };
    alert_context = some (record { name = group.alert_name; labels = group.merged_labels });
    approved = false;
  };
  status = record {
    phase = DiagnosisPhase.unset;
    report = none;
    history = [];
    checkpoint = [];
    matched_skill = [];
    message = [];
  };
}

-- `Create` of the creator: the error, if the cluster refuses for another reason than that the
-- task is there.
unfoldable pub create_error : GroupKey → CreateReply → Option Str
unfolding lit
create_error key created = none
create_error key already_exists = none
create_error key (refused e) =
    some (lit "failed to create DiagnosisTask for alert group " ++ (key ++ (lit ": " ++ e)))

unfoldable pub create_task : {W : Type 0} → Cluster W → Str → AlertGroup → W → Option Str × W
unfolding create_error build_task build_task_name
create_task c creator_namespace group w =
    let (millis, w') = c.unix_milli w in
    let name = build_task_name c.fold group.alert_name millis in
    let (reply, w'') = c.create (build_task name creator_namespace group) w' in
    (create_error group.key reply, w'')
