-- ===== src/Alert/Types.antt =====
-- internal/alert/types.go: alerts, groups and the key of a group. Times are nanoseconds.
use kubeminds.Prelude.{ℕ, [], ◌∷◌, ◌++◌}
use kubeminds.Prelude.Bytes.{Str, lit}
use kubeminds.Prelude.Maps.{Labels, label}

pub record AlertItem : Type 0 where
  pub status : Str
  pub labels : Labels
  pub annotations : Labels
  pub starts_at : ℕ
  pub ends_at : ℕ
  pub generator_url : Str
  pub fingerprint : Str

abbrev pub GroupKey : Type 0
GroupKey = Str

pub record AlertGroup : Type 0 where
  pub key : GroupKey
  pub merged_labels : Labels
  pub alert_name : Str
  pub namespace : Str
  pub pod : Str
  pub first_seen : ℕ
  pub last_seen : ℕ
  pub count : ℕ

-- `if s == "" { s = d }`
abbrev pub or_default : Str → Str → Str
or_default [] d = d
or_default (b ∷ bs) d = b ∷ bs

-- `alertname + "/" + namespace + "/" + pod`
unfoldable pub key_of : Str → Str → Str → GroupKey
key_of alertname namespace pod = alertname ++ (b'/' ∷ (namespace ++ (b'/' ∷ pod)))

unfoldable pub build_group_key : Labels → GroupKey
unfolding key_of label lit
build_group_key labels =
    key_of (or_default (label (lit "alertname") labels) (lit "unknown"))
      (or_default (label (lit "namespace") labels) (lit "_"))
      (or_default (label (lit "pod") labels) (lit "_"))
