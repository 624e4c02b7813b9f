-- ===== src/Alert/Aggregator.antt =====
-- internal/alert/aggregator.go: the groups of the current window. The lock makes `Ingest` and the
-- collection of `sweep` one step each; the time of a call is its argument. The window is not
-- negative.
use kubeminds.Prelude.{ℕ, ◌+◌, ◌-◌, Bool, true, false, List, [], ◌∷◌, ◌++◌, Option, none, some}
use kubeminds.Prelude.Tests.{ltb, if◌then◌else◌}
use kubeminds.Prelude.Lists.{length}
use kubeminds.Prelude.Int.{pos}
use kubeminds.Prelude.Bytes.{Str, lit}
use kubeminds.Prelude.Maps.{Map, lookup, insert, merge, label}
use kubeminds.Agent.Types.{AlertEvent}
use kubeminds.Alert.Types.{AlertItem, AlertGroup, GroupKey, build_group_key}
use kubeminds.Alert.Creator.{Cluster, create_task}

pub record Aggregator : Type 0 where
  pub groups : Map AlertGroup
  pub window_size : ℕ
  pub namespace : Str
  pub has_l2_store : Bool

unfoldable pub new_aggregator : Str → ℕ → Bool → Aggregator
new_aggregator namespace window_size has_l2_store = record {
  groups = [];
  window_size = window_size;
  namespace = namespace;
  has_l2_store = has_l2_store;
}

-- A group with no alert in it yet.
unfoldable pub new_group : GroupKey → AlertItem → ℕ → AlertGroup
unfolding label lit
new_group key item now = record {
  key = key;
  merged_labels = [];
  alert_name = label (lit "alertname") item.labels;
  namespace = label (lit "namespace") item.labels;
  pod = label (lit "pod") item.labels;
  first_seen = now;
  last_seen = 0;
  count = 0;
}

unfoldable pub add_alert : AlertItem → ℕ → AlertGroup → AlertGroup
unfolding merge
add_alert item now group = record group {
  merged_labels = merge item.labels group.merged_labels;
  last_seen = now;
  count = group.count + 1;
}

abbrev pub or_new : Option AlertGroup → AlertGroup → AlertGroup
or_new none g = g
or_new (some h) g = h

unfoldable pub ingest_groups : ℕ → AlertItem → Map AlertGroup → Map AlertGroup
unfolding build_group_key new_group add_alert insert lookup
ingest_groups now item groups =
    let key = build_group_key item.labels in
    insert key (add_alert item now (or_new (lookup key groups) (new_group key item now))) groups

-- `Ingest`, with the error that it returns.
unfoldable pub ingest : ℕ → AlertItem → Aggregator → Option Str × Aggregator
unfolding ingest_groups
ingest now item a = (none, record a { groups = ingest_groups now item a.groups })

unfoldable pub group_count : Aggregator → ℕ
group_count a = length a.groups

-- `now.Sub(group.LastSeen) > a.windowSize`
abbrev pub is_expired : ℕ → ℕ → AlertGroup → Bool
is_expired window now g = ltb window (now - g.last_seen)

-- The loop of `sweep` under the lock: the expired groups, and what stays in the map.
unfoldable pub collect : ℕ → ℕ → Map AlertGroup → List AlertGroup × Map AlertGroup
collect window now [] = ([], [])
collect window now ((k, g) ∷ m) =
    let (expired, kept) = collect window now m in
    if is_expired window now g then (g ∷ expired, kept) else (expired, (k, g) ∷ kept)

-- The event that `flush` hands to the goroutine that writes to the L2 store.
unfoldable pub event_of : AlertGroup → AlertEvent
event_of g = record {
  alert_name = g.alert_name;
  namespace = g.namespace;
  pod = g.pod;
  count = pos g.count;
  first_seen = pos g.first_seen;
  last_seen = pos g.last_seen;
}

-- What a flush ends with: the error, or the event for the store, if there is a store.
pub data Flushed : Type 0 where
  flush_failed : Str → Flushed
  flushed : Option AlertEvent → Flushed

unfoldable pub after_create : Bool → AlertGroup → Option Str → Flushed
unfolding event_of lit
after_create has_l2_store g (some e) =
    flush_failed (lit "flush alert group " ++ (g.key ++ (lit ": " ++ e)))
after_create true g none = flushed (some (event_of g))
after_create false g none = flushed none

module _ {W : Type 0} (c : Cluster W) where
  unfoldable pub flush : Aggregator → AlertGroup → W → Flushed × W
  unfolding create_task after_create
  flush a g w =
      let (error, w') = create_task c a.namespace g w in (after_create a.has_l2_store g error, w')

  unfoldable pub flush_all : Aggregator → List AlertGroup → W → List Flushed × W
  unfolding flush
  flush_all a [] w = ([], w)
  flush_all a (g ∷ gs) w =
      let (r, w') = flush a g w in let (rs, w'') = flush_all a gs w' in (r ∷ rs, w'')

  -- `sweep`: an error of a flush is logged, and the group is gone in any case.
  unfoldable pub sweep : ℕ → Aggregator → W → Aggregator × List Flushed × W
  unfolding collect flush_all
  sweep now a w =
      let (expired, kept) = collect a.window_size now a.groups in
      let (results, w') = flush_all a expired w in (record a { groups = kept }, results, w')
