-- ===== src/Agent/EventStore.antt =====
-- internal/agent/memory_l2.go: the alert events in Redis streams. The client is outside.
use kubeminds.Prelude.{
  Bool, true, ℕ, zero, suc, ◌+◌, ◌*◌, ◌/◌, List, [], ◌∷◌, ◌++◌, Option, none, some, ◌||◌, leb,
  if◌then◌else◌,
}
use kubeminds.Prelude.Int.{ℤ, pos, negsuc, int_text, wrap64}
use kubeminds.Prelude.Decimal.{parse_int}
use kubeminds.Prelude.Bytes.{Str, lit, str_eq, is_empty}
use kubeminds.Prelude.Maps.{Map, lookup}
use kubeminds.Prelude.Errors.{Fallible, ok, err}
use kubeminds.Agent.Types.{AlertEvent, zero_time}

-- The values of `redis.XMessage`; `none` is a value that is no string.
abbrev pub Entry : Type 0
Entry = Map (Option Str)

-- `XAdd` with an approximate maximal length, `Expire`, and `XRevRangeN` from "+" to "-".
pub record Redis (W : Type 0) : Type 0 where
  pub x_add : Str → ℕ → Entry → W → Option Str × W
  pub expire : Str → ℤ → W → Option Str × W
  pub x_rev_range : Str → ℤ → W → Fallible (List Entry) × W

-- `time.Unix(n, 0)` and `t.Unix()`
abbrev pub from_unix : ℤ → ℤ
from_unix (pos n) = pos (n * 1000000000)
from_unix (negsuc n) = negsuc (n * 1000000000 + 999999999)

abbrev pub to_unix : ℤ → ℤ
to_unix (pos t) = pos (t / 1000000000)
to_unix (negsuc t) = negsuc (t / 1000000000)

abbrev pub stream_key : Str → Str
stream_key namespace = lit "kubeminds:events:" ++ namespace

-- The values of an event in the stream.
unfoldable pub entry_of : AlertEvent → Entry
entry_of e =
    (lit "alert_name", some e.alert_name)
    ∷ (lit "namespace", some e.namespace)
    ∷ (lit "pod", some e.pod)
    ∷ (lit "count", some (int_text e.count))
    ∷ (lit "first_seen", some (int_text (to_unix e.first_seen)))
    ∷ (lit "last_seen", some (int_text (to_unix e.last_seen)))
    ∷ []

abbrev pub text_or_empty : Option (Option Str) → Str
text_or_empty (some (some s)) = s
text_or_empty _ = []

abbrev pub field_text : Str → Entry → Str
field_text k e = text_or_empty (lookup k e)

abbrev pub time_of : ℤ → ℤ
time_of (pos zero) = zero_time
time_of n = from_unix n

-- `parseL2StreamEntry`
unfoldable pub parse_l2_stream_entry : Entry → AlertEvent
parse_l2_stream_entry e = record {
  alert_name = field_text (lit "alert_name") e;
  namespace = field_text (lit "namespace") e;
  pod = field_text (lit "pod") e;
  count = parse_int (field_text (lit "count") e);
  first_seen = time_of (parse_int (field_text (lit "first_seen") e));
  last_seen = time_of (parse_int (field_text (lit "last_seen") e));
}

-- `len(events) >= limit`
abbrev pub is_reached : ℤ → ℕ → Bool
is_reached (pos limit) n = leb limit n
is_reached (negsuc limit) n = true

-- The loop of `GetRecentEvents`, with the number of events so far.
unfoldable pub collect_events : Str → ℤ → ℕ → List Entry → List AlertEvent
collect_events pod limit n [] = []
collect_events pod limit n (e ∷ es) =
    let ev = parse_l2_stream_entry e in
    let found = collect_events pod limit (suc n) es in
    let skipped = collect_events pod limit n es in
    if is_empty pod || str_eq ev.pod pod
    then (if is_reached limit (suc n) then ev ∷ [] else ev ∷ found)
    else (if is_reached limit n then [] else skipped)

-- `limit * 4`
abbrev times_four : ℤ → ℤ
times_four (pos n) = wrap64 (pos (n * 4))
times_four (negsuc n) = wrap64 (negsuc (n * 4 + 3))

-- How many entries are asked for: four times as many, if they are filtered by pod.
unfoldable pub fetch_n : Str → ℤ → ℤ
unfolding wrap64
fetch_n pod limit = if is_empty pod then limit else times_four limit

module _ {W : Type 0} (r : Redis W) where
  abbrev pub appended : Str → ℤ → Option Str × W → Option Str × W
  appended key ttl (some e, w) = (some (lit "l2: xadd to stream " ++ (key ++ (lit ": " ++ e))), w)
  appended key ttl (none, w) = (none, (r.expire key ttl w).1)

  -- `AppendAlertEvent`, with the retention of the store, and the error that it returns.
  unfoldable pub append_alert_event : ℤ → AlertEvent → W → Option Str × W
  append_alert_event ttl event w =
      let key = stream_key event.namespace in appended key ttl (r.x_add key 500 (entry_of event) w)

  abbrev pub recent_of : Str → Str → ℤ → Fallible (List Entry) → Fallible (List AlertEvent)
  recent_of key pod limit (err e) = err (lit "l2: xrevrange on stream " ++ (key ++ (lit ": " ++ e)))
  recent_of key pod limit (ok entries) = ok (collect_events pod limit 0 entries)

  -- `GetRecentEvents`
  unfoldable pub get_recent_events : Str → Str → ℤ → W → Fallible (List AlertEvent) × W
  unfolding fetch_n
  get_recent_events namespace pod limit w =
      let key = stream_key namespace in
      let (reply, w') = r.x_rev_range key (fetch_n pod limit) w in
      (recent_of key pod limit reply, w')
