-- ===== src/Examples/Streams.antt =====
-- An event in a Redis stream (internal/agent/memory_l2.go). The server keeps one list of entries
-- with their streams, the newest first.
use kubeminds.Prelude.{◌≡◌, refl, sym, true, if◌then◌else◌, List, [], ◌∷◌, none, arith}
use kubeminds.Prelude.Int.{pos, int_text, rounds}
use kubeminds.Prelude.Lists.{take}
use kubeminds.Prelude.Bytes.{Str, lit, str_eq, str_eq_refl}
use kubeminds.Prelude.Maps.{lookup}
use kubeminds.Prelude.Decimal.{parse_int, digits_value}
use kubeminds.Prelude.Errors.{ok, ok-injective}
use kubeminds.Agent.Types.{AlertEvent}
use kubeminds.Agent.EventStore.{
  Entry, Redis, collect_events, parse_l2_stream_entry, entry_of, append_alert_event,
  get_recent_events,
}
use kubeminds.Agent.Stored.{
  IsServer, IsEvent, IsRead, is_wanted, in_seconds, get_recent_events-append,
}

-- The entries of each stream.
abbrev Streams : Type 0
Streams = Str → List Entry

abbrev server : Redis Streams
server = record {
  x_add = λ key n v s. (none, λ k. if str_eq k key then v ∷ s k else s k);
  expire = λ key ttl s. (none, s);
  x_rev_range = λ key n s. (ok (take (rounds n) (s key)), s);
}

server-IsServer : IsServer server (λ key s. s key)
server-IsServer = record {
  adds = λ key n v s e. (s key, rw str_eq_refl refl);
  expires = λ key n s. refl;
  ranges = λ key n s es e. sym (ok-injective e);
}

abbrev event : AlertEvent
event = record {
  alert_name = lit "OOM";
  namespace = lit "prod";
  pod = lit "web-0";
  count = pos 3;
  first_seen = pos 5000000001;
  last_seen = pos 7999999999;
}

event-IsEvent : IsEvent event
event-IsEvent = record {
  count = omega arith;
  first = record { bounded = omega arith; not_zero = λ e. cc };
  last = record { bounded = omega arith; not_zero = λ e. cc };
}

abbrev after : Streams
after = (append_alert_event server (pos 1) event (λ k. [])).1

wanted : is_wanted (lit "web-0") event ≡ true
unfolding lit str_eq
wanted = refl

appends : (append_alert_event server (pos 1) event (λ k. [])).0 ≡ none
unfolding append_alert_event
appends = refl

reads :
    (get_recent_events server (lit "prod") (lit "web-0") (pos 3) after).0
    ≡ ok (in_seconds event ∷ [])
unfolding get_recent_events collect_events lit append_alert_event str_eq parse_l2_stream_entry
    lookup entry_of parse_int int_text digits_value
reads = refl

get_recent_events-append_example :
    IsRead (λ key s. s key) event (lit "web-0") 2 after (in_seconds event ∷ [])
get_recent_events-append_example =
    get_recent_events-append server (λ key s. s key) server-IsServer 0 event (lit "web-0") 2
      (λ k. []) (in_seconds event ∷ []) event-IsEvent wanted (omega arith) appends reads
