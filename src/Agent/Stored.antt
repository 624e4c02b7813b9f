-- ===== src/Agent/Stored.antt =====
-- internal/agent/memory_l2.go: an event that was written is read back.
use kubeminds.Prelude.{
  ℕ, zero, suc, ◌+◌, ◌-◌, ◌*◌, ◌^◌, ◌<◌, ◌≡◌, ◌≢◌, inl, inr, refl, sym, ap, ◌∙◌, Bool, true, false,
  List, [], ◌∷◌, Option, none, some, map, ◌||◌, arith, if◌then◌else◌, Bool-cases, none_ne_some, leb,
}
use kubeminds.Prelude.Int.{ℤ, pos, negsuc, int_text, wrap64-small}
use kubeminds.Prelude.Lists.{take, keep}
use kubeminds.Prelude.Bytes.{Str, lit, str_eq, is_empty}
use kubeminds.Prelude.Decimal.{parse_int, IsInt64, parse_int-int_text}
use kubeminds.Prelude.Maps.{lookup}
use kubeminds.Prelude.Errors.{Fallible, ok, err, err_ne_ok, ok-injective}
use kubeminds.Agent.Types.{AlertEvent}
use kubeminds.Agent.EventStore.{
  Entry, Redis, fetch_n, from_unix, to_unix, stream_key, entry_of, time_of, parse_l2_stream_entry,
  collect_events, appended, recent_of, append_alert_event, get_recent_events,
}

-- A time in whole seconds that the store can hold: it is not in the first second of 1970, which
-- stands for no time.
pub record IsStorable (t : ℤ) : Type 0 where
  pub bounded : IsInt64 (to_unix t)
  pub not_zero : to_unix t ≢ pos 0

-- The event with its times cut to seconds.
abbrev pub in_seconds : AlertEvent → AlertEvent
in_seconds e = record e {
  first_seen = from_unix (to_unix e.first_seen);
  last_seen = from_unix (to_unix e.last_seen);
}

time_of-nonzero : (z : ℤ) → z ≢ pos 0 → time_of z ≡ from_unix z
time_of-nonzero (pos zero) h = absurd (h refl)
time_of-nonzero (pos (suc n)) h = refl
time_of-nonzero (negsuc n) h = refl

stored_time :
    (t : ℤ) → IsStorable t → time_of (parse_int (int_text (to_unix t))) ≡ from_unix (to_unix t)
stored_time t h =
    rw (parse_int-int_text (to_unix t) h.bounded) (time_of-nonzero (to_unix t) h.not_zero)

pub record IsEvent (e : AlertEvent) : Type 0 where
  pub count : IsInt64 e.count
  pub first : IsStorable e.first_seen
  pub last : IsStorable e.last_seen

parse_l2_stream_entry-entry_of :
    (e : AlertEvent) → IsEvent e → parse_l2_stream_entry (entry_of e) ≡ in_seconds e
unfolding parse_l2_stream_entry entry_of lookup lit str_eq
parse_l2_stream_entry-entry_of e h =
    rw
      (
        parse_int-int_text e.count h.count,
        stored_time e.first_seen h.first,
        stored_time e.last_seen h.last,
      )
      refl

abbrev pub is_wanted : Str → AlertEvent → Bool
is_wanted pod e = is_empty pod || str_eq e.pod pod

-- The loop takes the first events that are wanted.
collect_events-take :
    (pod : Str) (limit left n : ℕ) (es : List Entry)
    → limit ≡ n + suc left
    → collect_events pod (pos limit) n es
      ≡ take (suc left) (keep (is_wanted pod) (map parse_l2_stream_entry es))
unfolding collect_events keep
collect_events-take pod limit left n [] h = refl
collect_events-take pod limit left n (e ∷ es) h =
    elim (Bool-cases (is_wanted pod (parse_l2_stream_entry e))) [
      | inr y ↦
          let more : leb limit n ≡ false = ground arith in
          rw (y, more) (collect_events-take pod limit left n es h)
      | inl y ↦ rw y (wanted left h (λ k q. collect_events-take pod limit k (suc n) es q))
    ]
  where
    wanted :
        (k : ℕ)
        → limit ≡ n + suc k
        → ((i : ℕ)
            → limit ≡ suc n + suc i
            → collect_events pod (pos limit) (suc n) es
              ≡ take (suc i) (keep (is_wanted pod) (map parse_l2_stream_entry es)))
        → (if leb limit (suc n)
            then parse_l2_stream_entry e ∷ []
            else parse_l2_stream_entry e ∷ collect_events pod (pos limit) (suc n) es)
          ≡ parse_l2_stream_entry e ∷ take k (keep (is_wanted pod) (map parse_l2_stream_entry es))
    wanted zero q others = let last : leb limit (suc n) ≡ true = ground arith in rw last refl
    wanted (suc k) q others =
        let more : leb limit (suc n) ≡ false = ground arith in
        rw more (ap (λ xs. parse_l2_stream_entry e ∷ xs) (others k (omega arith)))

-- The streams of a server: an entry is added in front of what the trimming keeps, a positive retention
-- keeps the entries, and a range of a positive number reads from the newest on.
pub record IsServer {W : Type 0} (r : Redis W) (stream : Str → W → List Entry) : Type 0 where
  pub adds :
      (key : Str) (n : ℕ) (v : Entry) (w : W)
      → (r.x_add key n v w).0 ≡ none
      → (kept : List Entry) × (stream key (r.x_add key n v w).1 ≡ v ∷ kept)
  pub expires :
      (key : Str) (n : ℕ) (w : W) → stream key (r.expire key (pos (suc n)) w).1 ≡ stream key w
  pub ranges :
      (key : Str) (n : ℕ) (w : W) (es : List Entry)
      → (r.x_rev_range key (pos (suc n)) w).0 ≡ ok es
      → es ≡ take (suc n) (stream key w)

-- The entries that are asked for: four times as many, if they are filtered by pod.
abbrev pub fetched : Str → ℕ → ℕ
fetched pod limit = if is_empty pod then limit else limit * 4

fetched-suc : (pod : Str) (left : ℕ) → fetched pod (suc left) ≡ suc (fetched pod (suc left) - 1)
fetched-suc [] left = omega arith
fetched-suc (b ∷ bs) left = omega arith

fetch_n-fetched :
    (pod : Str) (left : ℕ)
    → suc left * 4 < 2 ^ 63
    → fetch_n pod (pos (suc left)) ≡ pos (suc (fetched pod (suc left) - 1))
unfolding fetch_n
fetch_n-fetched [] left h = ap pos (fetched-suc [] left)
fetch_n-fetched (b ∷ bs) left h = wrap64-small (suc left * 4) h ∙ ap pos (fetched-suc (b ∷ bs) left)

module _ {W : Type 0} (r : Redis W) (stream : Str → W → List Entry)
    (server : IsServer r stream) where
  appended-stream :
      (key : Str) (ttl : ℕ) (v : Entry) (p : Option Str × W)
      → (p.0 ≡ none → (kept : List Entry) × (stream key p.1 ≡ v ∷ kept))
      → (appended r key (pos (suc ttl)) p).0 ≡ none
      → (kept : List Entry) × (stream key (appended r key (pos (suc ttl)) p).1 ≡ v ∷ kept)
  appended-stream key ttl v (some e, w) add h = absurd (none_ne_some (sym h))
  appended-stream key ttl v (none, w) add h =
      let (kept, q) = add refl in (kept, server.expires key ttl w ∙ q)

  append_alert_event-stream :
      (ttl : ℕ) (e : AlertEvent) (w : W)
      → (append_alert_event r (pos (suc ttl)) e w).0 ≡ none
      → (kept : List Entry) × (stream
            (stream_key e.namespace)
            (append_alert_event r (pos (suc ttl)) e w).1
          ≡ entry_of e ∷ kept)
  unfolding append_alert_event
  append_alert_event-stream ttl e w h =
      let key = stream_key e.namespace in
      appended-stream key ttl (entry_of e) (r.x_add key 500 (entry_of e) w)
        (server.adds key 500 (entry_of e) w) h

  recent_of-take :
      (key pod : Str) (left : ℕ) (reply : Fallible (List Entry)) (events : List AlertEvent)
      → recent_of r key pod (pos (suc left)) reply ≡ ok events
      → (es : List Entry) × (reply ≡ ok es)
        × (events ≡ take (suc left) (keep (is_wanted pod) (map parse_l2_stream_entry es)))
  recent_of-take key pod left (err x) events h = absurd (err_ne_ok h)
  recent_of-take key pod left (ok es) events h =
      (es, refl, sym (ok-injective h) ∙ collect_events-take pod (suc left) left 0 es (omega arith))

  get_recent_events-stream :
      (namespace pod : Str) (left : ℕ) (w : W) (events : List AlertEvent)
      → suc left * 4 < 2 ^ 63
      → (get_recent_events r namespace pod (pos (suc left)) w).0 ≡ ok events
      → events
        ≡ take (suc left) (
            keep (is_wanted pod) (
              map parse_l2_stream_entry
                (take (fetched pod (suc left)) (stream (stream_key namespace) w))))
  unfolding get_recent_events
  get_recent_events-stream namespace pod left w events small h =
      let key = stream_key namespace in
      let n = fetched pod (suc left) - 1 in
      let asked = fetch_n-fetched pod left small in
      let (es, q, e) =
        recent_of-take key pod left (r.x_rev_range key (fetch_n pod (pos (suc left))) w).0 events
          h in
      let got : (r.x_rev_range key (pos (suc n)) w).0 ≡ ok es =
        ap (λ m. (r.x_rev_range key m w).0) (sym asked) ∙ q in
      let found : ℕ → List AlertEvent = λ m.
        take (suc left)
          (keep (is_wanted pod) (map parse_l2_stream_entry (take m (stream key w)))) in
      e
      ∙ ap (λ xs. take (suc left) (keep (is_wanted pod) (map parse_l2_stream_entry xs)))
          (server.ranges key n w es got)
      ∙ ap found (sym (fetched-suc pod left))

first-take :
    (pod : Str) (left : ℕ) (x y : AlertEvent) (xs : List AlertEvent)
    → x ≡ y
    → is_wanted pod y ≡ true
    → take (suc left) (keep (is_wanted pod) (x ∷ xs)) ≡ y ∷ take left (keep (is_wanted pod) xs)
unfolding keep
first-take pod left x y xs e h = rw (e, h) refl

-- What is read back after an event was appended.
pub record IsRead {W : Type 0} (stream : Str → W → List Entry) (e : AlertEvent) (pod : Str)
    (left : ℕ) (w : W) (events : List AlertEvent) : Type 0 where
  pub older : List Entry
  pub at_end : stream (stream_key e.namespace) w ≡ entry_of e ∷ older
  pub first :
      events
      ≡ in_seconds e
        ∷ take left (
            keep
              (is_wanted pod)
              (map parse_l2_stream_entry (take (fetched pod (suc left) - 1) older)))

-- An event that was appended without an error is the first that is read back from its namespace,
-- with its times cut to seconds, and behind it come the next wanted events among the entries that
-- were fetched, up to the limit. It holds for a limit of at least one that, times four, fits
-- 64 bits, for all pods or for its own, with a positive retention, where the count and the seconds fit 64 bits, the times are not in the first second of 1970, and
-- the server adds an entry at the new end of a stream, keeps the entries under a positive retention, and
-- reads a range from the new end on.
pub get_recent_events-append :
    {W : Type 0} (r : Redis W) (stream : Str → W → List Entry)
    → IsServer r stream
    → (ttl : ℕ) (e : AlertEvent) (pod : Str) (left : ℕ) (w : W) (events : List AlertEvent)
    → IsEvent e
    → is_wanted pod e ≡ true
    → suc left * 4 < 2 ^ 63
    → (append_alert_event r (pos (suc ttl)) e w).0 ≡ none
    → (get_recent_events r e.namespace pod
        (pos (suc left))
        (append_alert_event r (pos (suc ttl)) e w).1).0
      ≡ ok events
    → IsRead stream e pod left (append_alert_event r (pos (suc ttl)) e w).1 events
get_recent_events-append r stream server ttl e pod left w events fits wanted small a g =
    let (kept, q) = append_alert_event-stream r stream server ttl e w a in
    let found : ℕ → List Entry → List AlertEvent =
      λ n s. take (suc left) (keep (is_wanted pod) (map parse_l2_stream_entry (take n s))) in
    record {
      older = kept;
      at_end = q;
      first =
          get_recent_events-stream r stream server e.namespace pod left _ events small g
          ∙ ap (λ s. found (fetched pod (suc left)) s) q
          ∙ ap (λ n. found n (entry_of e ∷ kept)) (fetched-suc pod left)
          ∙ first-take pod left (parse_l2_stream_entry (entry_of e)) (in_seconds e) _
              (parse_l2_stream_entry-entry_of e fits) wanted;
    }
