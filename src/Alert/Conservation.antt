-- ===== src/Alert/Conservation.antt =====
-- No alert is lost or counted twice on its way through internal/alert: the webhook, the groups and
-- the sweeps.
use kubeminds.Prelude.{
  ℕ, suc, ◌+◌, ◌≡◌, refl, ◌⊎◌, inl, inr, List, [], ◌∷◌, Option, none, some, arith, Bool-cases, ◌≤◌,
}
use kubeminds.Prelude.Tests.{if◌then◌else◌}
use kubeminds.Prelude.Bytes.{Str}
use kubeminds.Prelude.Maps.{Map, lookup, insert}
use kubeminds.Prelude.Errors.{Fallible, ok, err}
use kubeminds.Alert.Types.{AlertItem, AlertGroup, build_group_key}
use kubeminds.Alert.Creator.{Cluster}
use kubeminds.Prelude.Int.{ℤ, pos, negsuc}
use kubeminds.Alert.Aggregator.{
  Flushed, flushed, flush_failed, Aggregator, new_group, add_alert, or_new, ingest_groups, ingest,
  sweep,
}
use kubeminds.Alert.Handler.{accepted, bad_request, is_firing, ingest_all, serve_webhook}

-- The alerts in the groups of a map, and in a list of groups.
abbrev pub total : Map AlertGroup → ℕ
total [] = 0
total ((_, g) ∷ m) = g.count + total m

abbrev pub total_of : List AlertGroup → ℕ
total_of [] = 0
total_of (g ∷ gs) = g.count + total_of gs

abbrev count_of : Option AlertGroup → ℕ
count_of none = 0
count_of (some g) = g.count

total-insert :
    (k : Str) (g : AlertGroup) (m : Map AlertGroup)
    → total (insert k g m) + count_of (lookup k m) ≡ total m + g.count
unfolding insert lookup
total-insert k g [] = omega arith
total-insert k g ((j, h) ∷ m) = ground (arith, total-insert k g m)

found_count :
    (now : ℕ) (item : AlertItem) (key : Str) (o : Option AlertGroup)
    → (add_alert item now (or_new o (new_group key item now))).count ≡ count_of o + 1
unfolding add_alert new_group
found_count now item key none = refl
found_count now item key (some g) = refl

ingest_groups-total :
    (now : ℕ) (item : AlertItem) (m : Map AlertGroup)
    → total (ingest_groups now item m) ≡ total m + 1
unfolding ingest_groups
ingest_groups-total now item m =
    let key = build_group_key item.labels in
    omega (
      arith,
      found_count now item key (lookup key m),
      total-insert key (add_alert item now (or_new (lookup key m) (new_group key item now))) m,
    )

abbrev pub firing : List (ℕ × AlertItem) → ℕ
firing [] = 0
firing ((_, item) ∷ items) = if is_firing item then suc (firing items) else firing items

ingest_all-total :
    (items : List (ℕ × AlertItem)) (a : Aggregator)
    → ((ingest_all items a).0 ≡ accepted)
      × (total (ingest_all items a).1.groups ≡ total a.groups + firing items)
unfolding ingest_all ingest
ingest_all-total [] a = (refl, omega arith)
ingest_all-total ((now, item) ∷ items) a = elim (Bool-cases (is_firing item)) [
  | inl e ↦
      let a' : Aggregator = record a { groups = ingest_groups now item a.groups } in
      let (s, t) = ingest_all-total items a' in
      rw e (s, omega (arith, t, ingest_groups-total now item a.groups))
  | inr e ↦ rw e (ingest_all-total items a)
]

-- A body that decodes is accepted, and adds to the groups exactly its firing alerts; one that does
-- not is a bad request and changes nothing.
pub serve_webhook-total :
    (body : Fallible (List (ℕ × AlertItem))) (a : Aggregator)
    → let (status, a') = serve_webhook body a in
      ((items : List (ℕ × AlertItem)) × (body ≡ ok items)
        × (status ≡ accepted)
        × (total a'.groups ≡ total a.groups + firing items))
      ⊎ ((status ≡ bad_request) × (a' ≡ a))
unfolding serve_webhook
serve_webhook-total (ok items) a = let (s, t) = ingest_all-total items a in inl (items, refl, s, t)
serve_webhook-total (err e) a = inr (refl, refl)

-- What the results of a sweep hand to the event store, counted in alerts, and the groups whose task
-- could not be made.
abbrev size_of : ℤ → ℕ
size_of (pos n) = n
size_of (negsuc n) = 0

unfoldable pub handed_over : List Flushed → ℕ
handed_over [] = 0
handed_over (flushed (some e) ∷ rs) = size_of e.count + handed_over rs
handed_over (flushed none ∷ rs) = handed_over rs
handed_over (flush_failed e ∷ rs) = handed_over rs

unfoldable pub failures : List Flushed → ℕ
failures [] = 0
failures (flushed e ∷ rs) = failures rs
failures (flush_failed e ∷ rs) = suc (failures rs)

-- Alerts that were lost, with a failure for it.
abbrev pub LostBy : ℕ → ℕ → Type 0
LostBy failed lost = (lost ≡ 0) ⊎ (1 ≤ failed)

-- A history of the aggregator: bodies that decode, and sweeps.
pub data Event : Type 0 where
  webhook : List (ℕ × AlertItem) → Event
  sweeps : ℕ → Event

-- The aggregator and the world after a history, with the alerts that the sweeps have handed to the
-- event store and the groups that they have failed to flush.
pub record Past (W : Type 0) : Type 0 where
  pub aggregator : Aggregator
  pub handed : ℕ
  pub failed : ℕ
  pub world : W

module _ {W : Type 0} (c : Cluster W) where
  unfoldable pub step : Event → Past W → Past W
  unfolding handed_over failures
  step (webhook items) p = record p { aggregator = (serve_webhook (ok items) p.aggregator).1 }
  step (sweeps now) p =
      let (a, results, w) = sweep c now p.aggregator p.world in
      record {
        aggregator = a;
        handed = p.handed + handed_over results;
        failed = p.failed + failures results;
        world = w;
      }

  unfoldable pub history : List Event → Past W → Past W
  unfolding step
  history [] p = p
  history (e ∷ es) p = history es (step e p)

abbrev pub received : List Event → ℕ
received [] = 0
received (webhook items ∷ es) = firing items + received es
received (sweeps now ∷ es) = received es

-- The alerts of a state that are still in groups, and those that were handed over.
abbrev pub accounted : {W : Type 0} → Past W → ℕ
accounted p = total p.aggregator.groups + p.handed

-- From one state to a later one, with the alerts received in between.
abbrev pub Conserves : {W : Type 0} → ℕ → Past W → Past W → Type 0
Conserves n p q =
    (lost failed : ℕ) × (accounted q + lost ≡ accounted p + n)
    × (q.failed ≡ p.failed + failed)
    × LostBy failed lost
