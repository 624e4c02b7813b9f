-- ===== src/Alert/Windows.antt =====
-- The groups of the aggregator (internal/alert/aggregator.go): what an alert changes, which groups
-- a sweep takes, and the invariant between two calls.
use kubeminds.Prelude.{
  ℕ, ◌+◌, ◌-◌, ◌≤◌, ◌<◌, ◌≡◌, refl, inl, inr, [], ◌∷◌, Option, none, some, arith, Bool-cases,
  Option-cases,
}
use kubeminds.Prelude.Tests.{if◌then◌else◌, ltb}
use kubeminds.Prelude.Lists.{All, All-map, keep}
use kubeminds.Prelude.Bytes.{Str, str_eq, str_eq_iff}
use kubeminds.Prelude.Maps.{
  Map, IsMap, values, lookup, lookup-insert, lookup-merge, insert-IsMap, insert-All, lookup-All,
}
use kubeminds.Alert.Types.{AlertItem, AlertGroup, build_group_key}
use kubeminds.Alert.Aggregator.{
  Aggregator, new_group, add_alert, or_new, ingest_groups, ingest, is_expired, collect,
}

-- A group under its key, with an alert in it, and seen by the time `now`.
pub record IsGroup (now : ℕ) (e : Str × AlertGroup) : Type 0 where
  pub keyed : e.1.key ≡ e.0
  pub counted : 1 ≤ e.1.count
  pub ordered : e.1.first_seen ≤ e.1.last_seen
  pub past : e.1.last_seen ≤ now

pub record IsValid (now : ℕ) (groups : Map AlertGroup) : Type 0 where
  pub is_map : IsMap groups
  pub all : All (IsGroup now) groups

IsGroup-mono :
    (now later : ℕ) → now ≤ later → (e : Str × AlertGroup) → IsGroup now e → IsGroup later e
IsGroup-mono now later h e g = record {
  keyed = g.keyed;
  counted = g.counted;
  ordered = g.ordered;
  past = omega arith;
}

add_alert-IsGroup :
    (now later : ℕ) (item : AlertItem) (key : Str) (m : Map AlertGroup)
    → now ≤ later
    → All (IsGroup now) m
    → IsGroup later (key, add_alert item later (or_new (lookup key m) (new_group key item later)))
unfolding add_alert new_group
add_alert-IsGroup now later item key m h all = elim (Option-cases (lookup key m)) [
  | inl e ↦
      rw e
        (record { keyed = refl; counted = omega arith; ordered = omega arith; past = omega arith })
  | inr (g, e) ↦
      let old = lookup-All (IsGroup now) key g m e all in
      rw e (record {
        keyed = old.keyed;
        counted = omega arith;
        ordered = omega arith;
        past = omega arith;
      })
]

-- Taking in an alert at a later time keeps the groups valid: one group for a key, each with an
-- alert, and with its times in order.
pub ingest-IsValid :
    (now later : ℕ) (item : AlertItem) (a : Aggregator)
    → now ≤ later
    → IsValid now a.groups
    → IsValid later (ingest later item a).1.groups
unfolding ingest ingest_groups
ingest-IsValid now later item a h v = record {
  is_map = insert-IsMap (build_group_key item.labels) _ a.groups v.is_map;
  all =
      insert-All (IsGroup later) (build_group_key item.labels) _ a.groups
        (add_alert-IsGroup now later item (build_group_key item.labels) a.groups h v.all)
        (All-map a.groups (IsGroup-mono now later h) v.all);
}

module _ (window now : ℕ) where
  collect-All :
      (P : Str × AlertGroup → Type 0) (m : Map AlertGroup)
      → All P m
      → All P (collect window now m).1
  unfolding collect
  collect-All P [] h = tt
  collect-All P ((k, g) ∷ m) h = elim (Bool-cases (is_expired window now g)) [
    | inl e ↦ rw e (collect-All P m h.1)
    | inr e ↦ rw e (h.0, collect-All P m h.1)
  ]

  -- What is taken has been silent for longer than the window, and nothing else has.
  collect-expired :
      (m : Map AlertGroup) → All (λ g. window < now - g.last_seen) (collect window now m).0
  unfolding collect
  collect-expired [] = tt
  collect-expired ((k, g) ∷ m) = elim (Bool-cases (is_expired window now g)) [
    | inl e ↦ rw e (ground arith, collect-expired m)
    | inr e ↦ rw e (collect-expired m)
  ]

  collect-kept :
      (m : Map AlertGroup) → All (λ e. now - e.1.last_seen ≤ window) (collect window now m).1
  unfolding collect
  collect-kept [] = tt
  collect-kept ((k, g) ∷ m) = elim (Bool-cases (is_expired window now g)) [
    | inl e ↦ rw e (collect-kept m)
    | inr e ↦ rw e (ground arith, collect-kept m)
  ]

  collect-keep :
      (m : Map AlertGroup)
      → (collect window now m).0 ≡ keep (λ g. ltb window (now - g.last_seen)) (values m)
  unfolding collect keep
  collect-keep [] = refl
  collect-keep ((k, g) ∷ m) = ground (arith, collect-keep m)

  abbrev pub unless_expired : Option AlertGroup → Option AlertGroup
  unless_expired none = none
  unless_expired (some g) = if is_expired window now g then none else some g

  lookup-collect :
      (j : Str) (m : Map AlertGroup)
      → IsMap m
      → lookup j (collect window now m).1 ≡ unless_expired (lookup j m)
  unfolding collect lookup
  lookup-collect j [] h = refl
  lookup-collect j ((k, g) ∷ m) h = ground (arith, lookup-collect j m h.1, str_eq_iff k j)

  collect-IsMap : (m : Map AlertGroup) → IsMap m → IsMap (collect window now m).1
  unfolding collect
  collect-IsMap [] h = tt
  collect-IsMap ((k, g) ∷ m) h = elim (Bool-cases (is_expired window now g)) [
    | inl e ↦ rw e (collect-IsMap m h.1)
    | inr e ↦ rw e (ground (arith, lookup-collect k m h.1), collect-IsMap m h.1)
  ]

-- What the collection of a sweep does to valid groups: those taken are all that were silent for
-- longer than the window, in their order; a key keeps its group unless that was; and the rest is valid.
pub record Swept (window now : ℕ) (m : Map AlertGroup) : Type 0 where
  pub taken : All (λ g. window < now - g.last_seen) (collect window now m).0
  pub all_taken : (collect window now m).0 ≡ keep (λ g. ltb window (now - g.last_seen)) (values m)
  pub live : All (λ e. now - e.1.last_seen ≤ window) (collect window now m).1
  pub entries :
      (j : Str) → lookup j (collect window now m).1 ≡ unless_expired window now (lookup j m)
  pub still : IsValid now (collect window now m).1

-- A sweep of valid groups, at a time not before that of the last alert, takes for its flushes exactly
-- the groups whose last alert is older than the window, each once, and leaves exactly the others as
-- they are, and the groups stay valid.
pub collect-Swept :
    (window before now : ℕ) (m : Map AlertGroup)
    → before ≤ now
    → IsValid before m
    → Swept window now m
collect-Swept window before now m h v = record {
  taken = collect-expired window now m;
  all_taken = collect-keep window now m;
  live = collect-kept window now m;
  entries = λ j. lookup-collect window now j m v.is_map;
  still = record {
    is_map = collect-IsMap window now m v.is_map;
    all = collect-All window now (IsGroup now) m (All-map m (IsGroup-mono before now h) v.all);
  };
}

-- The group that an alert finds, or a new one with nothing in it.
abbrev pub found : ℕ → AlertItem → Map AlertGroup → AlertGroup
found now item m =
    or_new (lookup (build_group_key item.labels) m)
      (new_group (build_group_key item.labels) item now)

-- After an alert in whose labels no name stands twice, its key has the group that it found with
-- one more alert, seen now, and its labels read as those of the alert where the alert has them and
-- as before where not; every other key has what it had.
pub ingest_entries :
    (now : ℕ) (item : AlertItem) (m : Map AlertGroup) (j : Str)
    → IsMap item.labels
    → (g : AlertGroup) × (lookup j (ingest_groups now item m)
        ≡ (if str_eq (build_group_key item.labels) j then some g else lookup j m))
      × (g.count ≡ (found now item m).count + 1)
      × (g.last_seen ≡ now)
      × (g.first_seen ≡ (found now item m).first_seen)
      × ((k : Str)
          → lookup k g.merged_labels ≡ elim (lookup k item.labels) [
            | none ↦ lookup k (found now item m).merged_labels
            | some v ↦ some v
          ])
unfolding ingest_groups add_alert
ingest_entries now item m j h = (
  add_alert item now (found now item m),
  lookup-insert (build_group_key item.labels) j _ m,
  refl,
  refl,
  refl,
  λ k. lookup-merge k item.labels (found now item m).merged_labels h,
)
