-- ===== src/Pipeline/Hosting.antt =====
-- internal/alert/aggregator.go and creator.go on a cluster: the tasks that a sweep leaves there.
use mathlib.Core.List.{Memᴰ}
use mathlib.Core.List.Memᴰ
use kubeminds.Prelude.{
  ℕ, ◌-◌, ◌<◌, ◌≡◌, sym, ◌∙◌, inl, inr, true, List, [], ◌∷◌, Option, none, some, arith, subst,
  none_ne_some, Bool-cases, Option-cases,
}
use kubeminds.Prelude.Bytes.{Str, str_eq}
use kubeminds.Prelude.Maps.{Map, lookup}
use kubeminds.Crd.{DiagnosisTask}
use kubeminds.Alert.Types.{AlertGroup}
use kubeminds.Alert.Names.{build_task_name}
use kubeminds.Alert.Creator.{Cluster, build_task, create_task}
use kubeminds.Alert.Aggregator.{Aggregator, is_expired, collect, flush, flush_all}

-- A cluster that keeps its tasks and takes new ones: a creation under a key that is free makes the
-- task, none changes a task that is there, and neither does the clock.
pub record Hosts {W : Type 0} (c : Cluster W) (key : Str → Str → Str)
    (there : Str → W → Option DiagnosisTask) : Type 0 where
  pub creates :
      (w : W) (t : DiagnosisTask)
      → there (key t.namespace t.name) w ≡ none
      → there (key t.namespace t.name) (c.create t w).1 ≡ some t
  pub keeps_clock :
      (w : W) (k : Str) (t : DiagnosisTask)
      → there k w ≡ some t
      → there k (c.unix_milli w).1 ≡ some t
  pub keeps_create :
      (w : W) (k : Str) (t u : DiagnosisTask)
      → there k w ≡ some t
      → there k (c.create u w).1 ≡ some t

-- The key of the task that a flush makes of a group.
abbrev pub next_key : {W : Type 0} → Cluster W → (Str → Str → Str) → Str → AlertGroup → W → Str
next_key c key namespace g w =
    key namespace (build_task_name c.fold g.alert_name (c.unix_milli w).0)

-- In the flushes of some groups no name is taken when it is made.
abbrev pub AllFree :
    {W : Type 0}
    → Cluster W
    → (Str → Str → Str)
    → (Str → W → Option DiagnosisTask)
    → Aggregator
    → List AlertGroup
    → W
    → Type 0
AllFree c key there a [] w = Unit
AllFree c key there a (g ∷ gs) w =
    (there (next_key c key a.namespace g w) (c.unix_milli w).1 ≡ none)
    × AllFree c key there a gs (flush c a g w).1

-- The task of a group, made in some millisecond: its key was free in one state and has it in another.
pub record Made {W : Type 0} (c : Cluster W) (key : Str → Str → Str)
    (there : Str → W → Option DiagnosisTask) (namespace : Str) (g : AlertGroup) (before after : W)
    : Type 0 where
  pub millis : ℕ
  pub new : there (key namespace (build_task_name c.fold g.alert_name millis)) before ≡ none
  pub exists :
      let name = build_task_name c.fold g.alert_name millis in
      there (key namespace name) after ≡ some (build_task name namespace g)

module _ {W : Type 0} (c : Cluster W) (key : Str → Str → Str)
    (there : Str → W → Option DiagnosisTask) (h : Hosts c key there) (a : Aggregator) where
  flush-keeps :
      (g : AlertGroup) (w : W) (k : Str) (t : DiagnosisTask)
      → there k w ≡ some t
      → there k (flush c a g w).1 ≡ some t
  unfolding flush create_task
  flush-keeps g w k t e = h.keeps_create _ k t _ (h.keeps_clock w k t e)

  -- What is free now was free before, if a task that is there stays.
  was_free :
      (k : Str) (before after : W)
      → ((t : DiagnosisTask) → there k before ≡ some t → there k after ≡ some t)
      → there k after ≡ none
      → there k before ≡ none
  was_free k before after stays e = elim (Option-cases (there k before)) [
    | inl n ↦ n
    | inr (t, q) ↦ absurd (none_ne_some (sym e ∙ stays t q))
  ]

  -- A task that is there stays.
  flush_all-keeps :
      (gs : List AlertGroup) (w : W) (k : Str) (t : DiagnosisTask)
      → there k w ≡ some t
      → there k (flush_all c a gs w).1 ≡ some t
  unfolding flush_all flush create_task
  flush_all-keeps [] w k t e = e
  flush_all-keeps (g ∷ gs) w k t e = flush_all-keeps gs _ k t (flush-keeps g w k t e)

  flush-Made :
      (g : AlertGroup) (w : W)
      → there (next_key c key a.namespace g w) (c.unix_milli w).1 ≡ none
      → let name = build_task_name c.fold g.alert_name (c.unix_milli w).0 in
        there (key a.namespace name) (flush c a g w).1 ≡ some (build_task name a.namespace g)
  unfolding flush create_task build_task
  flush-Made g w f = h.creates _ _ f

  -- Each of the flushed groups has its task.
  pub flush_all-Made :
      (gs : List AlertGroup) (w : W) (g : AlertGroup)
      → AllFree c key there a gs w
      → Memᴰ g gs
      → Made c key there a.namespace g w (flush_all c a gs w).1
  unfolding flush_all
  flush_all-Made [] w g f m = absurd (Memᴰ.not-nil m)
  flush_all-Made (x ∷ gs) w g f m = elim (Memᴰ.cases_cons m) [
    | inl e ↦
        subst (λ i. Made c key there a.namespace i w (flush_all c a (x ∷ gs) w).1) (sym e)
          (record {
            millis = (c.unix_milli w).0;
            new = was_free _ w (c.unix_milli w).1 (h.keeps_clock w _) f.0;
            exists = flush_all-keeps gs _ _ _ (flush-Made x w f.0);
          })
    | inr t ↦
        let later = flush_all-Made gs (flush c a x w).1 g f.1 t in
        record {
          millis = later.millis;
          new = was_free _ w (flush c a x w).1 (flush-keeps x w _) later.new;
          exists = later.exists;
        }
  ]

-- A group whose window has passed is among those that a sweep takes.
pub lookup-collect-mem :
    (window now : ℕ) (k : Str) (g : AlertGroup) (m : Map AlertGroup)
    → lookup k m ≡ some g
    → window < now - g.last_seen
    → Memᴰ g (collect window now m).0
unfolding lookup collect
lookup-collect-mem window now k g [] e late = absurd (none_ne_some e)
lookup-collect-mem window now k g ((j, x) ∷ m) e late = elim (Bool-cases (str_eq j k)) [
  | inl y ↦
      let same : x ≡ g = ground arith in
      let expired : is_expired window now x ≡ true = ground arith in
      rw expired (Memᴰ.head (sym same))
  | inr n ↦
      let later = lookup-collect-mem window now k g m (ground arith) late in
      elim (Bool-cases (is_expired window now x)) [
        | inl q ↦ rw q (Memᴰ.tail later)
        | inr q ↦ rw q later
      ]
]
