-- ===== src/Controller/InFlight.antt =====
-- internal/controller/diagnosistask_controller.go: the goroutines of the agents beside the calls of
-- `Reconcile`. A call is one step: the controller makes one at a time for a key, and what a goroutine
-- does to `ActiveAgents` commutes with the rest of a call. The end of a goroutine is one step.
use kubeminds.Prelude.{
  ℕ, suc, ◌+◌, ◌-◌, ◌≤◌, ◌≡◌, ◌≢◌, refl, sym, subst, Bool, true, false, ◌&&◌, not, List, [], ◌∷◌,
  arith, inl, inr, Bool-cases, if◌then◌else◌,
}
use kubeminds.Prelude.Bytes.{Str, str_eq, str_eq_refl, str_eq_sound, str_eq_iff}
use kubeminds.Controller.Reconcile.{
  Api, Reconciler, Reconciled, Effect, no_effect, cancels, starts, is_active, delete_agent,
  reconcile,
}
use kubeminds.Controller.Agents.{Moves, IsLawful, reconcile-IsLawful, is_active-delete_agent}

abbrev pub count : Str → List Str → ℕ
count key [] = 0
count key (k ∷ ks) = let rest = count key ks in if str_eq k key then suc rest else rest

abbrev pub remove_one : Str → List Str → List Str
remove_one key [] = []
remove_one key (k ∷ ks) = let rest = remove_one key ks in if str_eq k key then ks else k ∷ rest

-- The controller, the keys of the goroutines that have not ended, and a record of the keys whose
-- agent a cleanup has cancelled so far.
pub record System (W : Type 0) : Type 0 where
  pub reconciler : Reconciler
  pub in_flight : List Str
  pub cancelled : List Str
  pub world : W

-- `eg.Go` for an agent that is started.
abbrev pub spawned : Effect → Str → List Str → List Str
spawned (starts t) key ks = key ∷ ks
spawned no_effect key ks = ks
spawned cancels key ks = ks

abbrev pub noted : Effect → Str → List Str → List Str
noted cancels key ks = key ∷ ks
noted no_effect key ks = ks
noted (starts t) key ks = ks

module _ {W : Type 0} where
  unfoldable pub after_reconcile : Str → Reconciled W → System W → System W
  after_reconcile key m s = record {
    reconciler = m.reconciler;
    in_flight = spawned m.effect key s.in_flight;
    cancelled = noted m.effect key s.cancelled;
    world = m.world;
  }

  -- The goroutine of a key ends: its deferred `ActiveAgents.Delete` goes by the key.
  unfoldable pub after_end : Str → System W → System W
  after_end key s = record {
    reconciler = delete_agent key s.reconciler;
    in_flight = remove_one key s.in_flight;
    cancelled = s.cancelled;
    world = s.world;
  }

  -- A step: a call of the reconciler, the end of a goroutine, or any change outside.
  pub data Step (api : Api W) (s : System W) : System W → Type 0 where
    calls :
        (key : Str) → Step api s (after_reconcile key (reconcile api key s.reconciler s.world) s)
    ends : (key : Str) → 1 ≤ count key s.in_flight → Step api s (after_end key s)
    changes : (w : W) → Step api s (record s { world = w })

  abbrev pub Starting : System W → Type 0
  Starting s = (s.reconciler.active_agents ≡ []) × (s.in_flight ≡ []) × (s.cancelled ≡ [])

  pub data Reach (api : Api W) : System W → Type 0 where
    start : {s : System W} → Starting s → Reach api s
    later : {s t : System W} → Reach api s → Step api s t → Reach api t

abbrev pub entries : Bool → ℕ
entries true = 1
entries false = 0

-- The agents of a key in flight, against its entry and its cancellations.
abbrev pub IsBalanced : ℕ → Bool → ℕ → Type 0
IsBalanced flying entry cancellations =
    (entries entry ≤ flying) × (flying ≤ entries entry + cancellations)

-- A call for the key itself, by its effect.
calls-IsBalanced :
    (key : Str) (r r' : Reconciler) (e : Effect) (flying cancelled : List Str)
    → Moves key r e r'
    → IsBalanced (count key flying) (is_active key r) (count key cancelled)
    → IsBalanced
        (count key (spawned e key flying))
        (is_active key r')
        (count key (noted e key cancelled))
calls-IsBalanced key r r' no_effect flying cancelled m h = rw m h
calls-IsBalanced key r r' cancels flying cancelled m h = ground (arith, str_eq_refl key)
calls-IsBalanced key r r' (starts t) flying cancelled m h = ground (arith, str_eq_refl key)

-- A call for another key.
count-spawned :
    (key j : Str) (e : Effect) (ks : List Str)
    → str_eq key j ≡ false
    → (count j (spawned e key ks) ≡ count j ks) × (count j (noted e key ks) ≡ count j ks)
count-spawned key j no_effect ks h = (refl, refl)
count-spawned key j cancels ks h = (refl, rw h refl)
count-spawned key j (starts t) ks h = (rw h refl, refl)

count-remove_one :
    (key j : Str) (ks : List Str)
    → count j (remove_one key ks) ≡ (if str_eq key j then count j ks - 1 else count j ks)
count-remove_one key j [] = ground arith
count-remove_one key j (k ∷ ks) =
    ground (arith, count-remove_one key j ks, str_eq_iff k key, str_eq_iff key j, str_eq_iff k j)

keys_differ : (key j : Str) → str_eq key j ≡ false → key ≢ j
keys_differ key j n = λ e. ground (arith, str_eq_iff key j)

-- The end of an agent, of the key itself or of another.
ends-IsBalanced :
    (same active : Bool) (flying cancellations : ℕ)
    → (same ≡ true → 1 ≤ flying)
    → IsBalanced flying active cancellations
    → IsBalanced (if same then flying - 1 else flying) (not same && active) cancellations
ends-IsBalanced true true flying cancellations some' h =
    let one = some' refl in (omega arith, omega arith)
ends-IsBalanced true false flying cancellations some' h = (omega arith, omega arith)
ends-IsBalanced false active flying cancellations some' h = h

module _ {W : Type 0} (api : Api W) where
  Balanced : Str → System W → Type 0
  Balanced j s = IsBalanced (count j s.in_flight) (is_active j s.reconciler) (count j s.cancelled)

  calls-Balanced :
      (key j : Str) (s : System W) (m : Reconciled W)
      → IsLawful key s.reconciler m
      → Balanced j s
      → Balanced j (after_reconcile key m s)
  unfolding Balanced after_reconcile
  calls-Balanced key j s m l h = elim (Bool-cases (str_eq key j)) [
    | inl y ↦
        subst
          (λ i.
            IsBalanced (count i (spawned m.effect key s.in_flight)) (is_active i m.reconciler)
              (count i (noted m.effect key s.cancelled)))
          (str_eq_sound key j y)
          (calls-IsBalanced key s.reconciler m.reconciler m.effect s.in_flight s.cancelled l.here
            (subst (λ i. Balanced i s) (sym (str_eq_sound key j y)) h))
    | inr n ↦
        rw
          (
            (count-spawned key j m.effect s.in_flight n).0,
            (count-spawned key j m.effect s.cancelled n).1,
            l.others j (keys_differ key j n),
          )
          h
  ]

  ends-Balanced :
      (key j : Str) (s : System W)
      → 1 ≤ count key s.in_flight
      → Balanced j s
      → Balanced j (after_end key s)
  unfolding Balanced after_end
  ends-Balanced key j s some' h =
      rw (count-remove_one key j s.in_flight, is_active-delete_agent key j s.reconciler)
        (ends-IsBalanced (str_eq key j) (is_active j s.reconciler) (count j s.in_flight)
          (count j s.cancelled)
          (λ e. subst (λ i. 1 ≤ count i s.in_flight) (str_eq_sound key j e) some') h)

  Reach-Balanced : (j : Str) (s : System W) → Reach api s → Balanced j s
  unfolding Balanced is_active
  Reach-Balanced j s (start (a, f, c)) = rw (a, f, c) (omega arith, omega arith)
  Reach-Balanced j s (later r (calls key)) =
      calls-Balanced key j _ _ (reconcile-IsLawful api key _ _) (Reach-Balanced j _ r)
  Reach-Balanced j s (later r (ends key h)) = ends-Balanced key j _ h (Reach-Balanced j _ r)
  Reach-Balanced j s (later r (changes w)) = Reach-Balanced j _ r

-- Whatever the calls of the reconciler, the ends of goroutines and the changes outside, in any
-- order from a controller without agents: a key that is registered has an agent in flight, and the
-- agents in flight for a key are at most its entry and one for each cancellation by a cleanup so
-- far. So a task that was never cleaned up has exactly as many agents as entries, at most one.
pub Reach-in_flight :
    {W : Type 0} (api : Api W) (s : System W)
    → Reach api s
    → (key : Str)
    → IsBalanced (count key s.in_flight) (is_active key s.reconciler) (count key s.cancelled)
unfolding Balanced
Reach-in_flight api s r key = Reach-Balanced api key s r
