-- ===== src/Controller/Agents.antt =====
-- The agents that run here (internal/controller/diagnosistask_controller.go, `ActiveAgents`): when
-- `Reconcile` starts and cancels one, and that a task has at most one.
use kubeminds.Prelude.{
  ◌≡◌, ◌≢◌, refl, ap, ◌∙◌, Bool, true, false, ◌||◌, ◌&&◌, not, List, [], ◌∷◌, Option, none, some,
  arith, Bool-cases,
}
use kubeminds.Prelude.Tests.{if◌then◌else◌}
use kubeminds.Prelude.Lists.{any, keep}
use kubeminds.Prelude.Bytes.{Str, str_eq, str_eq_refl, str_eq_iff, str_eq_sound}
use kubeminds.Prelude.Errors.{Fallible, ok, err}
use kubeminds.Crd.{
  DiagnosisTask, DiagnosisPhase, unset, pending, running, waiting_approval, completed, failed,
}
use kubeminds.Agent.SkillManager.{SkillManager}
use kubeminds.Controller.Reconcile.{
  Api, GetReply, found, not_found, get_failed, Reconciler, Reconciled, Reply, Effect, no_effect,
  cancels, starts, is_active, store_agent, delete_agent, with_phase, is_over, clean_up,
  requeue_unless, start_unless, await, on_idle, on_phase, on_found, ends, done, loaded_skills,
  reconcile_task, with_skills, reconcile,
}

any-keep : (p q : Str → Bool) (xs : List Str) → any p (keep q xs) ≡ any (λ x. q x && p x) xs
unfolding keep
any-keep p q [] = refl
any-keep p q (x ∷ xs) = ground (arith, any-keep p q xs)

any-absorb :
    (j : Str) (p : Str → Bool) (b : Bool)
    → ((x : Str) → p x ≡ (b && str_eq x j))
    → (xs : List Str) → any p xs ≡ (b && any (λ k. str_eq k j) xs)
any-absorb j p b h [] = ground arith
any-absorb j p b h (x ∷ xs) = ground (arith, h x, any-absorb j p b h xs)

-- `ActiveAgents` after a store and a delete.
is_active-store_agent :
    (key j : Str) (r : Reconciler)
    → is_active j (store_agent key r) ≡ (str_eq key j || is_active j r)
unfolding is_active store_agent
is_active-store_agent key j r = ground (
  arith,
  Bool-cases (any (λ k. str_eq k key) r.active_agents),
  str_eq_sound key j,
  ap (λ x. any (λ k. str_eq k x) r.active_agents) {x = key} {y = j},
)

pub is_active-delete_agent :
    (key j : Str) (r : Reconciler)
    → is_active j (delete_agent key r) ≡ (not (str_eq key j) && is_active j r)
unfolding is_active delete_agent
is_active-delete_agent key j r =
    any-keep _ _ r.active_agents
    ∙ any-absorb j (λ x. not (str_eq x key) && str_eq x j) (not (str_eq key j))
        (λ x. ground (arith, str_eq_iff x key, str_eq_iff key j, str_eq_iff x j)) r.active_agents

module _ (key : Str) (r : Reconciler) where
  -- What each effect means for the agent of the task.
  abbrev pub Moves : Effect → Reconciler → Type 0
  Moves no_effect r' = is_active key r' ≡ is_active key r
  Moves cancels r' = (is_active key r ≡ true) × (is_active key r' ≡ false)
  Moves (starts t) r' =
      (is_active key r ≡ false)
      × (is_active key r' ≡ true)
      × (t.status.phase ≡ running)
      × (is_over t ≡ false)

  -- The effect fits the agents after the call, and the agents of other tasks are left alone.
  pub record IsLawful {W : Type 0} (e : Reconciled W) : Type 0 where
    pub here : Moves e.effect e.reconciler
    pub others : (j : Str) → key ≢ j → is_active j e.reconciler ≡ is_active j r

running_alive : (t : DiagnosisTask) → is_over t ≡ false → is_over (with_phase running t) ≡ false
unfolding is_over with_phase
running_alive t h = ground arith

module _ {W : Type 0} (key : Str) (r : Reconciler) where
  idle-IsLawful : (reply : Reply) (w : W) → IsLawful key r (ends reply no_effect r w)
  idle-IsLawful reply w = record { here = refl; others = λ j n. refl }

  if-IsLawful :
      (b : Bool) (m n : Reconciled W)
      → (b ≡ true → IsLawful key r m)
      → (b ≡ false → IsLawful key r n)
      → IsLawful key r (if b then m else n)
  if-IsLawful true m n p q = p refl
  if-IsLawful false m n p q = q refl

  clean_up-IsLawful : (w : W) → IsLawful key r (clean_up key r w)
  unfolding clean_up
  clean_up-IsLawful w =
      if-IsLawful (is_active key r) (ends done cancels (delete_agent key r) w) _
        (λ e. record {
          here = (e, is_active-delete_agent key key r ∙ rw (str_eq_refl key));
          others = λ j n. is_active-delete_agent key j r ∙ ground (arith, str_eq_sound key j);
        })
        (λ _. idle-IsLawful done w)

  requeue_unless-IsLawful :
      (wrap : Str → Str) (m : Option Str × W) → IsLawful key r (requeue_unless wrap r m)
  unfolding requeue_unless
  requeue_unless-IsLawful wrap (none, w) = idle-IsLawful _ w
  requeue_unless-IsLawful wrap (some e, w) = idle-IsLawful _ w

  starts-IsLawful :
      (t : DiagnosisTask) (w : W)
      → is_active key r ≡ false
      → t.status.phase ≡ running
      → is_over t ≡ false
      → IsLawful key r (ends done (starts t) (store_agent key r) w)
  starts-IsLawful t w no' p alive = record {
    here = (no', is_active-store_agent key key r ∙ rw (str_eq_refl key), p, alive);
    others = λ j n. is_active-store_agent key j r ∙ ground (arith, str_eq_sound key j);
  }

  start_unless-IsLawful :
      (t : DiagnosisTask) (m : Option Str × W)
      → is_active key r ≡ false
      → t.status.phase ≡ running
      → is_over t ≡ false
      → IsLawful key r (start_unless key t r m)
  unfolding start_unless
  start_unless-IsLawful t (none, w) no' p alive = starts-IsLawful t w no' p alive
  start_unless-IsLawful t (some e, w) no' p alive = record {
    here = is_active-delete_agent key key (store_agent key r) ∙ ground (arith, str_eq_refl key);
    others = λ j n.
        is_active-delete_agent key j (store_agent key r)
        ∙ ground (arith, str_eq_sound key j, is_active-store_agent key j r);
  }

module _ {W : Type 0} (api : Api W) (key : Str) where
  await-IsLawful :
      (b : Bool) (t : DiagnosisTask) (r : Reconciler) (w : W) → IsLawful key r (await api b t r w)
  unfolding await
  await-IsLawful true t r w =
      requeue_unless-IsLawful key r _ (api.update_status (with_phase running t) w)
  await-IsLawful false t r w = idle-IsLawful key r _ w

  on_idle-IsLawful :
      (p : DiagnosisPhase) (t : DiagnosisTask) (r : Reconciler) (w : W)
      → is_active key r ≡ false
      → t.status.phase ≡ p
      → is_over t ≡ false
      → IsLawful key r (on_idle api p key t r w)
  unfolding on_idle with_phase
  on_idle-IsLawful waiting_approval t r w no' e alive = await-IsLawful t.spec.approved t r w
  on_idle-IsLawful pending t r w no' e alive =
      start_unless-IsLawful key r (with_phase running t)
        (api.update_status (with_phase running t) w) no' refl (running_alive t alive)
  on_idle-IsLawful running t r w no' e alive = starts-IsLawful key r t w no' e alive
  on_idle-IsLawful unset t r w no' e alive = idle-IsLawful key r _ w
  on_idle-IsLawful completed t r w no' e alive = idle-IsLawful key r _ w
  on_idle-IsLawful failed t r w no' e alive = idle-IsLawful key r _ w

  on_phase-IsLawful :
      (p : DiagnosisPhase) (t : DiagnosisTask) (r : Reconciler) (w : W)
      → t.status.phase ≡ p
      → is_over t ≡ false
      → IsLawful key r (on_phase api p key t r w)
  unfolding on_phase
  on_phase-IsLawful unset t r w e alive =
      requeue_unless-IsLawful key r _ (api.update_status (with_phase pending t) w)
  on_phase-IsLawful p t r w e alive =
      if-IsLawful key r (is_active key r) (ends done no_effect r w) _
        (λ _. idle-IsLawful key r done w) (λ no'. on_idle-IsLawful p t r w no' e alive)

  on_found-IsLawful :
      (b : Bool) (t : DiagnosisTask) (r : Reconciler) (w : W)
      → is_over t ≡ b
      → IsLawful key r (on_found api b key t r w)
  unfolding on_found
  on_found-IsLawful true t r w e = clean_up-IsLawful key r w
  on_found-IsLawful false t r w e = on_phase-IsLawful t.status.phase t r w refl e

  reconcile_task-IsLawful :
      (reply : GetReply) (r : Reconciler) (w : W)
      → IsLawful key r (reconcile_task api key reply r w)
  unfolding reconcile_task
  reconcile_task-IsLawful not_found r w = idle-IsLawful key r _ w
  reconcile_task-IsLawful (get_failed e) r w = idle-IsLawful key r _ w
  reconcile_task-IsLawful (found t) r w = on_found-IsLawful (is_over t) t r w refl

  with_skills-IsLawful :
      (r : Reconciler) (m : Fallible SkillManager × W) → IsLawful key r (with_skills api key r m)
  unfolding with_skills is_active
  with_skills-IsLawful r (err e, w) = idle-IsLawful key r _ w
  with_skills-IsLawful r (ok sm, w) =
      let end =
        reconcile_task-IsLawful (api.get key w).0 (record r { skill_manager = some sm })
          (api.get key w).1 in
      record { here = end.here; others = end.others }

-- A call of `Reconcile` starts an agent only for a task with no agent here, as a task in phase
-- Running that is neither final nor being deleted, and registers it; it cancels only an agent that
-- is there, and takes it off; a call with no effect, whatever fails in it, leaves the registration
-- as it was. The agents of other tasks are left alone in any case.
pub reconcile-IsLawful :
    {W : Type 0} (api : Api W) (key : Str) (r : Reconciler) (w : W)
    → IsLawful key r (reconcile api key r w)
unfolding reconcile
reconcile-IsLawful api key r w =
    with_skills-IsLawful api key r (loaded_skills api r.skill_manager w)
