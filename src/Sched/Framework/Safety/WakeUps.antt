-- ===== src/Sched/Framework/Safety/WakeUps.antt =====
-- A waiter that is made ready.
use os_pa.Common.{
  ℕ, ◌≤◌, ◌<◌, ◌≡◌, ◌≢◌, refl, sym, ap, ◌∙◌, subst, some, [], ◌∷◌, All, occurs, occurs-append,
  update_ne, inr, arith,
}
use os_pa.Sched.Types.{Status, Process, System, nr_resources}
use os_pa.Sched.Queues.{list_del, list_add_tail, set_waitqueue}
use os_pa.Sched.Policy.Resources.{wake_up}
use os_pa.Sched.Framework.Safety.{present, Plan, Good, Placed}
use os_pa.Sched.Framework.Safety.Places.{wait_count-update, occurs-wait_count, occurs-list_del}
use os_pa.Sched.Framework.Safety.Forks.{not_waiting}
use os_pa.Sched.Framework.Safety.Owners.{Good-owners}
use os_pa.Sched.Framework.Safety.Hollow.{Hollow, Times, nowhere_else}
use os_pa.Sched.Framework.Safety.Alike.{
  Placed-write, Good-write, Good-set_status, set_status-Steady,
}

module _ (n m c id w : ℕ) (s : System) (h : Hollow n m c s) (range : id < nr_resources)
    (waits : 0 < occurs w (s.resources id).waitqueue) where
  -- The waiter stands in the ready queue, blocked still.
  unfoldable pub requeued : System
  requeued = record (set_waitqueue id (list_del w (s.resources id).waitqueue) s) {
    readyqueue = list_add_tail w s.readyqueue;
  }

  present-requeued : (p : ℕ) → present p (some c) requeued ≡ present p (some c) s
  unfolding requeued
  present-requeued p = omega (
    arith,
    wait_count-update nr_resources p id s.resources
        (record (s.resources id) { waitqueue = list_del w (s.resources id).waitqueue }) range,
    occurs-list_del p w (s.resources id).waitqueue waits,
    occurs-append p s.readyqueue (w ∷ []),
  )

  pub fewer :
      (i x : ℕ) → occurs x (requeued.resources i).waitqueue ≤ occurs x (s.resources i).waitqueue
  unfolding requeued
  fewer i x = ground (arith, occurs-list_del x w (s.resources id).waitqueue waits)

  requeued-Placed : Placed (some c) requeued
  unfolding requeued
  requeued-Placed = record {
    once = λ p. omega (arith, present-requeued p, h.placed.once p);
    blocked = λ i x r k. h.placed.blocked i x r (omega (arith, k, fewer i x));
  }

  not_c : c ≢ w
  not_c e = omega (
    arith,
    waits,
    nowhere_else n m c s h,
    occurs-wait_count nr_resources c id s.resources range,
    ap (λ x. occurs x (s.resources id).waitqueue) e,
  )

  owner-requeued : (i : ℕ) → (requeued.resources i).owner ≡ (s.resources i).owner
  unfolding requeued
  owner-requeued i = ground arith

  requeued-others :
      (p : ℕ) → c ≢ p → 0 < present p (some c) requeued → Good requeued.resources p (s.procs p)
  requeued-others p ne k =
      Good-owners s.resources requeued.resources p (s.procs p)
        (λ rs held. owner-requeued rs.resource_id)
        (h.others p ne (omega (arith, present-requeued p, k)))

  pub in_ready : 0 < occurs w requeued.readyqueue
  unfolding requeued
  in_ready =
      let own : occurs w (w ∷ []) ≡ 1 = ground arith in
      omega (arith, occurs-append w s.readyqueue (w ∷ []), own)

  pub untouched : (wake_up id w s).procs c ≡ s.procs c
  untouched =
      update_ne s.procs w c (record (s.procs w) { status = Status.ready }) (λ e. not_c (sym e))

  pub wake_up-Hollow : Hollow n m c (wake_up id w s)
  unfolding requeued
  wake_up-Hollow = record {
    current = h.current;
    placed =
        Placed-write (some c) requeued w (record (s.procs w) { status = Status.ready })
          (inr (not_waiting (some c) requeued w requeued-Placed (omega (arith, in_ready))))
          requeued-Placed;
    others = λ p ne k.
        Good-write requeued w (record (s.procs w) { status = Status.ready }) p
          (λ e.
            Good-set_status Status.ready
              (subst (λ y. Good requeued.resources y (s.procs y)) (sym e) (requeued-others p ne k)))
          (λ far. requeued-others p ne k);
    status = ap (λ (q : Process). q.status) untouched ∙ h.status;
    age = ap (λ (q : Process). q.age) untouched ∙ h.age;
    lifespan = ap (λ (q : Process). q.lifespan) untouched ∙ h.lifespan;
    plans = subst (λ (q : Process). All (Plan n m) q.resources_to_acquire) (sym untouched) h.plans;
  }

  pub wake_up-Times : Times (some c) s (wake_up id w s)
  unfolding requeued
  wake_up-Times =
      let k = set_status-Steady w Status.ready s in
      record {
        age = k.age;
        lifespan = k.lifespan;
        starts_at = k.starts_at;
        ticks = refl;
        fork = refl;
        places = present-requeued;
      }

  pub wake_up-owner : (i : ℕ) → ((wake_up id w s).resources i).owner ≡ (s.resources i).owner
  unfolding requeued
  wake_up-owner = owner-requeued
