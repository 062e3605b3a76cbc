-- ===== src/Sched/Policy/Contract/Waiters.antt =====
-- Which waiter each release() of pa2.c wakes, and what it does to the priority of the owner.
use os_pa.Common.{
  ℕ, ◌<◌, ◌≡◌, refl, sym, ap, ◌∙◌, subst, Option, none, some, List, [], ◌∷◌, ==_refl, if_true,
  update_self,
}
use os_pa.Sched.Types.{System, nr_resources}
use os_pa.Sched.Queues.{list_del, set_owner, set_prio}
use os_pa.Sched.Policy.Pick.{pick, better_prio}
use os_pa.Sched.Policy.Pick.First.{FirstGreatest, pick_prio-FirstGreatest}
use os_pa.Sched.Policy.Schedule.Choice.{First}
use os_pa.Sched.Policy.Resources.{
  wake_first, wake_best, fcfs_release, prio_release, restore_and_wake, pcp_release, pip_release,
}
use os_pa.Sched.Policy.Contract.Laws.{AllBlocked, ready_again}
use os_pa.Sched.Policy.Contract.Schedules.{unprio-set_prio}
use os_pa.Sched.Policy.Contract.Wakes.{is_blocked_lem, blocked_still, guards}

-- Nobody waits, or the best waiter is woken.
pub data WakesBest (Best : List ℕ → ℕ → List ℕ → Type 0) (id : ℕ) (t : System) (r : Option System)
    : Type 0 where
  nobody : (t.resources id).waitqueue ≡ [] → r ≡ some t → WakesBest Best id t r
  woken :
      (w : ℕ) (rest : List ℕ)
      → Best (t.resources id).waitqueue w rest
      → r ≡ some (ready_again id w rest t)
      → WakesBest Best id t r

abbrev pub FirstOfPrio : System → List ℕ → ℕ → List ℕ → Type 0
FirstOfPrio t = FirstGreatest (λ p. (t.procs p).prio)

module _ (id : ℕ) (t : System) where
  wake_first-WakesBest :
      (queue : List ℕ)
      → (t.resources id).waitqueue ≡ queue
      → AllBlocked t.procs queue
      → WakesBest First id t (wake_first id queue t)
  unfolding wake_first
  wake_first-WakesBest [] e b = WakesBest.nobody e refl
  wake_first-WakesBest (w ∷ queue) e b = WakesBest.woken w queue e (
      if_true _ _ (is_blocked_lem (t.procs w).status b.0)
      ∙ ap (λ q. some (ready_again id w q t)) (ap (list_del w) e ∙ if_true _ _ (==_refl w)))

  wake_best-WakesBest :
      (queue : List ℕ)
      → (t.resources id).waitqueue ≡ queue
      → AllBlocked t.procs queue
      → WakesBest (FirstOfPrio t) id t (wake_best id queue t)
  unfolding wake_best
  wake_best-WakesBest [] e b = WakesBest.nobody e refl
  wake_best-WakesBest (w ∷ queue) e b =
      let best = pick better_prio t.procs w (w ∷ queue) in
      WakesBest.woken best (list_del best (w ∷ queue))
        (subst (λ q. FirstOfPrio t q best (list_del best (w ∷ queue))) (sym e)
          (pick_prio-FirstGreatest t.procs w queue))
        (if_true _ _ (is_blocked_lem (t.procs w).status b.0)
          ∙ ap (λ q. some (ready_again id best (list_del best q) t)) e)

-- The state without the owner, and the same with the original priority of the owner.
abbrev pub freed : ℕ → System → System
freed id s = set_owner id none s

abbrev pub restored : ℕ → ℕ → System → System
restored id c s = set_owner id none (set_prio c (s.procs c).prio_orig s)

-- Let the current process own the resource, and let all who wait for it be blocked. Each of the
-- four releases takes the owner away, and pcp_release and pip_release set the owner's priority
-- back to its original one. If nobody waits, nothing else changes. Else one waiter becomes ready
-- and goes from the wait queue to the end of the ready queue: fcfs_release takes the head of the
-- queue, the others the first waiter of the highest priority.
pub release_wakes :
    (id c : ℕ) (s : System)
    → id < nr_resources
    → s.current ≡ some c
    → (s.resources id).owner ≡ some c
    → AllBlocked s.procs (s.resources id).waitqueue
    → WakesBest First id (freed id s) (fcfs_release id s)
      × WakesBest (FirstOfPrio s) id (freed id s) (prio_release id s)
      × WakesBest (FirstOfPrio (restored id c s)) id (restored id c s) (pcp_release id s)
      × WakesBest (FirstOfPrio (restored id c s)) id (restored id c s) (pip_release id s)
unfolding fcfs_release prio_release pcp_release pip_release restore_and_wake
release_wakes id c s range current owner blocked = (
  guards id c s current owner blocked range (WakesBest First id (freed id s))
      (wake_first-WakesBest id (freed id s) _ refl still),
  guards id c s current owner blocked range (WakesBest (FirstOfPrio s) id (freed id s))
      (wake_best-WakesBest id (freed id s) _ refl still),
  guards id c s current owner blocked range
      (WakesBest (FirstOfPrio (restored id c s)) id (restored id c s)) restoring,
  guards id c s current owner blocked range
      (WakesBest (FirstOfPrio (restored id c s)) id (restored id c s)) restoring,
)
  where
    queue_kept :
        (u : System)
        → u.resources ≡ s.resources
        → ((freed id u).resources id).waitqueue ≡ (s.resources id).waitqueue
    queue_kept u e =
        ap (λ r. r.waitqueue) (update_self u.resources id _) ∙ ap (λ r. (r id).waitqueue) e

    still : AllBlocked s.procs ((freed id s).resources id).waitqueue
    still = subst (AllBlocked s.procs) (sym (queue_kept s refl)) blocked

    restoring :
        WakesBest
          (FirstOfPrio (restored id c s))
          id
          (restored id c s)
          (restore_and_wake id (s.resources id).owner s)
    restoring =
        let u = set_prio c (s.procs c).prio_orig s in
        subst
          (λ o.
            WakesBest (FirstOfPrio (restored id c s)) id (restored id c s)
              (restore_and_wake id o s))
          (sym owner)
          (wake_best-WakesBest id (restored id c s) _ refl (
            subst (AllBlocked u.procs) (sym (queue_kept u refl)) (
              blocked_still s u (s.resources id).waitqueue
                (unprio-set_prio c (s.procs c).prio_orig s) blocked)))
