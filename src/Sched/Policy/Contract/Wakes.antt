-- ===== src/Sched/Policy/Contract/Wakes.antt =====
-- Each release() of pa2.c disowns the resource and wakes one of its waiters.
use os_pa.Common.{
  ℕ, ◌<◌, ◌≡◌, refl, ap, ◌∙◌, fun_ext, true, Option, none, some, List, [], ◌∷◌, lt→ltb,
  if◌then◌else◌, if_true, arith, subst, sym, same_refl, ==_refl, update_self, ltb,
}
use os_pa.Sched.Types.{Status, is_blocked, System, nr_resources}
use os_pa.Sched.Queues.{list_del, contains, set_owner, set_prio}
use os_pa.Sched.Policy.Pick.{pick, better_prio}
use os_pa.Sched.Policy.Resources.{
  wake_up, wake_first, wake_best, owns, disown_and_wake, fcfs_release, prio_release,
  restore_and_wake, pcp_release, pip_release,
}
use os_pa.Sched.Policy.Contract.Laws.{unprio, ready_again, AllBlocked, Releases}
use os_pa.Sched.Policy.Contract.Entries.{list_del-TakesFirst}
use os_pa.Sched.Policy.Contract.Schedules.{unprio-set_prio, contains-pick}

unprio-wake_up :
    (id w : ℕ) (s t : System)
    → unprio s ≡ unprio t
    → unprio (wake_up id w s) ≡ unprio (wake_up id w t)
unprio-wake_up id w s t e = forgets s ∙ ap (λ u. unprio (wake_up id w u)) e ∙ sym (forgets t)
  where
    forgets : (u : System) → unprio (wake_up id w u) ≡ unprio (wake_up id w (unprio u))
    forgets u = ap (λ f. record (wake_up id w u) { procs = f }) (fun_ext λ q. ground arith)

pub is_blocked_lem : (st : Status) → st ≡ Status.blocked → is_blocked st ≡ true
is_blocked_lem st e = ap is_blocked e

-- The waiter that is picked stands in the queue.
contains_best :
    (t : System) (w : ℕ) (queue : List ℕ)
    → contains (pick better_prio t.procs w (w ∷ queue)) (w ∷ queue) ≡ true
contains_best t w queue =
    once (pick better_prio t.procs w (w ∷ queue)) (contains-pick better_prio t.procs w (w ∷ queue))
  where
    once : (x : ℕ) → contains x (w ∷ w ∷ queue) ≡ true → contains x (w ∷ queue) ≡ true
    once x h = ground arith

-- `t` is the state in which the resource has lost its owner, up to priorities.
module _ (id : ℕ) (s t : System) (disowned : unprio t ≡ unprio (set_owner id none s)) where
  waitqueue-set_owner : ((set_owner id none s).resources id).waitqueue ≡ (s.resources id).waitqueue
  waitqueue-set_owner = ap (λ r. r.waitqueue) (update_self s.resources id _)

  woken :
      (w : ℕ) (queue : List ℕ)
      → (s.resources id).waitqueue ≡ queue
      → unprio (wake_up id w t) ≡ unprio (ready_again id w (list_del w queue) (set_owner id none s))
  woken w queue e =
      unprio-wake_up id w t (set_owner id none s) disowned
      ∙ ap (λ q. unprio (ready_again id w (list_del w q) (set_owner id none s)))
          (waitqueue-set_owner ∙ e)

  wake_first-Releases :
      (queue : List ℕ)
      → (s.resources id).waitqueue ≡ queue
      → AllBlocked t.procs queue
      → Releases id s (wake_first id queue t)
  unfolding wake_first
  wake_first-Releases [] e b = Releases.alone t e refl disowned
  wake_first-Releases (w ∷ queue) e b =
      Releases.wakes (wake_up id w t) w (list_del w (w ∷ queue))
        (rw e (list_del-TakesFirst w (w ∷ queue) (rw (==_refl w) refl)))
        (if_true _ _ (is_blocked_lem (t.procs w).status b.0)) (woken w (w ∷ queue) e)

  wake_best-Releases :
      (queue : List ℕ)
      → (s.resources id).waitqueue ≡ queue
      → AllBlocked t.procs queue
      → Releases id s (wake_best id queue t)
  unfolding wake_best
  wake_best-Releases [] e b = Releases.alone t e refl disowned
  wake_best-Releases (w ∷ queue) e b =
      let best = pick better_prio t.procs w (w ∷ queue) in
      Releases.wakes (wake_up id best t) best (list_del best (w ∷ queue))
        (rw e (list_del-TakesFirst best (w ∷ queue) (contains_best t w queue)))
        (if_true _ _ (is_blocked_lem (t.procs w).status b.0)) (woken best (w ∷ queue) e)

-- The wait queue and the states of its processes do not depend on priorities.
pub blocked_still :
    (s t : System) (queue : List ℕ)
    → unprio t ≡ unprio s
    → AllBlocked s.procs queue
    → AllBlocked t.procs queue
blocked_still s t [] e h = tt
blocked_still s t (w ∷ queue) e h =
    (ap (λ (u : System). (u.procs w).status) e ∙ h.0, blocked_still s t queue e h.1)

module _ (id c : ℕ) (s : System) (current : s.current ≡ some c)
    (owner : (s.resources id).owner ≡ some c)
    (blocked : AllBlocked s.procs (s.resources id).waitqueue) where
  restored : System
  restored = set_prio c (s.procs c).prio_orig s

  restore_and_wake-Releases : Releases id s (restore_and_wake id (some c) s)
  unfolding restore_and_wake restored
  restore_and_wake-Releases =
      let forgets = unprio-set_prio c (s.procs c).prio_orig s in
      let t = set_owner id none restored in
      subst (λ q. Releases id s (wake_best id q t))
        (sym (ap (λ r. r.waitqueue) (update_self s.resources id _)))
        (wake_best-Releases id s t (ap (set_owner id none) forgets) (s.resources id).waitqueue refl
          (blocked_still s restored (s.resources id).waitqueue forgets blocked))

  disown_and_wake_first : Releases id s (disown_and_wake wake_first id s)
  disown_and_wake_first =
      let t = set_owner id none s in
      subst (λ q. Releases id s (wake_first id q t))
        (sym (ap (λ r. r.waitqueue) (update_self s.resources id _)))
        (wake_first-Releases id s t refl (s.resources id).waitqueue refl blocked)

  disown_and_wake_best : Releases id s (disown_and_wake wake_best id s)
  disown_and_wake_best =
      let t = set_owner id none s in
      subst (λ q. Releases id s (wake_best id q t))
        (sym (ap (λ r. r.waitqueue) (update_self s.resources id _)))
        (wake_best-Releases id s t refl (s.resources id).waitqueue refl blocked)

  owns_lem : owns id s ≡ true
  owns_lem = rw (owner, current) (same_refl (some c))

  module _ (range : id < nr_resources) where
    pub guards :
        (P : Option System → Type 0) {r : Option System}
        → P r
        → P (if ltb id nr_resources then if owns id s then r else none else none)
    guards P {r} h =
        subst P (sym (if_true _ _ (lt→ltb id nr_resources range) ∙ if_true r none owns_lem)) h

    pub fcfs_release-Releases : Releases id s (fcfs_release id s)
    unfolding fcfs_release
    fcfs_release-Releases = guards (Releases id s) disown_and_wake_first

    pub prio_release-Releases : Releases id s (prio_release id s)
    unfolding prio_release
    prio_release-Releases = guards (Releases id s) disown_and_wake_best

    pub pcp_release-Releases : Releases id s (pcp_release id s)
    unfolding pcp_release
    pcp_release-Releases =
        guards (Releases id s) (
          subst (λ o. Releases id s (restore_and_wake id o s)) (sym owner)
            restore_and_wake-Releases)

    pub pip_release-Releases : Releases id s (pip_release id s)
    unfolding pip_release
    pip_release-Releases =
        guards (Releases id s) (
          subst (λ o. Releases id s (restore_and_wake id o s)) (sym owner)
            restore_and_wake-Releases)
