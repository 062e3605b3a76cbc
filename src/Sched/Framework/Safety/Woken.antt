-- ===== src/Sched/Framework/Safety/Woken.antt =====
-- The waiter that a release wakes up.
use os_pa.Common.{
  ℕ, ◌<◌, ◌≡◌, ◌≢◌, sym, ap, ◌∙◌, subst, Option, none, some, List, [], ◌∷◌, occurs, occurs-append,
  update_self, update_ne, arith,
}
use os_pa.Sched.Types.{Status, Process, Resource, System, nr_resources}
use os_pa.Sched.Queues.{list_del, set_owner}
use os_pa.Sched.Policy.Resources.{wake_up}
use os_pa.Sched.Policy.Contract.Laws.{unprio, ready_again, AllBlocked, Releases, Honours}
use os_pa.Sched.Policy.Contract.Entries.{TakesFirst-contains, TakesFirst-list_del}
use os_pa.Sched.Policy.Tables.{Scheduler}
use os_pa.Sched.Framework.Safety.Places.{contains-occurs}
use os_pa.Sched.Framework.Safety.Hollow.{
  Hollow, Times, Times-trans, Hollow-Alike, Alike-Times, disown-Hollow, disown-Times,
}
use os_pa.Sched.Framework.Safety.Owners.{waitqueue-set_owner}
use os_pa.Sched.Framework.Waiting.{Carries, hand_of}
use os_pa.Sched.Framework.Waiting.Frame.{Still-trans, Alike-Still, set_status-Still}
use os_pa.Sched.Framework.Waiting.Gives.{Carries-release}
use os_pa.Sched.Framework.Safety.Alike.{Alike, present-Alike, unprio-Alike}
use os_pa.Sched.Framework.Safety.WakeUps.{
  fewer, in_ready, requeued, untouched, wake_up-Hollow, wake_up-Times, wake_up-owner,
}

-- What the release of a resource of c leaves: the other owners are the same.
pub record Released (n m c id : ℕ) (s : System) (r : Option System) : Type 0 where
  pub u : System
  pub result : r ≡ some u
  pub hollow : Hollow n m c u
  pub times : Times (some c) s u
  pub owners : (i : ℕ) → id ≢ i → (u.resources i).owner ≡ (s.resources i).owner
  pub holding : (u.procs c).resources_holding ≡ (s.procs c).resources_holding
  pub freed : (u.resources id).owner ≡ none
  pub carries : Carries (hand_of (some c)) s (hand_of (some c)) u

all_blocked :
    (procs : ℕ → Process) (queue : List ℕ)
    → ((w : ℕ) → 0 < occurs w queue → (procs w).status ≡ Status.blocked)
    → AllBlocked procs queue
all_blocked procs [] h = tt
all_blocked procs (x ∷ queue) h =
    let own : 0 < occurs x (x ∷ queue) = ground arith in
    (h x own, all_blocked procs queue (λ w k. h w (more w k)))
  where
    more : (w : ℕ) → 0 < occurs w queue → 0 < occurs w (x ∷ queue)
    more w k = omega arith

owner-set_owner :
    (id : ℕ) (s : System) (i : ℕ)
    → id ≢ i
    → ((set_owner id none s).resources i).owner ≡ (s.resources i).owner
owner-set_owner id s i ne = ap (λ (r : Resource). r.owner) (update_ne s.resources id i _ ne)

module _ (n m c id : ℕ) (s : System) (h : Hollow n m c s) (range : id < nr_resources)
    (own : (s.resources id).owner ≡ some c) where
  freed : System
  freed = set_owner id none s

  freed-Hollow : Hollow n m c freed
  unfolding freed
  freed-Hollow = disown-Hollow n m c id s h own

  freed-Times : Times (some c) s freed
  unfolding freed
  freed-Times = disown-Times n m c id s h

  waitqueue-freed : (freed.resources id).waitqueue ≡ (s.resources id).waitqueue
  unfolding freed
  waitqueue-freed = ap (λ (r : Resource). r.waitqueue) (update_self s.resources id _)

  no_owner : (freed.resources id).owner ≡ none
  unfolding freed
  no_owner = ap (λ (r : Resource). r.owner) (update_self s.resources id _)

  waitqueues-freed : (i : ℕ) → (freed.resources i).waitqueue ≡ (s.resources i).waitqueue
  unfolding freed
  waitqueues-freed = waitqueue-set_owner id none s

  -- No one waits for the resource, or one is woken.
  alone-Carries :
      (t : System)
      → Alike freed t
      → (s.resources id).waitqueue ≡ []
      → Carries (hand_of (some c)) s (hand_of (some c)) t
  unfolding freed
  alone-Carries t a empty =
      Carries-release c id s t (Alike-Still freed t a)
        (ap (λ (r : ℕ → Resource). (r id).owner) (sym a.resources) ∙ no_owner)
        (λ i ne.
          ap (λ (r : ℕ → Resource). (r i).owner) (sym a.resources) ∙ owner-set_owner id s i ne)
        (λ i w. omega (
          arith,
          ap (λ (r : ℕ → Resource). occurs w (r i).waitqueue) a.resources,
          ap (occurs w) (waitqueues-freed i),
        ))
        (λ p. omega (arith, ap (occurs p) a.ready))
        (λ p. omega (arith, present-Alike freed t a (some c) p, freed-Times.places p))
        (λ w k. absurd (
          omega (
            arith,
            k,
            ap (λ (r : ℕ → Resource). occurs w (r id).waitqueue) a.resources,
            ap (occurs w) (waitqueues-freed id ∙ empty),
          )))

  woken-Carries :
      (w : ℕ) (t : System)
      → 0 < occurs w (freed.resources id).waitqueue
      → Alike (wake_up id w freed) t
      → Carries (hand_of (some c)) s (hand_of (some c)) t
  unfolding freed requeued
  woken-Carries w t waits a =
      let x = wake_up id w freed in
      let k = freed-Hollow in
      Carries-release c id s t
        (Still-trans s x t (set_status-Still w Status.ready s) (Alike-Still x t a))
        (ap (λ (r : ℕ → Resource). (r id).owner) (sym a.resources)
          ∙ wake_up-owner n m c id w freed k range waits id
          ∙ no_owner)
        (λ i ne.
          ap (λ (r : ℕ → Resource). (r i).owner) (sym a.resources)
          ∙ wake_up-owner n m c id w freed k range waits i
          ∙ owner-set_owner id s i ne)
        (λ i y. omega (
          arith,
          ap (λ (r : ℕ → Resource). occurs y (r i).waitqueue) a.resources,
          fewer n m c id w freed k range waits i y,
          ap (occurs y) (waitqueues-freed i),
        ))
        (λ p. omega (arith, ap (occurs p) a.ready, occurs-append p s.readyqueue (w ∷ [])))
        (λ p. omega (
          arith,
          present-Alike x t a (some c) p,
          (wake_up-Times n m c id w freed k range waits).places p,
          freed-Times.places p,
        ))
        (λ y z. (
          w,
          omega (arith, ap (occurs w) a.ready, in_ready n m c id w freed k range waits),
          omega (arith, waits, ap (occurs w) (waitqueues-freed id)),
        ))

  Releases-Released : (r : Option System) → Releases id s r → Released n m c id s r
  unfolding freed
  Releases-Released r (Releases.alone t e q law) =
      let a = unprio-Alike freed t (sym law) in
      record {
        u = t;
        result = q;
        hollow = Hollow-Alike n m c freed t a (ap (λ (x : System). x.current) law) freed-Hollow;
        times = Times-trans (some c) s freed t freed-Times (Alike-Times (some c) freed t a);
        owners = λ i ne.
            ap (λ (x : ℕ → Resource). (x i).owner) (sym a.resources) ∙ owner-set_owner id s i ne;
        holding = ap (λ (x : Process). x.resources_holding) (sym (a.procs c));
        freed = ap (λ (x : ℕ → Resource). (x id).owner) (sym a.resources) ∙ no_owner;
        carries = alone-Carries t a e;
      }
  Releases-Released r (Releases.wakes t w rest first q law') =
      let there = TakesFirst-contains w (s.resources id).waitqueue rest first in
      let law =
        law'
        ∙ ap (λ l. unprio (ready_again id w l freed))
            (sym (TakesFirst-list_del w (s.resources id).waitqueue rest first)
              ∙ ap (list_del w) (sym waitqueue-freed)) in
      let x = wake_up id w freed in
      let a = unprio-Alike x t (sym law) in
      let waits : 0 < occurs w (freed.resources id).waitqueue =
        subst (λ l. 0 < occurs w l) (sym waitqueue-freed) (contains-occurs w _ there) in
      let k = freed-Hollow in
      record {
        u = t;
        result = q;
        hollow =
            Hollow-Alike n m c x t a (ap (λ (y : System). y.current) law)
              (wake_up-Hollow n m c id w freed k range waits);
        times =
            Times-trans (some c) s x t
              (Times-trans (some c) s freed x freed-Times
                (wake_up-Times n m c id w freed k range waits))
              (Alike-Times (some c) x t a);
        owners = λ i ne.
            ap (λ (y : ℕ → Resource). (y i).owner) (sym a.resources)
            ∙ wake_up-owner n m c id w freed k range waits i
            ∙ owner-set_owner id s i ne;
        holding =
            ap (λ (y : Process). y.resources_holding) (sym (a.procs c))
            ∙ ap (λ (y : Process). y.resources_holding) (untouched n m c id w freed k range waits);
        freed =
            ap (λ (y : ℕ → Resource). (y id).owner) (sym a.resources)
            ∙ wake_up-owner n m c id w freed k range waits id
            ∙ no_owner;
        carries = woken-Carries w t waits a;
      }

  pub release-Released :
      (sched : Scheduler) → Honours sched → Released n m c id s (sched.release id s)
  release-Released sched honours = Releases-Released (sched.release id s) (
      honours.releases id c s range h.current own
        (all_blocked s.procs (s.resources id).waitqueue (λ w k. h.placed.blocked id w range k)))
