-- ===== src/Sched/Framework/Safety/Owners.antt =====
-- A new owner keeps the invariant.
use os_pa.Common.{
  ℕ, zero, suc, ◌<◌, ◌≡◌, ◌≢◌, refl, sym, ap, ◌∙◌, subst, Option, none, some, occurs, update_ne,
  arith,
}
use os_pa.Sched.Types.{Status, ResourceSchedule, Process, Resource, System, nr_resources}
use os_pa.Sched.Queues.{set_owner}
use os_pa.Sched.Framework.Safety.{wait_count, Held, Good, Placed, Valid}
use os_pa.Sched.Framework.Safety.Lists.{All-weaken}

-- The process c is current and runs.
pub record Acting (c : ℕ) (s : System) : Type 0 where
  pub current : s.current ≡ some c
  pub valid : Valid (some c) s
  pub status : (s.procs c).status ≡ Status.running

pub waitqueue-set_owner :
    (id : ℕ) (o : Option ℕ) (s : System) (i : ℕ)
    → ((set_owner id o s).resources i).waitqueue ≡ (s.resources i).waitqueue
waitqueue-set_owner id o s i = ground arith

pub wait_count-set_owner :
    (id : ℕ) (o : Option ℕ) (s : System) (n p : ℕ)
    → wait_count n p (set_owner id o s).resources ≡ wait_count n p s.resources
unfolding wait_count
wait_count-set_owner id o s zero p = refl
wait_count-set_owner id o s (suc n) p =
    omega (arith, ap (occurs p) (waitqueue-set_owner id o s n), wait_count-set_owner id o s n p)

-- What a process holds is not touched when its resources keep their owners.
pub Good-owners :
    (r r' : ℕ → Resource) (p : ℕ) (q : Process)
    → ((rs : ResourceSchedule)
        → Held p r q.age q.lifespan rs
        → (r' rs.resource_id).owner ≡ (r rs.resource_id).owner)
    → Good r p q
    → Good r' p q
Good-owners r r' p q same g = record {
  alive = g.alive;
  small = g.small;
  plans = g.plans;
  holds =
      All-weaken (Held p r q.age q.lifespan) (Held p r' q.age q.lifespan) q.resources_holding
        (λ rs h. (same rs h ∙ h.0, h.1, h.2, h.3)) g.holds;
  distinct = g.distinct;
}

pub Placed-set_owner :
    (hand : Option ℕ) (id : ℕ) (o : Option ℕ) (s : System)
    → Placed hand s
    → Placed hand (set_owner id o s)
Placed-set_owner hand id o s v = record {
  once = λ p. omega (arith, v.once p, wait_count-set_owner id o s nr_resources p);
  blocked =
      λ i w h k. v.blocked i w h (subst (λ q. 0 < occurs w q) (waitqueue-set_owner id o s i) k);
}

-- A free resource is held by nobody.
pub free-Held :
    (id : ℕ) (s : System) (p age lifespan : ℕ) (rs : ResourceSchedule)
    → (s.resources id).owner ≡ none
    → Held p s.resources age lifespan rs
    → rs.resource_id ≢ id
free-Held id s p age lifespan rs free h e =
    let x : some p ≡ none = sym h.0 ∙ ap (λ i. (s.resources i).owner) e ∙ free in cc

pub owner-Valid :
    (c id : ℕ) (s : System)
    → (s.resources id).owner ≡ none
    → Valid (some c) s
    → Valid (some c) (set_owner id (some c) s)
owner-Valid c id s free v = record {
  placed = Placed-set_owner (some c) id (some c) s v.placed;
  good = λ p h.
      Good-owners s.resources (set_owner id (some c) s).resources p (s.procs p)
        (λ rs k.
          ap (λ (r : Resource). r.owner)
            (update_ne s.resources id rs.resource_id _
              (λ e. free-Held id s p _ _ rs free k (sym e))))
        (v.good p (omega (arith, h, wait_count-set_owner id (some c) s nr_resources p)));
}
