-- ===== src/Sched/Framework/Safety/Hollow.antt =====
-- The state while the running process c ages and releases: all but what c holds is in order. The
-- age and the lifespan of c are n and m.
use os_pa.Common.{
  ℕ, ◌<◌, ◌≡◌, ◌≢◌, refl, sym, ap, ◌∙◌, subst, Option, none, some, List, All, update_self,
  update_ne, inr, arith,
}
use mathlib.Core.Option.{some-injective}
use os_pa.Sched.Types.{Status, ResourceSchedule, Process, Resource, System, nr_resources}
use os_pa.Sched.Queues.{set_owner, set_holding}
use os_pa.Sched.Policy.Contract.Laws.{chosen}
use os_pa.Sched.Framework.Safety.{queued, present, Plan, Good, Placed}
use os_pa.Sched.Framework.Safety.Places.{chosen_self}
use os_pa.Sched.Framework.Safety.Forks.{not_waiting}
use os_pa.Sched.Framework.Safety.Owners.{Placed-set_owner}
use os_pa.Sched.Framework.Safety.Owners.{Good-owners}
use os_pa.Sched.Framework.Safety.Owners.{wait_count-set_owner}
use os_pa.Sched.Framework.Safety.Alike.{
  Alike, present-Alike, status-Alike, Good-Alike, Placed-Alike, Placed-write, write-Steady,
  Good-write, write-Steady,
}

pub record Hollow (n m c : ℕ) (s : System) : Type 0 where
  pub current : s.current ≡ some c
  pub placed : Placed (some c) s
  pub others : (p : ℕ) → c ≢ p → 0 < present p (some c) s → Good s.resources p (s.procs p)
  pub status : (s.procs c).status ≡ Status.running
  pub age : (s.procs c).age ≡ n
  pub lifespan : (s.procs c).lifespan ≡ m
  pub plans : All (Plan n m) (s.procs c).resources_to_acquire

-- The clock, the times of all processes, their places and the fork queue.
pub record Times (hand : Option ℕ) (s t : System) : Type 0 where
  pub age : (p : ℕ) → (t.procs p).age ≡ (s.procs p).age
  pub lifespan : (p : ℕ) → (t.procs p).lifespan ≡ (s.procs p).lifespan
  pub starts_at : (p : ℕ) → (t.procs p).starts_at ≡ (s.procs p).starts_at
  pub ticks : t.ticks ≡ s.ticks
  pub fork : t.forkqueue ≡ s.forkqueue
  pub places : (p : ℕ) → present p hand t ≡ present p hand s

pub Times-refl : (hand : Option ℕ) (s : System) → Times hand s s
Times-refl hand s = record {
  age = λ p. refl;
  lifespan = λ p. refl;
  starts_at = λ p. refl;
  ticks = refl;
  fork = refl;
  places = λ p. refl;
}

pub Times-trans :
    (hand : Option ℕ) (s t u : System) → Times hand s t → Times hand t u → Times hand s u
Times-trans hand s t u h k = record {
  age = λ p. k.age p ∙ h.age p;
  lifespan = λ p. k.lifespan p ∙ h.lifespan p;
  starts_at = λ p. k.starts_at p ∙ h.starts_at p;
  ticks = k.ticks ∙ h.ticks;
  fork = k.fork ∙ h.fork;
  places = λ p. k.places p ∙ h.places p;
}

pub Alike-Times : (hand : Option ℕ) (s t : System) → Alike s t → Times hand s t
Alike-Times hand s t a = record {
  age = λ p. ap (λ (q : Process). q.age) (sym (a.procs p));
  lifespan = λ p. ap (λ (q : Process). q.lifespan) (sym (a.procs p));
  starts_at = λ p. ap (λ (q : Process). q.starts_at) (sym (a.procs p));
  ticks = sym a.ticks;
  fork = sym a.fork;
  places = present-Alike s t a hand;
}

pub Hollow-Alike :
    (n m c : ℕ) (s t : System) → Alike s t → t.current ≡ s.current → Hollow n m c s → Hollow n m c t
Hollow-Alike n m c s t a e h = record {
  current = e ∙ h.current;
  placed = Placed-Alike s t a (some c) h.placed;
  others = λ p ne k.
      Good-Alike s t a p (h.others p ne (omega (arith, present-Alike s t a (some c) p, k)));
  status = status-Alike s t a c ∙ h.status;
  age = ap (λ (q : Process). q.age) (sym (a.procs c)) ∙ h.age;
  lifespan = ap (λ (q : Process). q.lifespan) (sym (a.procs c)) ∙ h.lifespan;
  plans = subst (λ (q : Process). All (Plan n m) q.resources_to_acquire) (a.procs c) h.plans;
}

pub nowhere_else : (n m c : ℕ) (s : System) → Hollow n m c s → queued c s ≡ 0
nowhere_else n m c s h =
    let here : chosen c (some c) ≡ 1 = chosen_self c in omega (arith, here, h.placed.once c)

-- What c holds is written.
pub set_holding-Hollow :
    (n m c : ℕ) (l : List ResourceSchedule) (s : System)
    → Hollow n m c s
    → Hollow n m c (set_holding c l s)
set_holding-Hollow n m c l s h =
    let q = record (s.procs c) { resources_holding = l } in
    let self : (set_holding c l s).procs c ≡ q = update_self s.procs c q in
    record {
      current = h.current;
      placed =
          Placed-write (some c) s c q
            (inr (not_waiting (some c) s c h.placed (omega (arith, chosen_self c)))) h.placed;
      others = λ p ne k. Good-write s c q p (λ e. absurd (ne e)) (λ _. h.others p ne k);
      status = ap (λ (x : Process). x.status) self ∙ h.status;
      age = ap (λ (x : Process). x.age) self ∙ h.age;
      lifespan = ap (λ (x : Process). x.lifespan) self ∙ h.lifespan;
      plans = subst (λ (x : Process). All (Plan n m) x.resources_to_acquire) (sym self) h.plans;
    }

pub set_holding-Times :
    (c : ℕ) (l : List ResourceSchedule) (s : System) → Times (some c) s (set_holding c l s)
set_holding-Times c l s =
    let k = write-Steady c (record (s.procs c) { resources_holding = l }) s refl refl refl in
    record {
      age = k.age;
      lifespan = k.lifespan;
      starts_at = k.starts_at;
      ticks = refl;
      fork = refl;
      places = λ p. refl;
    }

module _ (n m c id : ℕ) (s : System) (h : Hollow n m c s) where
  -- c gives a resource of its own up.
  pub disown-Hollow : (s.resources id).owner ≡ some c → Hollow n m c (set_owner id none s)
  disown-Hollow own = record {
    current = h.current;
    placed = Placed-set_owner (some c) id none s h.placed;
    others = λ p ne k.
        Good-owners s.resources (set_owner id none s).resources p (s.procs p)
          (λ rs held.
            ap (λ (r : Resource). r.owner)
              (update_ne s.resources id rs.resource_id _ (foreign p rs.resource_id ne held.0)))
          (h.others p ne (omega (arith, k, wait_count-set_owner id none s nr_resources p)));
    status = h.status;
    age = h.age;
    lifespan = h.lifespan;
    plans = h.plans;
  }
    where
      foreign : (p i : ℕ) → c ≢ p → (s.resources i).owner ≡ some p → id ≢ i
      foreign p i ne other e =
          let x : some c ≡ some p = sym own ∙ ap (λ j. (s.resources j).owner) e ∙ other in
          ne (some-injective _ _ x)

  pub disown-Times : Times (some c) s (set_owner id none s)
  disown-Times = record {
    age = λ p. refl;
    lifespan = λ p. refl;
    starts_at = λ p. refl;
    ticks = refl;
    fork = refl;
    places = λ p. omega (arith, wait_count-set_owner id none s nr_resources p);
  }
