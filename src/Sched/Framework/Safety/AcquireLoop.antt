-- ===== src/Sched/Framework/Safety/AcquireLoop.antt =====
-- __run_current_acquire keeps the invariant.
use os_pa.Common.{
  ℕ, ◌<◌, ◌≡◌, refl, sym, ap, ◌∙◌, subst, Bool, true, false, Option, none, some, List, [], ◌∷◌,
  ◌++◌, append-nil, append_assoc, All, All-snoc, ◌==◌, Bool-cases, inl, inr, arith, ==→eq, ==→ne,
}
use os_pa.Sched.Types.{Status, ResourceSchedule, System, Event, nr_resources}
use os_pa.Sched.Queues.{print_event}
use os_pa.Sched.Policy.Resources.{block}
use os_pa.Sched.Policy.Tables.{Scheduler}
use os_pa.Sched.Policy.Contract.Laws.{unprio, chosen, Acquires, Honours}
use os_pa.Sched.Framework.Simulation.{take_resource, acquire_each, run_current_acquire}
use os_pa.Sched.Framework.Safety.{wait_count, present, Plan, Valid}
use os_pa.Sched.Framework.Safety.Places.{chosen_self}
use os_pa.Sched.Framework.Safety.Lists.{All-middle}
use os_pa.Sched.Framework.Safety.Acquisitions.{
  take_resource-Carries, take_resource-Acting, present-take_resource,
}
use os_pa.Sched.Framework.Safety.Owners.{Acting}
use os_pa.Sched.Framework.Safety.Waits.{blocked-Waiting, blocked-Carries}
use os_pa.Sched.Framework.Waiting.{Carries, hand_of}
use os_pa.Sched.Framework.Safety.Alike.{Alike, unprio-Alike, Steady, Steady-refl, Steady-trans}

-- All resources that are due are taken, and the other plans are ahead; or the process waits.
pub data Acquired (c : ℕ) (s : System) (r : Option (Bool × System)) : Type 0 where
  all :
      (t : System)
      → r ≡ some (true, t)
      → Acting c t
      → All (λ rs. (t.procs c).age < rs.at) (t.procs c).resources_to_acquire
      → Steady s t
      → ((p : ℕ) → present p (some c) t ≡ present p (some c) s)
      → Carries (hand_of (some c)) s (hand_of (some c)) t
      → Acquired c s r
  waits :
      (t : System)
      → r ≡ some (false, t)
      → t.current ≡ some c
      → Valid none t
      → (t.procs c).status ≡ Status.blocked
      → 0 < wait_count nr_resources c t.resources
      → Steady s t
      → ((p : ℕ) → present p none t ≡ present p (some c) s)
      → Carries (hand_of (some c)) s (hand_of none) t
      → Acquired c s r

Acquired-from :
    (c : ℕ) (s t : System) (r : Option (Bool × System))
    → Steady s t
    → ((p : ℕ) → present p (some c) t ≡ present p (some c) s)
    → Carries (hand_of (some c)) s (hand_of (some c)) t
    → Acquired c t r
    → Acquired c s r
Acquired-from c s t r h g x (Acquired.all u e a p k l y) =
    Acquired.all u e a p (Steady-trans s t u h k) (λ p. l p ∙ g p) (λ q v. y q (x q v))
Acquired-from c s t r h g x (Acquired.waits u e i v b w k l y) =
    Acquired.waits u e i v b w (Steady-trans s t u h k) (λ p. l p ∙ g p) (λ q v. y q (x q v))

module _ (sched : Scheduler) (c : ℕ) (honours : Honours sched) where
  acquire_later :
      (kept rest : List ResourceSchedule) (rs : ResourceSchedule) (s : System)
      → (rs.at == (s.procs c).age) ≡ false
      → acquire_each sched c kept (rs ∷ rest) s ≡ acquire_each sched c (kept ++ rs ∷ []) rest s
  unfolding acquire_each
  acquire_later kept rest rs s e = rw (e, acquire_each) refl

  acquire_got :
      (kept rest : List ResourceSchedule) (rs : ResourceSchedule) (s t : System)
      → (rs.at == (s.procs c).age) ≡ true
      → sched.acquire rs.resource_id s ≡ some (true, t)
      → acquire_each sched c kept (rs ∷ rest) s
        ≡ acquire_each sched c kept rest (take_resource c (kept ++ rest) rs t)
  unfolding acquire_each
  acquire_got kept rest rs s t e e' = rw (e, e', acquire_each) refl

  acquire_blocked :
      (kept rest : List ResourceSchedule) (rs : ResourceSchedule) (s t : System)
      → (rs.at == (s.procs c).age) ≡ true
      → sched.acquire rs.resource_id s ≡ some (false, t)
      → acquire_each sched c kept (rs ∷ rest) s
        ≡ some (false, print_event (Event.waits (t.procs c).pid rs.resource_id) t)
  unfolding acquire_each
  acquire_blocked kept rest rs s t e e' = rw (e, e', acquire_each) refl

  next_fits :
      (kept rest : List ResourceSchedule) (rs : ResourceSchedule) (s : System)
      → Acting c s
      → (s.procs c).resources_to_acquire ≡ kept ++ rs ∷ rest
      → Plan (s.procs c).age (s.procs c).lifespan rs
  next_fits kept rest rs s a e =
      let here : chosen c (some c) ≡ 1 = chosen_self c in
      let g = a.valid.good c (omega (arith, here)) in
      All-middle (Plan (s.procs c).age (s.procs c).lifespan) kept rs rest
        (subst (All (Plan (s.procs c).age (s.procs c).lifespan)) e g.plans)

  waits-Acquired :
      (kept rest : List ResourceSchedule) (rs : ResourceSchedule) (s t : System)
      → Acting c s
      → (s.procs c).resources_to_acquire ≡ kept ++ rs ∷ rest
      → (rs.at == (s.procs c).age) ≡ true
      → sched.acquire rs.resource_id s ≡ some (false, t)
      → All (λ x. (s.procs c).age < x.at) kept
      → (o : ℕ) → (s.resources rs.resource_id).owner ≡ some o
      → unprio t ≡ unprio (block rs.resource_id c s)
      → Acquired c s (acquire_each sched c kept (rs ∷ rest) s)
  waits-Acquired kept rest rs s t a e due got later o owner law =
      let plan = next_fits kept rest rs s a e in
      let u = print_event (Event.waits (t.procs c).pid rs.resource_id) t in
      let like = unprio-Alike (block rs.resource_id c s) t (sym law) in
      let like' : Alike (block rs.resource_id c s) u = record {
        procs = like.procs;
        ready = like.ready;
        fork = like.fork;
        resources = like.resources;
        ticks = like.ticks;
      } in
      let (valid, status, waiting, steady, places) =
        blocked-Waiting rs.resource_id c s plan.3 a u like' in
      Acquired.waits u (acquire_blocked kept rest rs s t due got)
        (ap (λ (x : System). x.current) law ∙ a.current) valid status waiting steady places
        (blocked-Carries rs.resource_id c s plan.3 a kept rest rs refl e later
          (==→eq rs.at (s.procs c).age due) o owner u like')

  acquire_each-Acquired :
      (kept rest : List ResourceSchedule) (s : System)
      → Acting c s
      → (s.procs c).resources_to_acquire ≡ kept ++ rest
      → All (λ rs. (s.procs c).age < rs.at) kept
      → Acquired c s (acquire_each sched c kept rest s)
  unfolding acquire_each
  acquire_each-Acquired kept [] s a e later =
      Acquired.all s refl a
        (subst (All (λ rs. (s.procs c).age < rs.at)) (sym (e ∙ append-nil kept)) later)
        (Steady-refl s) (λ p. refl) (λ q v. v)
  acquire_each-Acquired kept (rs ∷ rest) s a e later =
      let plan = next_fits kept rest rs s a e in
      elim (Bool-cases (rs.at == (s.procs c).age)) [
        | inr early ↦ subst (Acquired c s) (sym (acquire_later kept rest rs s early)) (
            acquire_each-Acquired (kept ++ rs ∷ []) rest s a
              (e ∙ sym (append_assoc kept (rs ∷ []) rest))
              (All-snoc (λ x. (s.procs c).age < x.at) rs kept
                (omega (arith, plan.0, ==→ne rs.at (s.procs c).age early)) later))
        | inl due ↦ elim (honours.acquires rs.resource_id c s plan.3 a.current) [
          | Acquires.blocks t owner o got law ↦
              waits-Acquired kept rest rs s t a e due got later owner o law
          | Acquires.takes t free got law ↦
              let next = take_resource c (kept ++ rest) rs t in
              let (acting, steady, list) =
                take_resource-Acting c kept rest rs s t a e (==→eq rs.at (s.procs c).age due) free
                  law in
              subst (Acquired c s) (sym (acquire_got kept rest rs s t due got)) (
                Acquired-from c s next _ steady
                  (present-take_resource c kept rest rs s t a e (==→eq rs.at (s.procs c).age due)
                    free law)
                  (take_resource-Carries c kept rest rs s t a e (==→eq rs.at (s.procs c).age due)
                    free law later)
                  (acquire_each-Acquired kept rest next acting list
                    (subst (λ n. All (λ rs. n < rs.at) kept) (sym (steady.age c)) later)))
        ]
      ]

  pub run_current_acquire-Acquired :
      (s : System) → Acting c s → Acquired c s (run_current_acquire sched c s)
  unfolding run_current_acquire
  run_current_acquire-Acquired s a =
      acquire_each-Acquired [] (s.procs c).resources_to_acquire s a refl tt
