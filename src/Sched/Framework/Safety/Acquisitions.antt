-- ===== src/Sched/Framework/Safety/Acquisitions.antt =====
-- The scheduled acquisitions of the running process keep the invariant.
use os_pa.Common.{
  ℕ, ◌<◌, ◌≡◌, ◌≢◌, update_ne, refl, sym, ap, ◌∙◌, subst, none, some, List, [], ◌∷◌, ◌++◌, All,
  All-snoc, update_self, inr, arith,
}
use os_pa.Sched.Types.{Status, ResourceSchedule, Process, Resource, System, nr_resources}
use os_pa.Sched.Queues.{set_owner, set_to_acquire}
use os_pa.Sched.Policy.Contract.Laws.{unprio, chosen}
use os_pa.Sched.Framework.Simulation.{take_resource}
use os_pa.Sched.Framework.Safety.{present, Plan, Held, Differs, Good, Valid}
use os_pa.Sched.Framework.Safety.Places.{chosen_self}
use os_pa.Sched.Framework.Safety.Forks.{not_waiting}
use os_pa.Sched.Framework.Safety.Lists.{All-middle, All-without, All-weaken, Distinct-snoc}
use os_pa.Sched.Framework.Safety.Alike.{
  Alike, unprio-Alike, Valid-Alike, present-Alike, Valid-write, write, write-Steady, Steady,
  Steady-trans, Alike-Steady,
}
use os_pa.Sched.Framework.Waiting.{Carries, hand_of}
use os_pa.Sched.Framework.Waiting.Frame.{View, Alike-Still}
use os_pa.Sched.Framework.Waiting.Moves.{Carries-take}
use os_pa.Sched.Framework.Safety.Owners.{
  waitqueue-set_owner, Acting, wait_count-set_owner, free-Held, owner-Valid,
}

module _ (c : ℕ) (kept rest : List ResourceSchedule) (rs : ResourceSchedule) (s t : System)
    (acting : Acting c s) (list : (s.procs c).resources_to_acquire ≡ kept ++ rs ∷ rest)
    (due : rs.at ≡ (s.procs c).age) (free : (s.resources rs.resource_id).owner ≡ none)
    (law : unprio t ≡ unprio (set_owner rs.resource_id (some c) s)) where
  owned : System
  owned = set_owner rs.resource_id (some c) s

  like : Alike owned t
  unfolding owned
  like = unprio-Alike owned t (sym law)

  t-Valid : Valid (some c) t
  unfolding owned
  t-Valid = Valid-Alike owned t like (some c) (owner-Valid c rs.resource_id s free acting.valid)

  here : chosen c (some c) ≡ 1
  here = chosen_self c

  planned : System
  planned = set_to_acquire c (kept ++ rest) t

  next_fits : Plan (s.procs c).age (s.procs c).lifespan rs
  next_fits =
      let g = acting.valid.good c (omega (arith, here)) in
      All-middle (Plan (s.procs c).age (s.procs c).lifespan) kept rs rest
        (subst (All (Plan (s.procs c).age (s.procs c).lifespan)) list g.plans)

  list_kept : (t.procs c).resources_to_acquire ≡ kept ++ rs ∷ rest
  unfolding owned
  list_kept = ap (λ (q : Process). q.resources_to_acquire) (sym (like.procs c)) ∙ list

  plan-Good :
      Good t.resources c (t.procs c)
      → Good t.resources c (record (t.procs c) { resources_to_acquire = kept ++ rest })
  plan-Good g = record {
    alive = g.alive;
    small = g.small;
    plans =
        All-without (Plan (t.procs c).age (t.procs c).lifespan) kept rs rest
          (subst (All (Plan (t.procs c).age (t.procs c).lifespan)) list_kept g.plans);
    holds = g.holds;
    distinct = g.distinct;
  }

  planned-Valid : Valid (some c) planned
  unfolding planned
  planned-Valid =
      Valid-write (some c) t c (record (t.procs c) { resources_to_acquire = kept ++ rest })
        (inr (not_waiting (some c) t c t-Valid.placed (omega (arith, here)))) plan-Good t-Valid

  planned-Steady : Steady s planned
  unfolding planned owned
  planned-Steady =
      Steady-trans s t planned
        (Steady-trans s owned t
          (record {
            age = λ p. refl;
            lifespan = λ p. refl;
            starts_at = λ p. refl;
            ticks = refl;
            ready = refl;
            fork = refl;
          })
          (Alike-Steady owned t like))
        (write-Steady c (record (t.procs c) { resources_to_acquire = kept ++ rest }) t refl refl
          refl)

  self : planned.procs c ≡ record (t.procs c) { resources_to_acquire = kept ++ rest }
  unfolding planned
  self = update_self t.procs c _

  held : (planned.procs c).resources_holding ≡ (s.procs c).resources_holding
  unfolding planned owned
  held =
      ap (λ (q : Process). q.resources_holding) self
      ∙ ap (λ (q : Process). q.resources_holding) (sym (like.procs c))

  others : All (Differs rs.resource_id) (planned.procs c).resources_holding
  others =
      let g = acting.valid.good c (omega (arith, here)) in
      subst (All (Differs rs.resource_id)) (sym held) (
        All-weaken (Held c s.resources (s.procs c).age (s.procs c).lifespan)
          (Differs rs.resource_id) (s.procs c).resources_holding
          (λ x h. free-Held rs.resource_id s c _ _ x free h) g.holds)

  new-Held : Held c planned.resources (planned.procs c).age (planned.procs c).lifespan rs
  unfolding planned owned
  new-Held =
      let p = next_fits in
      let a = planned-Steady.age c in
      let l = planned-Steady.lifespan c in
      (
        ap (λ (r : ℕ → Resource). (r rs.resource_id).owner) (sym like.resources)
            ∙ ap (λ (r : Resource). r.owner) (update_self s.resources rs.resource_id _),
        p.1,
        omega (arith, p.2, a, l, due),
        p.3,
      )

  taken : Process
  taken = record (planned.procs c) {
    resources_holding = (planned.procs c).resources_holding ++ rs ∷ [];
  }

  taken-Good : Good planned.resources c (planned.procs c) → Good planned.resources c taken
  unfolding taken
  taken-Good g = record {
    alive = g.alive;
    small = g.small;
    plans = g.plans;
    holds = All-snoc _ rs (planned.procs c).resources_holding new-Held g.holds;
    distinct = Distinct-snoc rs (planned.procs c).resources_holding others g.distinct;
  }

  written : System
  written = write c taken planned

  written-Valid : Valid (some c) written
  unfolding written taken
  written-Valid =
      Valid-write (some c) planned c taken
        (inr (not_waiting (some c) planned c planned-Valid.placed (omega (arith, here)))) taken-Good
        planned-Valid

  written-Steady : Steady s written
  unfolding written taken
  written-Steady =
      Steady-trans s planned written planned-Steady (write-Steady c taken planned refl refl refl)

  written_here : written.procs c ≡ taken
  unfolding written
  written_here = update_self planned.procs c taken

  written-current : written.current ≡ some c
  unfolding written planned
  written-current = ap (λ (u : System). u.current) law ∙ acting.current

  taken-status : taken.status ≡ Status.running
  unfolding taken owned
  taken-status =
      ap (λ (q : Process). q.status) self
      ∙ ap (λ (q : Process). q.status) (sym (like.procs c))
      ∙ acting.status

  taken-plans : taken.resources_to_acquire ≡ kept ++ rest
  unfolding taken
  taken-plans = ap (λ (q : Process). q.resources_to_acquire) self

  -- The state after the acquisition.
  pub take_resource-Acting :
      Acting c (take_resource c (kept ++ rest) rs t)
      × Steady s (take_resource c (kept ++ rest) rs t)
      × (((take_resource c (kept ++ rest) rs t).procs c).resources_to_acquire ≡ kept ++ rest)
  unfolding written planned taken
  take_resource-Acting =
      let final = take_resource c (kept ++ rest) rs t in
      let same : Alike written final = record {
        procs = λ q. refl;
        ready = refl;
        fork = refl;
        resources = refl;
        ticks = refl;
      } in
      (
        record {
          current = written-current;
          valid = Valid-Alike written final same (some c) written-Valid;
          status = ap (λ (q : Process). q.status) written_here ∙ taken-status;
        },
        Steady-trans s written final written-Steady (Alike-Steady written final same),
        ap (λ (q : Process). q.resources_to_acquire) written_here ∙ taken-plans,
      )

  pub present-take_resource :
      (p : ℕ) → present p (some c) (take_resource c (kept ++ rest) rs t) ≡ present p (some c) s
  unfolding owned
  present-take_resource p = omega (
    arith,
    wait_count-set_owner rs.resource_id (some c) s nr_resources p,
    present-Alike owned t like (some c) p,
  )

  -- The other processes see nothing of it.
  others-View : (p : ℕ) → c ≢ p → View (s.procs p) ((take_resource c (kept ++ rest) rs t).procs p)
  unfolding planned owned taken
  others-View p ne =
      subst (View (s.procs p))
        (sym (update_ne planned.procs c p taken ne ∙ update_ne t.procs c p _ ne))
        (Alike-Still owned t like p)

  now_holding :
      ((take_resource c (kept ++ rest) rs t).procs c).resources_holding
      ≡ (s.procs c).resources_holding ++ rs ∷ []
  unfolding written taken planned
  now_holding = ap (λ (q : Process). q.resources_holding) written_here ∙ ap (λ l. l ++ rs ∷ []) held

  -- Nobody waits in vain after it.
  pub take_resource-Carries :
      All (λ x. (s.procs c).age < x.at) kept
      → Carries (hand_of (some c)) s (hand_of (some c)) (take_resource c (kept ++ rest) rs t)
  unfolding owned planned written
  take_resource-Carries later =
      Carries-take c kept rest rs s list later due
        (not_waiting (some c) s c acting.valid.placed (omega (arith, here)))
        (take_resource c (kept ++ rest) rs t) others-View take_resource-Acting.2 now_holding
        new-Held.0
        (λ i ne.
          ap (λ (r : ℕ → Resource). (r i).owner) (sym like.resources)
          ∙ ap (λ (r : Resource). r.owner) (update_ne s.resources rs.resource_id i _ ne))
        (λ i.
          ap (λ (r : ℕ → Resource). (r i).waitqueue) (sym like.resources)
          ∙ waitqueue-set_owner rs.resource_id (some c) s i)
        take_resource-Acting.1.ready (λ p. omega (arith, present-take_resource p))
