-- ===== src/Sched/Framework/Safety/Waits.antt =====
-- A process that blocks at an owned resource.
use os_pa.Common.{
  ℕ, ◌<◌, ◌≡◌, refl, sym, ap, ◌∙◌, false, none, some, ◌+◌, ◌≤◌, List, [], ◌∷◌, ◌++◌, All,
  if◌then◌else◌, occurs, occurs-append, update_self, ◌==◌, if_true, if_false, Bool-cases, inl, inr,
  arith, ==→eq, ==→ne,
}
use os_pa.Sched.Framework.Safety.Places.{chosen_self}
use os_pa.Sched.Framework.Safety.Forks.{not_waiting}
use os_pa.Sched.Framework.Waiting.{Carries, hand_of}
use os_pa.Sched.Framework.Waiting.Frame.{Still, Still-trans, Alike-Still, set_status-Still}
use os_pa.Sched.Framework.Waiting.Moves.{Carries-block}
use os_pa.Sched.Types.{ResourceSchedule, Status, Process, Resource, System, nr_resources}
use os_pa.Sched.Queues.{set_status, list_add_tail}
use os_pa.Sched.Policy.Resources.{block}
use os_pa.Sched.Policy.Contract.Laws.{chosen}
use os_pa.Sched.Framework.Safety.{wait_count, present, Valid}
use os_pa.Sched.Framework.Safety.Places.{wait_count-update}
use os_pa.Sched.Framework.Safety.Owners.{Good-owners}
use os_pa.Sched.Framework.Safety.Owners.{Acting}
use os_pa.Sched.Framework.Safety.Alike.{
  Alike, Valid-Alike, Valid-set_status, set_status-Steady, Steady, Steady-trans, Alike-Steady,
  present-Alike, status-Alike,
}

module _ (id c : ℕ) (s : System) (range : id < nr_resources) (acting : Acting c s) where
  marked : System
  marked = set_status c Status.blocked s

  marked-Valid : Valid (some c) marked
  unfolding marked
  marked-Valid = Valid-set_status (some c) s c Status.blocked (inl refl) acting.valid

  marked_here : (marked.procs c).status ≡ Status.blocked
  unfolding marked
  marked_here =
      ap (λ (q : Process). q.status)
        (update_self s.procs c (record (s.procs c) { status = Status.blocked }))

  present-block : (p : ℕ) → present p none (block id c s) ≡ present p (some c) marked
  unfolding marked
  present-block p =
      let queue = (s.resources id).waitqueue in
      let own : occurs p (c ∷ []) ≡ chosen p (some c) = omega arith in
      omega (
        arith,
        wait_count-update nr_resources p id s.resources
            (record (s.resources id) { waitqueue = list_add_tail c queue }) range,
        occurs-append p queue (c ∷ []),
        own,
      )

  owner-block : (i : ℕ) → ((block id c s).resources i).owner ≡ (s.resources i).owner
  owner-block i = ground arith

  occurs-block :
      (i w : ℕ)
      → (c == w) ≡ false
      → occurs w ((block id c s).resources i).waitqueue ≡ occurs w (s.resources i).waitqueue
  occurs-block i w other = elim (Bool-cases (id == i)) [
    | inl same ↦
        let queue = (s.resources id).waitqueue in
        let away : occurs w (c ∷ []) ≡ 0 = ground (arith, ==→ne c w other) in
        omega (
          arith,
          ap (λ (r : Resource). occurs w r.waitqueue)
              (if_true (record (s.resources id) { waitqueue = list_add_tail c queue })
                (s.resources i) same),
          occurs-append w queue (c ∷ []),
          away,
          ap (λ x. occurs w (s.resources x).waitqueue) (==→eq id i same),
        )
    | inr far ↦
        ap (λ (r : Resource). occurs w r.waitqueue)
          (if_false
            (record (s.resources id) { waitqueue = list_add_tail c (s.resources id).waitqueue })
            (s.resources i) far)
  ]

  waiter_blocked :
      (i w : ℕ)
      → i < nr_resources
      → 0 < occurs w ((block id c s).resources i).waitqueue
      → ((block id c s).procs w).status ≡ Status.blocked
  unfolding marked
  waiter_blocked i w h k = elim (Bool-cases (c == w)) [
    | inl own ↦ ap (λ x. (marked.procs x).status) (sym (==→eq c w own)) ∙ marked_here
    | inr other ↦ marked-Valid.placed.blocked i w h (omega (arith, k, occurs-block i w other))
  ]

  block-Valid : Valid none (block id c s)
  unfolding marked
  block-Valid = record {
    placed = record {
      once = λ p. omega (arith, present-block p, marked-Valid.placed.once p);
      blocked = waiter_blocked;
    };
    good = λ p h.
        Good-owners s.resources (block id c s).resources p (marked.procs p)
          (λ rs k. owner-block rs.resource_id)
          (marked-Valid.good p (omega (arith, present-block p, h)));
  }

  block-waiting : 0 < wait_count nr_resources c (block id c s).resources
  block-waiting =
      let queue = (s.resources id).waitqueue in
      let own : occurs c (c ∷ []) ≡ 1 = ground arith in
      omega (
        arith,
        wait_count-update nr_resources c id s.resources
            (record (s.resources id) { waitqueue = list_add_tail c queue }) range,
        occurs-append c queue (c ∷ []),
        own,
      )

  block-Steady : Steady s (block id c s)
  unfolding marked
  block-Steady =
      Steady-trans s marked (block id c s) (set_status-Steady c Status.blocked s) (record {
        age = λ p. refl;
        lifespan = λ p. refl;
        starts_at = λ p. refl;
        ticks = refl;
        ready = refl;
        fork = refl;
      })

  -- The same for a state that differs from it in priorities and output.
  pub blocked-Waiting :
      (t : System)
      → Alike (block id c s) t
      → Valid none t
        × ((t.procs c).status ≡ Status.blocked)
        × (0 < wait_count nr_resources c t.resources)
        × Steady s t
        × ((p : ℕ) → present p none t ≡ present p (some c) s)
  unfolding marked
  blocked-Waiting t a = (
    Valid-Alike (block id c s) t a none block-Valid,
    status-Alike (block id c s) t a c ∙ marked_here,
    omega (arith, block-waiting, ap (wait_count nr_resources c) a.resources),
    Steady-trans s (block id c s) t block-Steady (Alike-Steady (block id c s) t a),
    λ p. omega (arith, present-block p, present-Alike (block id c s) t a none p),
  )

  block-Still : Still s (block id c s)
  unfolding marked
  block-Still = set_status-Still c Status.blocked s

  more-block :
      (i w : ℕ)
      → occurs w ((block id c s).resources i).waitqueue
        ≤ occurs w (s.resources i).waitqueue + (if id == i then chosen w (some c) else 0)
  more-block i w =
      let queue = (s.resources id).waitqueue in
      let own : occurs w (c ∷ []) ≡ chosen w (some c) = omega arith in
      elim (Bool-cases (id == i)) [
        | inl same ↦ omega (
          arith,
          ap (λ (r : Resource). occurs w r.waitqueue)
              (if_true (record (s.resources id) { waitqueue = list_add_tail c queue })
                (s.resources i) same),
          occurs-append w queue (c ∷ []),
          own,
          ap (λ x. occurs w (s.resources x).waitqueue) (==→eq id i same),
          if_true (chosen w (some c)) 0 same,
        )
        | inr far ↦ omega (
          arith,
          ap (λ (r : Resource). occurs w r.waitqueue)
              (if_false (record (s.resources id) { waitqueue = list_add_tail c queue })
                (s.resources i) far),
          if_false (chosen w (some c)) 0 far,
        )
      ]

  -- A process that blocks at an owned resource does not wait in vain.
  pub blocked-Carries :
      (kept rest : List ResourceSchedule) (rs : ResourceSchedule)
      → rs.resource_id ≡ id
      → (s.procs c).resources_to_acquire ≡ kept ++ rs ∷ rest
      → All (λ x. (s.procs c).age < x.at) kept
      → rs.at ≡ (s.procs c).age
      → (o : ℕ) → (s.resources id).owner ≡ some o
      → (t : System) → Alike (block id c s) t
      → Carries (hand_of (some c)) s (hand_of none) t
  unfolding marked
  blocked-Carries kept rest rs same list later due o owner t a =
      Carries-block c kept rest rs s list later due
        (not_waiting (some c) s c acting.valid.placed (omega (arith, chosen_self c))) t
        (Still-trans s (block id c s) t block-Still (Alike-Still (block id c s) t a)) o
        (ap (λ x. (s.resources x).owner) same ∙ owner)
        (λ i. ap (λ (r : ℕ → Resource). (r i).owner) (sym a.resources) ∙ owner-block i)
        (λ i w. omega (
          arith,
          more-block i w,
          ap (λ (r : ℕ → Resource). occurs w (r i).waitqueue) a.resources,
          ap (λ x. if x == i then chosen w (some c) else 0) same,
        ))
        (sym a.ready) (λ p. omega (arith, present-block p, present-Alike (block id c s) t a none p))
