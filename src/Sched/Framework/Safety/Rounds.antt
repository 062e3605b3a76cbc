-- ===== src/Sched/Framework/Safety/Rounds.antt =====
-- A round of the simulation keeps the invariant, and no assertion fails.
use os_pa.Common.{
  ℕ, ◌+◌, ◌≤◌, ◌<◌, ◌≡◌, ◌≢◌, ◌⊎◌, refl, sym, ap, ◌∙◌, subst, Bool, true, false, ◌&&◌, Option, none,
  some, List, [], ◌∷◌, occurs, is_empty, if_true, if_false, inl, inr, arith,
}
use os_pa.Sched.Types.{Status, Resource, System, Event, nr_resources}
use os_pa.Sched.Queues.{print_event}
use os_pa.Sched.Policy.Tables.{Scheduler}
use os_pa.Sched.Policy.Contract.Laws.{chosen, running_on, Honours}
use os_pa.Sched.Framework.Simulation.{
  execute, reschedule, fork_on_schedule, run_tick, tick_done, round,
}
use os_pa.Sched.Framework.Safety.{wait_count, present, Valid, Prev}
use os_pa.Sched.Framework.Safety.Forks.{Late, Late-Clocked, fork_on_schedule-Forked}
use os_pa.Sched.Framework.Safety.Turns.{reschedule-Scheduled}
use os_pa.Sched.Framework.Safety.Retire.{retire_lem}
use os_pa.Sched.Framework.Safety.Aged.{Older}
use os_pa.Sched.Framework.Safety.Ticks.{Executed}
use os_pa.Sched.Framework.Waiting.{Carries, hand_of, on_turn}
use os_pa.Sched.Framework.Waiting.Frame.{Still, Still-trans, Carries-frame}
use os_pa.Sched.Framework.Safety.Alike.{Clocked, Clocked-trans, Steady-Clocked, Steady}
use os_pa.Sched.Framework.Safety.Execute.{execute-Executed}

tick_done-Valid : (hand : Option ℕ) (s : System) → Valid hand s → Valid hand (tick_done s)
tick_done-Valid hand s v = record {
  placed = record { once = v.placed.once; blocked = v.placed.blocked };
  good = v.good;
}

tick_done-Prev : (cur : Option ℕ) (s : System) → Prev s cur → Prev (tick_done s) cur
tick_done-Prev _ s (Prev.nobody v) = Prev.nobody (tick_done-Valid none s v)
tick_done-Prev _ s (Prev.waits c v b w) = Prev.waits c (tick_done-Valid none s v) b w
tick_done-Prev _ s (Prev.runs c v r) = Prev.runs c (tick_done-Valid (some c) s v) r
tick_done-Prev _ s (Prev.ends c v r d) =
    Prev.ends c (tick_done-Valid none s v) r
      (record { gone = d.gone; over = d.over; released = d.released; acquired = d.acquired })

-- What the round does before the tick: the times and the wait queues stay, the other places change
-- as the scheduler chooses, and who is left in the fork queue is not due.
pub record Turned (s v : System) : Type 0 where
  pub clock : Clocked s v
  pub resources : v.resources ≡ s.resources
  pub counts :
      (p : ℕ)
      → occurs p v.readyqueue + occurs p v.forkqueue + chosen p v.current
        ≡ occurs p s.readyqueue + occurs p s.forkqueue + running_on p s.current s
  pub late : (p : ℕ) → 0 < occurs p v.forkqueue → Late v p
  pub still : Still s v
  pub fewer : (p : ℕ) → occurs p v.forkqueue ≤ occurs p s.forkqueue

-- The part of a round before the tick leaves nobody to wait in vain.
pub Turned-Carries :
    (s v : System) → Turned s v → Carries (on_turn s.current s) s (hand_of v.current) v
Turned-Carries s v t =
    Carries-frame (on_turn s.current s) (hand_of v.current) s v t.still
      (λ i. ap (λ (r : ℕ → Resource). (r i).owner) t.resources)
      (λ i w. omega (arith, ap (λ (r : ℕ → Resource). occurs w (r i).waitqueue) t.resources))
      (λ p. omega (arith, t.counts p, t.fewer p))
      (λ p. omega (arith, t.counts p, ap (wait_count nr_resources p) t.resources))

-- What a tick of c does.
pub data Tick (c : ℕ) (v w : System) : Type 0 where
  ran : Older c v w → (v.procs c).age < (v.procs c).lifespan → Tick c v w
  waits :
      Steady v w
      → ((p : ℕ) → present p none w ≡ present p (some c) v)
      → (w.procs c).status ≡ Status.blocked
      → Tick c v w

-- A round ends the simulation, is idle, or gives a process its tick.
pub data Round (sched : Scheduler) (s : System) (r : Option (Bool × System)) : Type 0 where
  stops :
      (v : System)
      → Turned s v
      → r ≡ some (false, v)
      → Valid none v
      → v.current ≡ none
      → v.readyqueue ≡ []
      → v.forkqueue ≡ []
      → Round sched s r
  idles :
      (v : System)
      → Turned s v
      → r ≡ some (true, tick_done (print_event Event.idle v))
      → Prev (tick_done (print_event Event.idle v)) none
      → v.current ≡ none
      → v.readyqueue ≡ []
      → v.forkqueue ≢ []
      → Round sched s r
  acts :
      (c : ℕ) (v w : System)
      → Turned s v
      → r ≡ some (true, tick_done w)
      → v.current ≡ some c
      → w.current ≡ some c
      → Prev (tick_done w) (some c)
      → Tick c v w
      → Carries (hand_of (some c)) v (on_turn (some c) w) w
      → Round sched s r

empty_or_not {ℓ} : {A : Type ℓ} (xs : List A) → (xs ≡ []) ⊎ (xs ≢ [])
empty_or_not [] = inl refl
empty_or_not (x ∷ xs) = inr (λ e. cc)

module _ (sched : Scheduler) (honours : Honours sched) (s : System) where
  tick_none :
      (v : System)
      → Turned s v
      → Valid none v
      → v.current ≡ none
      → v.readyqueue ≡ []
      → Round sched s (run_tick sched none v)
  unfolding run_tick
  tick_none v e valid cur ready = elim (empty_or_not v.forkqueue) [
    | inl done ↦
        Round.stops v e
          (if_true _ _ (ap (λ q. is_empty q && is_empty v.forkqueue) ready ∙ ap is_empty done))
          valid cur ready done
    | inr more ↦
        Round.idles v e
          (if_false _ _
            (ap (λ q. is_empty q && is_empty v.forkqueue) ready ∙ not_empty v.forkqueue more))
          (Prev.nobody (record {
            placed = record { once = valid.placed.once; blocked = valid.placed.blocked };
            good = valid.good;
          }))
          cur ready more
  ]
    where
      not_empty : (q : List ℕ) → q ≢ [] → is_empty q ≡ false
      not_empty [] h = absurd (h refl)
      not_empty (x ∷ q) h = refl

  tick_some :
      (c : ℕ) (v : System)
      → Turned s v
      → Valid (some c) v
      → v.current ≡ some c
      → Round sched s (run_tick sched (some c) v)
  unfolding run_tick
  tick_some c v e valid cur = elim (execute-Executed sched honours c v valid cur) [
    | Executed.ran w got now prev older alive carries ↦
        Round.acts c v w e (stage_of w got) cur now (tick_done-Prev (some c) w prev)
          (Tick.ran older alive) carries
    | Executed.waits w got now prev steady places blocked carries ↦
        Round.acts c v w e (stage_of w got) cur now (tick_done-Prev (some c) w prev)
          (Tick.waits steady places blocked) carries
  ]
    where
      stage_of :
          (w : System)
          → execute sched c v ≡ some w
          → run_tick sched (some c) v ≡ some (true, tick_done w)
      stage_of w got = ap (λ o. elim o [ none ↦ none | some x ↦ some (true, tick_done x) ]) got

  tick-Round :
      (next : Option ℕ) (v : System)
      → Turned s v
      → Valid next v
      → v.current ≡ next
      → (next ≡ none → v.readyqueue ≡ [])
      → Round sched s (run_tick sched next v)
  tick-Round none v e valid cur idle = tick_none v e valid cur (idle refl)
  tick-Round (some c) v e valid cur idle = tick_some c v e valid cur

  pub round-Round : Prev s s.current → Round sched s (round sched s)
  unfolding round
  round-Round prev =
      let t = (fork_on_schedule s).1 in
      let f = fork_on_schedule-Forked s.current s prev in
      let u = reschedule sched t in
      let before : Prev t t.current = subst (Prev t) (sym f.current) f.prev in
      let q = reschedule-Scheduled sched t.current t honours refl before in
      let x = retire_lem t.current t u q in
      let turned : Turned s x.v = record {
        clock =
            Clocked-trans s u x.v (Clocked-trans s t u f.clock q.clock)
              (Steady-Clocked u x.v x.steady);
        resources = x.resources ∙ q.resources ∙ f.resources;
        counts = λ p. omega (
          arith,
          ap (occurs p) x.steady.ready,
          ap (occurs p) x.steady.fork,
          ap (chosen p) x.current,
          q.counts p,
          ap (occurs p) q.fork,
          f.counts p,
          f.running p,
          ap (λ c. running_on p c t) f.current,
        );
        late = λ p h. Late-Clocked u x.v p (Steady-Clocked u x.v x.steady) (
            Late-Clocked t u p q.clock
              (f.late p (omega (arith, h, ap (occurs p) x.steady.fork, ap (occurs p) q.fork))));
        still = Still-trans s u x.v (Still-trans s t u f.still q.still) x.still;
        fewer = λ p. omega (arith, f.fewer p, ap (occurs p) x.steady.fork, ap (occurs p) q.fork);
      } in
      subst (Round sched s)
        (sym (ap (λ o. elim o [ none ↦ none | some v ↦ run_tick sched u.current v ]) x.result))
        (tick-Round u.current x.v turned x.valid x.current (λ e. x.steady.ready ∙ q.idle e))
