-- ===== src/Sched/Framework/Safety/Falls.antt =====
-- The measure falls in each round.
use os_pa.Common.{
  ℕ, ◌+◌, ◌*◌, ◌≤◌, ◌<◌, ◌≡◌, ◌≢◌, ◌⊎◌, refl, sym, ap, ◌∙◌, subst, false, none, some, List, [], ◌∷◌,
  ◌++◌, length, length-append, occurs, inc32, inc32_lem, u32_mod, ltb, lt→ltb, ◌==◌, if◌then◌else◌,
  if_true, if_false, Bool-cases, inl, inr, arith, ==→eq, ==→ne, ==_refl,
}
use os_pa.Sched.Types.{Status, is_blocked, System, Event}
use os_pa.Sched.Queues.{print_event}
use os_pa.Sched.Policy.Contract.Laws.{chosen, running_on}
use os_pa.Sched.Framework.Simulation.{tick_done}
use os_pa.Sched.Framework.Safety.{queued, present, Prev}
use os_pa.Sched.Framework.Safety.Places.{chosen_self}
use os_pa.Sched.Framework.Safety.Counting.{total, total-eq, total-lt}
use os_pa.Sched.Framework.Safety.Aged.{Older}
use os_pa.Sched.Framework.Safety.Alike.{Steady}
use os_pa.Sched.Framework.Safety.Rounds.{Turned}
use os_pa.Sched.Framework.Safety.Measure.{
  hand_list, running_list, time_left, active, measure, Bounded, active_few, chosen_active,
  turned-active, turned-present, turned-left, turned-found, turned-starts,
}

-- The next state is bounded, its measure is less, and a tick has passed.
pub record Falls (all : List ℕ) (last : ℕ) (s w : System) : Type 0 where
  pub bounded : Bounded all last w
  pub less : measure all last w < measure all last s
  pub tick : w.ticks ≡ s.ticks + 1

-- A process is forked at some time.
head_occurs : (queue : List ℕ) → queue ≢ [] → (p : ℕ) × (0 < occurs p queue)
head_occurs [] h = absurd (h refl)
head_occurs (x ∷ queue) h = (x, ground (arith, ==_refl x))

running_on-le-chosen : (p c : ℕ) (s : System) → running_on p (some c) s ≤ chosen p (some c)
running_on-le-chosen p c s = ground arith

-- After its tick a process has a place, or its time is up.
placed_or_over :
    (c : ℕ) (s : System)
    → Prev s (some c)
    → (0 < queued c s + running_on c (some c) s) ⊎ ((s.procs c).age ≡ (s.procs c).lifespan)
placed_or_over c s (Prev.waits _ v b w) = inl (omega (arith, w))
placed_or_over c s (Prev.runs _ v r) =
    let g = v.good c (omega (arith, chosen_self c)) in
    let on : running_on c (some c) s ≡ chosen c (some c) =
      if_false _ _ (ap is_blocked r)
      ∙ if_true _ _ (lt→ltb (s.procs c).age (s.procs c).lifespan g.alive) in
    inl (omega (arith, on, chosen_self c))
placed_or_over c s (Prev.ends _ v r d) = inr d.over

mul_step : (a b k : ℕ) → a < b → a * (k + 1) + k < b * (k + 1)
mul_step a b k h = grind arith

module _ (all : List ℕ) (last : ℕ) (s v : System) (b : Bounded all last s) (t : Turned s v)
    (clock : s.ticks + 1 < u32_mod) where
  ticked : inc32 v.ticks ≡ s.ticks + 1
  ticked = inc32_lem v.ticks (omega (arith, t.clock.ticks, clock)) ∙ ap (λ n. n + 1) t.clock.ticks

  pub idle-Falls :
      v.current ≡ none
      → v.forkqueue ≢ []
      → ((p : ℕ) → 0 < occurs p v.forkqueue → v.ticks < (v.procs p).starts_at)
      → Falls all last s (tick_done (print_event Event.idle v))
  idle-Falls cur more late =
      let w = tick_done (print_event Event.idle v) in
      let (x, there) = head_occurs v.forkqueue more in
      let inside : 0 < occurs x all =
        omega (arith, there, turned-present all last s v b t x, b.places x) in
      let same : active w ≡ chosen_active v =
        ap (λ c. length (v.readyqueue ++ v.forkqueue ++ running_list c w)) cur
        ∙ sym (ap (λ c. length (v.readyqueue ++ v.forkqueue ++ hand_list c)) cur) in
      record {
        bounded = record {
          places = λ p. omega (
            arith,
            turned-present all last s v b t p,
            b.places p,
            ap (λ c. running_on p c w) cur,
          );
          found = λ p h. elim (turned-found all last s v b t p h) [
            | inl placed ↦ inl (omega (arith, placed, ap (λ c. chosen p c) cur))
            | inr over ↦ inr over
          ];
          starts = turned-starts all last s v b t;
        };
        less = omega (
          arith,
          ap (λ n. n * (length all + 1)) (turned-left all last s v b t),
          same,
          turned-active all last s v b t,
          ticked,
          late x there,
          turned-starts all last s v b t x inside,
          t.clock.ticks,
        );
        tick = ticked;
      }

  module _ (c : ℕ) (w : System) (cur : v.current ≡ some c) (now : w.current ≡ some c)
      (prev : Prev (tick_done w) (some c)) where
    in_all : 0 < occurs c all
    in_all = omega (
      arith,
      turned-present all last s v b t c,
      b.places c,
      ap (λ x. chosen c x) cur,
      chosen_self c,
    )

    pub ran-Falls :
        Older c v w → (v.procs c).age < (v.procs c).lifespan → Falls all last s (tick_done w)
    ran-Falls o alive = record { bounded = bounded; less = less; tick = ap inc32 o.ticks ∙ ticked }
      where
        far : (p : ℕ) → (c == p) ≡ false → chosen p (some c) ≡ 0
        far p e = ground (arith, ==→ne c p e)

        found :
            (p : ℕ)
            → 0 < occurs p all
            → (0 < queued p (tick_done w) + running_on p w.current (tick_done w))
              ⊎ ((w.procs p).age ≡ (w.procs p).lifespan)
        found p h = elim (Bool-cases (c == p)) [
          | inl same ↦
              subst
                (λ x.
                  (0 < queued x (tick_done w) + running_on x w.current (tick_done w))
                  ⊎ ((w.procs x).age ≡ (w.procs x).lifespan))
                (==→eq c p same)
                (subst
                  (λ x.
                    (0 < queued c (tick_done w) + running_on c x (tick_done w))
                    ⊎ ((w.procs c).age ≡ (w.procs c).lifespan))
                  (sym now) (placed_or_over c (tick_done w) prev))
          | inr other ↦ elim (turned-found all last s v b t p h) [
            | inl placed ↦
                inl (omega (arith, placed, ap (λ x. chosen p x) cur, o.places p, far p other))
            | inr over ↦ inr (omega (arith, over, o.age p, o.lifespan p, far p other))
          ]
        ]

        bounded : Bounded all last (tick_done w)
        bounded = record {
          places = λ p. omega (
            arith,
            turned-present all last s v b t p,
            b.places p,
            ap (λ x. chosen p x) cur,
            o.places p,
            ap (λ x. running_on p x (tick_done w)) now,
            running_on-le-chosen p c (tick_done w),
          );
          found = found;
          starts = λ p h. omega (arith, turned-starts all last s v b t p h, o.starts_at p);
        }

        left : total (time_left w) all < total (time_left v) all
        left =
            total-lt (time_left w) (time_left v) all c (λ p. omega (arith, o.age p, o.lifespan p))
              (omega (arith, o.age c, o.lifespan c, chosen_self c, alive)) in_all

        less : measure all last (tick_done w) < measure all last s
        less = omega (
          arith,
          mul_step (total (time_left w) all) (total (time_left v) all) (length all) left,
          ap (λ n. n * (length all + 1)) (turned-left all last s v b t),
          active_few all last (tick_done w) bounded,
          ap inc32 o.ticks,
          ticked,
        )

    pub waits-Falls :
        Steady v w
        → ((p : ℕ) → present p none w ≡ present p (some c) v)
        → (w.procs c).status ≡ Status.blocked
        → Falls all last s (tick_done w)
    waits-Falls k places blocked = record {
      bounded = bounded;
      less = less;
      tick = ap inc32 k.ticks ∙ ticked;
    }
      where
        off : (p : ℕ) → running_on p w.current (tick_done w) ≡ 0
        off p = ap (λ x. running_on p x (tick_done w)) now ∙ if_true _ _ (ap is_blocked blocked)

        bounded : Bounded all last (tick_done w)
        bounded = record {
          places = λ p. omega (
            arith,
            turned-present all last s v b t p,
            b.places p,
            ap (λ x. chosen p x) cur,
            places p,
            off p,
          );
          found = λ p h. elim (turned-found all last s v b t p h) [
            | inl placed ↦ inl (omega (arith, placed, ap (λ x. chosen p x) cur, places p, off p))
            | inr over ↦ inr (omega (arith, over, k.age p, k.lifespan p))
          ];
          starts = λ p h. omega (arith, turned-starts all last s v b t p h, k.starts_at p);
        }

        same : active (tick_done w) + 1 ≡ chosen_active v
        same = omega (
          arith,
          ap (λ x. length (w.readyqueue ++ w.forkqueue ++ running_list x (tick_done w))) now,
          ap (λ l. length (w.readyqueue ++ w.forkqueue ++ l))
              (if_true [] (if ltb (w.procs c).age (w.procs c).lifespan then c ∷ [] else [])
                (ap is_blocked blocked)),
          ap (λ q. length (q ++ w.forkqueue ++ [])) k.ready,
          ap (λ q. length (v.readyqueue ++ q ++ [])) k.fork,
          ap (λ x. length (v.readyqueue ++ v.forkqueue ++ hand_list x)) cur,
          length-append (v.readyqueue ++ v.forkqueue) [],
          length-append (v.readyqueue ++ v.forkqueue) (c ∷ []),
        )

        less : measure all last (tick_done w) < measure all last s
        less = omega (
          arith,
          ap (λ n. n * (length all + 1))
              (total-eq (time_left w) (time_left v) all (λ p. omega (arith, k.age p, k.lifespan p))
                ∙ turned-left all last s v b t),
          same,
          turned-active all last s v b t,
          ap inc32 k.ticks,
          ticked,
        )
