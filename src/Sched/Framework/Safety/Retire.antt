-- ===== src/Sched/Framework/Safety/Retire.antt =====
-- The update of the process of the last tick keeps the invariant.
use os_pa.Common.{
  ℕ, zero, suc, ◌<◌, ◌≡◌, ◌⊎◌, refl, sym, ap, ◌∙◌, subst, Bool, true, ◌&&◌, Option, none, some, [],
  occurs, is_empty, update_self, ◌==◌, ne→==, ==_refl, if◌then◌else◌, if_true, if_false, Bool-cases,
  inl, inr, arith,
}
use os_pa.Sched.Types.{Status, is_running, Process, System, Event, nr_resources}
use os_pa.Sched.Queues.{set_status, print_event}
use os_pa.Sched.Framework.Simulation.{is_detached, exit_process, retire}
use os_pa.Sched.Framework.Safety.{queued, Placed, Valid}
use os_pa.Sched.Framework.Safety.Places.{detached, occurs-wait_count}
use os_pa.Sched.Framework.Safety.Alike.{
  Valid-Alike, Valid-set_status, set_status-Steady, Steady, Steady-refl, Steady-trans, Alike-Steady,
}
use os_pa.Sched.Framework.Waiting.Frame.{Still, Still-refl, Still-trans, set_status-Still}
use os_pa.Sched.Framework.Safety.Turns.{Left, Scheduled}

zero_or_pos : (n : ℕ) → (n ≡ 0) ⊎ (0 < n)
zero_or_pos zero = inl refl
zero_or_pos (suc n) = inr (omega arith)

running_free :
    (hand : Option ℕ) (s : System) (c : ℕ)
    → Placed hand s
    → is_running (s.procs c).status ≡ true
    → (i : ℕ) → i < nr_resources
    → occurs c (s.resources i).waitqueue ≡ 0
running_free hand s c v r i h = elim (zero_or_pos (occurs c (s.resources i).waitqueue)) [
  | inl none_there ↦ none_there
  | inr there ↦ absurd (ground (arith, v.blocked i c h there, r))
]

all_true : {a b c : Bool} → a ≡ true → b ≡ true → c ≡ true → (a && b && c) ≡ true
all_true e f g = ground (arith, e, f, g)

-- The state after the update, and what it leaves alone.
pub record Retired (u : System) (r : Option System) : Type 0 where
  pub v : System
  pub result : r ≡ some v
  pub valid : Valid u.current v
  pub current : v.current ≡ u.current
  pub steady : Steady u v
  pub resources : v.resources ≡ u.resources
  pub still : Still u v

-- The part after the status is reset.
abbrev leave : ℕ → System → Option System
leave c t =
    if (t.procs c).age == (t.procs c).lifespan
    then exit_process c (set_status c Status.exit t)
    else some t

-- A process with the counts and the lists of one whose time is up exits.
exit_process-Retired :
    (c : ℕ) (t : System)
    → Valid t.current t
    → queued c t ≡ 0
    → (t.procs c).resources_holding ≡ []
    → (t.procs c).resources_to_acquire ≡ []
    → Retired t (exit_process c (set_status c Status.exit t))
unfolding exit_process
exit_process-Retired c t valid gone released acquired =
    let x = set_status c Status.exit t in
    let here : x.procs c ≡ record (t.procs c) { status = Status.exit } =
      update_self t.procs c (record (t.procs c) { status = Status.exit }) in
    let h : is_empty (x.procs c).resources_holding ≡ true =
      ap is_empty (ap (λ (q : Process). q.resources_holding) here ∙ released) in
    let a : is_empty (x.procs c).resources_to_acquire ≡ true =
      ap is_empty (ap (λ (q : Process). q.resources_to_acquire) here ∙ acquired) in
    let test : (is_detached c x
          && is_empty (x.procs c).resources_holding
          && is_empty (x.procs c).resources_to_acquire)
        ≡ true =
      all_true (detached c x gone) h a in
    record {
      v = print_event (Event.exited (x.procs c).pid) x;
      result = if_true _ _ test;
      valid =
          Valid-Alike x (print_event (Event.exited (x.procs c).pid) x)
            (record {
              procs = λ q. refl;
              ready = refl;
              fork = refl;
              resources = refl;
              ticks = refl;
            })
            t.current
            (Valid-set_status t.current t c Status.exit
              (inr (λ i k. omega (arith, gone, occurs-wait_count nr_resources c i t.resources k)))
              valid);
      current = refl;
      steady =
          Steady-trans t x (print_event (Event.exited (x.procs c).pid) x)
            (set_status-Steady c Status.exit t)
            (Alike-Steady x (print_event (Event.exited (x.procs c).pid) x) (record {
              procs = λ q. refl;
              ready = refl;
              fork = refl;
              resources = refl;
              ticks = refl;
            }));
      resources = refl;
      still = set_status-Still c Status.exit t;
    }

-- `t` is `u` but for the status of c.
module _ (c : ℕ) (u t : System) (valid : Valid u.current t) (current : t.current ≡ u.current)
    (steady : Steady u t) (resources : t.resources ≡ u.resources) (still : Still u t) where
  leave_alive : (u.procs c).age < (u.procs c).lifespan → Retired u (leave c t)
  leave_alive h = record {
    v = t;
    result = if_false _ _ (
        ne→== (t.procs c).age (t.procs c).lifespan
          (λ e. omega (arith, h, e, steady.age c, steady.lifespan c)));
    valid = valid;
    current = current;
    steady = steady;
    resources = resources;
    still = still;
  }

  leave_done :
      (u.procs c).age ≡ (u.procs c).lifespan
      → queued c t ≡ 0
      → (t.procs c).resources_holding ≡ []
      → (t.procs c).resources_to_acquire ≡ []
      → Retired u (leave c t)
  leave_done over gone released acquired =
      let x =
        exit_process-Retired c t (subst (λ h. Valid h t) (sym current) valid) gone released
          acquired in
      let same : (t.procs c).age ≡ (t.procs c).lifespan =
        steady.age c ∙ over ∙ sym (steady.lifespan c) in
      let test : ((t.procs c).age == (t.procs c).lifespan) ≡ true =
        ap (λ n. n == (t.procs c).lifespan) same ∙ ==_refl (t.procs c).lifespan in
      record {
        v = x.v;
        result = if_true _ _ test ∙ x.result;
        valid = subst (λ h. Valid h x.v) current x.valid;
        current = x.current ∙ current;
        steady = Steady-trans u t x.v steady x.steady;
        resources = x.resources ∙ resources;
        still = Still-trans u t x.v still x.still;
      }

-- Both forms of the state after the reset of the status.
module _ (c : ℕ) (u : System) (valid : Valid u.current u) where
  reset : System
  reset = set_status c Status.ready u

  reset_here : reset.procs c ≡ record (u.procs c) { status = Status.ready }
  unfolding reset
  reset_here = update_self u.procs c (record (u.procs c) { status = Status.ready })

  reset-Steady : Steady u reset
  unfolding reset
  reset-Steady = set_status-Steady c Status.ready u

  reset-Still : Still u reset
  unfolding reset
  reset-Still = set_status-Still c Status.ready u

  reset-Valid : is_running (u.procs c).status ≡ true → Valid u.current reset
  unfolding reset
  reset-Valid r =
      Valid-set_status u.current u c Status.ready (inr (running_free u.current u c valid.placed r))
        valid

  retire-Retired : Left u (some c) → Retired u (retire (some c) u)
  unfolding retire reset
  retire-Retired (Left.alive _ h) = elim (Bool-cases (is_running (u.procs c).status)) [
    | inl r ↦
        subst (λ t. Retired u (leave c t)) (sym (if_true _ _ r))
          (leave_alive c u reset (reset-Valid r) refl reset-Steady refl reset-Still h)
    | inr r ↦
        subst (λ t. Retired u (leave c t)) (sym (if_false _ _ r))
          (leave_alive c u u valid refl (Steady-refl u) refl (Still-refl u) h)
  ]
  retire-Retired (Left.ends _ r d) =
      let run : is_running (u.procs c).status ≡ true = ap is_running r in
      subst (λ t. Retired u (leave c t)) (sym (if_true _ _ run))
        (leave_done c u reset (reset-Valid run) refl reset-Steady refl reset-Still d.over d.gone
          (ap (λ (q : Process). q.resources_holding) reset_here ∙ d.released)
          (ap (λ (q : Process). q.resources_to_acquire) reset_here ∙ d.acquired))

pub retire_lem : (cur : Option ℕ) (s u : System) → Scheduled cur s u → Retired u (retire cur u)
unfolding retire
retire_lem none s u q = record {
  v = u;
  result = refl;
  valid = q.valid;
  current = refl;
  steady = Steady-refl u;
  resources = refl;
  still = Still-refl u;
}
retire_lem (some c) s u q = retire-Retired c u q.valid q.left
