-- ===== src/Sched/Framework/Waiting/Frame.antt =====
-- Steps that change neither what a process plans nor what it holds.
use os_pa.Common.{
  ℕ, ◌+◌, ◌≤◌, ◌<◌, ◌≡◌, refl, ap, ◌∙◌, sym, subst, All, occurs, update, ◌==◌, if_true, if_false,
  Bool-cases, inl, inr, ==→eq, arith,
}
use os_pa.Sched.Types.{Status, ResourceSchedule, Process, Resource, System, nr_resources}
use os_pa.Sched.Queues.{set_status}
use os_pa.Sched.Framework.Safety.{wait_count, queued}
use os_pa.Sched.Framework.Safety.Alike.{Alike}
use os_pa.Sched.Framework.Waiting.{ids, first_due, Due, Holds, Ascending, Ordered, Served, Carries}

-- The age, the plans and the resources held are the same.
pub record View (q q' : Process) : Type 0 where
  pub age : q'.age ≡ q.age
  pub plans : q'.resources_to_acquire ≡ q.resources_to_acquire
  pub held : ids q'.resources_holding ≡ ids q.resources_holding

pub View-refl : (q : Process) → View q q
View-refl q = record { age = refl; plans = refl; held = refl }

pub View-trans : (q r t : Process) → View q r → View r t → View q t
View-trans q r t h k = record {
  age = k.age ∙ h.age;
  plans = k.plans ∙ h.plans;
  held = k.held ∙ h.held;
}

module _ {q q' : Process} (v : View q q') where
  pub Due-View : (i : ℕ) → Due i q → Due i q'
  Due-View i h =
      ap (λ n. first_due n q'.resources_to_acquire) v.age ∙ ap (first_due q.age) v.plans ∙ h

  pub Holds-View : (i : ℕ) → Holds i q → Holds i q'
  Holds-View i h = subst (λ l. 0 < occurs i l) (sym v.held) h

  pub Ordered-View : Ordered q → Ordered q'
  Ordered-View h =
      subst
        (λ l.
          Ascending l
          × All (λ (y : ResourceSchedule). All (λ x. x < y.resource_id) (ids q'.resources_holding))
              l)
        (sym v.plans)
        (
          h.0,
          subst
              (λ l.
                All (λ (y : ResourceSchedule). All (λ x. x < y.resource_id) l)
                  q.resources_to_acquire)
              (sym v.held) h.1,
        )

-- The same of all processes.
abbrev pub Still : System → System → Type 0
Still s t = (p : ℕ) → View (s.procs p) (t.procs p)

pub Still-refl : (s : System) → Still s s
Still-refl s p = View-refl (s.procs p)

pub Still-trans : (s t u : System) → Still s t → Still t u → Still s u
Still-trans s t u h k p = View-trans (s.procs p) (t.procs p) (u.procs p) (h p) (k p)

pub Alike-Still : (s t : System) → Alike s t → Still s t
Alike-Still s t a p = record {
  age = ap (λ (q : Process). q.age) (sym (a.procs p));
  plans = ap (λ (q : Process). q.resources_to_acquire) (sym (a.procs p));
  held = ap (λ (q : Process). ids q.resources_holding) (sym (a.procs p));
}

pub View-write :
    (s : System) (x : ℕ) (q : Process) (p : ℕ)
    → View (s.procs x) q
    → View (s.procs p) (update s.procs x q p)
View-write s x q p v = elim (Bool-cases (x == p)) [
  | inl same ↦
      subst (View (s.procs p)) (sym (if_true _ _ same))
        (subst (λ y. View (s.procs y) q) (==→eq x p same) v)
  | inr other ↦ subst (View (s.procs p)) (sym (if_false _ _ other)) (View-refl (s.procs p))
]

pub set_status-Still : (x : ℕ) (st : Status) (s : System) → Still s (set_status x st s)
set_status-Still x st s p =
    View-write s x (record (s.procs x) { status = st }) p
      (record { age = refl; plans = refl; held = refl })

-- The owners stay, no one waits anew, and no one who can run is lost.
module _ (hand hand' : ℕ → ℕ) (s t : System) (still : Still s t)
    (owners : (i : ℕ) → (t.resources i).owner ≡ (s.resources i).owner)
    (fewer : (i w : ℕ) → occurs w (t.resources i).waitqueue ≤ occurs w (s.resources i).waitqueue)
    (ready : (p : ℕ) → occurs p s.readyqueue + hand p ≤ occurs p t.readyqueue + hand' p)
    (places : (p : ℕ) → queued p s + hand p ≤ queued p t + hand' p) where
  Served-kept : (i : ℕ) → Served hand s i → Served hand' t i
  Served-kept i (Served.owned o e) = Served.owned o (owners i ∙ e)
  Served-kept i (Served.wanted q k d) =
      Served.wanted q (omega (arith, k, ready q)) (Due-View (still q) i d)

  pub Carries-frame : Carries hand s hand' t
  Carries-frame all h = record {
    due = λ i w r k. Due-View (still w) i (h.due i w r (omega (arith, k, fewer i w)));
    holds = λ i o r e. Holds-View (still o) i (h.holds i o r (sym (owners i) ∙ e));
    there = λ i o r e. omega (arith, h.there i o r (sym (owners i) ∙ e), places o);
    served = λ i w r k. Served-kept i (h.served i w r (omega (arith, k, fewer i w)));
    ordered = λ p k. Ordered-View (still p) (h.ordered p k);
  }

-- States that differ in nothing that counts here.
pub Carries-Alike : (hand : ℕ → ℕ) (s t : System) → Alike s t → Carries hand s hand t
Carries-Alike hand s t a =
    Carries-frame hand hand s t (Alike-Still s t a)
      (λ i. ap (λ (r : ℕ → Resource). (r i).owner) (sym a.resources))
      (λ i w. omega (arith, ap (λ (r : ℕ → Resource). occurs w (r i).waitqueue) a.resources))
      (λ p. omega (arith, ap (occurs p) a.ready))
      (λ p. omega (
        arith,
        ap (occurs p) a.ready,
        ap (occurs p) a.fork,
        ap (wait_count nr_resources p) a.resources,
      ))

pub Carries-hand :
    (hand hand' : ℕ → ℕ) (s : System) → ((p : ℕ) → hand' p ≡ hand p) → Carries hand s hand' s
Carries-hand hand hand' s same =
    Carries-frame hand hand' s s (Still-refl s) (λ i. refl) (λ i w. omega arith)
      (λ p. omega (arith, same p)) (λ p. omega (arith, same p))
