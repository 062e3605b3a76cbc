-- ===== src/Sched/Policy/Inversion.antt =====
-- Priority inversion under PIP: who runs while a process waits for a resource.
use os_pa.Common.{
  ℕ, ◌≤◌, ◌<◌, ◌≡◌, ◌≢◌, ◌⊎◌, refl, sym, ap, ◌∙◌, subst, true, false, ◌||◌, Option, some, List, [],
  ◌∷◌, ◌++◌, All, lt→ltb, ◌==◌, ==→eq, ==→ne, ne→==, ==_refl, if_true, if_false, Bool-cases, inl,
  inr, arith,
}
use os_pa.Sched.Types.{Process, System, nr_resources}
use os_pa.Sched.Queues.{contains, set_ready}
use os_pa.Sched.Policy.Pick.First.{FirstGreatest}
use os_pa.Sched.Policy.Schedule.{prio_schedule}
use os_pa.Sched.Policy.Schedule.Choice.{Chosen, Requeues, prio_schedule-Competes}
use os_pa.Sched.Policy.Resources.{
  block, block_current, inherit, pip_inherit, pip_claim, pip_acquire,
}

contains-append :
    (w : ℕ) (xs ys : List ℕ) → contains w (xs ++ ys) ≡ (contains w xs || contains w ys)
contains-append w [] ys = refl
contains-append w (x ∷ xs) ys = ground (arith, contains-append w xs ys)

All-contains : (P : ℕ → Type 0) (w : ℕ) (xs : List ℕ) → All P xs → contains w xs ≡ true → P w
All-contains P w [] h e = cc
All-contains P w (x ∷ xs) h e = elim (Bool-cases (w == x)) [
  | inl same ↦ subst P (sym (==→eq w x same)) h.0
  | inr other ↦ All-contains P w xs h.1 (ap (λ b. b || contains w xs) (sym other) ∙ e)
]

-- The first entry of the greatest key has a key as great as any entry has.
FirstGreatest-le :
    (key : ℕ → ℕ) (queue rest : List ℕ) (next w : ℕ)
    → FirstGreatest key queue next rest
    → contains w queue ≡ true
    → key w ≤ key next
FirstGreatest-le key queue rest next w h e =
    let split : (contains w h.before || contains w (next ∷ h.after)) ≡ true =
      sym (contains-append w h.before (next ∷ h.after)) ∙ ap (contains w) (sym h.whole) ∙ e in
    elim (Bool-cases (contains w h.before)) [
      | inl ahead ↦
          let less : key w < key next = All-contains _ w h.before h.ahead ahead in
          omega (arith, less)
      | inr no_more ↦ elim (Bool-cases (w == next)) [
        | inl same ↦ omega (arith, ap key (==→eq w next same))
        | inr other ↦ All-contains _ w h.after h.behind (
            ap (λ b. b || contains w h.after) (sym other)
            ∙ ap (λ b. b || contains w (next ∷ h.after)) (sym no_more)
            ∙ split)
      ]
    ]

-- prio_schedule with w among the candidates.
abbrev pub Outranks : ℕ → System → Type 0
Outranks w t =
    (n : ℕ) × (u : System) × (prio_schedule t ≡ (some n, u)) × ((t.procs w).prio ≤ (t.procs n).prio)

Chosen-Outranks :
    (w : ℕ) (s t : System) (r : Option ℕ × System)
    → t.procs ≡ s.procs
    → contains w t.readyqueue ≡ true
    → Chosen (FirstGreatest (λ p. (t.procs p).prio)) t r
    → (n : ℕ) × (u : System) × (r ≡ (some n, u)) × ((s.procs w).prio ≤ (s.procs n).prio)
Chosen-Outranks w s t r same there (Chosen.nothing empty e) =
    absurd (true-ne-false (sym there ∙ ap (contains w) empty))
  where
    true-ne-false : true ≢ false
    true-ne-false e = cc
Chosen-Outranks w s t r same there (Chosen.best next rest best e) = (
  next,
  set_ready rest t,
  e,
  subst (λ (procs : ℕ → Process). (procs w).prio ≤ (procs next).prio) same
      (FirstGreatest-le (λ p. (t.procs p).prio) t.readyqueue rest next w best there),
)

-- A ready process does not outrank the choice.
ready-Outranks : (w : ℕ) (s : System) → contains w s.readyqueue ≡ true → Outranks w s
ready-Outranks w s there =
    let (t, joined, chosen) = prio_schedule-Competes s in
    elim joined [
      | Requeues.joins c e runs same ↦
          Chosen-Outranks w s t (prio_schedule s) (ap (λ x. x.procs) same)
            (ap (λ x. contains w x.readyqueue) same
              ∙ contains-append w s.readyqueue (c ∷ [])
              ∙ ap (λ b. b || contains w (c ∷ [])) there)
            chosen
      | Requeues.stays not_running same ↦
          Chosen-Outranks w s t (prio_schedule s) (ap (λ x. x.procs) same)
            (ap (λ x. contains w x.readyqueue) same ∙ there) chosen
    ]

-- The choice is the process o, or one whose priority was `rank` at least.
abbrev pub ServesOrOutranks : (rank o : ℕ) → System → Option ℕ × System → Type 0
ServesOrOutranks rank o s r =
    (n : ℕ) × (u : System) × (r ≡ (some n, u)) × ((n ≡ o) ⊎ (rank ≤ (s.procs n).prio))

module _ (rank o : ℕ) (s t : System) (raised : rank ≤ (t.procs o).prio)
    (others : (p : ℕ) → p ≢ o → (t.procs p).prio ≡ (s.procs p).prio) where
  Outranks-ServesOrOutranks : Outranks o t → ServesOrOutranks rank o s (prio_schedule t)
  Outranks-ServesOrOutranks (n, u, e, above) = (
    n,
    u,
    e,
    elim (Bool-cases (n == o)) [
      | inl same ↦ inl (==→eq n o same)
      | inr other ↦ inr (omega (arith, raised, above, others n (==→ne n o other)))
    ],
  )

prio-block : (id c p : ℕ) (s : System) → ((block id c s).procs p).prio ≡ (s.procs p).prio
prio-block id c p s = elim (Bool-cases (c == p)) [
  | inl same ↦
      ap (λ (q : Process). q.prio) (if_true _ _ same) ∙ ap (λ x. (s.procs x).prio) (==→eq c p same)
  | inr other ↦ ap (λ (q : Process). q.prio) (if_false _ _ other)
]

inherit-raised : (o c : ℕ) (s : System) → (s.procs c).prio ≤ ((inherit o c s).procs o).prio
inherit-raised o c s = ground (arith, ==_refl o)

inherit-others :
    (o c p : ℕ) (s : System) → p ≢ o → ((inherit o c s).procs p).prio ≡ (s.procs p).prio
inherit-others o c p s h = ground (arith, ne→== o p (λ e. h (sym e)))

inherit-ready : (o c : ℕ) (s : System) → (inherit o c s).readyqueue ≡ s.readyqueue
inherit-ready o c s = ground arith

-- Under PIP, let the current process find a resource owned by a process of the ready queue. It is
-- refused, and the next choice is the owner or a process whose priority was no less than that of
-- the refused one.
pub pip_acquire-ServesOrOutranks :
    (id c o : ℕ) (s : System)
    → id < nr_resources
    → s.current ≡ some c
    → (s.resources id).owner ≡ some o
    → contains o s.readyqueue ≡ true
    → (t : System) × (pip_acquire id s ≡ some (false, t))
      × ServesOrOutranks (s.procs c).prio o s (prio_schedule t)
unfolding pip_acquire pip_claim pip_inherit block_current
pip_acquire-ServesOrOutranks id c o s valid current owner ready =
    let t = block id c (inherit o c s) in
    (
      t,
      if_true _ _ (lt→ltb id nr_resources valid)
          ∙ ap (λ x. pip_claim id x s) owner
          ∙ ap (λ x. pip_inherit id o x s) current,
      Outranks-ServesOrOutranks (s.procs c).prio o s t
          (omega (arith, inherit-raised o c s, prio-block id c o (inherit o c s)))
          (λ p h. prio-block id c p (inherit o c s) ∙ inherit-others o c p s h)
          (ready-Outranks o t (ap (contains o) (inherit-ready o c s) ∙ ready)),
    )
