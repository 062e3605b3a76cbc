-- ===== src/Sched/Policy/Contract/Claims.antt =====
-- Each acquire() of pa2.c takes a free resource, and blocks the current process at an owned one.
use os_pa.Common.{
  ℕ, ◌<◌, ◌≡◌, refl, ap, ◌∙◌, fun_ext, Option, none, some, ltb, lt→ltb, if_true, inl, inr,
  Bool-cases, arith, subst, sym,
}
use os_pa.Sched.Types.{System, nr_resources, max_prio}
use os_pa.Sched.Queues.{set_owner, set_prio}
use os_pa.Sched.Policy.Resources.{
  block, block_current, fcfs_claim, fcfs_acquire, pcp_own, pcp_claim, pcp_acquire, inherit,
  pip_inherit, pip_claim, pip_acquire,
}
use os_pa.Sched.Policy.Contract.Laws.{unprio, Acquires}
use os_pa.Sched.Policy.Contract.Schedules.{unprio-set_prio}

unprio-inherit : (owner c : ℕ) (s : System) → unprio (inherit owner c s) ≡ unprio s
unprio-inherit owner c s = elim (Bool-cases (ltb (s.procs owner).prio (s.procs c).prio)) [
  | inl e ↦ rw e (unprio-set_prio owner (s.procs c).prio s)
  | inr e ↦ rw e
]

-- Blocking reads no priority.
unprio-block :
    (id c : ℕ) (s t : System) → unprio s ≡ unprio t → unprio (block id c s) ≡ unprio (block id c t)
unprio-block id c s t e = forgets s ∙ ap (λ u. unprio (block id c u)) e ∙ sym (forgets t)
  where
    forgets : (u : System) → unprio (block id c u) ≡ unprio (block id c (unprio u))
    forgets u = ap (λ f. record (block id c u) { procs = f }) (fun_ext λ q. ground arith)

module _ (id c : ℕ) (s : System) (current : s.current ≡ some c) where
  fcfs_claim-Acquires :
      (o : Option ℕ) → (s.resources id).owner ≡ o → Acquires id c s (fcfs_claim id o s)
  unfolding fcfs_claim
  fcfs_claim-Acquires none e =
      Acquires.takes (set_owner id s.current s) e refl (ap (λ o. unprio (set_owner id o s)) current)
  fcfs_claim-Acquires (some owner) e =
      Acquires.blocks (block id c s) owner e (ap (λ o. block_current id o s) current) refl

  pcp_claim-Acquires :
      (o : Option ℕ) → (s.resources id).owner ≡ o → Acquires id c s (pcp_claim id o s)
  unfolding pcp_claim
  pcp_claim-Acquires none e =
      Acquires.takes (set_prio c max_prio (set_owner id (some c) s)) e
        (ap (λ o. pcp_own id o s) current) (unprio-set_prio c max_prio (set_owner id (some c) s))
  pcp_claim-Acquires (some owner) e =
      Acquires.blocks (block id c s) owner e (ap (λ o. block_current id o s) current) refl

  pip_claim-Acquires :
      (o : Option ℕ) → (s.resources id).owner ≡ o → Acquires id c s (pip_claim id o s)
  unfolding pip_claim
  pip_claim-Acquires none e =
      Acquires.takes (set_owner id s.current s) e refl (ap (λ o. unprio (set_owner id o s)) current)
  pip_claim-Acquires (some owner) e =
      Acquires.blocks (block id c (inherit owner c s)) owner e
        (ap (λ o. pip_inherit id owner o s) current)
        (unprio-block id c (inherit owner c s) s (unprio-inherit owner c s))

  module _ (range : id < nr_resources) where
    pub fcfs_acquire-Acquires : Acquires id c s (fcfs_acquire id s)
    unfolding fcfs_acquire
    fcfs_acquire-Acquires =
        subst (Acquires id c s) (sym (if_true _ _ (lt→ltb id nr_resources range)))
          (fcfs_claim-Acquires (s.resources id).owner refl)

    pub pcp_acquire-Acquires : Acquires id c s (pcp_acquire id s)
    unfolding pcp_acquire
    pcp_acquire-Acquires =
        subst (Acquires id c s) (sym (if_true _ _ (lt→ltb id nr_resources range)))
          (pcp_claim-Acquires (s.resources id).owner refl)

    pub pip_acquire-Acquires : Acquires id c s (pip_acquire id s)
    unfolding pip_acquire
    pip_acquire-Acquires =
        subst (Acquires id c s) (sym (if_true _ _ (lt→ltb id nr_resources range)))
          (pip_claim-Acquires (s.resources id).owner refl)
