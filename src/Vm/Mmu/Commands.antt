-- ===== src/Vm/Mmu/Commands.antt =====
-- What each command of the simulator does to the invariant of the page frames.
use os_pa.Common.{
  ℕ, ◌<◌, ◌≡◌, refl, sym, ap, subst, ◌∙◌, inl, inr, Bool, true, false, not, ◌&&◌, ◌||◌, Option,
  none, some, List, if_true, if_false, arith, Bool-cases, ltb, ltb→lt,
}
use os_pa.Vm.Types.{Pte, Process, Machine, Fresh, access_read, has_read, has_write}
use os_pa.Vm.Page.{unmap_frame, is_copy_on_write, alloc_page, free_page, handle_page_fault}
use os_pa.Vm.Mmu.{Access, access_loop, access_memory, alloc_command, free_command}
use os_pa.Vm.Frames.Exclusive.{
  Maps-Exclusive, Unmaps-Exclusive, Unshares-Exclusive, unmap_frame-Exclusive,
}
use os_pa.Vm.Frames.Sound.{mapping, CleanPage}
use os_pa.Vm.Frames.Alloc.{Allocates, alloc_page-Allocates}
use os_pa.Vm.Frames.Free.{Frees, free_page-Frees}
use os_pa.Vm.Frames.Fault.{Faults, CopiesOnWrite-cow, handle_page_fault-Faults}
use os_pa.Vm.Mmu.Coherent.{permits}
use os_pa.Vm.Mmu.Translate.{answer, with_tlb}
use os_pa.Vm.Mmu.Write.{unmapped_free}
use os_pa.Vm.Mmu.Healthy.{
  Healthy, Keeps, IsFlag, Spare, with_tlb-Healthy, Looks, translate-Looks, read_unmapped,
}

module _ (vpn : ℕ) (lost : List Process) (page : vpn < 64) where
  frees :
      (t : Machine) (r : Option Machine)
      → Healthy t lost
      → Frees vpn t lost r
      → Keeps Bool lost (elim r [ none ↦ none | some u ↦ some (true, u) ])
  frees t r h (Frees.absent e q) = rw q h
  frees t r h (Frees.freed pte u e q k) = rw q (record {
    sound = k.sound;
    exclusive = Unmaps-Exclusive vpn pte t u lost k h.exclusive;
    root = k.root ∙ h.root;
  })

  pub free_command-Keeps : (m : Machine) → Healthy m lost → Keeps Bool lost (free_command vpn m)
  unfolding free_command
  free_command-Keeps m h = elim (translate-Looks access_read vpn m page h.sound.shape h.root) [
    | Looks.misses tlb e absent ↦ rw (e, Keeps) (with_tlb-Healthy tlb m lost h)
    | Looks.hits tlb hit e ↦
        let t = with_tlb tlb m in
        let g = with_tlb-Healthy tlb m lost h in
        rw (e, Keeps) (frees t (free_page vpn t) g (free_page-Frees vpn t lost page g.sound))
  ]

  module _ (fresh : Fresh) where
    allocates :
        (flags : ℕ) (t : Machine) (r : Option (Option ℕ × Machine))
        → IsFlag flags
        → Healthy t lost
        → Allocates vpn flags t lost r
        → Keeps Bool lost (elim r [
          | none ↦ none
          | some (pfn, u) ↦ elim pfn [ none ↦ some (false, u) | some f ↦ some (true, u) ]
        ])
    allocates flags t r legal h (Allocates.full all q) = rw q h
    allocates flags t r legal h (Allocates.taken f u lt z before q k) = rw q (record {
      sound = k.sound;
      exclusive = Maps-Exclusive vpn flags f t u lost legal z k h.exclusive;
      root = k.root ∙ h.root;
    })

    pub alloc_command-Keeps :
        (flags : ℕ) (m : Machine)
        → CleanPage fresh vpn m.current.pagetable
        → IsFlag flags
        → Healthy m lost
        → Keeps Bool lost (alloc_command fresh vpn flags m)
    unfolding alloc_command
    alloc_command-Keeps flags m clean legal h = elim (Bool-cases (has_read flags)) [
      | inr off ↦ subst (Keeps Bool lost) (sym (if_false _ _ off)) tt
      | inl on ↦
          subst (Keeps Bool lost) (sym (if_true _ _ on))
            (elim (translate-Looks access_read vpn m page h.sound.shape h.root) [
              | Looks.hits tlb hit e ↦ rw e (with_tlb-Healthy tlb m lost h)
              | Looks.misses tlb e absent ↦
                  let t = with_tlb tlb m in
                  let g = with_tlb-Healthy tlb m lost h in
                  rw e (
                    allocates flags t (alloc_page fresh vpn flags t) legal g (
                      alloc_page-Allocates fresh vpn flags t lost clean page g.sound
                        (read_unmapped _ absent)))
            ])
    ]

-- A page with the flag 3 is permitted for all accesses.
writable : (flags : ℕ) (q : Pte) → q.rw ≡ 3 → permits flags q ≡ true
writable flags q e =
    ap (λ k. not (has_write flags && not (has_write k))) e ∙ without (has_write flags)
  where
    without : (b : Bool) → not (b && false) ≡ true
    without true = refl
    without false = refl

module _ (fresh : Fresh) (vpn flags : ℕ) (lost : List Process) (page : vpn < 64) where
  -- The second round finds the page that the fault has made writable.
  last_round :
      (u : Machine) (q : Pte)
      → Healthy u lost
      → mapping vpn u.current.pagetable ≡ some q
      → q.rw ≡ 3
      → Keeps Access lost (access_loop 1 fresh vpn flags u)
  unfolding access_loop
  last_round u q h e flag = elim (translate-Looks flags vpn u page h.sound.shape h.root) [
    | Looks.hits tlb hit r ↦ rw (r, Keeps, access_loop) (with_tlb-Healthy tlb u lost h)
    | Looks.misses tlb r absent ↦ absurd (
        ground
          (arith, sym absent ∙ ap (answer flags false) e ∙ if_true _ _ (writable flags q flag)))
  ]

  after_fault :
      (t : Machine)
      → Healthy t lost
      → ((pte : Pte) → is_copy_on_write pte flags ≡ true → Spare t)
      → Faults vpn flags t lost (handle_page_fault fresh vpn flags t)
      → Keeps Access lost (elim (handle_page_fault fresh vpn flags t) [
        | none ↦ none
        | some (handled, u) ↦ elim handled [
          | true ↦ access_loop 1 fresh vpn flags u
          | false ↦ some (Access.denied, u)
        ]
      ])
  after_fault t h spare (Faults.crashes e r) = rw (r, Keeps) tt
  after_fault t h spare (Faults.refuses_absent e r) = rw (r, Keeps) h
  after_fault t h spare (Faults.refuses pte e no_cow r) = rw (r, Keeps) h
  after_fault t h spare (Faults.unshares pte u e cow few r k) =
      rw (r, Keeps)
        (last_round u (record pte { rw = 3 })
          (record {
            sound = k.sound;
            exclusive = Unshares-Exclusive vpn pte t u lost few k h.exclusive;
            root = k.root ∙ h.root;
          })
          k.here refl)
  after_fault t h spare (Faults.copies pte f u e cow many free r k) =
      rw (r, Keeps)
        (last_round u _
          (record {
            sound = k.sound;
            exclusive =
                Maps-Exclusive vpn 3 f (unmap_frame pte.pfn t) u lost (inr refl)
                  (unmapped_free t pte.pfn f many free) k
                  (unmap_frame-Exclusive pte.pfn t lost many h.exclusive);
            root = k.root ∙ h.root;
          })
          k.here refl)
  after_fault t h spare (Faults.miscounts pte e cow many full r) =
      let (f, frame, free) = spare pte (CopiesOnWrite-cow pte flags cow) in
      absurd (full f frame (unmapped_free t pte.pfn f many free))

  pub access_loop-Keeps :
      (m : Machine)
      → Healthy m lost
      → ((pte : Pte) → is_copy_on_write pte flags ≡ true → Spare m)
      → Keeps Access lost (access_loop 2 fresh vpn flags m)
  unfolding access_loop
  access_loop-Keeps m h spare = elim (translate-Looks flags vpn m page h.sound.shape h.root) [
    | Looks.hits tlb hit r ↦ rw (r, Keeps, access_loop) (with_tlb-Healthy tlb m lost h)
    | Looks.misses tlb r absent ↦
        let t = with_tlb tlb m in
        let g = with_tlb-Healthy tlb m lost h in
        rw (r, Keeps, access_loop)
          (after_fault t g spare (handle_page_fault-Faults fresh vpn flags t lost page g.sound))
  ]

pub access_memory-Keeps :
    (fresh : Fresh) (vpn flags : ℕ) (m : Machine) (lost : List Process)
    → Healthy m lost
    → ((pte : Pte) → is_copy_on_write pte flags ≡ true → Spare m)
    → Keeps Access lost (access_memory fresh vpn flags m)
unfolding access_memory
access_memory-Keeps fresh vpn flags m lost h spare =
    elim (Bool-cases (has_read flags || has_write flags)) [
      | inr off ↦ subst (Keeps Access lost) (sym (if_false _ _ off)) tt
      | inl on ↦ subst (Keeps Access lost) (sym (if_true _ _ on)) (elim (Bool-cases (ltb vpn 64)) [
        | inr out ↦ subst (Keeps Access lost) (sym (if_false _ _ out)) tt
        | inl inside ↦
            subst (Keeps Access lost) (sym (if_true _ _ inside))
              (access_loop-Keeps fresh vpn flags lost (ltb→lt vpn 64 inside) m h spare)
      ])
    ]
