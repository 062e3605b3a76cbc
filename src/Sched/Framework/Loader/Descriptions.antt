-- ===== src/Sched/Framework/Loader/Descriptions.antt =====
-- A script of complete process descriptions is loaded as it says.
use os_pa.Common.{
  ℕ, ◌+◌, ◌≡◌, refl, ap, ◌∙◌, sym, none, some, List, [], ◌∷◌, ◌++◌, append-nil, append_assoc,
  update, update_self, codes, atoi, arith, fun_ext,
}
use os_pa.Sched.Types.{Status, ResourceSchedule, Process}
use os_pa.Sched.Framework.Loader.{
  Tokens, Loader, Loaded, new_process, write_process, add_acquire, set_property, set_start,
  set_lifespan, set_both_prios, load_line, load_script,
}

-- The values of a description, as the texts that stand in the script.
pub record Acquire : Type 0 where
  pub id : List ℕ
  pub at : List ℕ
  pub duration : List ℕ

pub record Description : Type 0 where
  pub pid : List ℕ
  pub start : List ℕ
  pub lifespan : List ℕ
  pub prio : List ℕ
  pub acquires : List Acquire

abbrev pub acquire_lines : List Acquire → List Tokens
acquire_lines [] = []
acquire_lines (a ∷ more) = (codes "acquire" ∷ a.id ∷ a.at ∷ a.duration ∷ []) ∷ acquire_lines more

-- The lines of a description.
abbrev pub lines : Description → List Tokens
lines d =
    (codes "process" ∷ d.pid ∷ [])
    ∷ (codes "start" ∷ d.start ∷ [])
    ∷ (codes "lifespan" ∷ d.lifespan ∷ [])
    ∷ (codes "prio" ∷ d.prio ∷ [])
    ∷ (acquire_lines d.acquires ++ ((codes "end" ∷ []) ∷ []))

abbrev pub script : List Description → List Tokens
script [] = []
script (d ∷ ds) = lines d ++ script ds

-- The process that a description stands for.
abbrev pub schedule_of : Acquire → ResourceSchedule
schedule_of a = record { resource_id = atoi a.id; at = atoi a.at; duration = atoi a.duration }

abbrev pub schedules_of : List Acquire → List ResourceSchedule
schedules_of [] = []
schedules_of (a ∷ more) = schedule_of a ∷ schedules_of more

abbrev pub process_of : Description → Process
process_of d = record {
  pid = atoi d.pid;
  status = Status.ready;
  age = 0;
  lifespan = atoi d.lifespan;
  prio = atoi d.prio;
  prio_orig = atoi d.prio;
  starts_at = atoi d.start;
  resources_to_acquire = schedules_of d.acquires;
  resources_holding = [];
}

abbrev pub after_description : Description → Loader → Loader
after_description d l = record l {
  system = record (l.system) {
    procs = update l.system.procs l.next_address (process_of d);
    forkqueue = l.system.forkqueue ++ l.next_address ∷ [];
  };
  p = none;
  next_address = l.next_address + 1;
}

-- The processes stand at consecutive addresses and at the end of the fork queue.
abbrev pub after_script : List Description → Loader → Loader
after_script [] l = l
after_script (d ∷ ds) l = after_script ds (after_description d l)

-- A process at the next address is under description.
abbrev building : Process → Loader → Loader
building q l = record l {
  system = record (l.system) { procs = update l.system.procs l.next_address q };
  p = some l.next_address;
  next_address = l.next_address + 1;
}

update_again : (f : ℕ → Process) (a : ℕ) (x y : Process) → update (update f a x) a y ≡ update f a y
update_again f a x y = fun_ext (λ b. ground arith)

-- Writes go through the pointer.
write_process-building :
    (g : Process → Process) (q : Process) (l : Loader)
    → write_process l.next_address
        (g (update l.system.procs l.next_address q l.next_address))
        (building q l)
      ≡ building (g q) l
write_process-building g q l =
    ap (λ x. write_process l.next_address (g x) (building q l))
      (update_self l.system.procs l.next_address q)
    ∙ ap (λ f. record (building q l) { system = record (l.system) { procs = f } })
        (update_again l.system.procs l.next_address q (g q))

step :
    (tokens : Tokens) (more : List Tokens) (l l' : Loader)
    → load_line tokens l ≡ Loaded.loading l'
    → load_script (tokens ∷ more) l ≡ load_script more l'
unfolding load_script
step tokens more l l' e =
    ap
      (λ r. elim r [
        | Loaded.loading l'' ↦ load_script more l''
        | Loaded.unknown ↦ Loaded.unknown
        | Loaded.failed ↦ Loaded.failed
      ])
      e

load_line-acquire :
    (a : Acquire) (q : Process) (l : Loader)
    → load_line (codes "acquire" ∷ a.id ∷ a.at ∷ a.duration ∷ []) (building q l)
      ≡ Loaded.loading (building (add_acquire (schedule_of a) q) l)
unfolding load_line
load_line-acquire a q l =
    ap Loaded.loading (write_process-building (add_acquire (schedule_of a)) q l)

load_acquires :
    (xs : List Acquire) (more : List Tokens) (q : Process) (l : Loader)
    → load_script (acquire_lines xs ++ more) (building q l)
      ≡ load_script more (
          building
            (record q { resources_to_acquire = q.resources_to_acquire ++ schedules_of xs })
            l)
load_acquires [] more q l =
    ap (λ rs. load_script more (building (record q { resources_to_acquire = rs }) l))
      (sym (append-nil q.resources_to_acquire))
load_acquires (a ∷ xs) more q l =
    step (codes "acquire" ∷ a.id ∷ a.at ∷ a.duration ∷ []) (acquire_lines xs ++ more) (building q l)
      (building (add_acquire (schedule_of a) q) l) (load_line-acquire a q l)
    ∙ load_acquires xs more (add_acquire (schedule_of a) q) l
    ∙ ap (λ rs. load_script more (building (record q { resources_to_acquire = rs }) l))
        (append_assoc q.resources_to_acquire (schedule_of a ∷ []) (schedules_of xs))

load_line-set :
    (key value : List ℕ) (set : ℕ → Process → Process) (q : Process) (l : Loader)
    → ((l' : Loader)
        → load_line (key ∷ value ∷ []) l' ≡ set_property set (key ∷ value ∷ []) l'.p l')
    → load_line (key ∷ value ∷ []) (building q l) ≡ Loaded.loading (building (set (atoi value) q) l)
unfolding set_property
load_line-set key value set q l h =
    h (building q l) ∙ ap Loaded.loading (write_process-building (set (atoi value)) q l)

-- The process before its schedules.
abbrev header_of : Description → Process
header_of d = record (process_of d) { resources_to_acquire = [] }

load_header :
    (d : Description) (more : List Tokens) (l : Loader)
    → load_script
        ((codes "process" ∷ d.pid ∷ [])
          ∷ (codes "start" ∷ d.start ∷ [])
          ∷ (codes "lifespan" ∷ d.lifespan ∷ [])
          ∷ (codes "prio" ∷ d.prio ∷ [])
          ∷ more)
        l
      ≡ load_script more (building (header_of d) l)
unfolding load_line
load_header d more l =
    let q0 = new_process (atoi d.pid) in
    let q1 = set_start (atoi d.start) q0 in
    let q2 = set_lifespan (atoi d.lifespan) q1 in
    step _ _ l (building q0 l) refl
    ∙ step _ _ (building q0 l) (building q1 l)
        (load_line-set (codes "start") d.start set_start q0 l (λ l'. refl))
    ∙ step _ _ (building q1 l) (building q2 l)
        (load_line-set (codes "lifespan") d.lifespan set_lifespan q1 l (λ l'. refl))
    ∙ step _ _ (building q2 l) (building (header_of d) l)
        (load_line-set (codes "prio") d.prio set_both_prios q2 l (λ l'. refl))

load_end :
    (more : List Tokens) (d : Description) (l : Loader)
    → load_script ((codes "end" ∷ []) ∷ more) (building (process_of d) l)
      ≡ load_script more (after_description d l)
unfolding load_line
load_end more d l = step _ _ (building (process_of d) l) (after_description d l) refl

pub load_lines :
    (d : Description) (more : List Tokens) (l : Loader)
    → load_script (lines d ++ more) l ≡ load_script more (after_description d l)
load_lines d more l =
    let closed : List Tokens = (codes "end" ∷ []) ∷ [] in
    load_header d ((acquire_lines d.acquires ++ closed) ++ more) l
    ∙ ap (λ ts. load_script ts (building (header_of d) l))
        (append_assoc (acquire_lines d.acquires) closed more)
    ∙ load_acquires d.acquires (closed ++ more) (header_of d) l
    ∙ load_end more d l

-- A script of complete process descriptions is loaded without a failure. Each description makes the
-- process that it spells out, with its resource schedules in order, at the next address and at the
-- end of the fork queue.
pub load_script-script :
    (ds : List Description) (l : Loader)
    → load_script (script ds) l ≡ Loaded.loading (after_script ds l)
unfolding load_script
load_script-script [] l = refl
load_script-script (d ∷ ds) l =
    load_lines d (script ds) l ∙ load_script-script ds (after_description d l)
