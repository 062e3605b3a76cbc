-- ===== src/Sched/Framework/Loader.antt =====
-- __load_script of sched.c: a process description file, line by line, as the tokens that
-- parse_command returns. Opening and reading the file is left out.
--
-- A process under description is at the address of the pointer `p`; malloc() returns the addresses
-- in turn. A failed assertion and a field access through NULL are
-- `Loaded.failed`.
pub mod Descriptions
pub mod Errors
use os_pa.Common.{
  ℕ, zero, suc, ◌+◌, Bool, true, false, Option, none, some, List, [], ◌∷◌, ◌++◌, length, ◌==◌,
  if◌then◌else◌, update, codes, strmatch, atoi,
}
use os_pa.Sched.Types.{Status, ResourceSchedule, Process, System}
use os_pa.Sched.Queues.{list_add_tail}

abbrev pub Tokens : Type 0
Tokens = List (List ℕ)

pub record Loader : Type 0 where
  pub system : System
  pub p : Option ℕ
  pub next_address : ℕ

-- The script is read so far, it has an unknown property, or an assertion fails.
pub data Loaded : Type 0 where
  loading : Loader → Loaded
  unknown : Loaded
  failed : Loaded

-- memset(p, 0x00, sizeof(*p)); p->pid = pid; and three empty lists
abbrev pub new_process : ℕ → Process
new_process pid = record {
  pid = pid;
  status = Status.ready;
  age = 0;
  lifespan = 0;
  prio = 0;
  prio_orig = 0;
  starts_at = 0;
  resources_to_acquire = [];
  resources_holding = [];
}

abbrev pub write_process : ℕ → Process → Loader → Loader
write_process a q l = record l { system = record (l.system) { procs = update l.system.procs a q } }

-- process PID
unfoldable pub begin_process : Tokens → Loader → Loaded
begin_process (key ∷ pid ∷ []) l =
    Loaded.loading (record (write_process l.next_address (new_process (atoi pid)) l) {
      p = some l.next_address;
      next_address = l.next_address + 1;
    })
begin_process _ l = Loaded.failed

-- end
unfoldable pub end_process : Option ℕ → Loader → Loaded
end_process none l = Loaded.failed
end_process (some a) l = Loaded.loading (record l {
  system = record (l.system) { forkqueue = list_add_tail a l.system.forkqueue };
  p = none;
})

-- A property with one value, written to the process.
unfoldable pub set_property : (ℕ → Process → Process) → Tokens → Option ℕ → Loader → Loaded
set_property write (key ∷ value ∷ []) (some a) l =
    Loaded.loading (write_process a (write (atoi value) (l.system.procs a)) l)
set_property write _ _ l = Loaded.failed

abbrev pub set_lifespan : ℕ → Process → Process
set_lifespan n q = record q { lifespan = n }

abbrev pub set_both_prios : ℕ → Process → Process
set_both_prios n q = record q { prio = n; prio_orig = n }

abbrev pub set_start : ℕ → Process → Process
set_start n q = record q { starts_at = n }

abbrev pub add_acquire : ResourceSchedule → Process → Process
add_acquire rs q = record q { resources_to_acquire = q.resources_to_acquire ++ rs ∷ [] }

-- acquire RESOURCE AT DURATION
unfoldable pub load_acquire : Tokens → Option ℕ → Loader → Loaded
load_acquire (key ∷ id ∷ at ∷ duration ∷ []) (some a) l =
    let rs : ResourceSchedule = record {
      resource_id = atoi id;
      at = atoi at;
      duration = atoi duration;
    } in
    Loaded.loading (write_process a (add_acquire rs (l.system.procs a)) l)
load_acquire _ _ l = Loaded.failed

-- The tests of the first token, in the order of the source.
unfoldable pub load_command : List ℕ → Tokens → Loader → Loaded
unfolding strmatch begin_process end_process set_property load_acquire
load_command key tokens l =
    if strmatch key (codes "process")
    then begin_process tokens l
    else if strmatch key (codes "end")
    then end_process l.p l
    else if strmatch key (codes "lifespan")
    then set_property set_lifespan tokens l.p l
    else if strmatch key (codes "prio")
    then set_property set_both_prios tokens l.p l
    else if strmatch key (codes "start")
    then set_property set_start tokens l.p l
    else if strmatch key (codes "acquire")
    then load_acquire tokens l.p l
    else Loaded.unknown

-- An empty line is skipped.
unfoldable pub load_line : Tokens → Loader → Loaded
unfolding load_command
load_line [] l = Loaded.loading l
load_line (key ∷ tokens) l = load_command key (key ∷ tokens) l

unfoldable pub load_script : List Tokens → Loader → Loaded
unfolding load_line
load_script [] l = Loaded.loading l
load_script (line ∷ lines) l = elim (load_line line l) [
  | Loaded.loading l' ↦ load_script lines l'
  | Loaded.unknown ↦ Loaded.unknown
  | Loaded.failed ↦ Loaded.failed
]
