-- ===== src/Lib.antt =====
-- Verification of OS-PA: the shell of OS-PA1, the processor scheduler simulator of OS-PA2 and the
-- virtual memory simulator of OS-PA3.
--
-- OS-PA1. Shell/Tokens has parse_command of OS-PA1/parser.c, Shell/Alias run_command of
-- OS-PA1/pa1.c with the stack of aliases as its state, and Shell/Session the main loop of
-- OS-PA1/mash.c. The system calls are the record Calls. Shell/Pipe has the two children that
-- run_command starts for a pipe, with their descriptors; its system calls are the record Kernel.
--
-- The simulators read commands, split by parse_command of parser.c (Parser), and drive a
-- simulation whose policy functions are the exercise.
--
-- OS-PA2. sched.c keeps the current process, the ready queue, the fork queue, the resources with
-- their wait queues and the ticks; Sched/Types has them as the record System, with the processes
-- in a store by address, since lists of the source link the processes themselves. In each tick
-- __do_simulation forks the due processes, calls schedule(), retires the process that was current
-- and lets the new one acquire, run and release (Sched/Framework/Simulation). The three callbacks
-- of a struct scheduler are in OS-PA2/pa2.c:
--   Sched/Policy/Schedule: fcfs_schedule, sjf_schedule, stcf_schedule, rr_schedule,
--     prio_schedule (also for PCP and PIP), pa_schedule
--   Sched/Policy/Resources: fcfs_acquire, fcfs_release, prio_release, and those of PCP and PIP
--   Sched/Policy/Tables: the eight tables
--   Sched/Policy/Contract: what the framework needs of a scheduler, and whom a release wakes
--   Sched/Policy/Inversion: whom PIP lets run while a resource is held
-- Sched/Framework/Loader has __load_script and Sched/Framework/Program main. A function returns
-- the state it leaves and its result; a failed assertion is `none`. Sched/Framework/Safety is
-- about the runs: the invariant of the state between two ticks (Valid, Prev), what each part of a
-- round does to it (Forks, Turns, Retire, AcquireLoop, ReleaseLoop, Rounds), the measure that each
-- round lowers (Measure, Falls), and whole scripts (Start, Completion, Order).
-- Sched/Framework/Waiting is about who waits for what: a resource with waiters has an owner, or
-- one who is about to take it.
--
-- OS-PA3. vm.c keeps the current process, its page table, the other processes, the map counts of
-- the page frames and the TLB: the record Machine of Vm/Types. The functions of OS-PA3/pa3.c are
-- in
--   Vm/Tlb: lookup_tlb and insert_tlb, with the loops that clear entries in free_page and
--     switch_process
--   Vm/Page: alloc_page, free_page and handle_page_fault
--   Vm/Fork: switch_process
-- and Vm/Mmu has __translate, __access_memory and the commands of vm.c, Vm/Console its loop over
-- the text of the commands, with a table of them in Vm/Console/Sessions. Vm/Frames states when a machine is sound: the map count of a frame is
-- the number of table entries, over all processes, that map it. Vm/Frames/Exclusive has the
-- pages that can be written, and Vm/Mmu/Reach the machines that a session of commands comes to.
--
-- Integers of C are natural numbers that wrap at 2 ^ 32 where the source computes them. A pointer
-- is an address or an index into the list that holds the object, with `none` for NULL.
--
-- Fuel: do_simulation takes a number of rounds, as a script may keep the simulation going for ever
-- (a process of lifespan 0 never exits); round_count of Sched/Framework/Safety/Completion is
-- enough for well-formed processes. access_memory takes the two rounds at which the retry count of
-- the source stops its loop. The loop of an alias's expansion and that of strtok() take fuel too,
-- the latter one more than the length of the line; an alias may expand for ever. All other loops
-- are recursion on a list or a counter.
--
-- Not modelled. list_head.h is a copy of the list of the Linux kernel: a list is the sequence that
-- a traversal visits. What malloc() leaves in new memory is the parameter Fresh of Vm/Types, of which
-- only the size is taken for granted (Sized of Vm/Frames/Sound); Vm/Mmu/Taints says when it is
-- not clear. That malloc() never fails is assumed. Reading files, getopt, strtoimax (a parameter of Vm/Console) and all
-- text output are left out, but for the events of sched.c, which are kept in the state. The
-- callbacks forked, exiting and finalize are NULL or empty in all tables. Of OS-PA1, what a
-- program that execvp() starts does is left out, and fork() is assumed to succeed.
pub mod Common
pub mod Parser
pub mod Sched
pub mod Shell
pub mod Vm
