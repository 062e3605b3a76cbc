-- ===== src/Shell/Tests/Pipe.antt =====
-- A command with two pipes, in a shell with three descriptors.
use os_pa.Common.{
  ℕ, ◌≡◌, refl, Option-cases, inl, inr, update_self, true, none, some, List, [], ◌∷◌, ◌++◌, codes,
  strmatch, update, ltb, if◌then◌else◌, arith,
}
use os_pa.Shell.Pipe.{Files, NewPipe, Kernel, Piped, PipeResult, run_piped}
use os_pa.Shell.Alias.{Calls, Result}
use os_pa.Shell.Pipe.Connects.{Opens, Posix, Connects, run_piped-Connects}

abbrev three_files : Files
three_files fd = if ltb fd 3 then some fd else none

-- The ends 10 and 11 at the descriptors 3 and 4.
abbrev new_pipe : NewPipe
new_pipe = record {
  read_fd = 3;
  write_fd = 4;
  reads = 10;
  writes = 11;
  files = update (update three_files 3 (some 10)) 4 (some 11);
}

abbrev kernel : Kernel
kernel = record {
  pipe = λ files. some new_pipe;
  dup2 = λ old fd files. elim (files old) [ none ↦ files | some x ↦ update files fd (some x) ];
  close = λ fd files. update files fd none;
}

new_pipe-Opens : Opens three_files new_pipe
new_pipe-Opens = record {
  read_free = refl;
  write_free = refl;
  apart = omega arith;
  read_end = refl;
  write_end = refl;
  others = λ fd h k. ground (arith, h, k);
  ends = omega arith;
  new_reads = λ fd e. ground (arith, e);
  new_writes = λ fd e. ground (arith, e);
}

kernel-Posix : Posix kernel
kernel-Posix = record {
  closed = λ fd files. ground arith;
  close_others = λ fd x files h. ground (arith, h);
  duplicated = λ old fd x files e. rw e (update_self files fd (some x));
  dup2_others = λ old fd x files h. elim (Option-cases (files old)) [
    | inl e ↦ rw e refl
    | inr (y, e) ↦ rw e (ground (arith, h))
  ];
}

abbrev calls : Calls
calls = record { home = none; chdir = λ dir. true; pipe = true; run = λ tokens. true }

-- cd changes the directory in spite of a pipe.
cd_run :
    run_piped kernel calls (codes "cd" ∷ codes "|" ∷ codes "ls" ∷ []) three_files
    ≡ PipeResult.changed Result.succeeds
unfolding run_piped strmatch
cd_run = refl

-- ls | sort | head
abbrev left : List (List ℕ)
left = codes "ls" ∷ codes "|" ∷ codes "sort" ∷ []

run_piped-Connects_example :
    (c : Piped) × (run_piped kernel calls (left ++ codes "|" ∷ codes "head" ∷ []) three_files
      ≡ PipeResult.forked c)
    × Connects three_files new_pipe left (codes "head" ∷ []) c
unfolding strmatch
run_piped-Connects_example =
    run_piped-Connects kernel calls three_files new_pipe left (codes "head" ∷ []) kernel-Posix
      (λ e. ground (arith, e)) (λ e. ground (arith, e)) refl new_pipe-Opens refl (refl, tt)
