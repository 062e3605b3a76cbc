-- ===== src/Vm/Tests/Console.antt =====
-- A session of text.
use os_pa.Common.{ℕ, ◌≡◌, refl, List, [], ◌∷◌, codes, atoi, arith}
use os_pa.Vm.Types.{Fresh}
use os_pa.Vm.Mmu.{Command, init_system, run_commands}
use os_pa.Vm.Console.{lowered, do_simulation}
use os_pa.Vm.Console.Sessions.{
  Asks, OneNumber, NumberAndFlags, Reads, Session, do_simulation-Session,
}
use os_pa.Vm.Tests.{zeros, sharing}

-- A session that writes to the shared page, in both cases of letters, and leaves. Its numbers are
-- decimal.
abbrev session : List (Fresh × List ℕ)
session =
    (zeros, codes "ALLOC 7 rw")
    ∷ (zeros, codes "show # all")
    ∷ (zeros, codes "w 0")
    ∷ (zeros, codes "exit")
    ∷ (zeros, codes "f 0")
    ∷ []

abbrev commands : List (Fresh × Command)
commands = (zeros, Command.alloc 7 (codes "rw")) ∷ (zeros, Command.write 0) ∷ []

alloc-Reads : Reads (codes "ALLOC 7 rw") (codes "alloc" ∷ codes "7" ∷ codes "rw" ∷ [])
unfolding lowered
alloc-Reads = record { text = ground arith; few = omega arith; first = refl }

show-Reads : Reads (codes "show # all") (codes "show" ∷ [])
unfolding lowered
show-Reads = record { text = ground arith; few = omega arith; first = refl }

write-Reads : Reads (codes "w 0") (codes "w" ∷ codes "0" ∷ [])
unfolding lowered
write-Reads = record { text = ground arith; few = omega arith; first = refl }

exit-Reads : Reads (codes "exit") (codes "exit" ∷ [])
unfolding lowered
exit-Reads = record { text = ground arith; few = omega arith; first = refl }

session-Session : Session atoi session commands
unfolding atoi
session-Session =
    Session.runs zeros (codes "ALLOC 7 rw") _ _ (Command.alloc 7 (codes "rw")) _ alloc-Reads
      (Asks.flags (codes "alloc") (codes "7") (codes "rw") Command.alloc NumberAndFlags.alloc)
      (Session.prints zeros (codes "show # all") _ _ _ show-Reads
        (Asks.show (codes "show") (λ e. ground (arith, e)))
        (Session.runs zeros (codes "w 0") _ _ (Command.write 0) _ write-Reads
          (Asks.one_number (codes "w") (codes "0") Command.write OneNumber.short_write)
          (Session.leaves zeros (codes "exit") _ _ exit-Reads Asks.exit)))

do_simulation-Session_example :
    do_simulation atoi session sharing ≡ run_commands commands (init_system sharing)
do_simulation-Session_example = do_simulation-Session atoi session commands sharing session-Session
