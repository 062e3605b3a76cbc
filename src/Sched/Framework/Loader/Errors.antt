-- ===== src/Sched/Framework/Loader/Errors.antt =====
-- Scripts that are refused.
use os_pa.Common.{
  ℕ, ◌≡◌, ◌≢◌, refl, ap, ◌∙◌, false, none, List, [], ◌∷◌, ◌++◌, append_assoc, length, codes,
  strmatch, if_false,
}
use os_pa.Sched.Types.{Process, System}
use os_pa.Sched.Policy.Tables.{Policy, scheduler_of}
use os_pa.Sched.Framework.Simulation.{do_simulation, initialize}
use os_pa.Sched.Framework.Loader.{
  Tokens, Loader, Loaded, begin_process, end_process, set_property, load_acquire, load_command,
  load_line, load_script, set_lifespan, set_both_prios, set_start,
}
use os_pa.Sched.Framework.Loader.Descriptions.{
  Description, lines, script, after_description, after_script, load_lines,
}
use os_pa.Sched.Framework.Program.{Exit, run_script}

-- The words that may begin a line within a description.
pub data Inner : List ℕ → Type 0 where
  closing : Inner (codes "end")
  lifespan : Inner (codes "lifespan")
  prio : Inner (codes "prio")
  start : Inner (codes "start")
  acquire : Inner (codes "acquire")

pub record Foreign (key : List ℕ) : Type 0 where
  pub not_process : strmatch key (codes "process") ≡ false
  pub not_end : strmatch key (codes "end") ≡ false
  pub not_lifespan : strmatch key (codes "lifespan") ≡ false
  pub not_prio : strmatch key (codes "prio") ≡ false
  pub not_start : strmatch key (codes "start") ≡ false
  pub not_acquire : strmatch key (codes "acquire") ≡ false

-- A line that is refused where no description is open, and what main does about it.
pub data Refused : Tokens → Exit → Type 0 where
  misplaced : (key : List ℕ) (values : Tokens) → Inner key → Refused (key ∷ values) Exit.bad_script
  miscounted :
      (values : Tokens) → length values ≢ 1 → Refused (codes "process" ∷ values) Exit.bad_script
  foreign :
      (key : List ℕ) (values : Tokens) → Foreign key → Refused (key ∷ values) Exit.bad_property

-- The result of the loader that makes main leave so.
loaded_as : Exit → Loaded
loaded_as Exit.bad_property = Loaded.unknown
loaded_as _ = Loaded.failed

set_property-none :
    (write : ℕ → Process → Process) (tokens : Tokens) (l : Loader)
    → set_property write tokens none l ≡ Loaded.failed
unfolding set_property
set_property-none write [] l = refl
set_property-none write (key ∷ []) l = refl
set_property-none write (key ∷ value ∷ []) l = refl
set_property-none write (key ∷ value ∷ x ∷ xs) l = refl

load_acquire-none : (tokens : Tokens) (l : Loader) → load_acquire tokens none l ≡ Loaded.failed
unfolding load_acquire
load_acquire-none [] l = refl
load_acquire-none (key ∷ []) l = refl
load_acquire-none (key ∷ id ∷ []) l = refl
load_acquire-none (key ∷ id ∷ at ∷ []) l = refl
load_acquire-none (key ∷ id ∷ at ∷ duration ∷ []) l = refl
load_acquire-none (key ∷ id ∷ at ∷ duration ∷ x ∷ xs) l = refl

load_line-Inner :
    (key : List ℕ) (values : Tokens) (l : Loader)
    → Inner key
    → l.p ≡ none
    → load_line (key ∷ values) l ≡ Loaded.failed
unfolding load_line load_command strmatch end_process
load_line-Inner _ values l Inner.closing e = ap (λ p. end_process p l) e
load_line-Inner _ values l Inner.lifespan e =
    ap (λ p. set_property set_lifespan (codes "lifespan" ∷ values) p l) e
    ∙ set_property-none set_lifespan (codes "lifespan" ∷ values) l
load_line-Inner _ values l Inner.prio e =
    ap (λ p. set_property set_both_prios (codes "prio" ∷ values) p l) e
    ∙ set_property-none set_both_prios (codes "prio" ∷ values) l
load_line-Inner _ values l Inner.start e =
    ap (λ p. set_property set_start (codes "start" ∷ values) p l) e
    ∙ set_property-none set_start (codes "start" ∷ values) l
load_line-Inner _ values l Inner.acquire e =
    ap (λ p. load_acquire (codes "acquire" ∷ values) p l) e
    ∙ load_acquire-none (codes "acquire" ∷ values) l

load_line-miscounted :
    (values : Tokens) (l : Loader)
    → length values ≢ 1
    → load_line (codes "process" ∷ values) l ≡ Loaded.failed
unfolding load_line load_command strmatch begin_process
load_line-miscounted [] l h = refl
load_line-miscounted (x ∷ []) l h = absurd (h refl)
load_line-miscounted (x ∷ y ∷ values) l h = refl

load_line-Foreign :
    (key : List ℕ) (values : Tokens) (l : Loader)
    → Foreign key
    → load_line (key ∷ values) l ≡ Loaded.unknown
unfolding load_line load_command
load_line-Foreign key values l f =
    if_false _ _ f.not_process
    ∙ if_false _ _ f.not_end
    ∙ if_false _ _ f.not_lifespan
    ∙ if_false _ _ f.not_prio
    ∙ if_false _ _ f.not_start
    ∙ if_false _ _ f.not_acquire

load_line-Refused :
    (line : Tokens) (r : Exit) (l : Loader)
    → Refused line r
    → l.p ≡ none
    → load_line line l ≡ loaded_as r
unfolding loaded_as
load_line-Refused _ _ l (Refused.misplaced key values i) e = load_line-Inner key values l i e
load_line-Refused _ _ l (Refused.miscounted values h) e = load_line-miscounted values l h
load_line-Refused _ _ l (Refused.foreign key values f) e = load_line-Foreign key values l f

-- What load_script does behind a line, and run_script behind the script.
abbrev on_line : List Tokens → Loaded → Loaded
on_line more (Loaded.loading l) = load_script more l
on_line more Loaded.unknown = Loaded.unknown
on_line more Loaded.failed = Loaded.failed

abbrev on_script : ℕ → Policy → Loaded → Exit
on_script fuel policy (Loaded.loading l) =
    Exit.simulated (do_simulation fuel (scheduler_of policy) l.system)
on_script fuel policy Loaded.unknown = Exit.bad_property
on_script fuel policy Loaded.failed = Exit.bad_script

-- A script goes on behind its complete descriptions.
load_script-append :
    (ds : List Description) (more : List Tokens) (l : Loader)
    → load_script (script ds ++ more) l ≡ load_script more (after_script ds l)
load_script-append [] more l = refl
load_script-append (d ∷ ds) more l =
    ap (λ ts. load_script ts l) (append_assoc (lines d) (script ds) more)
    ∙ load_lines d (script ds ++ more) l
    ∙ load_script-append ds more (after_description d l)

none_open : (ds : List Description) (l : Loader) → l.p ≡ none → (after_script ds l).p ≡ none
none_open [] l e = e
none_open (d ∷ ds) l e = none_open ds (after_description d l) refl

load_script-stop :
    (line : Tokens) (more : List Tokens) (r : Exit) (l : Loader)
    → Refused line r
    → load_line line l ≡ loaded_as r
    → load_script (line ∷ more) l ≡ loaded_as r
unfolding load_script loaded_as
load_script-stop _ more _ l (Refused.misplaced key values i) e = ap (on_line more) e
load_script-stop _ more _ l (Refused.miscounted values h) e = ap (on_line more) e
load_script-stop _ more _ l (Refused.foreign key values f) e = ap (on_line more) e

on_script-Refused :
    (fuel : ℕ) (policy : Policy) (line : Tokens) (r : Exit)
    → Refused line r
    → on_script fuel policy (loaded_as r) ≡ r
unfolding loaded_as
on_script-Refused fuel policy _ _ (Refused.misplaced key values i) = refl
on_script-Refused fuel policy _ _ (Refused.miscounted values h) = refl
on_script-Refused fuel policy _ _ (Refused.foreign key values f) = refl

-- A script is refused, and no simulation starts, when a line follows complete descriptions that
-- begins with a word that sched.c does not know, with a word that belongs into a description, or
-- with `process` and not exactly one value; whatever follows is not read. An unknown word is
-- reported, and the others fail an assertion or follow NULL.
pub run_script-Refused :
    (fuel : ℕ) (policy : Policy) (ds : List Description) (line : Tokens) (r : Exit)
    (more : List Tokens) (s : System)
    → Refused line r
    → run_script fuel policy (script ds ++ line ∷ more) s ≡ r
unfolding run_script
run_script-Refused fuel policy ds line r more s h =
    let l : Loader = record { system = initialize s; p = none; next_address = 0 } in
    let read : load_script (script ds ++ line ∷ more) l ≡ loaded_as r =
      load_script-append ds (line ∷ more) l
      ∙ load_script-stop line more r (after_script ds l) h
          (load_line-Refused line r (after_script ds l) h (none_open ds l refl)) in
    ap (on_script fuel policy) read ∙ on_script-Refused fuel policy line r h
