-- ===== src/Vm/Frames/Count.antt =====
-- How many valid PTEs map a frame, by the page tables themselves.
use os_pa.Common.{
  ℕ, zero, suc, ◌+◌, ◌≤◌, ◌<◌, ◌≡◌, refl, subst, false, ◌&&◌, Option, none, some, List, [], ◌∷◌,
  All, length, get_elem?, set, ◌==◌, if◌then◌else◌, arith,
}
use mathlib.Core.Option.{some-injective}
use os_pa.Vm.Types.{Pte, Directory, Pagetable, Process}

abbrev pub count_pte : ℕ → Pte → ℕ
count_pte f pte = if pte.valid && pte.pfn == f then 1 else 0

abbrev pub count_directory : ℕ → Directory → ℕ
count_directory f [] = 0
count_directory f (pte ∷ dir) = count_pte f pte + count_directory f dir

abbrev pub count_pde : ℕ → Option Directory → ℕ
count_pde f none = 0
count_pde f (some dir) = count_directory f dir

abbrev pub count_table : ℕ → Pagetable → ℕ
count_table f [] = 0
count_table f (pde ∷ table) = count_pde f pde + count_table f table

abbrev pub count_all : ℕ → List Process → ℕ
count_all f [] = 0
count_all f (p ∷ processes) = count_table f p.pagetable + count_all f processes

pub count-set_directory :
    (f : ℕ) (dir : Directory) (i : ℕ) (pte old : Pte)
    → get_elem? dir i ≡ some old
    → count_directory f (set dir i pte) + count_pte f old ≡ count_directory f dir + count_pte f pte
count-set_directory f [] i pte old h = absurd (ground arith)
count-set_directory f (x ∷ dir) zero pte old h = ground arith
count-set_directory f (x ∷ dir) (suc i) pte old h =
    omega (arith, count-set_directory f dir i pte old h)

pub count-set_table :
    (f : ℕ) (table : Pagetable) (j : ℕ) (new old : Option Directory)
    → get_elem? table j ≡ some old
    → count_table f (set table j new) + count_pde f old ≡ count_table f table + count_pde f new
count-set_table f [] j new old h = absurd (ground arith)
count-set_table f (x ∷ table) zero new old h = ground arith
count-set_table f (x ∷ table) (suc j) new old h = omega (arith, count-set_table f table j new old h)

pub count-directory_le :
    (f : ℕ) (dir : Directory) (i : ℕ) (pte : Pte)
    → get_elem? dir i ≡ some pte
    → count_pte f pte ≤ count_directory f dir
count-directory_le f [] i pte h = absurd (ground arith)
count-directory_le f (x ∷ dir) zero pte h = ground arith
count-directory_le f (x ∷ dir) (suc i) pte h = omega (arith, count-directory_le f dir i pte h)

pub count-table_le :
    (f : ℕ) (table : Pagetable) (j : ℕ) (pde : Option Directory)
    → get_elem? table j ≡ some pde
    → count_pde f pde ≤ count_table f table
count-table_le f [] j pde h = absurd (ground arith)
count-table_le f (x ∷ table) zero pde h = ground arith
count-table_le f (x ∷ table) (suc j) pde h = omega (arith, count-table_le f table j pde h)

-- No entry of the directory says that it is valid.
abbrev pub AllInvalid : Directory → Type 0
AllInvalid = All (λ pte. pte.valid ≡ false)

pub count-AllInvalid : (f : ℕ) (dir : Directory) → AllInvalid dir → count_directory f dir ≡ 0
count-AllInvalid f [] h = refl
count-AllInvalid f (x ∷ dir) h = ground (arith, count-AllInvalid f dir h.1, h.0)

pub AllInvalid-get_elem? :
    (dir : Directory) (i : ℕ) (pte : Pte)
    → AllInvalid dir
    → get_elem? dir i ≡ some pte
    → pte.valid ≡ false
AllInvalid-get_elem? [] i pte h e = absurd (ground arith)
AllInvalid-get_elem? (x ∷ dir) zero pte h e = ground (arith, h.0, e)
AllInvalid-get_elem? (x ∷ dir) (suc i) pte h e = AllInvalid-get_elem? dir i pte h.1 e

pub get_elem?-some {ℓ} :
    {A : Type ℓ} (xs : List A) (i : ℕ) → i < length xs → (x : A) × (get_elem? xs i ≡ some x)
get_elem?-some [] i h = elim h [ ]
get_elem?-some (x ∷ xs) zero h = (x, refl)
get_elem?-some (x ∷ xs) (suc i) h = get_elem?-some xs i (omega arith)

pub All-get_elem? {ℓ κ} :
    {A : Type ℓ} (P : A → Type κ) (xs : List A) (i : ℕ) (x : A)
    → All P xs
    → get_elem? xs i ≡ some x
    → P x
All-get_elem? P [] i x h e = absurd (ground arith)
All-get_elem? P (y ∷ xs) zero x h e = subst P (some-injective _ _ e) h.0
All-get_elem? P (y ∷ xs) (suc i) x h e = All-get_elem? P xs i x h.1 e

pub All-set {ℓ κ} :
    {A : Type ℓ} (P : A → Type κ) (xs : List A) (i : ℕ) (x : A)
    → All P xs
    → P x
    → All P (set xs i x)
All-set P [] i x h e = tt
All-set P (y ∷ xs) zero x h e = (e, h.1)
All-set P (y ∷ xs) (suc i) x h e = (h.0, All-set P xs i x h.1 e)
