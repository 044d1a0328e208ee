-- ===== src/Driver/Kernel.antt =====
-- What driver/binder.c calls of the kernel, and the outcome of a routine that may hit BUG().
use cdroid.Prelude.{ℕ, Option, ◌≡◌, ◌⊎◌, inl, inr, refl}

-- How the mapping of one page ends: alloc_page, map_vm_area or vm_insert_page fails, or none does.
pub data PageFault : Type 0 where
  no_fault alloc_page_fails map_vm_area_fails vm_insert_page_fails : PageFault

-- `fault` at the page's kernel address; `mm` is get_task_mm(proc->tsk).
pub record Kernel : Type 0 where
  pub fault : ℕ → PageFault
  pub mm : Option ℕ

-- `bug` is BUG(), or a null or dangling pointer followed.
pub data Result {ℓ} (A : Type ℓ) : Type ℓ where
  bug : Result A
  ok : A → Result A

infixl 5 ◌>>=◌
abbrev pub ◌>>=◌ {ℓ κ} : {A : Type ℓ} {B : Type κ} → Result A → (A → Result B) → Result B
bug >>= rest = bug
ok x >>= rest = rest x

pub Result-cases {ℓ} : {A : Type ℓ} (r : Result A) → (r ≡ bug) ⊎ ((a : A) × (r ≡ ok a))
Result-cases (ok a) = inr (a, refl)
Result-cases bug = inl refl

-- A successful sequence has a successful first part.
pub >>=-eq-ok {ℓ κ} :
    {A : Type ℓ} {B : Type κ} (head : Result A) (rest : A → Result B) {b : B}
    → (head >>= rest) ≡ ok b
    → (a : A) × (head ≡ ok a) × (rest a ≡ ok b)
>>=-eq-ok (ok x) rest h = (x, refl, h)
>>=-eq-ok bug rest h = cc
