-- ===== src/Driver/Tests/Sample.antt =====
-- A process with an area of two pages, and trees that are not balanced.
use cdroid.Driver.Buffer.Paged.{IsPaged}
use cdroid.Driver.Buffer.Mmap.{Vma, IsUnmapped}
use cdroid.Driver.Kernel.{Kernel, no_fault}
use cdroid.Driver.Rbtree.{Tree, leaf, node, inorder, Rb}
use cdroid.Driver.Buffer.{Buffer, Proc, binder_buffer_size}
use cdroid.Driver.Buffer.Valid.{IsValid}
use cdroid.Prelude.{ℕ, ◌≡◌, refl, ap, true, false, List, [], ◌∷◌, none, some, arith, erase, ◌==◌}

abbrev of_list : List ℕ → Tree
of_list [] = leaf
of_list (x ∷ xs) = node leaf x (of_list xs)

pub inorder-of_list : (xs : List ℕ) → inorder (of_list xs) ≡ xs
inorder-of_list [] = refl
inorder-of_list (x ∷ xs) = ap (◌∷◌ x) (inorder-of_list xs)

abbrev pub plain : Rb
plain = record {
  insert_color = λ t. t;
  rb_erase = λ x t. of_list (erase x (inorder t));
  inorder-insert_color = λ t. refl;
  inorder-rb_erase = λ x t. inorder-of_list (erase x (inorder t));
}

abbrev pub kernel : Kernel
kernel = record { fault = λ a. no_fault; mm = some 5 }

abbrev pub free_header : ℕ → Buffer
free_header a = record {
  addr = a;
  free = true;
  allow_user_free = false;
  async_transaction = false;
  transaction = none;
  target_node = none;
  data_size = 0;
  offsets_size = 0;
}

abbrev pub mapped : Proc
mapped = record {
  vma = true;
  vma_vm_mm = 5;
  buffer = 65536;
  user_buffer_offset = 1048576;
  buffers = free_header 65536 ∷ [];
  free_buffers = node leaf 65536 leaf;
  allocated_buffers = leaf;
  free_async_space = 4096;
  pages = λ i. i == 0;
  buffer_size = 8192;
  stale = free_header;
}

pub mapped-IsValid : IsValid mapped
unfolding binder_buffer_size
mapped-IsValid = record {
  tiles = (refl, omega arith, refl);
  coalesced = (refl, tt);
  fits = (λ f. absurd (ground arith), tt);
  free_tree = record { nodes = λ a. refl; order = (tt, tt) };
  allocated_tree = record { nodes = λ a. refl; order = tt };
  async = omega arith;
  area = omega arith;
}

pub mapped-IsPaged : IsPaged mapped
mapped-IsPaged = record {
  aligned = refl;
  whole = refl;
  paged = ((λ i f l h. ground arith, λ i l h. ground arith), tt);
}

-- A process behind binder_open, and an area for it.
abbrev pub opened : Proc
opened = record mapped {
  vma = false;
  buffer = 0;
  buffers = [];
  free_buffers = leaf;
  pages = λ i. false;
  buffer_size = 0;
}

pub opened-IsUnmapped : IsUnmapped opened
opened-IsUnmapped = record { no_buffer = refl; no_free = refl; no_allocated = refl }

abbrev pub area : Vma
area = record { vm_start = 1048576; vm_end = 1056768; vm_mm = 5; forbidden = false }
