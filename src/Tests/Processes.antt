-- ===== src/Tests/Processes.antt =====
-- Concrete runs of the process lists and of open and close: student-distrib/multi_term.c, syscalls.c.
use boz_os.Prelude.{ℕ, zero, suc, ◌≤◌, ◌≡◌, refl, arith, some, List, [], ◌∷◌}
use boz_os.Clib.Asm.{memcpy_from}
use boz_os.Clib.Strings.{strlen, strncmp}
use boz_os.Filesystem.{read_dentry_by_name, find_dentry}
use boz_os.Process.{get_pcb_tail, get_pcb_base, add_pcb, walk}
use boz_os.Process.Chain.{Chain}
use boz_os.Process.Invariant.{IsTidy}
use boz_os.Process.Adding.{Added, add_pcb-Added}
use boz_os.Files.{Env, sys_open}
use boz_os.Files.Descriptors.{Opening, sys_open-Opening}
use boz_os.Tests.{letters, disk, image, running, shell_pcb}

abbrev lists : ℕ → List ℕ
lists zero = 0 ∷ []
lists (suc n) = []

running-IsTidy : IsTidy lists (running 0)
unfolding get_pcb_base
running-IsTidy = record {
  chain = chain;
  counted = λ p h. ground arith;
  flag = λ p h. ground arith;
  free = λ p h u. refl;
}
  where
    chain :
        (t : ℕ) → t ≤ 2 → Chain (running 0).pcb ((running 0).terminal_table t).pcb_head (lists t)
    chain zero h = (omega arith, refl, refl)
    chain (suc n) h = ground arith

add_pcb-Added_example : Added lists (running 0) 1 (add_pcb (running 0) 1)
add_pcb-Added_example = add_pcb-Added lists (running 0) 1 running-IsTidy (omega arith)

abbrev surroundings : Env
surroundings = record { fuel = 8; temp = letters; previous = 0x26 }

shell_tail : get_pcb_tail (running 0) 0 ≡ some shell_pcb
unfolding get_pcb_tail walk
shell_tail = refl

-- The name "a" stands in the image itself.
a_found : read_dentry_by_name 8 disk image 64 letters ≡ some (0, memcpy_from letters 0 image 64 64)
unfolding read_dentry_by_name strlen find_dentry strncmp
a_found = refl

sys_open-Opening_example :
    Opening
      (running 0)
      shell_pcb
      0
      (memcpy_from letters 0 image 64 64)
      (sys_open surroundings (running 0) image 64)
sys_open-Opening_example =
    sys_open-Opening surroundings (running 0) image 64 shell_pcb 0
      (memcpy_from letters 0 image 64 64) shell_tail (omega arith) (omega arith) a_found
