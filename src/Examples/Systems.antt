-- ===== src/Examples/Systems.antt =====
-- Two processes side by side.
use trunix.Prelude.{ℕ, none, some, List, [], ◌∷◌, ◌==◌, if◌then◌else◌}
use trunix.Sched.{Proc, ready}
use trunix.Block.{block}
use trunix.Pages.{Mem}
use trunix.Vm.{Vm}
use trunix.Machine.{Machine}
use trunix.Mmap.{Mmapped, sys_mmap}
use trunix.Fork.{fails, forks, sys_fork}
use trunix.System.{Calls}
use trunix.System
use trunix.Examples.Processes.{one_proc, one_process}

abbrev first : ℕ
first = 0x8050_0f98

abbrev second : ℕ
second = 0x8060_0f98

abbrev second_proc : Proc
second_proc = record one_proc { pid = 3; cr3 = 0x40_1000; state = ready }

abbrev large_mem : Mem
large_mem = record {
  freelist = block 0x8000_4000 0x1000 ∷ block 0x8010_0000 0x8000 ∷ block 0x8020_0000 0x4_0000 ∷ [];
  byte = λ _. 0;
}

abbrev large_vm : Vm
large_vm = record { mem = large_mem; word = λ _ _. 0 }

abbrev two_processes : Machine
two_processes = record one_process {
  vm = large_vm;
  sched = record one_process.sched {
    procs = λ t. if t == second then second_proc else one_proc;
    queue = second ∷ [];
    next_pid = 4;
  };
}

abbrev both : List ℕ
both = first ∷ second ∷ []

abbrev forked_state : Machine
forked_state = elim (sys_fork two_processes) [
  | none ↦ two_processes
  | some (fails s) ↦ s
  | some (forks pid t s) ↦ s
]

abbrev mapped_state : Machine
mapped_state = elim (sys_mmap (λ _. none) 0x1800 1 0 forked_state) [
  | none ↦ two_processes
  | some (r, s) ↦ s
]
