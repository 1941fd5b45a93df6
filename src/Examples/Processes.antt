-- ===== src/Examples/Processes.antt =====
-- Memory mappings, threads and fork with one process.
use trunix.Prelude.{[], ◌∷◌, none, some, arith, refl, ℕ}
use trunix.Round.{pg_roundup, p2v}
use trunix.Sched.{running, Proc}
use trunix.Fs.{Fs}
use trunix.Machine.{Region, Machine}
use trunix.Mmap.{sys_mmap}
use trunix.Mmap.Extend.{Mapping}
use trunix.Mmap.Anon.{sys_mmap-Mapping}
use trunix.Threads.{cleared, proc_create, kthread_create}
use trunix.Threads.Frames.{Creates, new_user, new_kernel, threads-Creates}
use trunix.Elf.{ProgHdr, no_extent, measure}
use trunix.Exec.Span.{Measures, measure-Measures}
use trunix.Examples.Memory.{fresh_heap}
use trunix.Examples.Spaces.{empty_vm, free_mem-IsFree, empty_vm-IsSpace}

abbrev pub text : Region
text = record { va = 0x804_8000; pa = 0x60_0000; len = 0x2000 }

abbrev pub one_proc : Proc
one_proc = record (cleared 0x8050_0000) {
  pid = 2;
  cr3 = 0x40_0000;
  mmap_base = 0x804_a000;
  state = running;
}

abbrev no_files : Fs
no_files = record {
  heap = fresh_heap;
  files = λ _. record { inode = 2; priv = 0 };
  dir_tbl = [];
  ino_tbl = [];
}

abbrev pub one_process : Machine
one_process = record {
  sched = record {
    procs = λ _. one_proc;
    queue = [];
    curthread = 0x8050_0f98;
    next_pid = 3;
    cr3 = 0x40_0000;
    esp0 = 0x8050_0f98;
  };
  fs = no_files;
  vm = empty_vm;
  kpagedir = 0x8041_0000;
  memtab = λ _. record { regions = text ∷ []; sz = some 0x3000 };
}

sys_mmap-Mapping_example :
    Mapping (pg_roundup 0x1800) one_process (sys_mmap (λ _. none) 0x1800 1 0 one_process)
unfolding p2v
sys_mmap-Mapping_example =
    sys_mmap-Mapping (λ _. none) 0x1800 1 0 one_process refl (omega arith) (omega arith) refl
      (omega arith) refl (omega arith) empty_vm-IsSpace

threads-Creates_example :
    Creates new_user one_process (proc_create one_process)
    × ((eip : ℕ) → Creates (new_kernel eip) one_process (kthread_create eip one_process))
threads-Creates_example = threads-Creates one_process free_mem-IsFree

abbrev segment : ProgHdr
segment = record { type = 1; off = 0x1000; va = 0x804_8100; filesz = 0x900; memsz = 0x1200 }

measure-Measures_example : Measures (segment ∷ []) no_extent (measure (segment ∷ []) no_extent)
measure-Measures_example = measure-Measures (segment ∷ []) no_extent (omega arith, tt)
