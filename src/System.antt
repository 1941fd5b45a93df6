-- ===== src/System.antt =====
-- kernel/proc.c, kernel/mem.c: the processes of the machine side by side. `ts` are the threads of the
-- user processes that have been made, dead ones too; what they do is a sequence of calls.
pub mod Fixed
pub mod Yields
pub mod Maps
pub mod Forks
pub mod Fails
pub mod Isolation
use trunix.Prelude.{ℕ, ◌+◌, ◌%◌, ◌^◌, ◌<◌, ◌≡◌, ◌≢◌, Option, none, some, true, List, ◌∷◌}
use trunix.Round.{page, kernel_offset, p2v}
use trunix.Block.{cover}
use trunix.KHeap.Alloc.{Ascending}
use trunix.Sched.{Sched, runs, yield_cpu, sys_exit}
use trunix.Sched.Queue.{has}
use trunix.Vm.{Vm}
use trunix.Vm.Walk.{table, walk, IsSpace}
use trunix.Vm.Range.{Outside}
use trunix.Machine.{Region, Machine}
use trunix.Mmap.{MmapDevs, Mmapped, sys_mmap}
use trunix.Fork.{forks, fails, sys_fork}
use trunix.Fork.Whole.{IsPid, CanFork}

-- The byte that the processor reads for the user at `x`, with the directory `pd`.
abbrev pub load : Vm → ℕ → ℕ → Option ℕ
load vm pd x = elim (walk vm pd x) [ none ↦ none | some q ↦ some (vm.mem.byte (p2v q)) ]

abbrev pub dir_of : Machine → ℕ → ℕ
dir_of s t = p2v (s.sched.procs t).cr3

-- The thread `t` has a directory in order, and what that maps for the user is in use.
pub record IsProcess (vm : Vm) (t cr3 base pid : ℕ) : Type 0 where
  pub space : IsSpace (p2v cr3) vm
  pub aligned : base % page ≡ 0
  pub user : base < kernel_offset
  pub named : IsPid pid
  pub stands : cover t vm.mem.freelist ≡ 0
  pub in_use :
      (x : ℕ) {pa : ℕ}
      → x < kernel_offset
      → walk vm (p2v cr3) x ≡ some pa
      → cover (p2v pa) vm.mem.freelist ≡ 0

-- The spaces `a` and `b` have no page of tables in common, and map no byte in common for the user.
pub record Separate (vm : Vm) (a b : ℕ) : Type 0 where
  pub directory : Outside a vm b
  pub tables : (i : ℕ) → i < 512 → vm.word b i % 2 ≢ 0 → Outside a vm (table b i vm)
  pub memory :
      (x y : ℕ) {pa : ℕ}
      → x < kernel_offset
      → y < kernel_offset
      → walk vm a x ≡ some pa
      → walk vm b y ≢ some pa

pub record IsSystem (ts : List ℕ) (s : Machine) : Type 0 where
  pub heap : Ascending 0 s.fs.heap.heap
  pub live : (t : ℕ) → has t (s.sched.curthread ∷ s.sched.queue) ≡ true → has t ts ≡ true
  pub process :
      (t : ℕ)
      → has t ts ≡ true
      → IsProcess s.vm t (s.sched.procs t).cr3 (s.sched.procs t).mmap_base (s.sched.procs t).pid
  pub separate :
      (t u : ℕ)
      → has t ts ≡ true
      → has u ts ≡ true
      → t ≢ u
      → Separate s.vm (dir_of s t) (dir_of s u)

-- What the thread that runs can do, or the timer: the processes and the state after a call that returns.
-- A mapping is one of memory without a file, and a fork is one that returns, of an image that is large
-- enough for all regions of the process: `sys_fork` copies more than it has pages for otherwise.
pub data Call (devs : MmapDevs) (ts : List ℕ) (s : Machine) : List ℕ → Machine → Type 0 where
  switched :
      {sched : Sched}
      → yield_cpu s.sched ≡ runs sched
      → Call devs ts s ts (record s { sched = sched })
  exited :
      {sched : Sched}
      → sys_exit s.sched ≡ runs sched
      → Call devs ts s ts (record s { sched = sched })
  mapped :
      (len flags fd : ℕ) {r : Mmapped} {s' : Machine}
      → flags % 2 ≡ 1
      → 0 < len
      → len + 0xfff < 2 ^ 32
      → sys_mmap devs len flags fd s ≡ some (r, s')
      → Call devs ts s ts s'
  forked :
      {rs : List Region} {sz pid t : ℕ} {s' : Machine}
      → CanFork rs sz s
      → sys_fork s ≡ some (forks pid t s')
      → Call devs ts s (t ∷ ts) s'
  failed :
      {rs : List Region} {sz : ℕ} {s' : Machine}
      → CanFork rs sz s
      → sys_fork s ≡ some (fails s')
      → Call devs ts s ts s'

-- Calls in a row.
pub data Calls (devs : MmapDevs) (ts : List ℕ) (s : Machine) : List ℕ → Machine → Type 0 where
  none_yet : Calls devs ts s ts s
  then_one :
      {us vs : List ℕ} {s1 s2 : Machine}
      → Calls devs ts s us s1
      → Call devs us s1 vs s2
      → Calls devs ts s vs s2

-- Calls in a row of other threads than `u`.
pub data Away (devs : MmapDevs) (u : ℕ) (ts : List ℕ) (s : Machine)
    : List ℕ → Machine → Type 0 where
  at_once : Away devs u ts s ts s
  after_one :
      {us vs : List ℕ} {s1 s2 : Machine}
      → Away devs u ts s us s1
      → u ≢ s1.sched.curthread
      → Call devs us s1 vs s2
      → Away devs u ts s vs s2
