-- ===== src/Examples/Threads.antt =====
-- The scheduler with three threads.
use trunix.Prelude.{ℕ, ◌≡◌, refl, none, [], ◌∷◌, ◌==◌, if◌then◌else◌, arith}
use trunix.Sched.{
  ProcState, running, ready, TrapFrame, Proc, Sched, runs, update, enqueue, sys_exit, ticks,
}
use trunix.Sched.Switch.{IsSched}
use trunix.Sched.Invariant.{Exits, sys_exit-Exits, here, next, exit, spawn, IsSafe, Reach-IsSafe}
use trunix.Sched.Fair.{ticks-rank}

abbrev no_frame : TrapFrame
no_frame = record {
  edi = 0;
  esi = 0;
  ebp = 0;
  unused_esp = 0;
  ebx = 0;
  edx = 0;
  ecx = 0;
  eax = 0;
  gs = 0;
  fs = 0;
  es = 0;
  ds = 0;
  eip = 0;
  cs = 0;
  eflags = 0;
  esp = 0;
  ss = 0;
}

abbrev thread : ℕ → ProcState → Proc
thread n st = record {
  pid = n;
  cr3 = n;
  kstack = 0;
  mmap_base = 0;
  tf = no_frame;
  ofile = λ _. none;
  state = st;
  parent = 0;
}

-- The threads 11, 12 and 13 have the pids 1, 2 and 3; thread 12 runs.
abbrev pub three : ℕ → Proc
three t = if t == 11 then thread 1 ready else (if t == 12 then thread 2 running else thread 3 ready)

abbrev machine : Sched
machine = record {
  procs = three;
  queue = 13 ∷ 11 ∷ [];
  curthread = 12;
  next_pid = 3;
  cr3 = 2;
  esp0 = 12;
}

machine-IsSched : IsSched 11 machine
machine-IsSched = record {
  queued = record {
    alone = ground arith;
    waiting = ground arith;
    init_pid = refl;
    init_in = refl;
    init_lives = λ ne. refl;
  };
  cur_running = refl;
}

sys_exit-Exits_example : Exits 11 machine (sys_exit machine)
sys_exit-Exits_example = sys_exit-Exits 11 machine machine-IsSched

Reach-IsSafe_example : IsSafe 11 (
    sys_exit
      (enqueue 14 (record machine { procs = update three 14 (thread 4 ready); next_pid = 4 })))
Reach-IsSafe_example =
    Reach-IsSafe {i = 11} {s = machine} machine-IsSched
      (next (next here (spawn 14 (thread 4 ready) refl refl)) exit)

ticks-rank_example :
    (s' : Sched) × (ticks 2 machine ≡ runs s') × (s'.curthread ≡ 11) × IsSched 11 s'
ticks-rank_example = ticks-rank 1 11 11 machine machine-IsSched refl refl
