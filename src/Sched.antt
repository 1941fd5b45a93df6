-- ===== src/Sched.antt =====
-- kernel/proc.c: threads, the run queue, and the scheduler. A thread is named by its address, `procs`
-- is the memory in which the threads stand, and the tail queue is the list of its threads. Between
-- two calls the machine runs `curthread`; `scheduler` waits in its call of `switch_to`, and goes on
-- behind it when `yield` switches back to `idle`. What `switch_to` saves and restores, the registers
-- of kernel/switch.S, is not in the state.
pub mod Queue
pub mod Switch
pub mod Invariant
pub mod Fair
use trunix.Prelude.{
  ℕ, zero, suc, ◌+◌, Option, none, some, Bool, true, false, List, [], ◌∷◌, ◌++◌, ◌==◌,
  if◌then◌else◌,
}

pub data ProcState : Type 0 where
  running ready sleeping blocked dead : ProcState

-- In the order of `pushal` and of the frame of `iret`.
pub record TrapFrame : Type 0 where
  pub edi : ℕ
  pub esi : ℕ
  pub ebp : ℕ
  pub unused_esp : ℕ
  pub ebx : ℕ
  pub edx : ℕ
  pub ecx : ℕ
  pub eax : ℕ
  pub gs : ℕ
  pub fs : ℕ
  pub es : ℕ
  pub ds : ℕ
  pub eip : ℕ
  pub cs : ℕ
  pub eflags : ℕ
  pub esp : ℕ
  pub ss : ℕ

-- `ofile` is read by descriptor, `none` for NULL; `parent` is the address of a thread.
pub record Proc : Type 0 where
  pub pid : ℕ
  pub cr3 : ℕ
  pub kstack : ℕ
  pub mmap_base : ℕ
  pub tf : TrapFrame
  pub ofile : ℕ → Option ℕ
  pub state : ProcState
  pub parent : ℕ

-- `next_pid` is the variable `pid`; `cr3` and `esp0` are the register and the field of the task
-- state segment.
pub record Sched : Type 0 where
  pub procs : ℕ → Proc
  pub queue : List ℕ
  pub curthread : ℕ
  pub next_pid : ℕ
  pub cr3 : ℕ
  pub esp0 : ℕ

-- How a call ends: a thread runs, the scheduler halts for good, or the kernel panics.
pub data Outcome : Type 0 where
  runs idles : Sched → Outcome
  panics : Outcome

abbrev pub is_ready : ProcState → Bool
is_ready ready = true
is_ready _ = false

-- The state of a thread that yields.
abbrev pub preempted : ProcState → ProcState
preempted running = ready
preempted st = st

abbrev pub update : (ℕ → Proc) → ℕ → Proc → ℕ → Proc
update procs t p u = if u == t then p else procs u

abbrev pub state_of : Sched → ℕ → ProcState
state_of s t = (s.procs t).state

unfoldable pub set_state : ℕ → ProcState → Sched → Sched
set_state t st s = record s { procs = update s.procs t (record (s.procs t) { state = st }) }

unfoldable pub enqueue : ℕ → Sched → Sched
enqueue t s = record s { queue = s.queue ++ t ∷ [] }

-- TAILQ_FOREACH up to the first thread that is READY, and TAILQ_REMOVE of it.
unfoldable pub find_ready : (ℕ → Proc) → List ℕ → Option (ℕ × List ℕ)
find_ready procs [] = none
find_ready procs (t ∷ ts) =
    if is_ready (procs t).state
    then some (t, ts)
    else elim (find_ready procs ts) [ none ↦ none | some (p, rest) ↦ some (p, t ∷ rest) ]

-- `scheduler` at `found`, up to its call of `switch_to`.
unfoldable pub switch_in : ℕ → List ℕ → Sched → Sched
unfolding set_state
switch_in p rest s = record (set_state p running (record s { queue = rest })) {
  curthread = p;
  cr3 = (s.procs p).cr3;
  esp0 = p;
}

-- One round of `scheduler`, up to its call of `switch_to`.
unfoldable pub dispatch : Sched → Outcome
unfolding switch_in find_ready
dispatch s = elim (find_ready s.procs s.queue) [
  | none ↦ idles s
  | some (p, rest) ↦ runs (switch_in p rest s)
]

-- `yield`, and `scheduler` from the return of its `switch_to`: the thread that ran goes to the end.
unfoldable pub yield_cpu : Sched → Outcome
unfolding set_state enqueue dispatch
yield_cpu s =
    dispatch (enqueue s.curthread (set_state s.curthread (preempted (state_of s s.curthread)) s))

unfoldable pub dequeue : Sched → Outcome
unfolding set_state yield_cpu
dequeue s = yield_cpu (set_state s.curthread dead s)

unfoldable pub sys_exit : Sched → Outcome
unfolding set_state yield_cpu
sys_exit s =
    if (s.procs s.curthread).pid == 1 then panics else yield_cpu (set_state s.curthread dead s)

-- `count` timer interrupts in a row (INT_0x20 of kernel/interrupt.S calls `yield`).
unfoldable pub ticks : ℕ → Sched → Outcome
ticks zero s = runs s
ticks (suc count) s = elim (yield_cpu s) [
  | runs s' ↦ ticks count s'
  | idles s' ↦ idles s'
  | panics ↦ panics
]
