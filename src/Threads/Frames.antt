-- ===== src/Threads/Frames.antt =====
-- kernel/proc.c: what `proc_create` and `kthread_create` make.
use trunix.Prelude.{
  ℕ, ◌+◌, ◌-◌, ◌*◌, ◌^◌, ◌<◌, ◌≡◌, ◌≢◌, refl, Option, none, some, arith, ◌∙◌, ap, ==_refl, false,
  ltb, leb, ◌&&◌,
}
use trunix.Round.{pg_roundup_self}
use trunix.Block.{cover}
use trunix.Pages.{Mem, alloc_pages}
use trunix.Pages.Cover.{AllBelow}
use trunix.Pages.Free.{IsFree, Grants, refused, granted, alloc_pages-Grants}
use trunix.Sched.{TrapFrame, ready, Proc, Sched, update}
use trunix.Vm.Keeps.{Keeps}
use trunix.Machine.{Machine, set_proc, set_mem, zeroed}
use trunix.Threads.{
  kstack_size, proc_size, cleared, user_frame, kernel_frame, alloc_thread, proc_create,
  kthread_create,
}

-- A thread `t` is new: it stands at the top of a stack that was free, and is `p` of the stack. No other
-- thread is changed, nor anything that was in use.
pub record Created (p : ℕ → Proc) (t : ℕ) (s s' : Machine) : Type 0 where
  pub stack : ℕ
  pub stands : t + proc_size ≡ stack + kstack_size
  pub proc : s'.sched.procs t ≡ p stack
  pub others : (u : ℕ) → u ≢ t → s'.sched.procs u ≡ s.sched.procs u
  pub sched : s'.sched ≡ record s.sched { procs = s'.sched.procs }
  pub rest : s' ≡ record s { sched = s'.sched; vm = s'.vm }
  pub free : IsFree s'.vm.mem
  pub keeps : Keeps s.vm s'.vm
  pub was_free : 0 < cover t s.vm.mem.freelist
  pub now_taken : cover t s'.vm.mem.freelist ≡ 0

pub data Creates (p : ℕ → Proc) (s : Machine) : Option (ℕ × Machine) → Type 0 where
  no_stack : AllBelow kstack_size s.vm.mem.freelist → Creates p s none
  created : {t : ℕ} {s' : Machine} → Created p t s s' → Creates p s (some (t, s'))

-- Entry `n` of the table of segments, with the privilege level `rpl`, as a selector.
abbrev selector : ℕ → ℕ → ℕ
selector n rpl = n * 8 + rpl

-- Bit 9, with which interrupts are enabled, and bit 1, which is always set.
abbrev interrupts_on : ℕ
interrupts_on = 2 ^ 9 + 2 ^ 1

-- The registers of a thread that starts at `eip`, with the selectors `code` and `other`.
abbrev pub fresh_frame : ℕ → ℕ → ℕ → ℕ → TrapFrame
fresh_frame code other stack eip = record {
  edi = 0;
  esi = 0;
  ebp = 0;
  unused_esp = 0;
  ebx = 0;
  edx = 0;
  ecx = 0;
  eax = 0;
  gs = other;
  fs = other;
  es = other;
  ds = other;
  eip = eip;
  cs = code;
  eflags = interrupts_on;
  esp = 0;
  ss = stack;
}

-- A user's thread: entry 3 is the code and entry 4 the data, at privilege level 3.
abbrev pub new_user : ℕ → Proc
new_user stack = record {
  pid = 0;
  cr3 = 0;
  kstack = stack;
  mmap_base = 0;
  tf = fresh_frame (selector 3 3) (selector 4 3) (selector 4 3) 0;
  ofile = λ _. none;
  state = ready;
  parent = 0;
}

-- A thread of the kernel, at `eip`: entries 1 and 2, at privilege level 0. Its stack segment is not set.
abbrev pub new_kernel : ℕ → ℕ → Proc
new_kernel eip stack = record {
  pid = 0;
  cr3 = 0;
  kstack = stack;
  mmap_base = 0;
  tf = fresh_frame (selector 1 0) (selector 2 0) 0 eip;
  ofile = λ _. none;
  state = ready;
  parent = 0;
}

module _ (s : Machine) (free : IsFree s.vm.mem) where
  Grants-Creates :
      (o : Option (Option ℕ × Mem))
      → Grants kstack_size s.vm.mem o
      → Creates cleared s (elim o [
        | none ↦ none
        | some (none, m) ↦ none
        | some (some k, m) ↦
            let p = k + kstack_size - proc_size in
            some (p, set_proc p (cleared k) (set_mem (zeroed k kstack_size m) s))
      ])
  Grants-Creates _ (refused b) = no_stack b
  Grants-Creates _ (granted {a} {m'} f start high room less kept) =
      let one = pg_roundup_self kstack_size refl in
      let less' = rw one at less in
      created (record {
        stack = a;
        stands = omega (arith, high);
        proc = rw (==_refl (a + kstack_size - proc_size)) refl;
        others = λ u ne. ground arith;
        sched = refl;
        rest = refl;
        free = record { runs = f.runs; once = f.once; high = f.high };
        keeps = record {
          less = λ x. omega (arith, less' x);
          bytes = λ x c.
              let out : (leb a x && ltb x (a + kstack_size)) ≡ false = ground (arith, less' x) in
              rw out (kept x c);
          words = λ q j c. refl;
        };
        was_free = ground (arith, less' (a + kstack_size - proc_size), high);
        now_taken = ground (
          arith,
          less' (a + kstack_size - proc_size),
          high,
          free.once (a + kstack_size - proc_size),
        );
      })

  pub alloc_thread-Creates : Creates cleared s (alloc_thread s)
  unfolding alloc_thread
  alloc_thread-Creates =
      Grants-Creates (alloc_pages kstack_size s.vm.mem)
        (alloc_pages-Grants kstack_size s.vm.mem (omega arith) (omega arith) free)

  -- The fields that are set then.
  Creates-set :
      (q : ℕ → Proc) (f : Proc → Proc) (o : Option (ℕ × Machine))
      → ((k : ℕ) → f (cleared k) ≡ q k)
      → Creates cleared s o
      → Creates q s
          (elim o [ none ↦ none | some (t, s') ↦ some (t, set_proc t (f (s'.sched.procs t)) s') ])
  Creates-set q f _ e (no_stack b) = no_stack b
  Creates-set q f _ e (created {t} {s'} c) = created (record {
    stack = c.stack;
    stands = c.stands;
    proc = rw (==_refl t) (ap f c.proc ∙ e c.stack);
    others = λ u ne. ground (arith, c.others u ne);
    sched =
        let with_procs : Sched → Sched =
          λ z. record z { procs = update s'.sched.procs t (f (s'.sched.procs t)) } in
        ap with_procs c.sched;
    rest =
        let with_parts : Machine → Machine = λ z. record z {
          sched = record s'.sched { procs = update s'.sched.procs t (f (s'.sched.procs t)) };
          vm = s'.vm;
        } in
        ap with_parts c.rest;
    free = c.free;
    keeps = c.keeps;
    was_free = c.was_free;
    now_taken = c.now_taken;
  })

-- `proc_create` and `kthread_create` fail their assertion if there is no page for a stack; else
-- they make a thread on a page that was free, READY, with interrupts enabled, the first in segments
-- 3 and 4 at privilege level 3, the second at its entry point in segments 1 and 2 at level 0, with no
-- descriptors and with all else zero, and change nothing that was in use.
pub threads-Creates :
    (s : Machine)
    → IsFree s.vm.mem
    → Creates new_user s (proc_create s)
      × ((eip : ℕ) → Creates (new_kernel eip) s (kthread_create eip s))
unfolding proc_create kthread_create
threads-Creates s free = (
  Creates-set s free new_user (λ p. record p { tf = user_frame p.tf; state = ready })
      (alloc_thread s) (λ k. refl) (alloc_thread-Creates s free),
  λ eip.
      Creates-set s free (new_kernel eip)
        (λ p. record p { cr3 = 0; state = ready; tf = kernel_frame eip p.tf }) (alloc_thread s)
        (λ k. refl) (alloc_thread-Creates s free),
)
