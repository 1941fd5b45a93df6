-- ===== src/Sched/Invariant.antt =====
-- kernel/proc.c: one thread runs, every other one is in the run queue, and the queue never lacks a
-- thread to run.

use trunix.Prelude.{
  ℕ, ◌+◌, ◌≡◌, ◌≢◌, refl, inl, inr, false, List, ◌∷◌, ◌==◌, subst, ap, ◌∙◌, ℕ_discrete, fun_ext,
  arith, Bool-cases,
}
use trunix.Sched.{
  ready, dead, Proc, Sched, Outcome, runs, panics, preempted, update, state_of, set_state, enqueue,
  yield_cpu, sys_exit,
}
use trunix.Sched.Queue.{has, has-append, Distinct-append, NoneRunning-append, NoneRunning-update}
use trunix.Sched.Switch.{
  IsSched, Switched, GoesLast, with_state, yield_cpu-Switched, yield_cpu-GoesLast,
  set_state-IsQueued,
}

yield_cpu-runs :
    (i : ℕ) (s : Sched)
    → IsSched i s
    → (s' : Sched) × (yield_cpu s ≡ runs s')
      × Switched i (with_state s ready) (s.curthread ∷ s.queue) s'
yield_cpu-runs i s v =
    subst
      (λ st.
        (s' : Sched) × (yield_cpu s ≡ runs s')
        × Switched i (with_state s (preempted st)) (s.curthread ∷ s.queue) s')
      v.cur_running (yield_cpu-Switched i s (λ _. rw v.cur_running refl) v.queued)

pub yield_cpu-IsSched :
    (i : ℕ) (s : Sched)
    → IsSched i s
    → (s' : Sched) × (yield_cpu s ≡ runs s')
      × Switched i (with_state s ready) (s.curthread ∷ s.queue) s'
      × GoesLast s.curthread s.queue s'
yield_cpu-IsSched i s v =
    let (s', e, w) = yield_cpu-runs i s v in (s', e, w, yield_cpu-GoesLast s {s' = s'} e)

-- What `sys_exit` promises: the init process panics, any other thread stays in the queue, DEAD.
pub data Exits (i : ℕ) (s : Sched) : Outcome → Type 0 where
  panicked : (s.procs s.curthread).pid ≡ 1 → Exits i s panics
  switched :
      {s' : Sched}
      → (s.procs s.curthread).pid ≢ 1
      → Switched i (with_state s dead) (s.curthread ∷ s.queue) s'
      → state_of s' s.curthread ≡ dead
      → Exits i s (runs s')

same_threads :
    (s : Sched) (t : ℕ)
    → with_state
        (set_state s.curthread dead s)
        (preempted (state_of (set_state s.curthread dead s) s.curthread))
        t
      ≡ with_state s dead t
unfolding set_state
same_threads s t = ground arith

sys_exit-Switched :
    (i : ℕ) (s : Sched)
    → (s.procs s.curthread).pid ≢ 1
    → IsSched i s
    → (s' : Sched) × (yield_cpu (set_state s.curthread dead s) ≡ runs s')
      × Switched i (with_state s dead) (s.curthread ∷ s.queue) s'
sys_exit-Switched i s ne v =
    subst
      (λ b.
        (s' : Sched) × (yield_cpu (set_state s.curthread dead s) ≡ runs s')
        × Switched i b (s.curthread ∷ s.queue) s')
      (fun_ext (same_threads s))
      (unfold set_state in
        yield_cpu-Switched i (set_state s.curthread dead s)
          (λ e. absurd (ground (arith, v.queued.init_pid))) (set_state-IsQueued i dead s v.queued))

stays_dead :
    (i : ℕ) (s s' : Sched) (xs : List ℕ)
    → Switched i (with_state s dead) xs s'
    → state_of s' s.curthread ≡ dead
stays_dead i s s' xs w = elim (ℕ_discrete s.curthread s'.curthread) [
  | yes e ↦ absurd (ground (arith, w.was_ready))
  | no ne ↦ ap (λ (p : Proc). p.state) (w.others s.curthread ne) ∙ ground arith
]

-- `sys_exit` of the init process panics. Of any other thread it marks the thread DEAD, which it stays
-- in the queue, and switches to a thread that was READY, with the invariant.
pub sys_exit-Exits : (i : ℕ) (s : Sched) → IsSched i s → Exits i s (sys_exit s)
unfolding sys_exit
sys_exit-Exits i s v = elim (Bool-cases ((s.procs s.curthread).pid == 1)) [
  | inl e ↦ rw (e, sys_exit) (panicked (ground arith))
  | inr e ↦
      let (s', r, w) = sys_exit-Switched i s (ground arith) v in
      rw (e, sys_exit) (rw r (switched (ground arith) w (stays_dead i s s' _ w)))
]

-- What can happen to the machine while a thread runs: a timer interrupt, `sys_exit`, or
-- `enqueue` of a thread that is new and READY, as by `sys_fork`.
pub data Step (s : Sched) : Outcome → Type 0 where
  tick : Step s (yield_cpu s)
  exit : Step s (sys_exit s)
  spawn :
      (t : ℕ) (p : Proc)
      → has t (s.curthread ∷ s.queue) ≡ false
      → p.state ≡ ready
      → Step s
          (runs (enqueue t (record s { procs = update s.procs t p; next_pid = s.next_pid + 1 })))

-- What runs of steps lead to.
pub data Reach (s : Sched) : Outcome → Type 0 where
  here : Reach s (runs s)
  next : {s' : Sched} {o : Outcome} → Reach s (runs s') → Step s' o → Reach s o

-- A panic of the init process, or a machine that runs a thread in the invariant.
pub data IsSafe (i : ℕ) : Outcome → Type 0 where
  stopped : IsSafe i panics
  live : {s : Sched} → IsSched i s → IsSafe i (runs s)

spawn-IsSched :
    (i t : ℕ) (p : Proc) (n : ℕ) (s : Sched)
    → has t (s.curthread ∷ s.queue) ≡ false
    → p.state ≡ ready
    → IsSched i s
    → IsSched i (enqueue t (record s { procs = update s.procs t p; next_pid = n }))
unfolding enqueue
spawn-IsSched i t p n s new r v =
    let q = v.queued in
    let ne : t ≢ s.curthread = ground arith in
    let ni : t ≢ i = λ e. absurd (ground (arith, q.init_in)) in
    record {
      queued = record {
        alone = (
          ground (arith, has-append s.curthread s.queue t, q.alone.0),
          Distinct-append s.queue t (ground arith) q.alone.1,
        );
        waiting =
            NoneRunning-append (update s.procs t p) s.queue t
              (NoneRunning-update s.procs t p s.queue (ground arith) q.waiting) (ground arith);
        init_pid = ground (arith, q.init_pid);
        init_in = ground (arith, has-append i s.queue t, q.init_in);
        init_lives = λ h. ground (arith, q.init_lives h);
      };
      cur_running = ground (arith, v.cur_running);
    }

Step-IsSafe : {i : ℕ} {s : Sched} {o : Outcome} → Step s o → IsSched i s → IsSafe i o
Step-IsSafe {i} {s} tick v = let (s', e, w) = yield_cpu-runs i s v in rw e (live w.inv)
Step-IsSafe {i} {s} exit v = exits (sys_exit s) (sys_exit-Exits i s v)
  where
    exits : (o : Outcome) → Exits i s o → IsSafe i o
    exits _ (panicked e) = stopped
    exits _ (switched ne w d) = live w.inv
Step-IsSafe {i} {s} (spawn t p new r) v = live (spawn-IsSched i t p _ s new r v)

-- Whatever timer interrupts, exits and new threads come, the machine either runs one thread in the
-- invariant or has panicked: the loop of `scheduler` that halts for good is never reached.
pub Reach-IsSafe : {i : ℕ} {s : Sched} {o : Outcome} → IsSched i s → Reach s o → IsSafe i o
Reach-IsSafe v here = live v
Reach-IsSafe {i} v (next r st) = after (Reach-IsSafe v r) st
  where
    after : {s' : Sched} {o : Outcome} → IsSafe i (runs s') → Step s' o → IsSafe i o
    after (live w) st = Step-IsSafe st w
