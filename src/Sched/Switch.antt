-- ===== src/Sched/Switch.antt =====
-- kernel/proc.c: one switch of threads, as `yield` and `sys_exit` make it.
use mathlib.Core.List.Perm
use trunix.Prelude.{
  ℕ, ◌≡◌, ◌≢◌, refl, true, List, [], ◌∷◌, ◌++◌, Perm, perm_middle, subst, append-nil, arith, ◌⊎◌,
  inl, inr, some, Bool-cases, Option-cases, ap, sym, ◌∙◌,
}
use trunix.Sched.{
  ProcState, running, ready, Proc, Sched, runs, preempted, update, state_of, set_state, enqueue,
  find_ready, is_ready, switch_in, dispatch, yield_cpu,
}
use trunix.Sched.Queue.{
  has, Distinct, NoneRunning, has-append, Distinct-append, NoneRunning-append, NoneRunning-update,
  find_ready-Found, find_ready-some,
}

-- The run queue and the threads, whatever the state of `curthread`; `i` is the thread of the init
-- process.
pub record IsQueued (i : ℕ) (s : Sched) : Type 0 where
  pub alone : Distinct (s.curthread ∷ s.queue)
  pub waiting : NoneRunning s.procs s.queue
  pub init_pid : (s.procs i).pid ≡ 1
  pub init_in : has i (s.curthread ∷ s.queue) ≡ true
  pub init_lives : i ≢ s.curthread → state_of s i ≡ ready

-- The invariant between two calls.
pub record IsSched (i : ℕ) (s : Sched) : Type 0 where
  pub queued : IsQueued i s
  pub cur_running : state_of s s.curthread ≡ running

-- What `dispatch` needs.
record CanDispatch (i : ℕ) (s : Sched) : Type 0 where
  distinct : Distinct s.queue
  waiting : NoneRunning s.procs s.queue
  init_pid : (s.procs i).pid ≡ 1
  init_in : has i s.queue ≡ true
  init_ready : state_of s i ≡ ready

-- From the threads `before` and the queue `xs`: the thread that is switched to was READY and runs,
-- the others stay as they are, the invariant holds, no thread is lost or doubled, and the page
-- directory and the kernel stack are those of the thread that runs.
pub record Switched (i : ℕ) (before : ℕ → Proc) (xs : List ℕ) (s' : Sched) : Type 0 where
  pub was_ready : (before s'.curthread).state ≡ ready
  pub others : (t : ℕ) → t ≢ s'.curthread → s'.procs t ≡ before t
  pub inv : IsSched i s'
  pub perm : Perm xs (s'.curthread ∷ s'.queue)
  pub loaded : s'.cr3 ≡ (s'.procs s'.curthread).cr3
  pub stack : s'.esp0 ≡ s'.curthread

-- The thread `c`, which has given up the processor, stands last in the queue, or it runs again.
pub data GoesLast (c : ℕ) (xs : List ℕ) (s' : Sched) : Type 0 where
  last : (ts : List ℕ) → s'.queue ≡ ts ++ c ∷ [] → GoesLast c xs s'
  again : s'.curthread ≡ c → s'.queue ≡ xs → GoesLast c xs s'

-- The first READY thread of a queue that ends with `c`.
find_ready-append :
    (procs : ℕ → Proc) (c : ℕ) (xs : List ℕ) {p : ℕ} {rest : List ℕ}
    → find_ready procs (xs ++ c ∷ []) ≡ some (p, rest)
    → ((p ≡ c) × (rest ≡ xs)) ⊎ ((ts : List ℕ) × (rest ≡ ts ++ c ∷ []))
unfolding find_ready
find_ready-append procs c [] {p} {rest} e = elim (Bool-cases (is_ready (procs c).state)) [
  | inl y ↦ inl (ground arith, ground arith)
  | inr n ↦ ground arith
]
find_ready-append procs c (x ∷ xs) {p} {rest} e = elim (Bool-cases (is_ready (procs x).state)) [
  | inl y ↦ inr (xs, ground arith)
  | inr n ↦ elim (Option-cases (find_ready procs (xs ++ c ∷ []))) [
    | inl e' ↦ ground arith
    | inr ((q, rest'), e') ↦
        let eq : q ≡ p = ground arith in
        let er : x ∷ rest' ≡ rest = ground arith in
        elim (find_ready-append procs c xs {p = q} {rest = rest'} e') [
          | inl (a, b) ↦ inl (sym eq ∙ a, sym er ∙ ap (λ l. x ∷ l) b)
          | inr (ts, b) ↦ inr (x ∷ ts, sym er ∙ ap (λ l. x ∷ l) b)
        ]
  ]
]

dispatch-GoesLast :
    (c : ℕ) (xs : List ℕ) (s : Sched) {s' : Sched}
    → s.queue ≡ xs ++ c ∷ []
    → dispatch s ≡ runs s'
    → GoesLast c xs s'
unfolding dispatch switch_in set_state
dispatch-GoesLast c xs s {s'} q e = elim (Option-cases (find_ready s.procs s.queue)) [
  | inl n ↦ ground arith
  | inr ((p, rest), y) ↦
      let ran : switch_in p rest s ≡ s' = ground arith in
      let found : find_ready s.procs (xs ++ c ∷ []) ≡ some (p, rest) = rw q at y in
      subst (GoesLast c xs) ran (elim (find_ready-append s.procs c xs found) [
        | inl (a, b) ↦ again a b
        | inr (ts, b) ↦ last ts b
      ])
]

pub yield_cpu-GoesLast :
    (s : Sched) {s' : Sched} → yield_cpu s ≡ runs s' → GoesLast s.curthread s.queue s'
unfolding yield_cpu enqueue set_state
yield_cpu-GoesLast s {s'} e = dispatch-GoesLast s.curthread s.queue _ {s' = s'} refl e

dispatch-Switched :
    (i : ℕ) (s : Sched)
    → CanDispatch i s
    → (s' : Sched) × (dispatch s ≡ runs s') × Switched i s.procs s.queue s'
unfolding dispatch
dispatch-Switched i s c =
    let (p, rest, e) = find_ready-some s.procs i s.queue c.init_in c.init_ready in
    let f = find_ready-Found s.procs s.queue {p = p} {rest = rest} e c.distinct c.waiting in
    (
      switch_in p rest s,
      rw (e, dispatch) refl,
      record {
        was_ready = f.is_ready;
        others = λ t ne. ground arith;
        inv = record {
          queued = record {
            alone = ground (arith, f.fresh, f.distinct);
            waiting =
                NoneRunning-update s.procs p (record (s.procs p) { state = running }) rest f.fresh
                  f.waiting;
            init_pid = ground (arith, c.init_pid);
            init_in = ground (arith, f.members i, c.init_in);
            init_lives = λ ne. ground (arith, c.init_ready);
          };
          cur_running = ground arith;
        };
        perm = f.perm;
        loaded = ground arith;
        stack = refl;
      },
    )

-- The threads, with `curthread` in the state `st`.
abbrev pub with_state : Sched → ProcState → ℕ → Proc
with_state s st = update s.procs s.curthread (record (s.procs s.curthread) { state = st })

-- A thread that gives up the processor in the state `st`.
leave : ProcState → Sched → Sched
leave st s = enqueue s.curthread (set_state s.curthread st s)

leave-CanDispatch :
    (i : ℕ) (st : ProcState) (s : Sched)
    → st ≢ running
    → (i ≡ s.curthread → st ≡ ready)
    → IsQueued i s
    → CanDispatch i (leave st s)
unfolding leave set_state enqueue
leave-CanDispatch i st s ne keep v =
    let c = s.curthread in
    let pr : Proc = record (s.procs c) { state = st } in
    record {
      distinct = Distinct-append s.queue c v.alone.0 v.alone.1;
      waiting =
          NoneRunning-append (update s.procs c pr) s.queue c
            (NoneRunning-update s.procs c pr s.queue v.alone.0 v.waiting) (ground arith);
      init_pid = ground (arith, v.init_pid);
      init_in = ground (arith, has-append i s.queue c, v.init_in);
      init_ready = ground (arith, keep, v.init_lives);
    }

queue-leave : (st : ProcState) (s : Sched) → Perm (s.curthread ∷ s.queue) (leave st s).queue
unfolding leave set_state enqueue
queue-leave st s = Perm.symm (
    subst (λ l. Perm (s.queue ++ s.curthread ∷ []) (s.curthread ∷ l)) (append-nil s.queue)
      (perm_middle s.queue []))

preempted-ne : (st : ProcState) → preempted st ≢ running
preempted-ne running = λ e. cc
preempted-ne _ = λ e. cc

pub yield_cpu-Switched :
    (i : ℕ) (s : Sched)
    → (i ≡ s.curthread → preempted (state_of s s.curthread) ≡ ready)
    → IsQueued i s
    → (s' : Sched) × (yield_cpu s ≡ runs s')
      × Switched i (with_state s (preempted (state_of s s.curthread))) (s.curthread ∷ s.queue) s'
unfolding yield_cpu leave set_state enqueue
yield_cpu-Switched i s keep v =
    let st = preempted (state_of s s.curthread) in
    let (s', e, w) =
      dispatch-Switched i (leave st s) (leave-CanDispatch i st s (preempted-ne _) keep v) in
    (
      s',
      e,
      record {
        was_ready = w.was_ready;
        others = w.others;
        inv = w.inv;
        perm = Perm.trans (queue-leave st s) w.perm;
        loaded = w.loaded;
        stack = w.stack;
      },
    )

pub set_state-IsQueued :
    (i : ℕ) (st : ProcState) (s : Sched) → IsQueued i s → IsQueued i (set_state s.curthread st s)
unfolding set_state
set_state-IsQueued i st s v = record {
  alone = v.alone;
  waiting = NoneRunning-update s.procs s.curthread _ s.queue v.alone.0 v.waiting;
  init_pid = ground (arith, v.init_pid);
  init_in = v.init_in;
  init_lives = λ ne. ground (arith, v.init_lives);
}
