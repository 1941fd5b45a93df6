-- ===== src/System/Yields.antt =====
-- kernel/proc.c: what a switch of threads leaves as it was.
use trunix.Prelude.{
  ℕ, ◌≡◌, refl, inl, inr, some, true, List, [], ◌∷◌, ◌==◌, arith, ◌∙◌, ap, subst, Bool-cases,
  Option-cases, ℕ_discrete,
}
use trunix.Sched.{
  running, dead, ProcState, Proc, Sched, runs, is_ready, find_ready, switch_in, dispatch, set_state,
  enqueue, yield_cpu, sys_exit, preempted, state_of,
}
use trunix.Sched.Queue.{has, has-append}

-- Each thread is what it was but for its state, and a thread that runs or waits then did so before.
pub record Reschedules (s s' : Sched) : Type 0 where
  pub procs : (t : ℕ) → s'.procs t ≡ record (s.procs t) { state = (s'.procs t).state }
  pub live : (t : ℕ) → has t (s'.curthread ∷ s'.queue) ≡ true → has t (s.curthread ∷ s.queue) ≡ true

has-find_ready :
    (procs : ℕ → Proc) (xs : List ℕ) {p : ℕ} {rest : List ℕ} (t : ℕ)
    → find_ready procs xs ≡ some (p, rest)
    → has t (p ∷ rest) ≡ true
    → has t xs ≡ true
unfolding find_ready
has-find_ready procs [] t e h = cc
has-find_ready procs (x ∷ xs) {p} {rest} t e h = elim (Bool-cases (is_ready (procs x).state)) [
  | inl y ↦ ground arith
  | inr n ↦ elim (Option-cases (find_ready procs xs)) [
    | inl f ↦ ground arith
    | inr ((q, l), f) ↦
        let ep : q ≡ p = ground arith in
        let er : x ∷ l ≡ rest = ground arith in
        let ih : has t (q ∷ l) ≡ true → has t xs ≡ true = has-find_ready procs xs t f in
        ground arith
  ]
]

Reschedules-trans : (s s1 s2 : Sched) → Reschedules s s1 → Reschedules s1 s2 → Reschedules s s2
Reschedules-trans s s1 s2 u v = record {
  procs = λ t.
      let with_state : Proc → Proc = λ p. record p { state = (s2.procs t).state } in
      v.procs t ∙ ap with_state (u.procs t);
  live = λ t h. u.live t (v.live t h);
}

set_state-Reschedules : (t : ℕ) (st : ProcState) (s : Sched) → Reschedules s (set_state t st s)
unfolding set_state
set_state-Reschedules t st s = record {
  procs = λ u. elim (ℕ_discrete u t) [ yes e ↦ ground arith | no ne ↦ ground arith ];
  live = λ u h. h;
}

dispatch-Reschedules : (s : Sched) {s' : Sched} → dispatch s ≡ runs s' → Reschedules s s'
unfolding dispatch switch_in
dispatch-Reschedules s {s'} e = elim (Option-cases (find_ready s.procs s.queue)) [
  | inl f ↦ cc (rw (dispatch, f) at e)
  | inr ((p, rest), f) ↦
      let same : switch_in p rest s ≡ s' = cc (rw (dispatch, f) at e) in
      subst (Reschedules s) same (record {
        procs = (set_state-Reschedules p running (record s { queue = rest })).procs;
        live = λ t h. ground (arith, has-find_ready s.procs s.queue t f h);
      })
]

enqueue-Reschedules : (s : Sched) → Reschedules s (enqueue s.curthread s)
unfolding enqueue
enqueue-Reschedules s = record {
  procs = λ t. refl;
  live = λ t h. ground (arith, has-append t s.queue s.curthread);
}

pub yield_cpu-Reschedules : (s : Sched) {s' : Sched} → yield_cpu s ≡ runs s' → Reschedules s s'
unfolding yield_cpu set_state
yield_cpu-Reschedules s {s'} e =
    let s1 = set_state s.curthread (preempted (state_of s s.curthread)) s in
    let s2 = enqueue s1.curthread s1 in
    Reschedules-trans s s1 s' (set_state-Reschedules s.curthread _ s)
      (Reschedules-trans s1 s2 s' (enqueue-Reschedules s1) (dispatch-Reschedules s2 e))

pub sys_exit-Reschedules : (s : Sched) {s' : Sched} → sys_exit s ≡ runs s' → Reschedules s s'
unfolding sys_exit
sys_exit-Reschedules s {s'} e = elim (Bool-cases ((s.procs s.curthread).pid == 1)) [
  | inl y ↦ cc (rw y at e)
  | inr n ↦
      Reschedules-trans s (set_state s.curthread dead s) s'
        (set_state-Reschedules s.curthread dead s)
        (yield_cpu-Reschedules (set_state s.curthread dead s) (rw n at e))
]
