-- ===== src/Sched/Fair.antt =====
-- kernel/proc.c: a thread that is READY gets its turn.
use mathlib.Core.Option
use trunix.Prelude.{
  ℕ, zero, suc, subst, ◌≡◌, ◌≢◌, refl, inl, inr, Option, none, some, true, false, List, [], ◌∷◌,
  ◌++◌, ◌==◌, if◌then◌else◌, arith, Bool-cases, Option-cases,
}
use trunix.Sched.Queue.{has}
use trunix.Sched.Switch.{IsSched, with_state}
use trunix.Sched.Invariant.{yield_cpu-IsSched}
use trunix.Sched.{
  running, ready, Proc, Sched, runs, is_ready, preempted, update, state_of, set_state, enqueue,
  find_ready, switch_in, dispatch, yield_cpu, ticks,
}

-- How many threads of the queue that are READY stand before the thread `p`; `none` if `p` is not in
-- the queue.
abbrev pub rank : (ℕ → Proc) → ℕ → List ℕ → Option ℕ
rank procs p [] = none
rank procs p (t ∷ ts) =
    if t == p
    then some 0
    else Option.map (λ k. (if is_ready (procs t).state then suc k else k)) (rank procs p ts)

rank-append :
    (procs : ℕ → Proc) (p : ℕ) (xs ys : List ℕ) {k : ℕ}
    → rank procs p xs ≡ some k
    → rank procs p (xs ++ ys) ≡ some k
rank-append procs p [] ys e = cc
rank-append procs p (x ∷ xs) ys {k} e = elim (Option-cases (rank procs p xs)) [
  | inl e' ↦ ground arith
  | inr (j, e') ↦ ground (arith, rank-append procs p xs ys e')
]

-- A thread that is not in the queue does not count.
rank-update :
    (procs : ℕ → Proc) (p c : ℕ) (pr : Proc) (xs : List ℕ)
    → has c xs ≡ false
    → rank (update procs c pr) p xs ≡ rank procs p xs
rank-update procs p c pr [] h = refl
rank-update procs p c pr (x ∷ xs) h = ground (arith, rank-update procs p c pr xs)

has_of_rank :
    (procs : ℕ → Proc) (p : ℕ) (xs : List ℕ) {k : ℕ} → rank procs p xs ≡ some k → has p xs ≡ true
has_of_rank procs p [] e = cc
has_of_rank procs p (x ∷ xs) e = elim (Option-cases (rank procs p xs)) [
  | inl e' ↦ ground arith
  | inr (j, e') ↦ ground (arith, has_of_rank procs p xs e')
]

-- The first in rank is found.
find_ready-first :
    (procs : ℕ → Proc) (p : ℕ) (xs : List ℕ) {q : ℕ} {rest : List ℕ}
    → (procs p).state ≡ ready
    → rank procs p xs ≡ some 0
    → find_ready procs xs ≡ some (q, rest)
    → q ≡ p
unfolding find_ready
find_ready-first procs p [] r e f = cc
find_ready-first procs p (x ∷ xs) {q} r e f = elim (Option-cases (rank procs p xs)) [
  | inl e' ↦ ground arith
  | inr (j, e') ↦ elim (Option-cases (find_ready procs xs)) [
    | inl f' ↦ ground arith
    | inr ((q', rest'), f') ↦
        ground
          (arith, λ (z : rank procs p xs ≡ some 0). find_ready-first procs p xs {q = q'} r z f')
  ]
]

-- Any other moves up by one.
find_ready-later :
    (procs : ℕ → Proc) (p k : ℕ) (xs : List ℕ) {q : ℕ} {rest : List ℕ}
    → rank procs p xs ≡ some (suc k)
    → find_ready procs xs ≡ some (q, rest)
    → (rank procs p rest ≡ some k) × (q ≢ p)
unfolding find_ready
find_ready-later procs p k [] e f = cc
find_ready-later procs p k (x ∷ xs) {q} {rest} e f = elim (Bool-cases (is_ready (procs x).state)) [
  | inl t ↦ elim (Option-cases (rank procs p xs)) [
    | inl e' ↦ ground arith
    | inr (j, e') ↦ ground arith
  ]
  | inr n ↦ elim (Option-cases (find_ready procs xs)) [
    | inl f' ↦ ground arith
    | inr ((q', rest'), f') ↦ elim (Option-cases (rank procs p xs)) [
      | inl e' ↦ ground arith
      | inr (j, e') ↦ ground (
        arith,
        λ (z : rank procs p xs ≡ some (suc k)).
            find_ready-later procs p k xs {q = q'} {rest = rest'} z f',
      )
    ]
  ]
]

-- What the scheduler has done when `yield` comes to run a thread.
record Dispatched (before : ℕ → Proc) (xs : List ℕ) (s' : Sched) : Type 0 where
  found : find_ready before xs ≡ some (s'.curthread, s'.queue)
  started : s'.procs ≡ update before s'.curthread (record (before s'.curthread) { state = running })

dispatch-Dispatched :
    (s : Sched) {s' : Sched} → dispatch s ≡ runs s' → Dispatched s.procs s.queue s'
unfolding dispatch
dispatch-Dispatched s {s'} e = elim (Option-cases (find_ready s.procs s.queue)) [
  | inl f ↦ ground arith
  | inr ((q, rest), f) ↦
      let e' : switch_in q rest s ≡ s' = ground arith in
      subst (Dispatched s.procs s.queue) e' (record { found = f; started = refl })
]

yield_cpu-Dispatched :
    (s : Sched) {s' : Sched}
    → state_of s s.curthread ≡ running
    → yield_cpu s ≡ runs s'
    → Dispatched (with_state s ready) (s.queue ++ s.curthread ∷ []) s'
unfolding yield_cpu set_state enqueue
yield_cpu-Dispatched s {s'} r e =
    subst (λ st. Dispatched (with_state s (preempted st)) (s.queue ++ s.curthread ∷ []) s') r
      (dispatch-Dispatched _ e)

-- One timer interrupt: the first READY thread runs, and every other one moves up.
yield-rank :
    (i p : ℕ) (s s' : Sched)
    → IsSched i s
    → yield_cpu s ≡ runs s'
    → IsSched i s'
    → state_of s p ≡ ready
    → (rank s.procs p s.queue ≡ some 0 → s'.curthread ≡ p)
      × ((k : ℕ)
          → rank s.procs p s.queue ≡ some (suc k)
          → (rank s'.procs p s'.queue ≡ some k) × (state_of s' p ≡ ready))
yield-rank i p s s' v e v' r =
    let d = yield_cpu-Dispatched s v.cur_running e in
    let c = s.curthread in
    let pr : Proc = record (s.procs c) { state = ready } in
    (
      (λ z.
          find_ready-first (with_state s ready) p (s.queue ++ c ∷ []) (ground arith)
            (rank-append (with_state s ready) p s.queue (c ∷ [])
              (rw (rank-update s.procs p c pr s.queue v.queued.alone.0) z))
            d.found),
      λ k z.
          let (m, ne) =
            find_ready-later (with_state s ready) p k (s.queue ++ c ∷ [])
              (rank-append (with_state s ready) p s.queue (c ∷ [])
                (rw (rank-update s.procs p c pr s.queue v.queued.alone.0) z))
              d.found in
          (
            rw
                (
                  d.started,
                  rank-update (with_state s ready) p s'.curthread _ s'.queue v'.queued.alone.0,
                )
                m,
            rw d.started (ground arith),
          ),
    )

-- Round robin: a READY thread that has `k` READY threads before it in the run queue runs after
-- `k + 1` timer interrupts, if no other event comes between, and the invariant holds then.
pub ticks-rank :
    (k i p : ℕ) (s : Sched)
    → IsSched i s
    → state_of s p ≡ ready
    → rank s.procs p s.queue ≡ some k
    → (s' : Sched) × (ticks (suc k) s ≡ runs s') × (s'.curthread ≡ p) × IsSched i s'
unfolding ticks
ticks-rank zero i p s v r z =
    let (s', e, w, _) = yield_cpu-IsSched i s v in
    (s', rw (ticks, e) refl, (yield-rank i p s s' v e w.inv r).0 z, w.inv)
ticks-rank (suc k) i p s v r z =
    let (s', e, w, _) = yield_cpu-IsSched i s v in
    let (z', r') = (yield-rank i p s s' v e w.inv r).1 k z in
    let (t, e', c, v') = ticks-rank k i p s' w.inv r' z' in (t, rw (ticks, e) e', c, v')
