-- ===== src/Sched/Queue.antt =====
-- kernel/proc.c: the run queue, and the thread that `scheduler` finds in it.
use mathlib.Core.List.Perm
use trunix.Prelude.{
  ℕ, ◌≡◌, ◌≢◌, inl, inr, some, Bool, true, false, ◌||◌, List, [], ◌∷◌, ◌++◌, ◌==◌, Perm, subst,
  arith, Bool-cases, Option-cases,
}
use trunix.Sched.{ProcState, running, ready, Proc, is_ready, update, find_ready}

abbrev pub has : ℕ → List ℕ → Bool
has t [] = false
has t (x ∷ xs) = (t == x) || has t xs

abbrev pub Distinct : List ℕ → Type 0
Distinct [] = Unit {0}
Distinct (x ∷ xs) = (has x xs ≡ false) × Distinct xs

abbrev pub NoneRunning : (ℕ → Proc) → List ℕ → Type 0
NoneRunning procs [] = Unit {0}
NoneRunning procs (t ∷ ts) = ((procs t).state ≢ running) × NoneRunning procs ts

pub has-append : (t : ℕ) (xs : List ℕ) (c : ℕ) → has t (xs ++ c ∷ []) ≡ (has t xs || (t == c))
has-append t [] c = ground arith
has-append t (x ∷ xs) c = ground (arith, has-append t xs c)

pub Distinct-append :
    (xs : List ℕ) (c : ℕ) → has c xs ≡ false → Distinct xs → Distinct (xs ++ c ∷ [])
Distinct-append [] c h d = ground arith
Distinct-append (x ∷ xs) c h d = ground (arith, has-append x xs c, Distinct-append xs c)

pub NoneRunning-append :
    (procs : ℕ → Proc) (xs : List ℕ) (c : ℕ)
    → NoneRunning procs xs
    → (procs c).state ≢ running
    → NoneRunning procs (xs ++ c ∷ [])
NoneRunning-append procs [] c w h = ground arith
NoneRunning-append procs (x ∷ xs) c w h = (w.0, NoneRunning-append procs xs c w.1 h)

pub NoneRunning-update :
    (procs : ℕ → Proc) (c : ℕ) (p : Proc) (xs : List ℕ)
    → has c xs ≡ false
    → NoneRunning procs xs
    → NoneRunning (update procs c p) xs
NoneRunning-update procs c p [] h w = tt
NoneRunning-update procs c p (x ∷ xs) h w = ground (arith, NoneRunning-update procs c p xs)

-- What `find_ready` has found.
pub record Found (procs : ℕ → Proc) (xs : List ℕ) (p : ℕ) (rest : List ℕ) : Type 0 where
  pub is_ready : (procs p).state ≡ ready
  pub members : (t : ℕ) → has t xs ≡ ((t == p) || has t rest)
  pub fresh : has p rest ≡ false
  pub distinct : Distinct rest
  pub waiting : NoneRunning procs rest
  pub perm : Perm xs (p ∷ rest)

ready_of_is_ready : (st : ProcState) → is_ready st ≡ true → st ≡ ready
ready_of_is_ready st h = ground arith

pub find_ready-Found :
    (procs : ℕ → Proc) (xs : List ℕ) {p : ℕ} {rest : List ℕ}
    → find_ready procs xs ≡ some (p, rest)
    → Distinct xs
    → NoneRunning procs xs
    → Found procs xs p rest
unfolding find_ready
find_ready-Found procs [] e d w = cc
find_ready-Found procs (x ∷ xs) {p} {rest} e d w = elim (Bool-cases (is_ready (procs x).state)) [
  | inl t ↦
      let ex : x ≡ p = ground arith in
      let er : xs ≡ rest = ground arith in
      record {
        is_ready = ground (arith, ready_of_is_ready (procs x).state t);
        members = λ t. ground arith;
        fresh = ground arith;
        distinct = ground arith;
        waiting = ground arith;
        perm = subst (λ l. Perm (x ∷ xs) l) (ground arith) (Perm.refl (x ∷ xs));
      }
  | inr f ↦ elim (Option-cases (find_ready procs xs)) [
    | inl e' ↦ ground arith
    | inr ((q, rest'), e') ↦
        let ih = find_ready-Found procs xs {p = q} {rest = rest'} e' d.1 w.1 in
        let ep : q ≡ p = ground arith in
        let er : x ∷ rest' ≡ rest = ground arith in
        subst (λ (r : ℕ × List ℕ). Found procs (x ∷ xs) r.0 r.1) {x = (q, x ∷ rest')}
          {y = (p, rest)} (ground arith)
          (record {
            is_ready = ih.is_ready;
            members = λ t. ground (arith, ih.members t);
            fresh = ground (arith, ih.members x, ih.fresh);
            distinct = ground (arith, ih.members x, ih.distinct);
            waiting = (w.0, ih.waiting);
            perm = Perm.trans (Perm.cons x ih.perm) (Perm.swap q x rest');
          })
  ]
]

-- A queue with a thread that is READY is not passed by.
pub find_ready-some :
    (procs : ℕ → Proc) (i : ℕ) (xs : List ℕ)
    → has i xs ≡ true
    → (procs i).state ≡ ready
    → (p : ℕ) × (rest : List ℕ) × (find_ready procs xs ≡ some (p, rest))
unfolding find_ready
find_ready-some procs i [] h r = cc
find_ready-some procs i (x ∷ xs) h r = elim (Bool-cases (is_ready (procs x).state)) [
  | inl t ↦ (x, xs, ground arith)
  | inr f ↦
      let (p, rest, e) = find_ready-some procs i xs (ground arith) r in (p, x ∷ rest, ground arith)
]
