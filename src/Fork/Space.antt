-- ===== src/Fork/Space.antt =====
-- kernel/proc.c: the address space of the child of `sys_fork`.
use trunix.Prelude.{ℕ, ◌+◌, ◌%◌, ◌^◌, ◌<◌, ◌≤◌, ◌≡◌, none, List, arith, ◌∙◌, ap}
use trunix.Round.{kernel_offset, v2p, p2v}
use trunix.Block.{Block, cover, inside}
use trunix.Vm.{Vm}
use trunix.Vm.Walk.{walk, IsSpace}
use trunix.Vm.Range.{Outside}
use trunix.Vm.Fresh.{Copied}
use trunix.Machine.{Region}
use trunix.Fork.Regions.{
  total_len, AllRegions, AllRegions-map, AllRegions-zip, IsCopyable, Reads, CopiesAll,
}

-- The directory `pd`, which was free in `s`, has the kernel's half of `kpd`, reads in each region what
-- stood in its memory, from the pages at `mem`, and has nothing else; nothing that was in use is changed
-- but these pages.
pub record HasSpace (kpd pd mem : ℕ) (rs : List Region) (s s' : Vm) : Type 0 where
  pub space : IsSpace pd s'
  pub reads :
      AllRegions
        (λ r.
          (i : ℕ)
          → i < r.len
          → Reads pd mem (total_len rs) s' (r.va + i) (s.mem.byte (p2v r.pa + i)))
        rs
  pub nothing :
      (x : ℕ)
      → x < kernel_offset
      → AllRegions (λ r. inside x r.va r.len ≡ 0) rs
      → walk s' pd x ≡ none
  pub kernel : (i : ℕ) → 512 ≤ i → i < 1024 → s'.word pd i ≡ s.word kpd i
  pub names : p2v (v2p pd) ≡ pd
  pub was_free : 0 < cover pd s.mem.freelist
  pub less : (x : ℕ) → cover x s'.mem.freelist ≤ cover x s.mem.freelist
  pub bytes :
      (x : ℕ)
      → cover x s.mem.freelist ≡ 0
      → inside x mem (total_len rs) ≡ 0
      → s'.mem.byte x ≡ s.mem.byte x
  pub words : (q j : ℕ) → cover q s.mem.freelist ≡ 0 → s'.word q j ≡ s.word q j
  pub apart : (q : ℕ) → cover q s.mem.freelist ≡ 0 → Outside pd s' q

pub IsCopyable-less :
    (rs : List Region) (mem : ℕ) (fl fl' : List Block)
    → IsCopyable rs mem fl
    → ((x : ℕ) → cover x fl' ≤ cover x fl)
    → IsCopyable rs mem fl'
IsCopyable-less rs mem fl fl' c less = record {
  user = c.user;
  source = AllRegions-map rs (λ r f i h. omega (arith, f i h, less (p2v r.pa + i))) c.source;
  other = c.other;
  apart = c.apart;
  dest = λ i h. omega (arith, c.dest i h, less (mem + i));
  start = c.start;
  high = c.high;
  fits = c.fits;
}

names_pd : (pd : ℕ) → kernel_offset ≤ pd → pd < 2 ^ 32 → p2v (v2p pd) ≡ pd
unfolding p2v v2p
names_pd pd h h' = omega arith

new_Outside :
    (kpd pd q : ℕ) (s s1 : Vm) → Copied kpd s pd s1 → cover q s.mem.freelist ≡ 0 → Outside pd s1 q
new_Outside kpd pd q s s1 k c = record {
  taken = omega (arith, k.less q);
  ne_dir = λ e. let f : 0 < cover q s.mem.freelist = rw e (k.was_free) in omega arith;
  ne_table = λ i h p. absurd (p (ap (λ w. w % 2) (k.no_tables i h)));
}

pub CopiesAll-HasSpace :
    (kpd pd mem : ℕ) (rs : List Region) (s s1 s' : Vm)
    → IsCopyable rs mem s.mem.freelist
    → Copied kpd s pd s1
    → CopiesAll pd mem rs s1 s'
    → HasSpace kpd pd mem rs s s'
CopiesAll-HasSpace kpd pd mem rs s s1 s' c k a = record {
  space = a.space;
  reads =
      AllRegions-zip rs
        (λ r src rd i h.
          let x = rd i h in
          record {
            pa = x.pa;
            walks = x.walks;
            within = x.within;
            byte = x.byte ∙ k.bytes (p2v r.pa + i) (src i h);
          })
        c.source a.reads;
  nothing = λ x h out. a.walks x h out ∙ k.nothing x h;
  kernel = λ i h h'. a.kernel i h ∙ k.kernel i h h';
  names = names_pd pd k.high k.fits;
  was_free = k.was_free;
  less = λ x. omega (arith, a.less x, k.less x);
  bytes = λ x e o. a.bytes x (omega (arith, k.less x)) o ∙ k.bytes x e;
  words = λ q j e. a.others q j (new_Outside kpd pd q s s1 k e) ∙ k.others q j e;
  apart = λ q e. a.outside q (new_Outside kpd pd q s s1 k e);
}
