-- ===== src/Fork/Loop.antt =====
-- kernel/proc.c: the loop of `sys_fork` on the regions.
use trunix.Prelude.{
  ℕ, ◌+◌, ◌*◌, ◌/◌, ◌%◌, ◌^◌, ◌<◌, ◌≡◌, refl, Option, none, some, List, [], ◌∷◌, ◌++◌, arith, ◌∙◌,
  ap,
}
use trunix.Round.{page, pg_roundup, pg_roundup_self, v2p, p2v}
use trunix.Pages.Cover.{AllBelow}
use trunix.KHeap.{KHeap, kmalloc, slot_size}
use trunix.KHeap.Alloc.{Ascending, Mallocs, kmalloc_lem}
use trunix.KHeap.Alloc
use trunix.Vm.{Vm, pg_user, alloc_pt}
use trunix.Vm.Walk.{IsSpace}
use trunix.Vm.Range.{Ranges, Ranged, ranged, starved, alloc_pt-Ranges}
use trunix.Machine.{Region, region_size}
use trunix.Fork.{moved, region_at, copy_regions}
use trunix.Fork.Regions.{
  IsCopyable, CopiesAll, CopiesAll-none, CopiesAll-cons, s2-IsSpace, rest-IsCopyable,
}

-- How far the loop comes: to its end, with a heap in order; or to a region `r`, for whose entry there is
-- no memory, or for whose pages there is none for the page tables.
pub data Copies (pd mem : ℕ) (rs : List Region) (s : Vm) (h : KHeap) (acc : List Region)
    : Option (Vm × KHeap × List Region) → Type 0 where
  copied :
      {s' : Vm} {h' : KHeap} {acc' : List Region}
      → CopiesAll pd mem rs s s'
      → Ascending 0 h'.heap
      → Copies pd mem rs s h acc (some (s', h', acc'))
  no_entry :
      (qs rest : List Region) (r : Region) (s' : Vm) (h' : KHeap) (acc' : List Region)
      → rs ≡ qs ++ r ∷ rest
      → copy_regions pd qs mem s h acc ≡ some (s', h', acc')
      → AllBelow (slot_size region_size) h'.heap
      → Copies pd mem rs s h acc none
  no_tables :
      (qs rest : List Region) (r : Region) (s' : Vm) (h' : KHeap) (acc' : List Region) (pa : ℕ)
      → rs ≡ qs ++ r ∷ rest
      → copy_regions pd qs mem s h acc ≡ some (s', h', acc')
      → Ranges pd r.va pa (r.len / 0x1000) s' none
      → Copies pd mem rs s h acc none

copy_regions-cons :
    (pd mem : ℕ) (r : Region) (rs : List Region) (s s1 : Vm) (h h' : KHeap) (acc : List Region)
    {a : ℕ}
    → kmalloc region_size h ≡ some (some a, h')
    → alloc_pt pd r.va (v2p mem) r.len pg_user s ≡ some s1
    → pg_roundup r.len ≡ r.len
    → copy_regions pd (r ∷ rs) mem s h acc
      ≡ copy_regions pd rs
          (mem + r.len)
          (moved mem (p2v r.pa) r.len s1)
          h'
          (region_at (v2p mem) r ∷ acc)
unfolding copy_regions
copy_regions-cons pd mem r rs s s1 h h' acc e e' w = rw (copy_regions, e) (rw (e', w) refl)

-- A region, and then what the rest comes to.
module _ (pd mem : ℕ) (r : Region) (rs : List Region) (s s1 : Vm) (h h' : KHeap) (acc : List Region)
    (c : IsCopyable (r ∷ rs) mem s.mem.freelist) (w : Ranged pd r.va (v2p mem) r.len s s1)
    (step : (qs : List Region)
      → copy_regions pd (r ∷ qs) mem s h acc
        ≡ copy_regions pd qs
            (mem + r.len)
            (moved mem (p2v r.pa) r.len s1)
            h'
            (region_at (v2p mem) r ∷ acc)) where
  Copies-cons :
      (o : Option (Vm × KHeap × List Region))
      → Copies pd
          (mem + r.len)
          rs
          (moved mem (p2v r.pa) r.len s1)
          h'
          (region_at (v2p mem) r ∷ acc)
          o
      → Copies pd mem (r ∷ rs) s h acc o
  Copies-cons _ (copied {s'} o asc) = copied (CopiesAll-cons pd mem r rs s s1 c w s' o) asc
  Copies-cons _ (no_entry qs rest q s' k acc' e run b) =
      no_entry (r ∷ qs) rest q s' k acc' (ap (λ l. r ∷ l) e) (step qs ∙ run) b
  Copies-cons _ (no_tables qs rest q s' k acc' pa e run n) =
      no_tables (r ∷ qs) rest q s' k acc' pa (ap (λ l. r ∷ l) e) (step qs ∙ run) n

module _ (pd mem : ℕ) (r : Region) (rs : List Region) (s : Vm) (h : KHeap) (acc : List Region)
    (c : IsCopyable (r ∷ rs) mem s.mem.freelist)
    (next : (s1 : Vm) (h' : KHeap)
      → Ranged pd r.va (v2p mem) r.len s s1
      → Ascending 0 h'.heap
      → Copies pd
          (mem + r.len)
          rs
          (moved mem (p2v r.pa) r.len s1)
          h'
          (region_at (v2p mem) r ∷ acc)
          (copy_regions pd rs
            (mem + r.len)
            (moved mem (p2v r.pa) r.len s1)
            h'
            (region_at (v2p mem) r ∷ acc))) where
  whole : pg_roundup r.len ≡ r.len
  whole = pg_roundup_self r.len c.user.0.whole

  aligned_v2p : v2p mem % page ≡ 0
  unfolding v2p
  aligned_v2p = omega (arith, c.start)

  low_v2p : v2p mem + r.len < 2 ^ 32
  unfolding v2p
  low_v2p = omega (arith, c.fits, c.high, whole)

  -- With an entry for the region.
  Ranges-Copies :
      (h' : KHeap) (a : ℕ) (o : Option Vm)
      → kmalloc region_size h ≡ some (some a, h')
      → Ascending 0 h'.heap
      → alloc_pt pd r.va (v2p mem) r.len pg_user s ≡ o
      → Ranges pd r.va (v2p mem) (r.len / 0x1000) s o
      → Copies pd mem (r ∷ rs) s h acc (copy_regions pd (r ∷ rs) mem s h acc)
  unfolding copy_regions
  Ranges-Copies h' a _ e asc e' (ranged {s' = s1} w) =
      let len : r.len / 0x1000 * 0x1000 ≡ r.len = omega (arith, c.user.0.whole) in
      let w' = rw len at w in
      let step : (qs : List Region)
          → copy_regions pd (r ∷ qs) mem s h acc
            ≡ copy_regions pd qs (mem + r.len) (moved mem (p2v r.pa) r.len s1) h'
                (region_at (v2p mem) r ∷ acc) =
        λ qs. copy_regions-cons pd mem r qs s s1 h h' acc e e' whole in
      rw (step rs) (Copies-cons pd mem r rs s s1 h h' acc c w' step _ (next s1 h' w' asc))
  Ranges-Copies h' a _ e asc e' (starved k s1 lt run missing below) =
      rw (copy_regions, e)
        (rw e' (no_tables [] rs r s h acc (v2p mem) refl refl (starved k s1 lt run missing below)))

  Mallocs-Copies :
      (o : Option (Option ℕ × KHeap))
      → IsSpace pd s
      → kmalloc region_size h ≡ o
      → Mallocs region_size h o
      → Copies pd mem (r ∷ rs) s h acc (copy_regions pd (r ∷ rs) mem s h acc)
  unfolding copy_regions
  Mallocs-Copies _ v e (Alloc.Mallocs.refused b) =
      rw (copy_regions, e) (no_entry [] rs r s h acc refl refl b)
  Mallocs-Copies _ v e (Alloc.Mallocs.granted p n {h'} _ _ _ asc _) =
      let len : r.len / 0x1000 * 0x1000 ≡ r.len = omega (arith, c.user.0.whole) in
      let rg =
        alloc_pt-Ranges pd r.va (v2p mem) (r.len / 0x1000) s v c.user.0.va_aligned aligned_v2p
          (omega (arith, len, c.user.0.va_fits)) (omega (arith, len, low_v2p)) in
      Ranges-Copies h' (p + 2) _ e asc refl (rw len at rg)

-- The loop.
pub copy_regions-Copies :
    (rs : List Region) (pd mem : ℕ) (s : Vm) (h : KHeap) (acc : List Region)
    → IsSpace pd s
    → IsCopyable rs mem s.mem.freelist
    → Ascending 0 h.heap
    → Copies pd mem rs s h acc (copy_regions pd rs mem s h acc)
unfolding copy_regions
copy_regions-Copies [] pd mem s h acc v c asc = copied (CopiesAll-none pd mem s v) asc
copy_regions-Copies (r ∷ rs) pd mem s h acc v c asc =
    Mallocs-Copies pd mem r rs s h acc c
      (λ s1 h' w asc'.
        copy_regions-Copies rs pd (mem + r.len) (moved mem (p2v r.pa) r.len s1) h'
          (region_at (v2p mem) r ∷ acc) (s2-IsSpace pd mem r rs s s1 c w)
          (rest-IsCopyable pd mem r rs s s1 c w) asc')
      (kmalloc region_size h) v refl (kmalloc_lem region_size h (omega arith) asc)
