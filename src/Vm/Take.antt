-- ===== src/Vm/Take.antt =====
-- A space when pages are taken from the free list for something else.
use trunix.Prelude.{ℕ, ◌≤◌, arith}
use trunix.Block.{cover}
use trunix.Pages.{Mem}
use trunix.Pages.Free.{IsFree}
use trunix.Vm.{Vm}
use trunix.Vm.Walk.{table, IsSpace}

pub IsSpace-less :
    (pd : ℕ) (s : Vm) (m : Mem)
    → IsSpace pd s
    → IsFree m
    → ((x : ℕ) → cover x m.freelist ≤ cover x s.mem.freelist)
    → IsSpace pd (record s { mem = m })
IsSpace-less pd s m v f less = record {
  free = f;
  taken = omega (arith, less pd, v.taken);
  small = v.small;
  table_taken = λ i h p. omega (arith, less (table pd i s), v.table_taken i h p);
  table_ne = v.table_ne;
  apart = v.apart;
}
