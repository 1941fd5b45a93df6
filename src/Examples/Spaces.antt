-- ===== src/Examples/Spaces.antt =====
-- Page directories at concrete inputs.
use trunix.Prelude.{◌∷◌, [], arith, ◌*◌, refl}
use trunix.Block.{block}
use trunix.Pages.{Mem}
use trunix.Pages.Free.{IsFree}
use trunix.Vm.{Vm, alloc_pt, copykvm, pg_user}
use trunix.Vm.Walk.{IsSpace}
use trunix.Vm.Range.{Ranges, alloc_pt-Ranges}
use trunix.Vm.Fresh.{Copies, copykvm-Copies}

abbrev pub free_mem : Mem
free_mem = record {
  freelist = block 0x8000_4000 0x1000 ∷ block 0x8010_0000 0x8000 ∷ [];
  byte = λ _. 0;
}

abbrev pub empty_vm : Vm
empty_vm = record { mem = free_mem; word = λ _ _. 0 }

pub free_mem-IsFree : IsFree free_mem
free_mem-IsFree = record {
  runs = omega arith;
  once = λ x. ground arith;
  high = λ x h. ground arith;
}

pub empty_vm-IsSpace : IsSpace 0x8040_0000 empty_vm
empty_vm-IsSpace = record {
  free = free_mem-IsFree;
  taken = refl;
  small = λ i h p. absurd (p refl);
  table_taken = λ i h p. absurd (p refl);
  table_ne = λ i h p. absurd (p refl);
  apart = λ i j hi hj n p. absurd (p refl);
}

alloc_pt-Ranges_example :
    Ranges 0x8040_0000 0x804_8000 0x20_0000 2 empty_vm
      (alloc_pt 0x8040_0000 0x804_8000 0x20_0000 (2 * 0x1000) pg_user empty_vm)
alloc_pt-Ranges_example =
    alloc_pt-Ranges 0x8040_0000 0x804_8000 0x20_0000 2 empty_vm empty_vm-IsSpace refl refl
      (omega arith) (omega arith)

copykvm-Copies_example : Copies 0x8040_0000 empty_vm (copykvm 0x8040_0000 empty_vm)
copykvm-Copies_example = copykvm-Copies 0x8040_0000 empty_vm free_mem-IsFree
