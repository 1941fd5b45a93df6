-- ===== src/Examples/Programs.antt =====
-- The allocator of user programs at concrete inputs.
use trunix.Prelude.{ℕ, Bool, ◌&&◌, leb, ltb, ◌≡◌, refl, some, [], ◌∷◌, arith}
use trunix.Block.{block}
use trunix.Malloc.{UserHeap, put_u32, user_slot}
use trunix.Malloc.Run.{mallocs, starts, mallocs-Consecutive}

-- One page.
abbrev one_page : ℕ → Bool
one_page x = leb 0x1000_0000 x && ltb x 0x1000_1000

mallocs-Consecutive_example :
    (h' : UserHeap) × (mallocs
        (λ _. some 0x1000_0000)
        one_page
        (100 ∷ 2000 ∷ 20 ∷ [])
        (record { heap = []; byte = λ _. 0 })
      ≡ some (starts 0x1000_0000 (100 ∷ 2000 ∷ 20 ∷ []), h'))
unfolding user_slot
mallocs-Consecutive_example =
    mallocs-Consecutive (λ _. some 0x1000_0000) one_page 0x1000_0000 100 (2000 ∷ 20 ∷ []) (λ _. 0)
      (omega arith) refl (omega arith) (omega arith) (omega arith) (λ x l u. ground arith)

-- The heap after a request of 100 bytes.
abbrev used_heap : UserHeap
used_heap = record {
  heap = block 0x1000_0068 0xffff_f068 ∷ [];
  byte = put_u32 (λ _. 0) 0x1000_0000 104;
}
