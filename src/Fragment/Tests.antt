-- ===== src/Fragment/Tests.antt =====
-- Runs of src/fragment/fragment.h, with payloads of four bytes.
use netudp.Base.{ℕ, ◌-◌, ◌*◌, ◌≤◌, ◌<◌, ◌≡◌, ◌⊎◌, refl, true, List, [], ◌∷◌, arith}
use netudp.Base.Bits.{test_bit}
use netudp.Fragment.{
  calc_fragment_count, div_int, max_fragment_count, FragmentTracker, has_fragment, receive,
}
use netudp.Base.Int.{pos, negsuc, ltℤ}
use netudp.Fragment.Counts.{calc_fragment_count-tight}
use netudp.Fragment.Reassembly.{Holds, receive-Holds, receive-stores}

calc_fragment_count-tight_example :
    ((max_fragment_count * 4 < 10) × (calc_fragment_count 10 4 ≡ negsuc 0))
    ⊎ ((count : ℕ) × (calc_fragment_count 10 4 ≡ pos count)
        × (10 ≤ count * 4)
        × ((count - 1) * 4 < 10)
        × (count ≤ max_fragment_count))
calc_fragment_count-tight_example =
    calc_fragment_count-tight 10 4 (omega arith) (omega arith) (omega arith)

-- The sum of the largest `int` and 1149 wraps.
calc_fragment_count_wrapped : calc_fragment_count 2147483647 1150 ≡ negsuc 1867375
unfolding calc_fragment_count div_int ltℤ
calc_fragment_count_wrapped = refl

abbrev fresh : FragmentTracker ℕ
fresh = record {
  message_id = 7;
  total_fragments = 3;
  received_count = 0;
  received_mask = λ i. 0;
  first_recv_time = 1;
  last_recv_time = 0;
  active = true;
  buffer = λ i. 0;
  buffer_capacity = 12;
  fragment_sizes = λ i. 0;
}

abbrev third : List ℕ
third = 9 ∷ 8 ∷ []

abbrev after_third : FragmentTracker ℕ
after_third = (receive fresh 2 3 third 4 1).1

after_third-Holds : Holds after_third 4 2 third
unfolding has_fragment test_bit
after_third-Holds = receive-stores fresh 2 3 third 4 1 refl refl (omega arith)

receive-Holds_example : Holds (receive after_third 0 3 (1 ∷ 2 ∷ 3 ∷ 4 ∷ []) 4 2).1 4 2 third
receive-Holds_example =
    receive-Holds after_third 0 3 (1 ∷ 2 ∷ 3 ∷ 4 ∷ []) 4 2 2 third after_third-Holds (omega arith)
      (omega arith)
