-- ===== src/Core/RingBuffer/Tests.antt =====
-- Runs of src/core/ring_buffer.h.
use netudp.Base.{ℕ, ◌+◌, ◌≡◌, arith}
use netudp.Core.Fifo
use netudp.Core.RingBuffer.{FixedRingBuffer, push_back}
use netudp.Core.RingBuffer.Queue.{IsValid, contents, push_back_refines}

-- Two items, the second behind the end of the array.
abbrev wrapped : FixedRingBuffer ℕ
wrapped = record { items = λ i. i + 1; head = 255; size = 2 }

wrapped-IsValid : IsValid wrapped
wrapped-IsValid = record { head_in = omega arith; size_in = omega arith }

push_back_refines_example :
    let (pushed, r) = push_back wrapped 7 in
    ((pushed, contents r) ≡ Fifo.push (contents wrapped) 7) × IsValid r
push_back_refines_example = push_back_refines wrapped 7 wrapped-IsValid
