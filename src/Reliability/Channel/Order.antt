-- ===== src/Reliability/Channel/Order.antt =====
-- src/reliability/reliable_channel.h: the loop of the ordered receiver that hands over what is ready.
use netudp.Base.{
  ℕ, zero, suc, ◌+◌, ◌≤◌, ◌<◌, ◌≡◌, inl, inr, refl, ap, true, false, ◌==◌, if◌then◌else◌, Array,
  update, arith, Bool-cases,
}
use netudp.Reliability.Channel.{
  ReceivedMessage, ReliableChannelState, slot, is_ready, taken, deliver_loop, deliver_ordered,
}

-- How many of the first `n` slots hold a message.
valid_count : ℕ → Array ReceivedMessage → ℕ
valid_count zero a = 0
valid_count (suc n) a = (if (a n).valid then 1 else 0) + valid_count n a

valid_count-le : (n : ℕ) (a : Array ReceivedMessage) → valid_count n a ≤ n
unfolding valid_count
valid_count-le zero a = omega arith
valid_count-le (suc n) a = ground (arith, valid_count-le n a)

valid_count-update_above :
    (n i : ℕ) (a : Array ReceivedMessage) (m : ReceivedMessage)
    → n ≤ i
    → valid_count n (update a i m) ≡ valid_count n a
unfolding valid_count
valid_count-update_above zero i a m h = refl
valid_count-update_above (suc n) i a m h = ground (arith, valid_count-update_above n i a m)

valid_count-update :
    (n i : ℕ) (a : Array ReceivedMessage) (m : ReceivedMessage)
    → i < n
    → (a i).valid ≡ true
    → m.valid ≡ false
    → valid_count n (update a i m) + 1 ≡ valid_count n a
unfolding valid_count
valid_count-update zero i a m h hv hm = absurd (omega arith)
valid_count-update (suc n) i a m h hv hm = elim (Bool-cases (i == n)) [
  | inl here ↦ ground (arith, valid_count-update_above n i a m, ap a (same here))
  | inr below ↦ ground (arith, valid_count-update n i a m)
]
  where
    same : (i == n) ≡ true → i ≡ n
    same h = ground arith

module _ {T : Type 0} where
  held : ReliableChannelState T → ℕ
  held s = valid_count 64 s.recv_buffer

  held-taken : (s : ReliableChannelState T) → is_ready s ≡ true → held (taken s) + 1 ≡ held s
  unfolding held taken
  held-taken s h =
      valid_count-update 64 (slot s.recv_seq) s.recv_buffer
        (record (s.recv_buffer (slot s.recv_seq)) { valid = false }) (omega arith) (ground arith)
        refl

  deliver_loop-stops :
      (fuel : ℕ) (s : ReliableChannelState T)
      → held s < fuel
      → is_ready (deliver_loop fuel s).1 ≡ false
  unfolding deliver_loop
  deliver_loop-stops zero s h = absurd (omega arith)
  deliver_loop-stops (suc fuel) s h = elim (Bool-cases (is_ready s)) [
    | inl ready ↦
        rw (ready, deliver_loop)
          (deliver_loop-stops fuel (taken s) (omega (arith, held-taken s ready)))
    | inr idle ↦ rw (idle, deliver_loop) idle
  ]

  -- The 65 rounds are enough: when `deliver_ordered` returns, the next expected message is not there.
  pub deliver_ordered-stops : (s : ReliableChannelState T) → is_ready (deliver_ordered s).1 ≡ false
  unfolding deliver_ordered held
  deliver_ordered-stops s = deliver_loop-stops 65 s (omega (arith, valid_count-le 64 s.recv_buffer))
