-- ===== src/Reliability/Channel/Tests.antt =====
-- Runs of src/reliability/reliable_channel.h.
use netudp.Base.{ℕ, ◌+◌, ◌≡◌, refl, false, none, List, [], ◌∷◌, update, arith}
use netudp.Base.Float64.{whole_numbers}
use netudp.Base.Lists.{All}
use netudp.Reliability.Channel.{
  Bytes, ReliableChannelState, record_send, get_for_retransmit, find_retransmits, retransmit_loop,
  is_timed_out, buffer_received_ordered, deliver_ordered, deliver_loop, is_ready, taken, reset,
}
use netudp.Reliability.Channel.Order.{deliver_ordered-stops}
use netudp.Reliability.Channel.Receive.{From, receive, receive_all}
use netudp.Reliability.Channel.Awaited.{
  IsTimely, at_start, past_arrived, on_wire, messages, arrive_all,
}
use netudp.Reliability.Channel.Stream.{receive_all-stream}
use netudp.Reliability.Channel.Genuine.{receive_all-From}
use netudp.Reliability.Channel.Sending.{record_send_displaces}

-- 1 comes before 0, and 0 comes twice.
abbrev arrivals : List (ℕ × Bytes)
arrivals = (1, 21 ∷ []) ∷ (0, 20 ∷ []) ∷ (0, 99 ∷ []) ∷ (2, 22 ∷ []) ∷ []

delivered_in_order :
    (receive_all {T = ℕ} (reset 0) arrivals).0 ≡ (0, 20 ∷ []) ∷ (1, 21 ∷ []) ∷ (2, 22 ∷ []) ∷ []
unfolding receive_all receive buffer_received_ordered deliver_ordered deliver_loop taken reset
delivered_in_order = refl

-- Message 1 waits for message 0.
abbrev waiting : ReliableChannelState ℕ
waiting = (buffer_received_ordered (reset 0) 1 (21 ∷ [])).1

-- Two messages under way since 10 and 20.
abbrev sending : ReliableChannelState ℕ
sending = (record_send (record_send (reset 0) (1 ∷ 2 ∷ []) 0 10).1 (3 ∷ []) 1 20).1

retransmits_first : (find_retransmits whole_numbers sending 21 5 8).0 ≡ 0 ∷ []
unfolding find_retransmits retransmit_loop is_timed_out record_send reset
retransmits_first = refl

-- Message 3 of this stream is lost, and 4 waits for it; 1 comes before 0, and 0 comes twice.
abbrev bytes_of : ℕ → Bytes
bytes_of i = (20 + i) ∷ []

abbrev numbers : List ℕ
numbers = 1 ∷ 0 ∷ 0 ∷ 4 ∷ 2 ∷ []

numbers-IsTimely : IsTimely at_start numbers
unfolding IsTimely past_arrived
numbers-IsTimely = (
  omega arith,
  (
    omega arith,
    (
      omega arith,
      (
        omega arith,
        (
          omega arith,
          (omega arith, (omega arith, (omega arith, (omega arith, (omega arith, tt))))),
        ),
      ),
    ),
  ),
)

receive_all-stream_example :
    ((receive_all {T = ℕ} (reset 0) (on_wire bytes_of numbers)).0 ≡ messages bytes_of 0 3)
    × ((arrive_all at_start numbers).arrived 3 ≡ false)
unfolding arrive_all past_arrived
receive_all-stream_example = receive_all-stream {T = ℕ} 0 bytes_of numbers numbers-IsTimely

receive_all-From_example : All (λ m. From m arrivals) (receive_all {T = ℕ} (reset 0) arrivals).0
receive_all-From_example = receive_all-From {T = ℕ} 0 arrivals

deliver_ordered-stops_example : is_ready (deliver_ordered waiting).1 ≡ false
deliver_ordered-stops_example = deliver_ordered-stops waiting

abbrev far_ahead : ReliableChannelState ℕ
far_ahead = record sending { send_seq = 64 }

record_send_displaces_example : get_for_retransmit (record_send far_ahead (7 ∷ []) 9 30).1 0 ≡ none
record_send_displaces_example =
    record_send_displaces far_ahead (7 ∷ []) 9 30 0 (omega arith) (omega arith) (omega arith)
      (omega arith) (omega arith)

abbrev given_up : ReliableChannelState ℕ
given_up = record sending {
  sent_buffer = update sending.sent_buffer 0 (record (sending.sent_buffer 0) { valid = false });
}
