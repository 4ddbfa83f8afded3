-- ===== src/Reliability/Tracker/Tests.antt =====
-- Runs of src/reliability/packet_tracker.h on concrete packets.
use netudp.Base.{ℕ, ◌≡◌, refl, true, false, ◌||◌, ◌&&◌, List, [], ◌∷◌, arith}
use netudp.Base.Bits.{test_bit, set_bit, shift_left, low_bits}
use netudp.Reliability.Tracker.{
  AckFields, PacketTracker, send_packet, shifted_bits, on_packet_received, mark_acked, count_acked,
  process_bits, advance_oldest, process_acks, is_acked, reset,
}
use netudp.Reliability.Tracker.Receive.{reports, Arrived, receive_all, reports-Arrived}
use netudp.Reliability.Tracker.Acked.{holds, process_acks-is_acked}
use netudp.Reliability.Tracker.Send.{send_packet_displaces}

-- 5 is lost; 3 comes late.
abbrev arrivals : List (ℕ × ℕ)
arrivals = (2, 10) ∷ (4, 11) ∷ (3, 12) ∷ (6, 13) ∷ []

abbrev received : PacketTracker ℕ
received = receive_all (reset 0) arrivals

-- Three packets sent at 100, 200 and 300.
abbrev sender : PacketTracker ℕ
sender = (send_packet (send_packet (send_packet (reset 0) 100).1 200).1 300).1

abbrev fields : AckFields
fields = record { ack = 2; ack_bits = 1; ack_delay_us = 7 }

-- Bits 1, 2 and 3 stand for 4, 3 and 2.
received_bits : received.recv_ack_bits ≡ 14
unfolding receive_all on_packet_received shifted_bits set_bit shift_left low_bits reset
received_bits = refl

sender_takes_acks : is_acked (process_acks sender fields).1 1 ≡ true
unfolding process_acks process_bits count_acked mark_acked advance_oldest is_acked send_packet reset
    test_bit
sender_takes_acks = refl

sender_counts : (process_acks sender fields).0 ≡ 2
unfolding process_acks process_bits count_acked mark_acked advance_oldest is_acked send_packet reset
    test_bit
sender_counts = refl

reports-Arrived_example : Arrived 3 arrivals
unfolding receive_all on_packet_received shifted_bits set_bit shift_left low_bits reset test_bit
reports-Arrived_example = reports-Arrived 0 arrivals 3 (omega arith) (omega arith) (refl, refl)

process_acks-is_acked_example :
    is_acked (process_acks sender fields).1 1
    ≡ (is_acked sender 1 || (reports 2 1 1 && holds sender 1))
process_acks-is_acked_example = process_acks-is_acked sender fields 1 (omega arith) (omega arith)

-- A tracker whose next number is 0 again after 65536 packets.
abbrev wrapped : PacketTracker ℕ
wrapped = record (reset 0) { oldest_unacked = 65505 }

send_packet_displaces_example : is_acked (send_packet wrapped 9).1 65505 ≡ false
unfolding reset
send_packet_displaces_example = (send_packet_displaces wrapped 9 (omega arith)).1
