-- ===== src/Reliability/Tracker/Send.antt =====
-- src/reliability/packet_tracker.h: what the ring of sent packets holds after a packet is sent, and
-- two ways in which it goes wrong.
use netudp.Base.{ℕ, ◌+◌, ◌≤◌, ◌<◌, ◌≡◌, true, false, some, arith, ◌∙◌, refl}
use netudp.Base.Float64.{Float64}
use netudp.Base.Words.{u16_mod}
use netudp.Reliability.Tracker.{
  PacketTracker, send_packet, is_acked, get_send_time, process_acks, build_ack_fields, reset,
}
use netudp.Reliability.Tracker.Acked.{holds, process_acks-is_acked}

module _ {T : Type 0} where
  -- A packet that is sent takes the next number and is on record with its time, not acknowledged;
  -- each of the 32 packets before it stays on record as it was, if the numbers did not wrap since.
  pub send_packet-holds :
      (t : PacketTracker T) (time : T) (q : ℕ)
      → t.send_sequence < u16_mod
      → q < t.send_sequence
      → t.send_sequence ≤ q + 32
      → let (s, u) = send_packet t time in
        (s ≡ t.send_sequence)
        × (get_send_time u s ≡ some time)
        × (is_acked u s ≡ false)
        × (holds u q ≡ holds t q)
        × (is_acked u q ≡ is_acked t q)
        × (get_send_time u q ≡ get_send_time t q)
  unfolding send_packet get_send_time is_acked
  send_packet-holds t time q h lo hi =
      (refl, ground arith, ground arith, ground arith, ground arith, ground arith)

  -- When the numbers have wrapped, packet `s` takes the slot of packet `65505 + s`, which was sent
  -- only 31 packets earlier: 33 does not divide 65536. Its record is lost.
  pub send_packet_displaces :
      (t : PacketTracker T) (time : T)
      → t.send_sequence < 31
      → let u = (send_packet t time).1 in
        (holds u (65505 + t.send_sequence) ≡ false) × (is_acked u (65505 + t.send_sequence) ≡ false)
  unfolding send_packet is_acked
  send_packet_displaces t time h = (ground arith, ground arith)

-- A peer that has received nothing sends fields that acknowledge packet 0: a sender that still
-- holds packet 0 takes it for delivered.
pub process_acks_nothing_received :
    (F : Float64) (t : PacketTracker F.Carrier) (start now : F.Carrier)
    → holds t 0 ≡ true
    → is_acked (process_acks t (build_ack_fields F (reset start) now)).1 0 ≡ true
unfolding build_ack_fields reset
process_acks_nothing_received F t start now h =
    process_acks-is_acked t (build_ack_fields F (reset start) now) 0 (omega arith) (omega arith)
    ∙ ground arith
