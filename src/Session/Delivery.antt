-- ===== src/Session/Delivery.antt =====
-- src/server.cpp, `server_handle_data_packet`: what the handler does with the frames of a packet. The
-- statistics and the disconnect callback are left out, and an unreliable message is taken to fit its
-- buffer of `NETUDP_MTU` bytes, which the code does not test.
use netudp.Base.{
  ℕ, ◌-◌, ◌==◌, Bool, true, false, if◌then◌else◌, Array, update, Option, some, none, List, [], ◌∷◌,
}
use netudp.Base.Lists.{take}
use netudp.Channel.Queue.{netudp_mtu}
use netudp.Core.RingBuffer.{FixedRingBuffer, push_back}
use netudp.Fragment.{FragmentTracker, on_fragment_received}
use netudp.Reliability.Channel.{
  ReliableChannelState, buffer_received_ordered, deliver_ordered, is_received_unordered,
  mark_received_unordered,
}
use netudp.Wire.Frame.{
  Bytes, Frame, unreliable_data, reliable_data, fragment_data, disconnect, parse_frames,
}

-- `data` and `size` are the list of the message's bytes.
pub record DeliveredMessage : Type 0 where
  pub payload : Bytes
  pub channel : ℕ
  pub sequence : ℕ
  pub valid : Bool

abbrev pub channel_reliable_ordered : ℕ
channel_reliable_ordered = 2

abbrev pub channel_reliable_unordered : ℕ
channel_reliable_unordered = 3

-- The part of a connection that the frames change; `connected` ends with a disconnect.
pub record Receiver (T : Type 0) : Type 0 where
  pub channel_types : Array ℕ
  pub reliable : Array (ReliableChannelState T)
  pub trackers : Array (FragmentTracker T)
  pub delivered : FixedRingBuffer DeliveredMessage
  pub connected : Bool

module _ {T : Type 0} where
  -- A message that finds the queue full is lost.
  unfoldable pub deliver : Receiver T → ℕ → ℕ → Bytes → Receiver T
  deliver r channel sequence payload = record r {
    delivered =
        (push_back r.delivered
          (record { payload = payload; channel = channel; sequence = sequence; valid = true })).1;
  }

  -- What the callback of `deliver_ordered` does, message by message.
  unfoldable pub deliver_each : Receiver T → ℕ → List (ℕ × Bytes) → Receiver T
  deliver_each r channel [] = r
  deliver_each r channel ((sequence, payload) ∷ ms) =
      deliver_each (deliver r channel sequence (take netudp_mtu payload)) channel ms

  unfoldable pub on_ordered : Receiver T → ℕ → Bool × ReliableChannelState T → Receiver T
  on_ordered r channel (false, state) = record r { reliable = update r.reliable channel state }
  on_ordered r channel (true, state) =
      let (messages, state') = deliver_ordered state in
      deliver_each (record r { reliable = update r.reliable channel state' }) channel messages

  unfoldable pub on_unordered : Receiver T → ℕ → ℕ → Bytes → Receiver T
  on_unordered r channel msg_seq payload =
      if is_received_unordered (r.reliable channel) msg_seq
      then r
      else deliver
          (record r {
            reliable =
                update r.reliable channel (mark_received_unordered (r.reliable channel) msg_seq);
          })
          channel msg_seq (take netudp_mtu payload)

  -- An empty message is not delivered.
  unfoldable pub on_reassembled :
      Receiver T → ℕ → Option Bytes × Array (FragmentTracker T) → Receiver T
  on_reassembled r channel (none, trackers) = record r { trackers = trackers }
  on_reassembled r channel (some [], trackers) = record r { trackers = trackers }
  on_reassembled r channel (some (b ∷ bs), trackers) =
      deliver (record r { trackers = trackers }) channel 0 (take netudp_mtu (b ∷ bs))

  unfoldable pub handle_frame : T → T → Receiver T → Frame → Receiver T
  handle_frame zero_time now r (unreliable_data channel payload) = deliver r channel 0 payload
  handle_frame zero_time now r (reliable_data channel msg_seq payload) =
      if r.channel_types channel == channel_reliable_ordered
      then on_ordered r channel (buffer_received_ordered (r.reliable channel) msg_seq payload)
      else if r.channel_types channel == channel_reliable_unordered
      then on_unordered r channel msg_seq payload
      else r
  handle_frame zero_time now r (fragment_data channel msg_id frag_idx frag_cnt payload) =
      on_reassembled r channel (
        on_fragment_received zero_time r.trackers msg_id frag_idx frag_cnt payload (netudp_mtu - 64)
          now)
  handle_frame zero_time now r (disconnect reason) = record r { connected = false }

  unfoldable pub handle_frames : T → T → Receiver T → List Frame → Receiver T
  handle_frames zero_time now r [] = r
  handle_frames zero_time now r (f ∷ fs) =
      handle_frames zero_time now (handle_frame zero_time now r f) fs

  -- The loop over the frames of a plaintext, behind its eight bytes of acknowledgements.
  unfoldable pub handle_payload : T → T → ℕ → Receiver T → Bytes → Receiver T
  handle_payload zero_time now num_channels r bs =
      handle_frames zero_time now r (parse_frames num_channels bs)
