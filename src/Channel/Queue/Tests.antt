-- ===== src/Channel/Queue/Tests.antt =====
-- Runs of the send queue of src/channel/channel.h.
use netudp.Base.{ℕ, ◌≡◌, refl, true, false, [], ◌∷◌, arith}
use netudp.Channel.Queue.{
  Channel, no_message, no_stats, queue_send_impl, on_recv_unreliable_sequenced, is_stale,
}
use netudp.Channel.Queue.Overwrite.{OnePerEntity, queue_send_impl-OnePerEntity}
use netudp.Channel.Queue.Sequenced.{on_recv_unreliable_sequenced_after_zero}

abbrev channel : Channel ℕ
channel = record {
  index = 0;
  config = record { channel_type = 0; priority = 1; weight = 1; nagle_ms = 0 };
  send_seq = 0;
  recv_seq = 0;
  last_delivered_seq = 0;
  nagle_accumulate_time = 0;
  nagle_threshold_sec = 0;
  nagle_ready = false;
  stats = no_stats;
  send_queue = record { items = λ i. no_message; head = 0; size = 0 };
}

channel-OnePerEntity : OnePerEntity channel.send_queue
channel-OnePerEntity = record {
  size_in = omega arith;
  apart = λ eid i j ne lt hj e. absurd (omega (arith, hj));
}

queue_send_impl-OnePerEntity_example :
    OnePerEntity (queue_send_impl channel (7 ∷ []) 8 5).1.send_queue
queue_send_impl-OnePerEntity_example =
    queue_send_impl-OnePerEntity channel (7 ∷ []) 8 5 channel-OnePerEntity

on_recv_unreliable_sequenced_after_zero_example :
    (on_recv_unreliable_sequenced (on_recv_unreliable_sequenced channel 0).1 65535).0 ≡ true
unfolding on_recv_unreliable_sequenced is_stale
on_recv_unreliable_sequenced_after_zero_example =
    on_recv_unreliable_sequenced_after_zero channel 65535 refl
