-- ===== src/Channel/Scheduler/Tests.antt =====
-- Runs of the scheduler of src/channel/channel.h.
use netudp.Base.{ℕ, ◌<◌, ◌≡◌, refl, true, false, ltb, ◌&&◌, ◌==◌, if◌then◌else◌, Array, arith}
use netudp.Base.Bits.{test_bit}
use netudp.Base.Float64.{whole_numbers}
use netudp.Core.RingBuffer.{is_empty}
use netudp.Channel.Queue.{Channel, no_message, no_stats, has_pending}
use netudp.Channel.Scheduler.{next_channel, next_channel_fast}
use netudp.Channel.Scheduler.Choice.{next_channel_fast-next_channel}

-- Channel `i` has priority `i` and `i % 2` messages.
abbrev channels : Array (Channel ℕ)
channels i = record {
  index = i;
  config = record { channel_type = 0; priority = i; weight = 1; nagle_ms = 0 };
  send_seq = 0;
  recv_seq = 0;
  last_delivered_seq = 0;
  nagle_accumulate_time = 0;
  nagle_threshold_sec = 0;
  nagle_ready = false;
  stats = no_stats;
  send_queue = record { items = λ k. no_message; head = 0; size = if i == 1 then 1 else 0 };
}

bit_one : test_bit 2 1 ≡ true
unfolding test_bit
bit_one = refl

covered : (i : ℕ) → i < 3 → has_pending whole_numbers (channels i) 9 ≡ true → test_bit 2 i ≡ true
unfolding has_pending is_empty
covered i lt e = ground (arith, e, bit_one)

next_channel_fast-next_channel_example :
    let r = next_channel_fast whole_numbers channels 3 9 2 in
    (r.0 ≡ next_channel whole_numbers channels 3 9)
    × (test_bit r.1 1 ≡ (ltb 1 3 && (test_bit 2 1 && has_pending whole_numbers (channels 1) 9)))
next_channel_fast-next_channel_example =
    next_channel_fast-next_channel whole_numbers channels 3 9 2 1 (omega arith) covered
