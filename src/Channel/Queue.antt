-- ===== src/Channel/Queue.antt =====
-- src/channel/channel.h: one channel's send queue, with the overwriting of state updates and Nagle's
-- timer, and the test for stale messages on receipt. Sizes are lengths of byte lists, and the flags are
-- the bits of include/netudp/netudp_types.h.
pub mod Overwrite
pub mod Latest
pub mod Sequenced
mod Tests
use netudp.Base.{
  ℕ, zero, suc, ◌+◌, ◌-◌, ◌*◌, ◌/◌, ◌%◌, ◌^◌, ◌==◌, ltb, leb, Bool, true, false, not, ◌&&◌, ◌||◌,
  if◌then◌else◌, Option, some, none, List, [], ◌∷◌,
}
use netudp.Base.Bits.{test_bit, set_bit}
use netudp.Base.Float64.{Float64}
use netudp.Base.Lists.{length}
use netudp.Base.Words.{u16_mod, u32_mod, sub16}
use netudp.Core.RingBuffer
use netudp.Core.RingBuffer.{FixedRingBuffer, push_back, pop_front, at, put_at, full, is_empty}

abbrev pub netudp_mtu : ℕ
netudp_mtu = 1200

-- the position of `NETUDP_SEND_NO_NAGLE` = 2 among the flags
abbrev pub send_no_nagle : ℕ
send_no_nagle = 1

-- of `NETUDP_SEND_NO_DELAY` = 4
abbrev pub send_no_delay : ℕ
send_no_delay = 2

-- of `NETUDP_SEND_STATE` = 8
abbrev pub send_state : ℕ
send_state = 3

-- `data` and `size` are the list of the message's bytes.
pub record QueuedMessage : Type 0 where
  pub payload : List ℕ
  pub sequence : ℕ
  pub entity_id : ℕ
  pub flags : ℕ
  pub valid : Bool

abbrev pub no_message : QueuedMessage
no_message = record { payload = []; sequence = 0; entity_id = 0; flags = 0; valid = false }

pub record ChannelStats : Type 0 where
  pub messages_sent : ℕ
  pub messages_received : ℕ
  pub messages_dropped : ℕ
  pub bytes_sent : ℕ
  pub bytes_received : ℕ

-- The fields of the channel's configuration that the channel reads.
pub record ChannelConfig : Type 0 where
  pub channel_type : ℕ
  pub priority : ℕ
  pub weight : ℕ
  pub nagle_ms : ℕ

pub record Channel (T : Type 0) : Type 0 where
  pub index : ℕ
  pub config : ChannelConfig
  pub send_seq : ℕ
  pub recv_seq : ℕ
  pub last_delivered_seq : ℕ
  pub nagle_accumulate_time : T
  pub nagle_threshold_sec : T
  pub nagle_ready : Bool
  pub stats : ChannelStats
  pub send_queue : FixedRingBuffer QueuedMessage

abbrev pub no_stats : ChannelStats
no_stats = record {
  messages_sent = 0;
  messages_received = 0;
  messages_dropped = 0;
  bytes_sent = 0;
  bytes_received = 0;
}

-- A pending update of this entity, which a new one replaces.
unfoldable pub is_update_of : ℕ → QueuedMessage → Bool
is_update_of eid msg = (msg.entity_id == eid) && test_bit msg.flags send_state

-- The scan from the newest entry to the oldest: the index of the first match among the first `n`.
unfoldable pub find_update : ℕ → FixedRingBuffer QueuedMessage → ℕ → Option ℕ
find_update eid q zero = none
find_update eid q (suc n) =
    let older = find_update eid q n in if is_update_of eid (at q n) then some n else older

-- `NO_NAGLE` or `NO_DELAY`
unfoldable pub bypasses_nagle : ℕ → Bool
bypasses_nagle flags = test_bit flags send_no_nagle || test_bit flags send_no_delay

-- `diff <= 0`, for the signed 16-bit difference to the last delivered number.
unfoldable pub is_stale : ℕ → ℕ → Bool
is_stale last sequence =
    ((sub16 sequence last == 0) || leb (2 ^ 15) (sub16 sequence last)) && not (last == 0)

module _ {T : Type 0} where
  unfoldable pub ready_if : Bool → Channel T → Channel T
  ready_if bypass c = record c { nagle_ready = if bypass then true else c.nagle_ready }

  -- Overwriting in place; the message keeps its sequence number.
  unfoldable pub overwrite : Channel T → ℕ → List ℕ → ℕ → Channel T
  overwrite c i payload flags = ready_if (bypasses_nagle flags) (record c {
    send_queue =
        put_at c.send_queue i (record (at c.send_queue i) { payload = payload; flags = flags });
  })

  -- The code behind the scan.
  unfoldable pub append : Channel T → List ℕ → ℕ → ℕ → Bool × Channel T
  append c payload flags eid = if full c.send_queue then (false, c) else (
    true,
    ready_if (bypasses_nagle flags) (record c {
      send_queue =
          (push_back c.send_queue (record {
            payload = payload;
            sequence = c.send_seq;
            entity_id = eid;
            flags = flags;
            valid = true;
          })).1;
      send_seq = (c.send_seq + 1) % u16_mod;
      stats = record (c.stats) {
        messages_sent = (c.stats.messages_sent + 1) % u32_mod;
        bytes_sent = (c.stats.bytes_sent + length payload) % u32_mod;
      };
    }),
  )

  -- What the scan decides.
  unfoldable pub overwrite_or_append : Channel T → List ℕ → ℕ → ℕ → Option ℕ → Bool × Channel T
  overwrite_or_append c payload flags eid (some i) = (true, overwrite c i payload flags)
  overwrite_or_append c payload flags eid none = append c payload flags eid

  unfoldable pub queue_send_impl : Channel T → List ℕ → ℕ → ℕ → Bool × Channel T
  queue_send_impl c payload flags eid =
      if (length payload == 0) || ltb netudp_mtu (length payload)
      then (false, c)
      else overwrite_or_append c payload flags eid (
          if test_bit flags send_state && not (eid == 0)
          then find_update eid c.send_queue c.send_queue.size
          else none)

  unfoldable pub queue_send : Channel T → List ℕ → ℕ → Bool × Channel T
  queue_send c payload flags = queue_send_impl c payload flags 0

  unfoldable pub queue_send_state : Channel T → List ℕ → ℕ → ℕ → Bool × Channel T
  queue_send_state c payload flags eid = queue_send_impl c payload (set_bit flags send_state) eid

  unfoldable pub flush : Channel T → Channel T
  flush c = record c { nagle_ready = true }

  unfoldable pub on_recv_unreliable : Channel T → Bool × Channel T
  on_recv_unreliable c = (
    true,
    record c {
      stats = record (c.stats) { messages_received = (c.stats.messages_received + 1) % u32_mod };
    },
  )

  unfoldable pub on_recv_unreliable_sequenced : Channel T → ℕ → Bool × Channel T
  on_recv_unreliable_sequenced c sequence =
      if is_stale c.last_delivered_seq sequence
      then (false, (on_recv_unreliable c).1)
      else (true, record ((on_recv_unreliable c).1) { last_delivered_seq = sequence })

module _ (F : Float64) where
  open F use {Carrier, of_nat, sub, div, le}

  -- `nagle_ready_` is not among the fields that `init` sets.
  unfoldable pub init : Channel Carrier → ℕ → ChannelConfig → Channel Carrier
  init c index config = record c {
    index = index;
    config = config;
    send_seq = 0;
    recv_seq = 0;
    last_delivered_seq = 0;
    nagle_accumulate_time = of_nat 0;
    nagle_threshold_sec = div (of_nat config.nagle_ms) (of_nat 1000);
    stats = no_stats;
    send_queue = RingBuffer.clear no_message;
  }

  unfoldable pub has_pending : Channel Carrier → Carrier → Bool
  has_pending c now =
      if is_empty c.send_queue
      then false
      else c.nagle_ready
        || le c.nagle_threshold_sec (of_nat 0)
        || le c.nagle_threshold_sec (sub now c.nagle_accumulate_time)

  unfoldable pub dequeue_send : Channel Carrier → Option QueuedMessage × Channel Carrier
  dequeue_send c = if is_empty c.send_queue then (none, c) else (
    (pop_front no_message c.send_queue).0,
    record c {
      send_queue = (pop_front no_message c.send_queue).1;
      nagle_ready = false;
      nagle_accumulate_time = of_nat 0;
    },
  )

  -- The timer is off where it is neither below nor above 0.0.
  unfoldable pub start_nagle : Channel Carrier → Carrier → Channel Carrier
  start_nagle c now =
      if le c.nagle_accumulate_time (of_nat 0) && le (of_nat 0) c.nagle_accumulate_time
      then record c { nagle_accumulate_time = now }
      else c
