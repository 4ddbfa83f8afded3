-- ===== src/Channel/Scheduler.antt =====
-- src/channel/channel.h, `ChannelScheduler`: the pending channel of the highest priority, by a scan of
-- all channels, or of those whose bit is set in a mask that the scan brings up to date.
pub mod Choice
mod Tests
use netudp.Base.{
  ℕ, zero, suc, ◌+◌, ◌==◌, ltb, leb, Bool, true, false, ◌&&◌, ◌||◌, if◌then◌else◌, Array, Option,
  some, none, min,
}
use netudp.Base.Bits.{test_bit, set_bit}
use netudp.Base.Float64.{Float64}
use netudp.Channel.Queue.{Channel, has_pending}

-- `best` and `best_priority`; -1 is `none`.
abbrev pub Best : Type 0
Best = Option ℕ × ℕ

-- `best < 0 || priority > best_priority`
unfoldable pub better : Best → ℕ → ℕ → Best
better (none, best_priority) i priority = (some i, priority)
better (some best, best_priority) i priority =
    if ltb best_priority priority then (some i, priority) else (some best, best_priority)

module _ (F : Float64) where
  open F use {Carrier}

  -- The loop over the first `n` channels.
  unfoldable pub scan : Array (Channel Carrier) → ℕ → Carrier → Best
  scan channels zero now = (none, 0)
  scan channels (suc n) now =
      let best = scan channels n now in
      if has_pending F (channels n) now then better best n (channels n).config.priority else best

  unfoldable pub next_channel : Array (Channel Carrier) → ℕ → Carrier → Option ℕ
  next_channel channels num_channels now = (scan channels num_channels now).0

  -- The loop over the first `n` channels with the mask: `best` and `new_mask`.
  unfoldable pub scan_fast : Array (Channel Carrier) → ℕ → Carrier → ℕ → Best × ℕ
  scan_fast channels zero now pending_mask = ((none, 0), 0)
  scan_fast channels (suc n) now pending_mask =
      let (best, new_mask) = scan_fast channels n now pending_mask in
      if test_bit pending_mask n && has_pending F (channels n) now
      then (better best n (channels n).config.priority, set_bit new_mask n)
      else (best, new_mask)

  -- The channel, if any, and the new mask. Bits from 8 on do not exist, so that the cast to
  -- `uint8_t` keeps every bit.
  unfoldable pub next_channel_fast : Array (Channel Carrier) → ℕ → Carrier → ℕ → Option ℕ × ℕ
  next_channel_fast channels num_channels now pending_mask =
      if pending_mask == 0 then (none, pending_mask) else (
        (scan_fast channels (min num_channels 8) now pending_mask).0.0,
        (scan_fast channels (min num_channels 8) now pending_mask).1,
      )
