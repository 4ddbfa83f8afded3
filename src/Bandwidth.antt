-- ===== src/Bandwidth.antt =====
-- src/bandwidth/bandwidth.h: the token bucket and the congestion control of a connection. A literal
-- that is not whole is a quotient of whole numbers, which rounds to the same `float`; the counters stay
-- below `INT_MAX`.
pub mod Rate
mod Tests
use netudp.Base.{ℕ, ◌+◌, ◌-◌, ◌*◌, ◌%◌, ◌==◌, ltb, leb, Bool, true, false, ◌&&◌, if◌then◌else◌}
use netudp.Base.Float64.{Float64}

pub record BandwidthBucket (T : Type 0) : Type 0 where
  pub rate_bytes_per_sec : ℕ
  pub burst_bytes : ℕ
  pub tokens : T
  pub last_refill_time : T

module _ (F : Float64) where
  open F use {Carrier, of_nat, add, sub, mul, lt, le}

  -- `init`
  unfoldable pub start : BandwidthBucket Carrier → Carrier → BandwidthBucket Carrier
  start b time = record b { tokens = of_nat b.burst_bytes; last_refill_time = time }

  -- `std::min(a, b)` is `b` only if `b < a`.
  unfoldable pub smaller : Carrier → Carrier → Carrier
  smaller a b = if lt b a then b else a

  unfoldable pub refill : BandwidthBucket Carrier → Carrier → BandwidthBucket Carrier
  refill b now =
      let elapsed = sub now b.last_refill_time in
      if lt (of_nat 0) elapsed
      then record b {
        tokens =
            smaller (add b.tokens (mul (of_nat b.rate_bytes_per_sec) elapsed))
              (of_nat b.burst_bytes);
        last_refill_time = now;
      }
      else b

  unfoldable pub try_consume : BandwidthBucket Carrier → ℕ → Bool × BandwidthBucket Carrier
  try_consume b bytes =
      if le (of_nat bytes) b.tokens
      then (true, record b { tokens = sub b.tokens (of_nat bytes) })
      else (false, b)

abbrev pub min_send_rate : ℕ
min_send_rate = 32 * 1024

abbrev pub window_size : ℕ
window_size = 64

pub record CongestionControl : Type 0 where
  pub send_rate : ℕ
  pub max_send_rate : ℕ
  pub total_packets : ℕ
  pub lost_packets : ℕ
  pub rtt_samples : ℕ

unfoldable pub init : ℕ → CongestionControl
init max_rate = record {
  send_rate = max_rate;
  max_send_rate = max_rate;
  total_packets = 0;
  lost_packets = 0;
  rtt_samples = 0;
}

unfoldable pub on_packet_acked : CongestionControl → CongestionControl
on_packet_acked c =
    if ltb window_size (c.total_packets + 1)
    then record c { total_packets = window_size; lost_packets = c.lost_packets - 1 }
    else record c { total_packets = c.total_packets + 1 }

unfoldable pub on_packet_lost : CongestionControl → CongestionControl
on_packet_lost c = record c {
  lost_packets = c.lost_packets + 1;
  total_packets =
      if ltb window_size (c.total_packets + 1) then window_size else c.total_packets + 1;
}

unfoldable pub on_rtt_sample : CongestionControl → CongestionControl
on_rtt_sample c = record c { rtt_samples = c.rtt_samples + 1 }

unfoldable pub reset : CongestionControl → CongestionControl
reset c = init c.max_send_rate

module _ (F : Float64) where
  open F use {Carrier, of_nat, mul, div, lt, to_uint}

  unfoldable pub loss_rate : CongestionControl → Carrier
  loss_rate c =
      if c.total_packets == 0
      then of_nat 0
      else div (of_nat c.lost_packets) (of_nat c.total_packets)

  unfoldable pub decreased : CongestionControl → ℕ
  decreased c =
      let rate = to_uint (mul (of_nat c.send_rate) (div (of_nat 3) (of_nat 4))) in
      if ltb rate min_send_rate then min_send_rate else rate

  unfoldable pub increased : CongestionControl → ℕ
  increased c =
      let rate = to_uint (mul (of_nat c.send_rate) (div (of_nat 11) (of_nat 10))) in
      if ltb c.max_send_rate rate then c.max_send_rate else rate

  unfoldable pub evaluate : CongestionControl → CongestionControl
  evaluate c =
      let lost = div (of_nat c.lost_packets) (of_nat c.total_packets) in
      if ltb c.total_packets 10
      then c
      else if lt (div (of_nat 5) (of_nat 100)) lost
      then record c { send_rate = decreased c }
      else if lt lost (div (of_nat 1) (of_nat 100)) && leb 10 c.rtt_samples
      then record c { send_rate = increased c }
      else c
