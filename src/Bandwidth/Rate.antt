-- ===== src/Bandwidth/Rate.antt =====
-- src/bandwidth/bandwidth.h: the bounds of the send rate over any history of a connection.
use netudp.Base.{ℕ, ◌^◌, ◌≤◌, ◌≡◌, List, [], ◌∷◌, arith}
use netudp.Base.Float64.{Float64}
use netudp.Bandwidth.{
  min_send_rate, CongestionControl, init, on_packet_acked, on_packet_lost, on_rtt_sample, reset,
  decreased, increased, evaluate,
}

-- What a connection tells its congestion control.
pub data Event : Type 0 where
  acked : Event
  lost : Event
  rtt_sample : Event
  evaluated : Event
  restarted : Event

-- The rate is within its bounds.
pub record IsBounded (max_rate : ℕ) (c : CongestionControl) : Type 0 where
  pub same_max : c.max_send_rate ≡ max_rate
  pub at_least : min_send_rate ≤ c.send_rate
  pub at_most : c.send_rate ≤ max_rate

module _ (F : Float64) where
  open F use {Carrier, of_nat, mul, div, to_uint}

  abbrev pub step : CongestionControl → Event → CongestionControl
  step c acked = on_packet_acked c
  step c lost = on_packet_lost c
  step c rtt_sample = on_rtt_sample c
  step c evaluated = evaluate F c
  step c restarted = reset c

  abbrev pub run : CongestionControl → List Event → CongestionControl
  run c [] = c
  run c (e ∷ es) = run (step c e) es

  -- Rounding to `float` and back: 3/4 of a rate is not above it, and 11/10 not below it, as long as
  -- the product fits a 32-bit word.
  pub record IsScaling : Type 0 where
    pub shrinks : (n : ℕ) → n ≤ 2 ^ 31 → to_uint (mul (of_nat n) (div (of_nat 3) (of_nat 4))) ≤ n
    pub grows : (n : ℕ) → n ≤ 2 ^ 31 → n ≤ to_uint (mul (of_nat n) (div (of_nat 11) (of_nat 10)))

  decreased-bounds :
      (c : CongestionControl) (max_rate : ℕ)
      → IsScaling
      → max_rate ≤ 2 ^ 31
      → IsBounded max_rate c
      → (min_send_rate ≤ decreased F c) × (decreased F c ≤ max_rate)
  unfolding decreased
  decreased-bounds c max_rate law small h =
      ground
        (arith, law.shrinks c.send_rate (omega (arith, h.at_most, small)), h.at_least, h.at_most)

  increased-bounds :
      (c : CongestionControl) (max_rate : ℕ)
      → IsScaling
      → max_rate ≤ 2 ^ 31
      → IsBounded max_rate c
      → (min_send_rate ≤ increased F c) × (increased F c ≤ max_rate)
  unfolding increased
  increased-bounds c max_rate law small h = ground (
    arith,
    law.grows c.send_rate (omega (arith, h.at_most, small)),
    h.at_least,
    h.at_most,
    h.same_max,
  )

  step-IsBounded :
      (c : CongestionControl) (max_rate : ℕ) (e : Event)
      → IsScaling
      → max_rate ≤ 2 ^ 31
      → IsBounded max_rate c
      → IsBounded max_rate (step c e)
  unfolding on_packet_acked on_packet_lost on_rtt_sample reset init evaluate
  step-IsBounded c max_rate acked law small h = ground (arith, h)
  step-IsBounded c max_rate lost law small h = ground (arith, h)
  step-IsBounded c max_rate rtt_sample law small h = ground (arith, h)
  step-IsBounded c max_rate evaluated law small h =
      ground
        (arith, h, decreased-bounds c max_rate law small h, increased-bounds c max_rate law small h)
  step-IsBounded c max_rate restarted law small h = ground (arith, h)

  -- From a state within its bounds, the send rate stays between 32 KB/s and the greatest rate through
  -- every sequence of acknowledged and lost packets, samples, evaluations and resets.
  pub run-IsBounded :
      (es : List Event) (c : CongestionControl) (max_rate : ℕ)
      → IsScaling
      → max_rate ≤ 2 ^ 31
      → IsBounded max_rate c
      → IsBounded max_rate (run c es)
  run-IsBounded [] c max_rate law small h = h
  run-IsBounded (e ∷ es) c max_rate law small h =
      run-IsBounded es (step c e) max_rate law small (step-IsBounded c max_rate e law small h)
