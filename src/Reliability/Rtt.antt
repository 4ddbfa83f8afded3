-- ===== src/Reliability/Rtt.antt =====
-- src/reliability/rtt.h: the estimate of the round-trip time and the retransmission timeout. A literal
-- that is not whole is a quotient of whole numbers, which rounds to the same `double`.
use netudp.Base.{ℕ, ◌≡◌, Bool, true, false, if◌then◌else◌, if-elim}
use netudp.Base.Float64.{Float64}

pub record RttEstimator (T : Type 0) : Type 0 where
  pub srtt : T
  pub rttvar : T
  pub rto : T
  pub has_sample : Bool

module _ (F : Float64) where
  open F use {Carrier, of_nat, add, sub, mul, div, lt, to_uint}

  abbrev pub min_rto : Carrier
  min_rto = div (of_nat 1) (of_nat 10)

  abbrev pub max_rto : Carrier
  max_rto = of_nat 2

  abbrev pub initial_rto : Carrier
  initial_rto = of_nat 1

  -- `std::abs`
  unfoldable pub abs : Carrier → Carrier
  abs x = if lt x (of_nat 0) then sub (of_nat 0) x else x

  -- `std::clamp`
  unfoldable pub clamp : Carrier → Carrier → Carrier → Carrier
  clamp x lo hi = if lt x lo then lo else if lt hi x then hi else x

  -- The sample, with its floor of a millisecond.
  unfoldable pub sample_of : Carrier → Carrier → ℕ → Carrier
  sample_of send_time now ack_delay_us =
      let sample = sub (sub now send_time) (div (of_nat ack_delay_us) (of_nat 1000000)) in
      if lt sample (of_nat 0) then div (of_nat 1) (of_nat 1000) else sample

  -- The averages, before the timeout is set.
  unfoldable pub averaged : RttEstimator Carrier → Carrier → RttEstimator Carrier
  averaged r sample =
      let alpha = div (of_nat 1) (of_nat 8) in
      let beta = div (of_nat 1) (of_nat 4) in
      if r.has_sample
      then record r {
        rttvar = add (mul (sub (of_nat 1) beta) r.rttvar) (mul beta (abs (sub r.srtt sample)));
        srtt = add (mul (sub (of_nat 1) alpha) r.srtt) (mul alpha sample);
      }
      else record r { srtt = sample; rttvar = div sample (of_nat 2); has_sample = true }

  unfoldable pub on_sample : RttEstimator Carrier → Carrier → Carrier → ℕ → RttEstimator Carrier
  on_sample r send_time now ack_delay_us =
      let r' = averaged r (sample_of send_time now ack_delay_us) in
      record r' { rto = clamp (add r'.srtt (mul (of_nat 4) r'.rttvar)) min_rto max_rto }

  unfoldable pub ping_ms : RttEstimator Carrier → ℕ
  ping_ms r = to_uint (mul r.srtt (of_nat 1000))

  unfoldable pub reset : RttEstimator Carrier
  reset = record { srtt = of_nat 0; rttvar = of_nat 0; rto = initial_rto; has_sample = false }

  clamp-bounds :
      (x lo hi : Carrier)
      → lt lo lo ≡ false
      → lt hi hi ≡ false
      → lt hi lo ≡ false
      → (lt (clamp x lo hi) lo ≡ false) × (lt hi (clamp x lo hi) ≡ false)
  unfolding clamp
  clamp-bounds x lo hi l h order =
      if-elim (λ v. (lt v lo ≡ false) × (lt hi v ≡ false)) (lt x lo) (λ below. (l, order))
        (λ above.
          if-elim (λ v. (lt v lo ≡ false) × (lt hi v ≡ false)) (lt hi x) (λ over. (order, h))
            (λ within. (above, within)))

  -- After any sample the timeout is neither below the least nor above the greatest one, where neither
  -- bound is above itself and the greatest is not below the least.
  pub on_sample-rto :
      (r : RttEstimator Carrier) (send_time now : Carrier) (ack_delay_us : ℕ)
      → lt min_rto min_rto ≡ false
      → lt max_rto max_rto ≡ false
      → lt max_rto min_rto ≡ false
      → let rto = (on_sample r send_time now ack_delay_us).rto in
        (lt rto min_rto ≡ false) × (lt max_rto rto ≡ false)
  unfolding on_sample
  on_sample-rto r send_time now ack_delay_us lo hi order =
      clamp-bounds _ min_rto max_rto lo hi order
