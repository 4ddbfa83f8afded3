-- ===== src/Connection/Ddos.antt =====
-- src/connection/ddos.h: the level of an attack, by the bad packets of each second, with a cool-off.
-- The counters stay below `INT_MAX` and are natural numbers.
pub mod Escalation
mod Tests
use netudp.Base.{ℕ, ◌+◌, ◌-◌, ◌==◌, ltb, leb, Bool, true, false, not, ◌&&◌, if◌then◌else◌}
use netudp.Base.Float64.{Float64}

pub data DdosSeverity : Type 0 where
  none : DdosSeverity
  low : DdosSeverity
  medium : DdosSeverity
  high : DdosSeverity
  critical : DdosSeverity

-- `static_cast<uint8_t>(severity)`
unfoldable pub rank : DdosSeverity → ℕ
rank none = 0
rank low = 1
rank medium = 2
rank high = 3
rank critical = 4

-- `static_cast<DDoSSeverity>(static_cast<uint8_t>(severity) - 1)`, of a severity that is not `None`
unfoldable pub one_less : DdosSeverity → DdosSeverity
one_less none = none
one_less low = none
one_less medium = low
one_less high = medium
one_less critical = high

pub record DdosMonitor (T : Type 0) : Type 0 where
  severity : DdosSeverity
  pub bad_packets_this_window : ℕ
  pub bad_packets_per_sec : ℕ
  pub cooloff_timer : T
  pub time_since_last_eval : T

-- `new_severity` of `update`
unfoldable pub escalated : DdosSeverity → ℕ → DdosSeverity
escalated severity bps =
    if ltb 10000 bps
    then critical
    else if ltb 2000 bps
    then high
    else if ltb 500 bps
    then medium
    else if ltb 100 bps
    then low
    else severity

unfoldable pub on_bad_packet : {T : Type 0} → DdosMonitor T → DdosMonitor T
on_bad_packet m = record m { bad_packets_this_window = m.bad_packets_this_window + 1 }

unfoldable pub should_process_new_connection : {T : Type 0} → DdosMonitor T → Bool
should_process_new_connection m = ltb (rank m.severity) (rank critical)

unfoldable pub should_process_packet : {T : Type 0} → DdosMonitor T → Bool → Bool
should_process_packet m is_established =
    if leb (rank high) (rank m.severity) && not is_established then false else true

module _ (F : Float64) where
  open F use {Carrier, of_nat, add, le}

  -- the `else if (bps <= 100)` branch
  unfoldable pub cool_off : DdosMonitor Carrier → DdosMonitor Carrier
  cool_off m =
      let threshold = of_nat (if rank m.severity == 4 then 60 else 30) in
      let timer = add m.cooloff_timer (of_nat 1) in
      if le threshold timer && not (rank m.severity == 0)
      then record m { severity = one_less m.severity; cooloff_timer = of_nat 0 }
      else record m { cooloff_timer = timer }

  -- the branches that follow the count
  unfoldable pub evaluate : DdosMonitor Carrier → ℕ → DdosMonitor Carrier
  evaluate m bps =
      if ltb (rank m.severity) (rank (escalated m.severity bps))
      then record m { severity = escalated m.severity bps; cooloff_timer = of_nat 0 }
      else if leb bps 100
      then cool_off m
      else record m { cooloff_timer = of_nat 0 }

  unfoldable pub update : DdosMonitor Carrier → Carrier → DdosMonitor Carrier
  update m dt =
      let time = add m.time_since_last_eval dt in
      if le (of_nat 1) time
      then evaluate
          (record m {
            bad_packets_per_sec = m.bad_packets_this_window;
            bad_packets_this_window = 0;
            time_since_last_eval = of_nat 0;
          })
          m.bad_packets_this_window
      else record m { time_since_last_eval = time }

unfoldable pub reset : {T : Type 0} → T → DdosMonitor T
reset zero_time = record {
  severity = none;
  bad_packets_this_window = 0;
  bad_packets_per_sec = 0;
  cooloff_timer = zero_time;
  time_since_last_eval = zero_time;
}
