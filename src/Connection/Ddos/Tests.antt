-- ===== src/Connection/Ddos/Tests.antt =====
-- Runs of src/connection/ddos.h, with times in whole seconds.
use netudp.Base.{ℕ, ◌≡◌, refl, true, false, arith}
use netudp.Base.Float64.{whole_numbers}
use netudp.Connection.Ddos.{
  none, DdosMonitor, should_process_new_connection, should_process_packet, update, reset,
}
use netudp.Connection.Ddos.Escalation.{bad_packets, flood-refuses}

abbrev busy : DdosMonitor ℕ
busy = record {
  severity = none;
  bad_packets_this_window = 700;
  bad_packets_per_sec = 0;
  cooloff_timer = 0;
  time_since_last_eval = 0;
}

flood-refuses_example :
    let m' = update whole_numbers (bad_packets whole_numbers 20000 (reset 0)) 1 in
    (should_process_new_connection m' ≡ false)
    × ((should_process_packet m' false ≡ false) × (should_process_packet m' true ≡ true))
unfolding reset
flood-refuses_example = flood-refuses whole_numbers (reset 0) 20000 1 (omega arith) refl
