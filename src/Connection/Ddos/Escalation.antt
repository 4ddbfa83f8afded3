-- ===== src/Connection/Ddos/Escalation.antt =====
-- src/connection/ddos.h: when the severity rises, how far it falls, and what a flood does.
use netudp.Base.{
  ℕ, zero, suc, ◌+◌, ◌-◌, ◌≤◌, ◌<◌, ◌≡◌, refl, ap, ◌∙◌, ltb, true, false, if◌then◌else◌, max, arith,
}
use netudp.Base.Float64.{Float64}
use netudp.Connection.Ddos.{
  DdosSeverity, none, low, medium, high, critical, rank, one_less, escalated, DdosMonitor,
  on_bad_packet, should_process_new_connection, should_process_packet, cool_off, evaluate, update,
}

rank-one_less : (s : DdosSeverity) → rank (one_less s) ≡ rank s - 1
unfolding rank one_less
rank-one_less none = refl
rank-one_less low = refl
rank-one_less medium = refl
rank-one_less high = refl
rank-one_less critical = refl

rank-critical : rank critical ≡ 4
unfolding rank
rank-critical = refl

rank-high : rank high ≡ 3
unfolding rank
rank-high = refl

-- The level that a second with this many bad packets calls for.
abbrev pub level : ℕ → ℕ
level bps =
    if ltb 10000 bps
    then 4
    else if ltb 2000 bps
    then 3
    else if ltb 500 bps
    then 2
    else if ltb 100 bps
    then 1
    else 0

rank-escalated :
    (s : DdosSeverity) (bps : ℕ)
    → rank (escalated s bps) ≡ (if ltb 100 bps then level bps else rank s)
unfolding rank escalated
rank-escalated s bps = ground arith

module _ (F : Float64) where
  open F use {Carrier, of_nat, add, le}

  abbrev after : DdosMonitor Carrier → Carrier → ℕ
  after m dt = rank (update F m dt).severity

  -- An update that closes a second leaves the severity at least at the level that the second's
  -- packets call for, at most at the greater of that level and the severity before, and at least one
  -- below the severity before.
  pub update-severity :
      (m : DdosMonitor Carrier) (dt : Carrier)
      → le (of_nat 1) (add m.time_since_last_eval dt) ≡ true
      → (level m.bad_packets_this_window ≤ after m dt)
        × ((after m dt ≤ max (rank m.severity) (level m.bad_packets_this_window))
            × (rank m.severity ≤ after m dt + 1))
  unfolding update evaluate cool_off
  update-severity m dt h =
      ground
        (arith, h, rank-one_less m.severity, rank-escalated m.severity m.bad_packets_this_window)

  abbrev pub bad_packets : ℕ → DdosMonitor Carrier → DdosMonitor Carrier
  bad_packets zero m = m
  bad_packets (suc n) m = on_bad_packet (bad_packets n m)

  bad_packets-count :
      (n : ℕ) (m : DdosMonitor Carrier)
      → ((bad_packets n m).bad_packets_this_window ≡ m.bad_packets_this_window + n)
        × ((bad_packets n m).time_since_last_eval ≡ m.time_since_last_eval)
  unfolding on_bad_packet
  bad_packets-count zero m = (omega arith, refl)
  bad_packets-count (suc n) m =
      (omega (arith, (bad_packets-count n m).0), (bad_packets-count n m).1)

  -- After more than 10000 bad packets the update that closes the second refuses new connections and
  -- packets from outside a connection, whatever the state was; packets of a connection still pass.
  pub flood-refuses :
      (m : DdosMonitor Carrier) (n : ℕ) (dt : Carrier)
      → 10000 < n
      → le (of_nat 1) (add m.time_since_last_eval dt) ≡ true
      → let m' = update F (bad_packets n m) dt in
        (should_process_new_connection m' ≡ false)
        × ((should_process_packet m' false ≡ false) × (should_process_packet m' true ≡ true))
  unfolding should_process_new_connection should_process_packet
  flood-refuses m n dt many h = ground (
    arith,
    update-severity (bad_packets n m) dt
        (ap (λ t. le (of_nat 1) (add t dt)) (bad_packets-count n m).1 ∙ h),
    (bad_packets-count n m).0,
    many,
    rank-critical,
    rank-high,
  )
