-- ===== src/Bandwidth/Tests.antt =====
-- A run of src/bandwidth/bandwidth.h.
use netudp.Base.{refl, List, [], ◌∷◌, arith}
use netudp.Base.Float64.{whole_numbers}
use netudp.Bandwidth.{init}
use netudp.Bandwidth.Rate.{
  Event, acked, lost, rtt_sample, evaluated, restarted, IsBounded, IsScaling, run, run-IsBounded,
}

abbrev events : List Event
events =
    lost ∷ acked ∷ acked ∷ acked ∷ acked ∷ acked ∷ acked ∷ acked ∷ acked ∷ acked ∷ acked ∷ evaluated
    ∷ rtt_sample ∷ evaluated ∷ restarted ∷ []

whole_numbers-IsScaling : IsScaling whole_numbers
whole_numbers-IsScaling = record { shrinks = λ n h. omega arith; grows = λ n h. omega (arith, h) }

init-IsBounded : IsBounded 262144 (init 262144)
unfolding init
init-IsBounded = record { same_max = refl; at_least = omega arith; at_most = omega arith }

run-IsBounded_example : IsBounded 262144 (run whole_numbers (init 262144) events)
run-IsBounded_example =
    run-IsBounded whole_numbers events (init 262144) 262144 whole_numbers-IsScaling (omega arith)
      init-IsBounded
