-- ===== src/Crypto/Replay/Tests.antt =====
-- Runs of src/crypto/replay.h on concrete nonces.
use netudp.Base.{◌≡◌, refl, true, false, List, [], ◌∷◌, ℕ, arith, ◌&&◌}
use netudp.Crypto.Replay.{is_duplicate, advance, offer, offer_all, reset}
use netudp.Crypto.Replay.Once.{advance-is_duplicate, offer_all-fresh}

abbrev later : List ℕ
later = 7 ∷ 300 ∷ 5 ∷ 6 ∷ []

-- 300 moves the window on: 5 is still remembered, 6 is new, 44 is too old.
window_moves :
    is_duplicate (offer_all reset later) 44 && is_duplicate (offer_all reset later) 5 ≡ true
unfolding is_duplicate offer_all offer advance reset
window_moves = refl

window_lets_in : is_duplicate (offer_all reset later) 45 ≡ false
unfolding is_duplicate offer_all offer advance reset
window_lets_in = refl

advance-is_duplicate_example : is_duplicate (offer_all (advance reset 5) later) 5 ≡ true
advance-is_duplicate_example =
    advance-is_duplicate reset 5 later (omega arith) (unfold reset in (omega arith)) (omega arith)

offer_all-fresh_example : is_duplicate (offer_all reset later) 45 ≡ false
unfolding offer_all offer is_duplicate advance reset
offer_all-fresh_example = offer_all-fresh later 45 (omega arith) (omega arith) (omega arith)
