-- ===== src/Wire/Frame/Fuel.antt =====
-- The loop over frames in src/server.cpp: the number of bytes is fuel enough.
use netudp.Base.{
  ℕ, zero, suc, ◌+◌, ◌≤◌, ◌≡◌, refl, ap, ◌==◌, ltb, leb, ◌&&◌, ◌||◌, if-elim, List, Option, some,
  none, [], ◌∷◌, arith,
}
use netudp.Base.Lists.{length, drop, get_or}
use netudp.Base.Bytes.{read_le}
use netudp.Wire.Frame.{
  Bytes, Frame, parse_unreliable, parse_reliable, parse_fragment, parse_frame, parse_on, parse_loop,
}

length-drop : (k : ℕ) (bs : Bytes) → length (drop k bs) ≤ length bs
length-drop zero bs = omega arith
length-drop (suc k) [] = omega arith
length-drop (suc k) (b ∷ bs) = omega (arith, length-drop k bs)

-- What a round leaves is no longer than what it was given.
abbrev Shorter : Bytes → Option (Frame × Bytes) → Type 0
Shorter bs none = Unit
Shorter bs (some (frame, rest)) = length rest ≤ length bs

dropped : (k m : ℕ) (bs : Bytes) → length (drop k (drop m bs)) ≤ length bs
dropped k m bs = omega (arith, length-drop k (drop m bs), length-drop m bs)

parse_frame-Shorter :
    (num_channels frame_type : ℕ) (bs : Bytes) → Shorter bs (parse_frame num_channels frame_type bs)
unfolding parse_frame parse_unreliable parse_reliable parse_fragment
parse_frame-Shorter num_channels frame_type bs =
    if-elim (Shorter bs) ((frame_type == 3) && leb 3 (length bs))
      (λ t.
        if-elim (Shorter bs)
          (ltb (length bs) (3 + read_le 2 (drop 1 bs)) || leb num_channels (get_or bs 0 0))
          (λ bad. tt) (λ good. dropped (read_le 2 (drop 1 bs)) 3 bs))
      (λ f.
        if-elim (Shorter bs) ((frame_type == 4) && leb 5 (length bs))
          (λ t.
            if-elim (Shorter bs)
              (ltb (length bs) (5 + read_le 2 (drop 3 bs)) || leb num_channels (get_or bs 0 0))
              (λ bad. tt) (λ good. dropped (read_le 2 (drop 3 bs)) 5 bs))
          (λ f.
            if-elim (Shorter bs) ((frame_type == 5) && leb 5 (length bs))
              (λ t. if-elim (Shorter bs) (length bs == 5) (λ bad. tt) (λ good. omega arith))
              (λ f. if-elim (Shorter bs) (frame_type == 6) (λ t. omega arith) (λ f. tt))))

parse_on-cong :
    (o : Option (Frame × Bytes)) (bs : Bytes) (f g : Bytes → List Frame)
    → Shorter bs o
    → ((rest : Bytes) → length rest ≤ length bs → f rest ≡ g rest)
    → parse_on f o ≡ parse_on g o
unfolding parse_on
parse_on-cong none bs f g h e = refl
parse_on-cong (some (frame, rest)) bs f g h e = ap (◌∷◌ frame) (e rest h)

-- As much fuel as there are bytes is enough: any two such amounts find the same frames.
pub parse_loop-fuel :
    (k m num_channels : ℕ) (bs : Bytes)
    → length bs ≤ k
    → length bs ≤ m
    → parse_loop k num_channels bs ≡ parse_loop m num_channels bs
unfolding parse_loop
parse_loop-fuel zero zero n [] hk hm = refl
parse_loop-fuel zero (suc m) n [] hk hm = refl
parse_loop-fuel (suc k) zero n [] hk hm = refl
parse_loop-fuel (suc k) (suc m) n [] hk hm = refl
parse_loop-fuel zero m n (b ∷ bs) hk hm = absurd (omega (arith, hk))
parse_loop-fuel (suc k) zero n (b ∷ bs) hk hm = absurd (omega (arith, hm))
parse_loop-fuel (suc k) (suc m) n (b ∷ bs) hk hm =
    parse_on-cong (parse_frame n b bs) bs _ _ (parse_frame-Shorter n b bs)
      (λ rest h. parse_loop-fuel k m n rest (omega (arith, h, hk)) (omega (arith, h, hm)))
