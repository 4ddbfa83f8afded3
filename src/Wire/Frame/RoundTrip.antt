-- ===== src/Wire/Frame/RoundTrip.antt =====
-- src/wire/frame.h against the parser of src/server.cpp: a packet of frames, written one after the
-- other as `server_send_pending` does, is parsed into the same frames.
use netudp.Base.{
  ℕ, zero, suc, ◌+◌, ◌-◌, ◌*◌, ◌/◌, ◌%◌, ◌≤◌, ◌<◌, ◌≡◌, refl, sym, ap, ◌∙◌, subst, ltb, Bool, true,
  false, if◌then◌else◌, Option, some, none, List, [], ◌∷◌, ◌++◌, arith,
}
use mathlib.Core.Option.{some-injective}
use netudp.Base.Bytes.{bytes_le, read_le, joined, joined-some}
use netudp.Base.Lists.{length, length-append, take-append, drop-append}
use netudp.Base.Words.{u16_mod}
use netudp.Wire.Frame.{
  Bytes, Frame, unreliable_data, reliable_data, fragment_data, disconnect, write_unreliable_frame,
  write_reliable_frame, write_fragment_frame, write_disconnect_frame, parse_unreliable,
  parse_reliable, parse_fragment, parse_frame, parse_on, parse_loop, parse_frames,
}

abbrev pub write_frame : ℕ → Frame → Option Bytes
write_frame avail (unreliable_data ch payload) = write_unreliable_frame avail ch payload
write_frame avail (reliable_data ch seq payload) = write_reliable_frame avail ch seq payload
write_frame avail (fragment_data ch id idx cnt payload) =
    write_fragment_frame avail ch id idx cnt payload
write_frame avail (disconnect reason) = write_disconnect_frame avail reason

abbrev pub prefixed : (ℕ → Option Bytes) → ℕ → Option Bytes → Option Bytes
prefixed others avail none = none
prefixed others avail (some bs) = joined bs (others (avail - length bs))

-- The frames one after the other, each in what is left of the budget.
abbrev pub pack : ℕ → List Frame → Option Bytes
pack avail [] = some []
pack avail (f ∷ fs) = prefixed (λ left. pack left fs) avail (write_frame avail f)

-- Fields within their widths; a fragment or a disconnect is the last frame of its packet.
abbrev pub Packable : ℕ → List Frame → Type 0
Packable num_channels [] = Unit
Packable num_channels (unreliable_data ch payload ∷ fs) =
    (ch < num_channels) × ((length payload < u16_mod) × Packable num_channels fs)
Packable num_channels (reliable_data ch seq payload ∷ fs) =
    (ch < num_channels)
    × ((seq < u16_mod) × ((length payload < u16_mod) × Packable num_channels fs))
Packable num_channels (fragment_data ch id idx cnt payload ∷ []) =
    (id < u16_mod) × (0 < length payload)
Packable num_channels (fragment_data ch id idx cnt payload ∷ (f ∷ fs)) = ⊥
Packable num_channels (disconnect reason ∷ []) = Unit
Packable num_channels (disconnect reason ∷ (f ∷ fs)) = ⊥

word : (x : ℕ) → x < u16_mod → x % u16_mod % 256 + 256 * (x % u16_mod / 256 % 256 + 256 * 0) ≡ x
word x h = omega arith

parse_unreliable-write :
    (num_channels ch : ℕ) (payload rest : Bytes)
    → ch < num_channels
    → length payload < u16_mod
    → parse_frame num_channels 3 (ch ∷ (bytes_le 2 (length payload % u16_mod) ++ payload) ++ rest)
      ≡ some (unreliable_data ch payload, rest)
unfolding parse_frame parse_unreliable bytes_le read_le
parse_unreliable-write num_channels ch payload rest hc hp = ground (
  arith,
  hc,
  hp,
  length-append payload rest,
  take-append payload rest,
  drop-append payload rest,
  word (length payload),
)

parse_reliable-write :
    (num_channels ch seq : ℕ) (payload rest : Bytes)
    → ch < num_channels
    → seq < u16_mod
    → length payload < u16_mod
    → parse_frame num_channels 4
        (ch ∷ (bytes_le 2 seq ++ (bytes_le 2 (length payload % u16_mod) ++ payload)) ++ rest)
      ≡ some (reliable_data ch seq payload, rest)
unfolding parse_frame parse_reliable bytes_le read_le
parse_reliable-write num_channels ch seq payload rest hc hs hp = ground (
  arith,
  hc,
  hp,
  length-append payload rest,
  take-append payload rest,
  drop-append payload rest,
  word (length payload),
  word_seq seq hs,
)
  where
    word_seq : (x : ℕ) → x < u16_mod → x % 256 + 256 * (x / 256 % 256 + 256 * 0) ≡ x
    word_seq x h = omega arith

parse_fragment-write :
    (num_channels ch id idx cnt : ℕ) (payload : Bytes)
    → id < u16_mod
    → 0 < length payload
    → parse_frame num_channels 5 (ch ∷ (bytes_le 2 id ++ (idx ∷ cnt ∷ payload)))
      ≡ some (fragment_data ch id idx cnt payload, [])
unfolding parse_frame parse_fragment bytes_le read_le
parse_fragment-write num_channels ch id idx cnt payload hi hp = ground (arith, hp, word_id id hi)
  where
    word_id : (x : ℕ) → x < u16_mod → x % 256 + 256 * (x / 256 % 256 + 256 * 0) ≡ x
    word_id x h = omega arith

written :
    (fs : List Frame) (avail : ℕ) (b bs : Bytes) (test : Bool)
    → prefixed (λ left. pack left fs) avail (if test then none else some b) ≡ some bs
    → (rest : Bytes) × ((pack (avail - length b) fs ≡ some rest) × (bs ≡ b ++ rest))
written fs avail b bs true e = ground (arith, e)
written fs avail b bs false e = joined-some b bs (pack (avail - length b) fs) e

-- One round of the loop.
round :
    (fuel num_channels frame_type : ℕ) (bs rest : Bytes) (f : Frame) (fs : List Frame)
    → parse_frame num_channels frame_type bs ≡ some (f, rest)
    → (length bs < fuel → parse_loop (fuel - 1) num_channels rest ≡ fs)
    → length (frame_type ∷ bs) ≤ fuel
    → parse_loop fuel num_channels (frame_type ∷ bs) ≡ f ∷ fs
unfolding parse_loop parse_on
round zero num_channels frame_type bs rest f fs e h lt = absurd (omega (arith, lt))
round (suc fuel) num_channels frame_type bs rest f fs e h lt =
    ap (parse_on (λ rest. parse_loop fuel num_channels rest)) e
    ∙ ap (◌∷◌ f) (ap (λ k. parse_loop k num_channels rest) (less fuel) ∙ h (omega (arith, lt)))
  where
    less : (n : ℕ) → n ≡ suc n - 1
    less n = omega arith

parse_loop-[] : (fuel num_channels : ℕ) → parse_loop fuel num_channels [] ≡ []
unfolding parse_loop
parse_loop-[] zero num_channels = refl
parse_loop-[] (suc fuel) num_channels = refl

alone : (b rest : Bytes) → [] ≡ rest → b ++ rest ≡ b
alone b rest e = subst (λ rest. b ++ rest ≡ b) e (append-[] b)
  where
    append-[] : (b : Bytes) → b ++ [] ≡ b
    append-[] [] = refl
    append-[] (x ∷ b) = ap (◌∷◌ x) (append-[] b)

parse_disconnect : (n reason : ℕ) → parse_frame n 6 (reason ∷ []) ≡ some (disconnect reason, [])
unfolding parse_frame
parse_disconnect n reason = ground arith

parse_loop-pack :
    (fuel num_channels avail : ℕ) (fs : List Frame) (bs : Bytes)
    → pack avail fs ≡ some bs
    → Packable num_channels fs
    → length bs ≤ fuel
    → parse_loop fuel num_channels bs ≡ fs
unfolding write_unreliable_frame write_reliable_frame write_fragment_frame write_disconnect_frame
    bytes_le
parse_loop-pack fuel n avail [] bs e ok lt =
    subst (λ bs. parse_loop fuel n bs ≡ []) (some-injective _ _ e) (parse_loop-[] fuel n)
parse_loop-pack fuel n avail (unreliable_data ch payload ∷ fs) bs e (hc, (hp, ok)) lt =
    let (rest, (er, eb)) = written fs avail _ bs (ltb avail (4 + length payload)) e in
    subst (λ bs. parse_loop fuel n bs ≡ unreliable_data ch payload ∷ fs) (sym eb)
      (round fuel n 3 _ rest (unreliable_data ch payload) fs
        (parse_unreliable-write n ch payload rest hc hp)
        (λ less.
          parse_loop-pack (fuel - 1) n _ fs rest er ok
            (ground (arith, less, length-append payload rest)))
        (subst (λ bs. length bs ≤ fuel) eb lt))
parse_loop-pack fuel n avail (reliable_data ch seq payload ∷ fs) bs e (hc, (hs, (hp, ok))) lt =
    let (rest, (er, eb)) = written fs avail _ bs (ltb avail (6 + length payload)) e in
    subst (λ bs. parse_loop fuel n bs ≡ reliable_data ch seq payload ∷ fs) (sym eb)
      (round fuel n 4 _ rest (reliable_data ch seq payload) fs
        (parse_reliable-write n ch seq payload rest hc hs hp)
        (λ less.
          parse_loop-pack (fuel - 1) n _ fs rest er ok
            (ground (arith, less, length-append payload rest)))
        (subst (λ bs. length bs ≤ fuel) eb lt))
parse_loop-pack fuel n avail (fragment_data ch id idx cnt payload ∷ []) bs e (hi, hp) lt =
    let (rest, (er, eb)) = written [] avail _ bs (ltb avail (6 + length payload)) e in
    let whole = eb ∙ alone _ rest (some-injective _ _ er) in
    subst (λ bs. parse_loop fuel n bs ≡ fragment_data ch id idx cnt payload ∷ []) (sym whole)
      (round fuel n 5 _ [] (fragment_data ch id idx cnt payload) []
        (parse_fragment-write n ch id idx cnt payload hi hp) (λ less. parse_loop-[] (fuel - 1) n)
        (subst (λ bs. length bs ≤ fuel) whole lt))
parse_loop-pack fuel n avail (disconnect reason ∷ []) bs e ok lt =
    let (rest, (er, eb)) = written [] avail _ bs (ltb avail 2) e in
    let whole = eb ∙ alone _ rest (some-injective _ _ er) in
    subst (λ bs. parse_loop fuel n bs ≡ disconnect reason ∷ []) (sym whole)
      (round fuel n 6 _ [] (disconnect reason) [] (parse_disconnect n reason)
        (λ less. parse_loop-[] (fuel - 1) n) (subst (λ bs. length bs ≤ fuel) whole lt))
parse_loop-pack fuel n avail (fragment_data ch id idx cnt payload ∷ (f ∷ fs)) bs e ok lt = absurd ok
parse_loop-pack fuel n avail (disconnect reason ∷ (f ∷ fs)) bs e ok lt = absurd ok

-- The frames of a packet, with their fields within their widths, a fragment or a disconnect last,
-- that were written one after the other into a budget, are what the parser finds in the packet.
pub parse_frames-pack :
    (num_channels avail : ℕ) (fs : List Frame) (bs : Bytes)
    → pack avail fs ≡ some bs
    → Packable num_channels fs
    → parse_frames num_channels bs ≡ fs
unfolding parse_frames
parse_frames-pack n avail fs bs e ok = parse_loop-pack (length bs) n avail fs bs e ok (omega arith)
