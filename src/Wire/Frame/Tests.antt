-- ===== src/Wire/Frame/Tests.antt =====
-- A packet of three frames, for src/wire/frame.h.
use netudp.Base.{◌≡◌, refl, some, List, [], ◌∷◌, arith}
use netudp.Base.Bytes.{bytes_le}
use netudp.Wire.Frame.{
  Bytes, Frame, unreliable_data, reliable_data, disconnect, parse_frames, write_unreliable_frame,
  write_reliable_frame, write_disconnect_frame,
}
use netudp.Wire.Frame.RoundTrip.{pack, parse_frames-pack}

abbrev frames : List Frame
frames = unreliable_data 1 (7 ∷ 8 ∷ []) ∷ reliable_data 0 513 (9 ∷ []) ∷ disconnect 2 ∷ []

abbrev packet : Bytes
packet = 3 ∷ 1 ∷ 2 ∷ 0 ∷ 7 ∷ 8 ∷ 4 ∷ 0 ∷ 1 ∷ 2 ∷ 1 ∷ 0 ∷ 9 ∷ 6 ∷ 2 ∷ []

frames_packed : pack 1192 frames ≡ some packet
unfolding bytes_le write_unreliable_frame write_reliable_frame write_disconnect_frame
frames_packed = refl

parse_frames-pack_example : parse_frames 2 packet ≡ frames
parse_frames-pack_example =
    parse_frames-pack 2 1192 frames packet frames_packed
      (omega arith, (omega arith, (omega arith, (omega arith, (omega arith, tt)))))
