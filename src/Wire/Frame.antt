-- ===== src/Wire/Frame.antt =====
-- src/wire/frame.h, the frames that a packet carries after its acknowledgements, and the loop of
-- `server_handle_data_packet` in src/server.cpp that takes them apart again. A buffer is its list of
-- bytes; a writer gives the bytes it writes, and `none` where it returns -1.
pub mod Fuel
pub mod RoundTrip
mod Tests
use netudp.Base.{
  ℕ, zero, suc, ◌+◌, ◌%◌, ◌==◌, ltb, leb, Bool, true, false, ◌&&◌, ◌||◌, if◌then◌else◌, Option,
  some, none, List, [], ◌∷◌, ◌++◌,
}
use netudp.Base.Bytes.{bytes_le, read_le}
use netudp.Base.Lists.{length, take, drop, get_or}
use netudp.Base.Words.{u16_mod}

abbrev pub Bytes : Type 0
Bytes = List ℕ

abbrev pub frame_unreliable_data : ℕ
frame_unreliable_data = 3

abbrev pub frame_reliable_data : ℕ
frame_reliable_data = 4

abbrev pub frame_fragment_data : ℕ
frame_fragment_data = 5

abbrev pub frame_disconnect : ℕ
frame_disconnect = 6

unfoldable pub write_unreliable_frame : ℕ → ℕ → Bytes → Option Bytes
write_unreliable_frame buf_avail channel payload =
    if ltb buf_avail (4 + length payload)
    then none
    else some (frame_unreliable_data ∷ channel ∷ (bytes_le 2 (length payload % u16_mod) ++ payload))

unfoldable pub write_reliable_frame : ℕ → ℕ → ℕ → Bytes → Option Bytes
write_reliable_frame buf_avail channel msg_seq payload =
    if ltb buf_avail (6 + length payload)
    then none
    else some (
        frame_reliable_data
        ∷ channel
        ∷ (bytes_le 2 msg_seq ++ (bytes_le 2 (length payload % u16_mod) ++ payload)))

unfoldable pub write_fragment_frame : ℕ → ℕ → ℕ → ℕ → ℕ → Bytes → Option Bytes
write_fragment_frame buf_avail channel msg_id frag_idx frag_cnt payload =
    if ltb buf_avail (6 + length payload)
    then none
    else some
        (frame_fragment_data ∷ channel ∷ (bytes_le 2 msg_id ++ (frag_idx ∷ frag_cnt ∷ payload)))

unfoldable pub write_disconnect_frame : ℕ → ℕ → Option Bytes
write_disconnect_frame buf_avail reason =
    if ltb buf_avail 2 then none else some (frame_disconnect ∷ reason ∷ [])

-- What the receiver acts on, with the fields of each kind of frame.
pub data Frame : Type 0 where
  unreliable_data : (channel : ℕ) (payload : Bytes) → Frame
  reliable_data : (channel msg_seq : ℕ) (payload : Bytes) → Frame
  fragment_data : (channel msg_id frag_idx frag_cnt : ℕ) (payload : Bytes) → Frame
  disconnect : (reason : ℕ) → Frame

unfoldable pub parse_unreliable : ℕ → Bytes → Option (Frame × Bytes)
parse_unreliable num_channels bs =
    let ch = get_or bs 0 0 in
    let msg_len = read_le 2 (drop 1 bs) in
    if ltb (length bs) (3 + msg_len) || leb num_channels ch
    then none
    else some (unreliable_data ch (take msg_len (drop 3 bs)), drop msg_len (drop 3 bs))

unfoldable pub parse_reliable : ℕ → Bytes → Option (Frame × Bytes)
parse_reliable num_channels bs =
    let ch = get_or bs 0 0 in
    let msg_len = read_le 2 (drop 3 bs) in
    if ltb (length bs) (5 + msg_len) || leb num_channels ch
    then none
    else some (
      reliable_data ch (read_le 2 (drop 1 bs)) (take msg_len (drop 5 bs)),
      drop msg_len (drop 5 bs),
    )

-- The fragment takes the rest of the packet, and the channel is not looked at.
unfoldable pub parse_fragment : Bytes → Option (Frame × Bytes)
parse_fragment bs =
    if length bs == 5
    then none
    else some (
      fragment_data (get_or bs 0 0) (read_le 2 (drop 1 bs)) (get_or bs 3 0) (get_or bs 4 0)
          (drop 5 bs),
      [],
    )

-- One round of the loop, behind the byte of the type: the frame and the bytes that are left, or
-- `none` at a `break`. A disconnect returns from the handler, so nothing is left.
unfoldable pub parse_frame : ℕ → ℕ → Bytes → Option (Frame × Bytes)
parse_frame num_channels frame_type bs =
    if (frame_type == frame_unreliable_data) && leb 3 (length bs)
    then parse_unreliable num_channels bs
    else if (frame_type == frame_reliable_data) && leb 5 (length bs)
    then parse_reliable num_channels bs
    else if (frame_type == frame_fragment_data) && leb 5 (length bs)
    then parse_fragment bs
    else if frame_type == frame_disconnect
    then some (disconnect (get_or bs 0 0), [])
    else none

-- A round's frame, and those that the next rounds find; a `break` ends the list.
unfoldable pub parse_on : (Bytes → List Frame) → Option (Frame × Bytes) → List Frame
parse_on others none = []
parse_on others (some (frame, rest)) = frame ∷ others rest

-- The loop, on fuel; `Fuel.parse_loop-fuel` shows that the number of bytes is enough.
unfoldable pub parse_loop : ℕ → ℕ → Bytes → List Frame
parse_loop zero num_channels bs = []
parse_loop (suc fuel) num_channels [] = []
parse_loop (suc fuel) num_channels (frame_type ∷ bs) =
    parse_on (λ rest. parse_loop fuel num_channels rest) (parse_frame num_channels frame_type bs)

-- The frames of a packet, without its first eight bytes.
unfoldable pub parse_frames : ℕ → Bytes → List Frame
parse_frames num_channels bs = parse_loop (length bs) num_channels bs
