-- ===== src/Fragment.antt =====
-- src/fragment/fragment.h: the headers of fragments and the reassembly of messages. The buffers of the
-- trackers are there, as they are after an `init` that succeeds, and are functions of the index; a
-- fragment's bytes are a list.
pub mod Counts
pub mod Reassembly
mod Tests
use netudp.Base.{
  ℕ, zero, suc, ◌+◌, ◌-◌, ◌*◌, ◌/◌, ◌%◌, ◌^◌, ◌==◌, ltb, leb, Bool, true, false, not, ◌&&◌, ◌||◌,
  if◌then◌else◌, Array, update, Option, some, none, List, [], ◌∷◌, ◌++◌,
}
use netudp.Base.Bits.{test_bit, set_bit}
use netudp.Base.Bytes.{bytes_le, read_le}
use netudp.Base.Float64.{Float64}
use netudp.Base.Int.{ℤ, pos, negsuc, ltℤ}
use netudp.Base.Words.{u32_mod}
use netudp.Base.Lists.{length, drop, get_or}
use netudp.Base.Memory.{copy_at, bytes_from}

abbrev pub max_fragment_count : ℕ
max_fragment_count = 255

abbrev pub max_concurrent_reassemblies : ℕ
max_concurrent_reassemblies = 16

-- in seconds
abbrev pub fragment_timeout_sec : ℕ
fragment_timeout_sec = 5

pub record FragmentHeader : Type 0 where
  pub message_id : ℕ
  pub fragment_index : ℕ
  pub fragment_count : ℕ

unfoldable pub write_fragment_header : FragmentHeader → List ℕ
write_fragment_header hdr =
    bytes_le 2 hdr.message_id ++ (hdr.fragment_index ∷ hdr.fragment_count ∷ [])

unfoldable pub read_fragment_header : List ℕ → FragmentHeader
read_fragment_header buf = record {
  message_id = read_le 2 buf;
  fragment_index = get_or buf 2 0;
  fragment_count = get_or buf 3 0;
}

-- `x / m` for a natural number `m` and the `int` whose two's complement word is `x`, rounded towards 0.
unfoldable pub div_int : ℕ → ℕ → ℤ
div_int x m =
    if ltb x (2 ^ 31)
    then pos (x / m)
    else if (u32_mod - x) / m == 0
    then pos 0
    else negsuc ((u32_mod - x) / m - 1)

-- The arguments are not negative. The overflow of the `int` sum, which is undefined in C++, wraps.
-- The result -1 is `negsuc 0`.
unfoldable pub calc_fragment_count : ℕ → ℕ → ℤ
calc_fragment_count message_size max_fragment_payload =
    let sum = (message_size + max_fragment_payload - 1) % u32_mod in
    if leb message_size 0 || leb max_fragment_payload 0
    then negsuc 0
    else if ltℤ (pos max_fragment_count) (div_int sum max_fragment_payload)
    then negsuc 0
    else div_int sum max_fragment_payload

pub record FragmentTracker (T : Type 0) : Type 0 where
  pub message_id : ℕ
  pub total_fragments : ℕ
  pub received_count : ℕ
  pub received_mask : Array ℕ
  pub first_recv_time : T
  pub last_recv_time : T
  pub active : Bool
  pub buffer : Array ℕ
  pub buffer_capacity : ℕ
  pub fragment_sizes : Array ℕ

-- The first `n` sizes added up.
unfoldable pub sum_sizes : Array ℕ → ℕ → ℕ
sum_sizes sizes zero = 0
sum_sizes sizes (suc n) = sum_sizes sizes n + sizes n

module _ {T : Type 0} where
  unfoldable pub is_complete : FragmentTracker T → Bool
  is_complete t = t.received_count == t.total_fragments

  unfoldable pub has_fragment : FragmentTracker T → ℕ → Bool
  has_fragment t index = test_bit (t.received_mask (index / 8)) (index % 8)

  unfoldable pub mark_fragment : FragmentTracker T → ℕ → FragmentTracker T
  mark_fragment t index = if has_fragment t index then t else record t {
    received_mask =
        update t.received_mask (index / 8) (set_bit (t.received_mask (index / 8)) (index % 8));
    received_count = (t.received_count + 1) % 256;
  }

  -- The loop from `i` on, with `n` fragments to look at.
  unfoldable pub missing_from : FragmentTracker T → ℕ → ℕ → Option ℕ
  missing_from t i zero = none
  missing_from t i (suc n) =
      let later = missing_from t (i + 1) n in if has_fragment t i then later else some i

  unfoldable pub next_missing : FragmentTracker T → Option ℕ
  next_missing t = missing_from t 0 t.total_fragments

  unfoldable pub total_message_size : FragmentTracker T → ℕ
  total_message_size t = sum_sizes t.fragment_sizes t.total_fragments

  unfoldable pub reset : T → FragmentTracker T → FragmentTracker T
  reset zero_time t = record t {
    message_id = 0;
    total_fragments = 0;
    received_count = 0;
    received_mask = λ i. 0;
    first_recv_time = zero_time;
    last_recv_time = zero_time;
    active = false;
    buffer = λ i. 0;
    fragment_sizes = λ i. 0;
  }

  -- The first tracker with the property, of the `n` from `i` on.
  unfoldable pub first_tracker :
      (FragmentTracker T → Bool) → Array (FragmentTracker T) → ℕ → ℕ → Option ℕ
  first_tracker test trackers i zero = none
  first_tracker test trackers i (suc n) =
      let later = first_tracker test trackers (i + 1) n in
      if test (trackers i) then some i else later

  unfoldable pub find_tracker : Array (FragmentTracker T) → ℕ → Option ℕ
  find_tracker trackers message_id =
      first_tracker (λ t. t.active && (t.message_id == message_id)) trackers 0
        max_concurrent_reassemblies

  -- The new tracker's index, if there is a free one, and the trackers.
  unfoldable pub allocate_tracker :
      T → Array (FragmentTracker T) → ℕ → ℕ → T → Option ℕ × Array (FragmentTracker T)
  allocate_tracker zero_time trackers message_id fragment_count time =
      elim (first_tracker (λ t. not t.active) trackers 0 max_concurrent_reassemblies) [
        | none ↦ (none, trackers)
        | some i ↦ (
          some i,
          update trackers i (record (reset zero_time (trackers i)) {
            message_id = message_id;
            total_fragments = fragment_count;
            first_recv_time = time;
            active = true;
          }),
        )
      ]

  -- The tracker of a message, found or new.
  unfoldable pub find_or_allocate :
      T → Array (FragmentTracker T) → ℕ → ℕ → T → Option ℕ × Array (FragmentTracker T)
  find_or_allocate zero_time trackers message_id fragment_count time =
      elim (find_tracker trackers message_id) [
        | some i ↦ (some i, trackers)
        | none ↦ allocate_tracker zero_time trackers message_id fragment_count time
      ]

  -- The fragment is copied and marked.
  unfoldable pub store : FragmentTracker T → ℕ → List ℕ → ℕ → T → FragmentTracker T
  store t index fragment max_fragment_payload time =
      let marked =
        mark_fragment
          (record t {
            buffer = copy_at t.buffer (index * max_fragment_payload) fragment;
            fragment_sizes = update t.fragment_sizes index (length fragment);
          })
          index in
      record marked { last_recv_time = time }

  -- The message, where the tracker is complete, and the tracker.
  unfoldable pub finish : FragmentTracker T → Option (List ℕ) × FragmentTracker T
  finish t =
      if is_complete t
      then (some (bytes_from t.buffer 0 (total_message_size t)), record t { active = false })
      else (none, t)

  -- What happens at the message's tracker.
  unfoldable pub receive :
      FragmentTracker T → ℕ → ℕ → List ℕ → ℕ → T → Option (List ℕ) × FragmentTracker T
  receive t index count fragment max_fragment_payload time =
      if not (t.total_fragments == count)
        || (has_fragment t index
            || ltb t.buffer_capacity (index * max_fragment_payload + length fragment))
      then (none, t)
      else finish (store t index fragment max_fragment_payload time)

  -- The same, at the index that was found or allocated.
  unfoldable pub receive_at :
      Option ℕ × Array (FragmentTracker T)
      → ℕ
      → ℕ
      → List ℕ
      → ℕ
      → T
      → Option (List ℕ) × Array (FragmentTracker T)
  receive_at (none, trackers) index count fragment max_fragment_payload time = (none, trackers)
  receive_at (some i, trackers) index count fragment max_fragment_payload time =
      let r = receive (trackers i) index count fragment max_fragment_payload time in
      (r.0, update trackers i r.1)

  -- The completed message, if this fragment completes it, and the trackers.
  unfoldable pub on_fragment_received :
      T
      → Array (FragmentTracker T)
      → ℕ
      → ℕ
      → ℕ
      → List ℕ
      → ℕ
      → T
      → Option (List ℕ) × Array (FragmentTracker T)
  on_fragment_received zero_time trackers message_id index count fragment max_fragment_payload
        time =
      if (count == 0) || leb count index
      then (none, trackers)
      else receive_at (find_or_allocate zero_time trackers message_id count time) index count
          fragment max_fragment_payload time

module _ (F : Float64) where
  open F use {Carrier, of_nat, sub, lt}

  -- The loop over the first `n` trackers: how many were cleaned, and the trackers.
  unfoldable pub cleanup_loop :
      ℕ → Array (FragmentTracker Carrier) → Carrier → ℕ × Array (FragmentTracker Carrier)
  cleanup_loop zero trackers now = (0, trackers)
  cleanup_loop (suc n) trackers now =
      let (cleaned, rest) = cleanup_loop n trackers now in
      if (rest n).active && lt (of_nat fragment_timeout_sec) (sub now (rest n).first_recv_time)
      then (cleaned + 1, update rest n (reset (of_nat 0) (rest n)))
      else (cleaned, rest)

  unfoldable pub cleanup_timeout :
      Array (FragmentTracker Carrier) → Carrier → ℕ × Array (FragmentTracker Carrier)
  cleanup_timeout trackers now = cleanup_loop max_concurrent_reassemblies trackers now
