-- ===== src/Reliability/Channel/Stream.antt =====
-- src/reliability/reliable_channel.h: the ordered receiver at the end of a sender's stream. The sender
-- numbers its messages 0, 1, 2, … without end, and the header of a message carries the number
-- modulo 2^16. What arrives, in which order and how often, is a list of these unbounded numbers.
use netudp.Base.{
  ℕ, zero, suc, ◌+◌, ◌%◌, ◌^◌, ◌≤◌, ◌<◌, ◌≡◌, refl, sym, ap, ap₂, ◌∙◌, true, false, if◌then◌else◌,
  update, List, [], ◌∷◌, ◌++◌, arith, Bool-cases, inl, inr,
}
use netudp.Base.Lists.{take}
use netudp.Base.Words.{u16_mod}
use netudp.Reliability.Channel.{
  Bytes, ReceivedMessage, ReliableChannelState, slot, max_payload, buffer_received_ordered,
  is_ready, taken, deliver_loop, deliver_ordered, reset,
}
use netudp.Reliability.Channel.Order.{deliver_ordered-stops}
use netudp.Reliability.Channel.Receive.{receive, receive_all}
use netudp.Reliability.Channel.Awaited.{
  Awaited, is_awaited, with_number, past_arrived, arrive, arrive_all, at_start, IsTimely, on_wire,
  message, messages, messages-append, pair, slot_of,
}

bytes_at :
    (payload : ℕ → Bytes) (k i : ℕ)
    → k ≡ i
    → take max_payload (payload k) ≡ take max_payload (payload i)
bytes_at payload k i e = ap (λ (n : ℕ). take max_payload (payload n)) e

module _ {T : Type 0} (payload : ℕ → Bytes) where
  -- The receiver's state and the unbounded numbers that it stands for.
  record Follows (s : ReliableChannelState T) (a : Awaited) : Type 0 where
    number : s.recv_seq ≡ a.next % u16_mod
    present : (k : ℕ) → a.next ≤ k → k < a.next + 64 → (s.recv_buffer (k % 64)).valid ≡ a.arrived k
    numbers :
        (k : ℕ)
        → a.next ≤ k
        → k < a.next + 64
        → a.arrived k ≡ true
        → (s.recv_buffer (k % 64)).sequence ≡ k % u16_mod
    payloads :
        (k : ℕ)
        → a.next ≤ k
        → k < a.next + 64
        → a.arrived k ≡ true
        → (s.recv_buffer (k % 64)).payload ≡ take max_payload (payload k)
    beyond : (k : ℕ) → a.next + 64 ≤ k → a.arrived k ≡ false

  slot_here :
      (s : ReliableChannelState T) (a : Awaited) → Follows s a → slot s.recv_seq ≡ a.next % 64
  slot_here s a h = ap slot h.number ∙ slot_of a.next

  at_slot :
      (s : ReliableChannelState T) (a : Awaited)
      → Follows s a
      → s.recv_buffer (slot s.recv_seq) ≡ s.recv_buffer (a.next % 64)
  at_slot s a h =
      ap (λ (k : ℕ). s.recv_buffer (slot k)) h.number ∙ ap s.recv_buffer (slot_of a.next)

  -- A slot of the window that is valid holds the number of its place: among timely arrivals the
  -- comparison of numbers in `is_ready` never fails.
  is_ready-Follows :
      (s : ReliableChannelState T) (a : Awaited) → Follows s a → is_ready s ≡ a.arrived a.next
  is_ready-Follows s a h = ground (
    arith,
    h.number,
    at_slot s a h,
    h.present a.next (omega arith) (omega arith),
    h.numbers a.next (omega arith) (omega arith),
  )

  taken-Follows :
      (s : ReliableChannelState T) (a : Awaited)
      → Follows s a
      → Follows (taken s) (record a { next = a.next + 1 })
  unfolding taken
  taken-Follows s a h = record {
    number = ground (arith, h.number);
    present = λ k lo hi. ground (arith, lo, hi, slot_here s a h, h.present k, h.beyond k);
    numbers =
        λ k lo hi there. ground (arith, lo, hi, there, slot_here s a h, h.numbers k, h.beyond k);
    payloads =
        λ k lo hi there. ground (arith, lo, hi, there, slot_here s a h, h.payloads k, h.beyond k);
    beyond = λ k far. h.beyond k (omega (arith, far));
  }

  abbrev handed : ReliableChannelState T → ℕ × Bytes
  handed s = (s.recv_seq, (s.recv_buffer (slot s.recv_seq)).payload)

  next_message :
      (s : ReliableChannelState T) (a : Awaited)
      → Follows s a
      → a.arrived a.next ≡ true
      → handed s ≡ message payload a.next
  next_message s a h there =
      ap (λ (k : ℕ). pair k (s.recv_buffer (slot s.recv_seq)).payload) h.number
      ∙ ap (λ (m : ReceivedMessage). pair (a.next % u16_mod) m.payload) (at_slot s a h)
      ∙ ap (pair (a.next % u16_mod)) (h.payloads a.next (omega arith) (omega arith) there)

  -- What is handed over between two states of the numbers.
  abbrev Advances : Awaited → Awaited → List (ℕ × Bytes) × ReliableChannelState T → Type 0
  Advances a b r =
      (n : ℕ) × (b.next ≡ a.next + n) × (r.0 ≡ messages payload a.next n) × Follows r.1 b

  deliver_loop-Advances :
      (fuel : ℕ) (s : ReliableChannelState T) (a : Awaited)
      → Follows s a
      → Advances a (past_arrived fuel a) (deliver_loop fuel s)
  unfolding deliver_loop past_arrived messages
  deliver_loop-Advances zero s a h = (0, omega arith, refl, h)
  deliver_loop-Advances (suc fuel) s a h =
      let (n, moved, given, after) =
        deliver_loop-Advances fuel (taken s) (record a { next = a.next + 1 })
          (taken-Follows s a h) in
      elim (Bool-cases (is_ready s)) [
        | inl ready ↦
            let there : a.arrived a.next ≡ true = sym (is_ready-Follows s a h) ∙ ready in
            rw (ready, there, deliver_loop, past_arrived)
              (
                suc n,
                omega (arith, moved),
                ap (λ (m : ℕ × Bytes). m ∷ (deliver_loop fuel (taken s)).0)
                      (next_message s a h there)
                    ∙ ap (λ (l : List (ℕ × Bytes)). message payload a.next ∷ l) given,
                after,
              )
        | inr missing ↦
            rw (missing, sym (is_ready-Follows s a h) ∙ missing, deliver_loop, past_arrived)
              (0, omega arith, refl, h)
      ]

  buffered :
      (s : ReliableChannelState T) (a : Awaited) (i : ℕ)
      → Follows s a
      → i < a.next + 2 ^ 15
      → a.next ≤ i + 2 ^ 15
      → buffer_received_ordered s (i % u16_mod) (payload i) ≡ (
          if is_awaited a i
          then (
            true,
            record s {
              recv_buffer = update s.recv_buffer (i % 64) (record {
                sequence = i % u16_mod;
                payload = take max_payload (payload i);
                valid = true;
              });
            },
          )
          else (false, s))
  unfolding buffer_received_ordered
  buffered s a i h ahead back =
      rw (slot_of i) (ground (arith, ahead, back, h.number, h.present i, h.numbers i))

  with_number-Follows :
      (s : ReliableChannelState T) (a : Awaited) (i : ℕ)
      → Follows s a
      → is_awaited a i ≡ true
      → Follows
          (record s {
            recv_buffer = update s.recv_buffer (i % 64) (record {
              sequence = i % u16_mod;
              payload = take max_payload (payload i);
              valid = true;
            });
          })
          (with_number a i)
  with_number-Follows s a i h awaited = record {
    number = h.number;
    present = λ k lo hi. ground (arith, lo, hi, awaited, h.present k lo hi);
    numbers = λ k lo hi there. ground (arith, lo, hi, there, awaited, h.numbers k lo hi);
    payloads = λ k lo hi there.
        ground (arith, lo, hi, there, awaited, h.payloads k lo hi, bytes_at payload k i);
    beyond = λ k far. ground (arith, far, awaited, h.beyond k far);
  }

  receive-Advances :
      (s : ReliableChannelState T) (a : Awaited) (i : ℕ)
      → Follows s a
      → i < a.next + 2 ^ 15
      → a.next ≤ i + 2 ^ 15
      → Advances a (arrive a i) (receive s (i % u16_mod) (payload i))
  unfolding receive deliver_ordered messages
  receive-Advances s a i h ahead back = elim (Bool-cases (is_awaited a i)) [
    | inl new ↦
        rw (buffered s a i h ahead back, new, receive)
          (deliver_loop-Advances 65 _ (with_number a i) (with_number-Follows s a i h new))
    | inr old ↦ rw (buffered s a i h ahead back, old, receive) (0, omega arith, refl, h)
  ]

  -- After an arrival the next number is one that has not arrived.
  arrive-waits :
      (s : ReliableChannelState T) (a : Awaited) (i : ℕ)
      → Follows s a
      → a.arrived a.next ≡ false
      → (arrive a i).arrived (arrive a i).next ≡ false
  unfolding deliver_ordered
  arrive-waits s a i h waits = elim (Bool-cases (is_awaited a i)) [
    | inl new ↦
        let (n, moved, given, after) =
          deliver_loop-Advances 65 _ (with_number a i) (with_number-Follows s a i h new) in
        rw new (sym (is_ready-Follows _ _ after) ∙ deliver_ordered-stops _)
    | inr old ↦ rw old waits
  ]

  receive_all-Advances :
      (s : ReliableChannelState T) (a : Awaited) (is : List ℕ)
      → Follows s a
      → a.arrived a.next ≡ false
      → IsTimely a is
      → (n : ℕ) × ((arrive_all a is).next ≡ a.next + n)
        × ((receive_all s (on_wire payload is)).0 ≡ messages payload a.next n)
        × ((arrive_all a is).arrived (arrive_all a is).next ≡ false)
  unfolding receive_all on_wire arrive_all IsTimely messages
  receive_all-Advances s a [] h waits timely = (0, omega arith, refl, waits)
  receive_all-Advances s a (i ∷ is) h waits timely =
      let (n, moved, given, after) = receive-Advances s a i h timely.0 timely.1.0 in
      let (m, moved', given', stopped) =
        receive_all-Advances (receive s (i % u16_mod) (payload i)).1 (arrive a i) is after
          (arrive-waits s a i h waits) timely.1.1 in
      (
        n + m,
        omega (arith, moved, moved'),
        ap₂ (λ (l l' : List (ℕ × Bytes)). l ++ l') given
              (given' ∙ ap (λ (k : ℕ). messages payload k m) moved)
            ∙ messages-append payload a.next n m,
        stopped,
      )

-- A sender's stream of messages, without end, reaches an ordered channel in any order, with losses
-- and repetitions, as long as nothing arrives that is 2^15 numbers or more ahead of the next one
-- awaited or more than 2^15 behind it. The application gets exactly the first messages of the stream,
-- in their order, each once, with its own number modulo 2^16 and its own bytes, up to 1200 of them. It
-- gets all of them up to the first that has not arrived, where a message counts as arrived only if it
-- was one of the 64 next ones awaited when it came; this first one has not arrived.
pub receive_all-stream :
    {T : Type 0} (zero_time : T) (payload : ℕ → Bytes) (is : List ℕ)
    → IsTimely at_start is
    → ((receive_all (reset zero_time) (on_wire payload is)).0
        ≡ messages payload 0 (arrive_all at_start is).next)
      × ((arrive_all at_start is).arrived (arrive_all at_start is).next ≡ false)
unfolding reset
receive_all-stream zero_time payload is timely =
    let (n, moved, given, stopped) =
      receive_all-Advances payload (reset zero_time) at_start is
        (record {
          number = omega arith;
          present = λ k lo hi. refl;
          numbers = λ k lo hi there. ground (arith, there);
          payloads = λ k lo hi there. ground (arith, there);
          beyond = λ k far. refl;
        })
        refl timely in
    (given ∙ ap (messages payload 0) (omega (arith, moved)), stopped)
