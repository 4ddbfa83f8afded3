-- ===== src/Reliability/Channel/Awaited.antt =====
-- What the ordered receiver of src/reliability/reliable_channel.h makes of a stream, without buffer and
-- 16-bit numbers: the numbers that have arrived, and the next one awaited.
use netudp.Base.{
  ℕ, zero, suc, ◌+◌, ◌%◌, ◌^◌, ◌≤◌, ◌<◌, ◌≡◌, ap, ◌∙◌, Bool, true, false, not, ◌&&◌, ltb, leb,
  if◌then◌else◌, update, List, [], ◌∷◌, ◌++◌, arith,
}
use netudp.Base.Lists.{take}
use netudp.Base.Words.{u16_mod}
use netudp.Reliability.Channel.{Bytes, slot, max_payload, reliable_buffer_size}

-- The next number that the application has not got, and the numbers that have arrived.
pub record Awaited : Type 0 where
  pub next : ℕ
  pub arrived : ℕ → Bool

-- One of the next 64 numbers, and new.
abbrev pub is_awaited : Awaited → ℕ → Bool
is_awaited a i = leb a.next i && (ltb i (a.next + reliable_buffer_size) && not (a.arrived i))

abbrev pub with_number : Awaited → ℕ → Awaited
with_number a i = record a { arrived = update a.arrived i true }

-- Past the numbers that have arrived, up to the first gap, `fuel` of them at most.
unfoldable pub past_arrived : ℕ → Awaited → Awaited
past_arrived zero a = a
past_arrived (suc fuel) a =
    let rest = past_arrived fuel (record a { next = a.next + 1 }) in
    if a.arrived a.next then rest else a

abbrev pub arrive : Awaited → ℕ → Awaited
arrive a i = if is_awaited a i then past_arrived 65 (with_number a i) else a

unfoldable pub arrive_all : Awaited → List ℕ → Awaited
arrive_all a [] = a
arrive_all a (i ∷ is) = arrive_all (arrive a i) is

abbrev pub at_start : Awaited
at_start = record { next = 0; arrived = λ i. false }

-- Nothing arrives that is 2^15 numbers or more ahead of the next one, or more than 2^15 behind it.
unfoldable pub IsTimely : Awaited → List ℕ → Type 0
IsTimely a [] = Unit
IsTimely a (i ∷ is) = (i < a.next + 2 ^ 15) × ((a.next ≤ i + 2 ^ 15) × IsTimely (arrive a i) is)

-- The messages on the wire with these numbers.
unfoldable pub on_wire : (ℕ → Bytes) → List ℕ → List (ℕ × Bytes)
on_wire payload [] = []
on_wire payload (i ∷ is) = (i % u16_mod, payload i) ∷ on_wire payload is

abbrev pub pair : ℕ → Bytes → ℕ × Bytes
pair k b = (k, b)

-- Message `i` of the stream, as the application gets it.
abbrev pub message : (ℕ → Bytes) → ℕ → ℕ × Bytes
message payload i = (i % u16_mod, take max_payload (payload i))

-- `n` messages of the stream from number `i` on.
unfoldable pub messages : (ℕ → Bytes) → ℕ → ℕ → List (ℕ × Bytes)
messages payload i zero = []
messages payload i (suc n) = message payload i ∷ messages payload (i + 1) n

pub messages-append :
    (payload : ℕ → Bytes) (i n m : ℕ)
    → messages payload i n ++ messages payload (i + n) m ≡ messages payload i (n + m)
unfolding messages
messages-append payload i zero m =
    ap (λ (k : ℕ). messages payload k m) (unmoved i) ∙ ap (messages payload i) (unmoved' m)
  where
    unmoved : (i : ℕ) → i + 0 ≡ i
    unmoved i = omega arith

    unmoved' : (m : ℕ) → m ≡ 0 + m
    unmoved' m = omega arith
messages-append payload i (suc n) m =
    ap (λ (l : List (ℕ × Bytes)). message payload i ∷ l)
      (ap (λ (k : ℕ). messages payload (i + 1) n ++ messages payload k m) (behind i n)
        ∙ messages-append payload (i + 1) n m)
    ∙ ap (messages payload i) (counted n m)
  where
    behind : (i n : ℕ) → i + suc n ≡ (i + 1) + n
    behind i n = omega arith

    counted : (n m : ℕ) → suc (n + m) ≡ suc n + m
    counted n m = omega arith

pub slot_of : (k : ℕ) → slot (k % u16_mod) ≡ k % 64
slot_of k = omega arith
