-- ===== src/Core/RingBuffer.antt =====
-- src/core/ring_buffer.h: a circular buffer. The template's `N` is 256, as in both places where the
-- sources use it (channel.h and connection.h), so `& MASK` is `% 256`; sizes and indices are
-- non-negative `int`s.
pub mod Queue
mod Tests
use netudp.Base.{
  ℕ, ◌+◌, ◌-◌, ◌%◌, Bool, true, false, ◌==◌, if◌then◌else◌, Array, update, Option, some, none,
}

pub record FixedRingBuffer {ℓ} (A : Type ℓ) : Type ℓ where
  pub items : Array A
  pub head : ℕ
  pub size : ℕ

abbrev pub capacity : ℕ
capacity = 256

-- the place of the item `index` behind the head
abbrev pub place {ℓ} : {A : Type ℓ} → FixedRingBuffer A → ℕ → ℕ
place r index = (r.head + index) % capacity

module _ {ℓ} {A : Type ℓ} where
  unfoldable pub push_back : FixedRingBuffer A → A → Bool × FixedRingBuffer A
  push_back r item =
      if r.size == capacity
      then (false, r)
      else (true, record r { items = update r.items (place r r.size) item; size = r.size + 1 })

  -- What goes through `out`, if anything, and the new state. `blank` is `T{}`.
  unfoldable pub pop_front : A → FixedRingBuffer A → Option A × FixedRingBuffer A
  pop_front blank r = if r.size == 0 then (none, r) else (
    some (r.items r.head),
    record r {
      items = update r.items r.head blank;
      head = (r.head + 1) % capacity;
      size = r.size - 1;
    },
  )

  -- `r[index]`
  unfoldable pub at : FixedRingBuffer A → ℕ → A
  at r index = r.items (place r index)

  -- `r[index] = item`, through the reference that `operator[]` returns
  unfoldable pub put_at : FixedRingBuffer A → ℕ → A → FixedRingBuffer A
  put_at r index item = record r { items = update r.items (place r index) item }

  unfoldable pub full : FixedRingBuffer A → Bool
  full r = r.size == capacity

  unfoldable pub is_empty : FixedRingBuffer A → Bool
  is_empty r = r.size == 0

  unfoldable pub clear : A → FixedRingBuffer A
  clear blank = record { items = λ i. blank; head = 0; size = 0 }
