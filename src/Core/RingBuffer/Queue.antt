-- ===== src/Core/RingBuffer/Queue.antt =====
-- src/core/ring_buffer.h: the buffer is a bounded first-in first-out queue.
use netudp.Base.{
  ℕ, zero, suc, ◌+◌, ◌-◌, ◌%◌, ◌≤◌, ◌<◌, ◌≡◌, ◌≢◌, refl, ap, ap₂, sym, ◌∙◌, Array, update, List, [],
  ◌∷◌, ◌++◌, arith,
}
use netudp.Base.Lists.{length, get_or, set}
use netudp.Core.Fifo
use netudp.Core.RingBuffer.{FixedRingBuffer, capacity, place, push_back, pop_front, at, put_at}

module _ {A : Type 0} where
  pub record IsValid (r : FixedRingBuffer A) : Type 0 where
    pub head_in : r.head < capacity
    pub size_in : r.size ≤ capacity

  -- `n` items from the `k`-th behind `h` on, going round at the end of the array.
  abbrev pub items_from : Array A → ℕ → ℕ → ℕ → List A
  items_from a h k zero = []
  items_from a h k (suc n) = a ((h + k) % capacity) ∷ items_from a h (k + 1) n

  -- The queued items, oldest first.
  abbrev pub contents : FixedRingBuffer A → List A
  contents r = items_from r.items r.head 0 r.size

  length-items_from : (a : Array A) (h k n : ℕ) → length (items_from a h k n) ≡ n
  length-items_from a h k zero = refl
  length-items_from a h k (suc n) = ap suc (length-items_from a h (k + 1) n)

  pub length-contents : (r : FixedRingBuffer A) → length (contents r) ≡ r.size
  length-contents r = length-items_from r.items r.head 0 r.size

  -- Writing the item just past the end adds it there.
  items_from-push :
      (a : Array A) (v : A) (h k n i : ℕ)
      → k + n < capacity
      → i ≡ (h + (k + n)) % capacity
      → items_from (update a i v) h k (suc n) ≡ items_from a h k n ++ (v ∷ [])
  items_from-push a v h k zero i small e = ground arith
  items_from-push a v h k (suc n) i small e =
      ap₂ ◌∷◌ (other a v h k n i small e)
        (items_from-push a v h (k + 1) n i (omega arith) (e ∙ omega arith))
    where
      other :
          (a : Array A) (v : A) (h k n i : ℕ)
          → k + suc n < capacity
          → i ≡ (h + (k + suc n)) % capacity
          → update a i v ((h + k) % capacity) ≡ a ((h + k) % capacity)
      other a v h k n i small e = ground arith

  -- A write to a place before the items leaves them.
  items_from-update :
      (a : Array A) (v : A) (h j k n i : ℕ)
      → j < k
      → k + n ≤ j + capacity
      → i ≡ (h + j) % capacity
      → items_from (update a i v) h k n ≡ items_from a h k n
  items_from-update a v h j k zero i lo hi e = refl
  items_from-update a v h j k (suc n) i lo hi e =
      ap₂ ◌∷◌ (other a v h j k n i lo hi e)
        (items_from-update a v h j (k + 1) n i (omega arith) (omega arith) e)
    where
      other :
          (a : Array A) (v : A) (h j k n i : ℕ)
          → j < k
          → k + suc n ≤ j + capacity
          → i ≡ (h + j) % capacity
          → update a i v ((h + k) % capacity) ≡ a ((h + k) % capacity)
      other a v h j k n i lo hi e = ground arith

  -- The head moved on by one.
  items_from-next :
      (a : Array A) (h k n : ℕ) → items_from a ((h + 1) % capacity) k n ≡ items_from a h (k + 1) n
  items_from-next a h k zero = refl
  items_from-next a h k (suc n) = ap₂ ◌∷◌ (ap a (omega arith)) (items_from-next a h (k + 1) n)

  -- The code tests `size_ == 0`, the items are read off at `suc`.
  items_from_nonempty :
      (a : Array A) (h n : ℕ)
      → h < capacity
      → n ≢ 0
      → items_from a h 0 n ≡ a h ∷ items_from a h 1 (n - 1)
  items_from_nonempty a h zero hh ne = absurd (ne refl)
  items_from_nonempty a h (suc n) hh ne =
      ap₂ ◌∷◌ (ap a (omega arith)) (ap (items_from a h 1) (omega arith))

  -- `push_back` answers and acts as the queue's push does, and keeps the buffer valid.
  pub push_back_refines :
      (r : FixedRingBuffer A) (v : A)
      → IsValid r
      → let (pushed, r') = push_back r v in
        ((pushed, contents r') ≡ Fifo.push (contents r) v) × IsValid r'
  unfolding push_back Fifo.push
  push_back_refines r v h = (
    ground (arith, length-contents r, items_from-push r.items v r.head 0 r.size (place r r.size)),
    ground arith,
  )

  -- `pop_front` gives what the queue's pop gives, leaves what it leaves, and keeps the buffer valid.
  pub pop_front_refines :
      (blank : A) (r : FixedRingBuffer A)
      → IsValid r
      → let (item, r') = pop_front blank r in
        ((item, contents r') ≡ Fifo.pop (contents r)) × IsValid r'
  unfolding pop_front Fifo.pop
  pop_front_refines blank r h = (
    ground (
      arith,
      items_from_nonempty r.items r.head r.size h.head_in,
      items_from-update r.items blank r.head 0 1 (r.size - 1) r.head,
      h.head_in,
      h.size_in,
      items_from-next (update r.items r.head blank) r.head 0 (r.size - 1),
    ),
    ground arith,
  )

  get_or-items_from :
      (a : Array A) (h k n index : ℕ) (d : A)
      → index < n
      → get_or (items_from a h k n) index d ≡ a ((h + (k + index)) % capacity)
  get_or-items_from a h k zero index d lt = absurd (omega arith)
  get_or-items_from a h k (suc n) zero d lt = ap a (omega arith)
  get_or-items_from a h k (suc n) (suc index) d lt =
      get_or-items_from a h (k + 1) n index d (omega arith) ∙ ap a (omega arith)

  -- A write to the item `index` changes that item alone.
  items_from-set :
      (a : Array A) (v : A) (h k n index i : ℕ)
      → index < n
      → k + n ≤ capacity
      → i ≡ (h + (k + index)) % capacity
      → items_from (update a i v) h k n ≡ set (items_from a h k n) index v
  items_from-set a v h k zero index i lt small e = absurd (omega arith)
  items_from-set a v h k (suc n) zero i lt small e =
      ap₂ ◌∷◌ (here a v h k i e)
        (items_from-update a v h k (k + 1) n i (omega arith) (omega arith) (e ∙ omega arith))
    where
      here :
          (a : Array A) (v : A) (h k i : ℕ)
          → i ≡ (h + (k + 0)) % capacity
          → update a i v ((h + k) % capacity) ≡ v
      here a v h k i e = ground arith
  items_from-set a v h k (suc n) (suc index) i lt small e =
      ap₂ ◌∷◌ (other a v h k n index i lt small e)
        (items_from-set a v h (k + 1) n index i (omega arith) (omega arith) (e ∙ omega arith))
    where
      other :
          (a : Array A) (v : A) (h k n index i : ℕ)
          → suc index < suc n
          → k + suc n ≤ capacity
          → i ≡ (h + (k + suc index)) % capacity
          → update a i v ((h + k) % capacity) ≡ a ((h + k) % capacity)
      other a v h k n index i lt small e = ground arith

  -- A write through `r[index]` changes that item of the queue alone.
  pub contents-put_at :
      (r : FixedRingBuffer A) (index : ℕ) (v : A)
      → index < r.size
      → r.size ≤ capacity
      → contents (put_at r index v) ≡ set (contents r) index v
  unfolding put_at
  contents-put_at r index v h k =
      items_from-set r.items v r.head 0 r.size index (place r index) h (omega arith) (omega arith)

  -- `r[index]` is the item at that position of the queue.
  pub at-contents :
      (r : FixedRingBuffer A) (index : ℕ) (d : A)
      → index < r.size
      → at r index ≡ get_or (contents r) index d
  unfolding at
  at-contents r index d h =
      ap r.items (omega arith) ∙ sym (get_or-items_from r.items r.head 0 r.size index d h)
