-- ===== src/Fragment/Reassembly.antt =====
-- src/fragment/fragment.h: a fragment that was stored stays in its place of the reassembly buffer,
-- whatever fragments of the message come after it.
use netudp.Base.{
  ℕ, suc, ◌+◌, ◌*◌, ◌≤◌, ◌<◌, ◌≡◌, ap, ◌∙◌, ◌==◌, ltb, Bool, true, false, not, ◌||◌, inl, inr, ◌⊎◌,
  if-elim, if◌then◌else◌, update, Option, none, List, arith,
}
use native.Mathlib.Nat.{suc-mul, mul-le-mul_right}
use netudp.Base.Lists.{length}
use netudp.Base.Memory.{copy_at, bytes_from, copy_at-outside, bytes_from-ext, bytes_from-copy_at}
use netudp.Fragment.{
  FragmentTracker, has_fragment, mark_fragment, is_complete, receive, store, finish,
}
use netudp.Fragment.Counts.{has_fragment-mark_fragment}

-- Fragment `index` with these bytes is marked and in its place.
pub record Holds {T : Type 0} (t : FragmentTracker T) (max_payload index : ℕ) (bytes : List ℕ)
    : Type 0 where
  pub marked : has_fragment t index ≡ true
  pub placed : bytes_from t.buffer (index * max_payload) (length bytes) ≡ bytes

-- The places of two fragments of at most `max_payload` bytes do not meet.
apart :
    (i j max_payload m n k : ℕ)
    → (i == j) ≡ false
    → m ≤ max_payload
    → n ≤ max_payload
    → i * max_payload ≤ k
    → k < i * max_payload + m
    → (k < j * max_payload) ⊎ (j * max_payload + n ≤ k)
apart i j p m n k ne hm hn lo hi = elim (order i j ne) [
  | inl lt ↦ inl (omega (arith, hm, hi, mul-le-mul_right p lt, suc-mul i p))
  | inr gt ↦ inr (omega (arith, hn, lo, mul-le-mul_right p gt, suc-mul j p))
]
  where
    order : (i j : ℕ) → (i == j) ≡ false → (suc i ≤ j) ⊎ (suc j ≤ i)
    order i j ne = ground (arith, ne)

module _ {T : Type 0} where
  store-buffer :
      (t : FragmentTracker T) (index : ℕ) (fragment : List ℕ) (max_payload : ℕ) (time : T)
      → (store t index fragment max_payload time).buffer
        ≡ copy_at t.buffer (index * max_payload) fragment
  unfolding store mark_fragment
  store-buffer t index fragment max_payload time = ground arith

  store-has_fragment :
      (t : FragmentTracker T) (index : ℕ) (fragment : List ℕ) (max_payload : ℕ) (time : T) (i : ℕ)
      → has_fragment (store t index fragment max_payload time) i
        ≡ (if index == i then true else has_fragment t i)
  unfolding store has_fragment
  store-has_fragment t index fragment max_payload time i =
      has_fragment-mark_fragment
        (record t {
          buffer = copy_at t.buffer (index * max_payload) fragment;
          fragment_sizes = update t.fragment_sizes index (length fragment);
        })
        index i

  finish-Holds :
      (t : FragmentTracker T) (max_payload i : ℕ) (bytes : List ℕ)
      → Holds t max_payload i bytes
      → Holds (finish t).1 max_payload i bytes
  unfolding finish has_fragment
  finish-Holds t max_payload i bytes h =
      if-elim (λ (r : Option (List ℕ) × FragmentTracker T). Holds r.1 max_payload i bytes)
        (is_complete t) (λ all. record { marked = h.marked; placed = h.placed }) (λ more. h)

  -- Of fragments that are no longer than the payload: one that is in its place is still there after
  -- any other, or itself again, was received.
  pub receive-Holds :
      (t : FragmentTracker T) (index count : ℕ) (fragment : List ℕ) (max_payload : ℕ) (time : T)
      (i : ℕ) (bytes : List ℕ)
      → Holds t max_payload i bytes
      → length bytes ≤ max_payload
      → length fragment ≤ max_payload
      → Holds (receive t index count fragment max_payload time).1 max_payload i bytes
  unfolding receive
  receive-Holds t index count fragment p time i bytes h hb hf =
      if-elim (λ (r : Option (List ℕ) × FragmentTracker T). Holds r.1 p i bytes)
        (not (t.total_fragments == count)
          || (has_fragment t index || ltb t.buffer_capacity (index * p + length fragment)))
        (λ refused. h)
        (λ taken. finish-Holds _ p i bytes (record {
          marked = store-has_fragment t index fragment p time i ∙ ground (arith, h.marked);
          placed =
              ap (λ a. bytes_from a (i * p) (length bytes)) (store-buffer t index fragment p time)
              ∙ bytes_from-ext _ t.buffer (i * p) (length bytes) (λ k lo hi.
                copy_at-outside t.buffer (index * p) fragment k (
                  apart i index p (length bytes) (length fragment) k
                    (ground (arith, taken, h.marked)) hb hf lo hi))
              ∙ h.placed;
        }))

  -- A fragment that is new to the tracker, of its count and within the buffer is marked and put in
  -- its place.
  pub receive-stores :
      (t : FragmentTracker T) (index count : ℕ) (fragment : List ℕ) (max_payload : ℕ) (time : T)
      → t.total_fragments ≡ count
      → has_fragment t index ≡ false
      → index * max_payload + length fragment ≤ t.buffer_capacity
      → Holds (receive t index count fragment max_payload time).1 max_payload index fragment
  unfolding receive
  receive-stores t index count fragment p time e new fits =
      if-elim (λ (r : Option (List ℕ) × FragmentTracker T). Holds r.1 p index fragment)
        (not (t.total_fragments == count)
          || (has_fragment t index || ltb t.buffer_capacity (index * p + length fragment)))
        {x = (none, t)}
        (λ refused. absurd (
          omega (
            arith,
            clash t.total_fragments count (has_fragment t index) t.buffer_capacity
                (index * p + length fragment) e new fits refused,
          )))
        (λ taken. finish-Holds _ p index fragment (record {
          marked = store-has_fragment t index fragment p time index ∙ ground arith;
          placed =
              ap (λ a. bytes_from a (index * p) (length fragment))
                (store-buffer t index fragment p time)
              ∙ bytes_from-copy_at t.buffer (index * p) fragment;
        }))
    where
      clash :
          (total count : ℕ) (b : Bool) (capacity size : ℕ)
          → total ≡ count
          → b ≡ false
          → size ≤ capacity
          → (not (total == count) || (b || ltb capacity size)) ≡ true
          → 1 ≤ 0
      clash total count b capacity size e new fits r = ground (arith, e, new, fits, r)
