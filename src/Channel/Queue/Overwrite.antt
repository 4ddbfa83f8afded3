-- ===== src/Channel/Queue/Overwrite.antt =====
-- src/channel/channel.h, the state updates: at most one update of an entity waits in the queue.
use netudp.Base.{
  ℕ, zero, suc, ◌+◌, ◌≤◌, ◌<◌, ◌≡◌, ◌≢◌, refl, ◌==◌, ltb, Bool, true, false, not, ◌&&◌, ◌||◌,
  Bool-cases, if-elim, if◌then◌else◌, Option, some, none, List, arith,
}
use netudp.Base.Bits.{test_bit}
use netudp.Base.Float64.{Float64}
use netudp.Base.Lists.{length}
use netudp.Core.RingBuffer.{
  FixedRingBuffer, capacity, push_back, pop_front, at, put_at, full, is_empty,
}
use netudp.Channel.Queue.{
  QueuedMessage, no_message, Channel, netudp_mtu, send_state, is_update_of, find_update, overwrite,
  append, overwrite_or_append, queue_send_impl, dequeue_send, ready_if,
}

pub at-put_at :
    (q : FixedRingBuffer QueuedMessage) (i j : ℕ) (v : QueuedMessage)
    → i < capacity
    → j < capacity
    → at (put_at q i v) j ≡ (if i == j then v else at q j)
unfolding at put_at
at-put_at q i j v hi hj = ground arith

pub at-push_back :
    (q : FixedRingBuffer QueuedMessage) (v : QueuedMessage) (j : ℕ)
    → q.size < capacity
    → j ≤ q.size
    → at (push_back q v).1 j ≡ (if j == q.size then v else at q j)
unfolding at push_back
at-push_back q v j room hj = ground arith

at-pop_front :
    (q : FixedRingBuffer QueuedMessage) (j : ℕ)
    → q.size ≤ capacity
    → j + 1 < q.size
    → at (pop_front no_message q).1 j ≡ at q (j + 1)
unfolding at pop_front
at-pop_front q j full hj = ground arith

pub find_update-some :
    (eid : ℕ) (q : FixedRingBuffer QueuedMessage) (n i : ℕ)
    → find_update eid q n ≡ some i
    → (i < n) × (is_update_of eid (at q i) ≡ true)
unfolding find_update
find_update-some eid q zero i e = ground (arith, e)
find_update-some eid q (suc n) i e = ground (arith, e, find_update-some eid q n i)

pub find_update-none :
    (eid : ℕ) (q : FixedRingBuffer QueuedMessage) (n i : ℕ)
    → find_update eid q n ≡ none
    → i < n
    → is_update_of eid (at q i) ≡ false
unfolding find_update
find_update-none eid q zero i e lt = absurd (omega (arith, lt))
find_update-none eid q (suc n) i e lt =
    ground (arith, e, find_update-none eid q n i, Bool-cases (is_update_of eid (at q n)))

-- At most one update of each entity is pending, and the queue is within its capacity.
pub record OnePerEntity (q : FixedRingBuffer QueuedMessage) : Type 0 where
  pub size_in : q.size ≤ capacity
  pub apart :
      (eid i j : ℕ)
      → eid ≢ 0
      → i < j
      → j < q.size
      → is_update_of eid (at q i) ≡ true
      → is_update_of eid (at q j) ≡ false

put_at-OnePerEntity :
    (q : FixedRingBuffer QueuedMessage) (k : ℕ) (v : QueuedMessage)
    → OnePerEntity q
    → k < q.size
    → ((e : ℕ) → is_update_of e v ≡ is_update_of e (at q k))
    → OnePerEntity (put_at q k v)
unfolding put_at
put_at-OnePerEntity q k v h hk same = record {
  size_in = h.size_in;
  apart = λ eid i j ne lt hj e. ground (
    arith,
    e,
    same eid,
    h.apart eid i j ne lt hj,
    h.size_in,
    at-put_at q k i v (omega (arith, h.size_in)) (omega (arith, h.size_in)),
    at-put_at q k j v (omega (arith, h.size_in)) (omega (arith, h.size_in)),
  );
}

push_back-OnePerEntity :
    (q : FixedRingBuffer QueuedMessage) (v : QueuedMessage)
    → OnePerEntity q
    → q.size < capacity
    → ((e i : ℕ) → e ≢ 0 → i < q.size → is_update_of e (at q i) ≡ true → is_update_of e v ≡ false)
    → OnePerEntity (push_back q v).1
unfolding push_back
push_back-OnePerEntity q v h room new = record {
  size_in = grown q v room;
  apart = λ eid i j ne lt hj e. ground (
    arith,
    e,
    new eid i ne,
    h.apart eid i j ne lt,
    bound q v j room hj,
    at-push_back q v i room (omega (arith, bound q v j room hj, lt)),
    at-push_back q v j room (omega (arith, bound q v j room hj)),
  );
}
  where
    grown :
        (q : FixedRingBuffer QueuedMessage) (v : QueuedMessage)
        → q.size < capacity
        → (push_back q v).1.size ≤ capacity
    grown q v room = ground arith

    bound :
        (q : FixedRingBuffer QueuedMessage) (v : QueuedMessage) (j : ℕ)
        → q.size < capacity
        → j < (push_back q v).1.size
        → j < q.size + 1
    bound q v j room hj = ground (arith, hj)

pop_front-OnePerEntity :
    (q : FixedRingBuffer QueuedMessage) → OnePerEntity q → OnePerEntity (pop_front no_message q).1
unfolding pop_front
pop_front-OnePerEntity q h = record {
  size_in = less q h.size_in;
  apart = λ eid i j ne lt hj e. ground (
    arith,
    e,
    h.apart eid (i + 1) (j + 1) ne,
    bound q j hj,
    at-pop_front q i h.size_in (omega (arith, bound q j hj, lt)),
    at-pop_front q j h.size_in (omega (arith, bound q j hj)),
  );
}
  where
    less :
        (q : FixedRingBuffer QueuedMessage)
        → q.size ≤ capacity
        → (pop_front no_message q).1.size ≤ capacity
    less q h = ground (arith, h)

    bound :
        (q : FixedRingBuffer QueuedMessage) (j : ℕ)
        → j < (pop_front no_message q).1.size
        → j + 1 < q.size
    bound q j hj = ground (arith, hj)

overwrite_or_append-OnePerEntity :
    {T : Type 0} (c : Channel T) (payload : List ℕ) (flags eid : ℕ) (o : Option ℕ)
    → OnePerEntity c.send_queue
    → (if test_bit flags send_state && not (eid == 0)
        then find_update eid c.send_queue c.send_queue.size
        else none)
      ≡ o
    → OnePerEntity (overwrite_or_append c payload flags eid o).1.send_queue
unfolding overwrite_or_append overwrite append ready_if is_update_of full
overwrite_or_append-OnePerEntity c payload flags eid (some k) h e =
    put_at-OnePerEntity c.send_queue k _ h
      (ground (arith, e, find_update-some eid c.send_queue c.send_queue.size k))
      (λ e'. ground (arith, e, find_update-some eid c.send_queue c.send_queue.size k))
overwrite_or_append-OnePerEntity c payload flags eid none h e =
    if-elim (λ (r : Bool × Channel _). OnePerEntity r.1.send_queue) (c.send_queue.size == capacity)
      (λ full. h)
      (λ room.
        push_back-OnePerEntity c.send_queue _ h (ground (arith, room, h.size_in)) (λ e' i ne lt u.
          ground (arith, e, u, ne, lt, find_update-none eid c.send_queue c.send_queue.size i)))

-- Queueing a message, with whatever flags and entity, keeps at most one pending update per entity.
pub queue_send_impl-OnePerEntity :
    {T : Type 0} (c : Channel T) (payload : List ℕ) (flags eid : ℕ)
    → OnePerEntity c.send_queue
    → OnePerEntity (queue_send_impl c payload flags eid).1.send_queue
unfolding queue_send_impl
queue_send_impl-OnePerEntity c payload flags eid h =
    if-elim (λ (r : Bool × Channel _). OnePerEntity r.1.send_queue)
      ((length payload == 0) || ltb netudp_mtu (length payload)) (λ bad. h)
      (λ good. overwrite_or_append-OnePerEntity c payload flags eid _ h refl)

-- Taking a message off the queue keeps at most one pending update per entity.
pub dequeue_send-OnePerEntity :
    (F : Float64) (c : Channel F.Carrier)
    → OnePerEntity c.send_queue
    → OnePerEntity (dequeue_send F c).1.send_queue
unfolding dequeue_send
dequeue_send-OnePerEntity F c h =
    if-elim (λ (r : Option QueuedMessage × Channel F.Carrier). OnePerEntity r.1.send_queue)
      (is_empty c.send_queue) (λ empty. h) (λ some_left. pop_front-OnePerEntity c.send_queue h)
