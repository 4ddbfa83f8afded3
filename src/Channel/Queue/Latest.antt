-- ===== src/Channel/Queue/Latest.antt =====
-- src/channel/channel.h, the state updates: the latest update of an entity replaces the one that waits.
use netudp.Base.{
  ℕ, ◌+◌, ◌≤◌, ◌<◌, ◌≡◌, ◌≢◌, refl, sym, ◌∙◌, subst, ◌==◌, ltb, Bool, true, false, not, ◌&&◌, ◌||◌,
  Option-cases, if-elim, inl, inr, if◌then◌else◌, Option, some, none, List, arith,
}
use netudp.Base.Bits.{test_bit, set_bit, test_bit-set_bit}
use netudp.Base.Lists.{length}
use netudp.Core.RingBuffer.{FixedRingBuffer, capacity, push_back, at, put_at, full}
use netudp.Channel.Queue.{
  QueuedMessage, Channel, netudp_mtu, send_state, is_update_of, find_update, overwrite, append,
  overwrite_or_append, queue_send_impl, queue_send_state, ready_if,
}
use netudp.Channel.Queue.Overwrite.{find_update-none, at-put_at, at-push_back, find_update-some}

find_update-there :
    (eid : ℕ) (q : FixedRingBuffer QueuedMessage) (n i : ℕ)
    → i < n
    → is_update_of eid (at q i) ≡ true
    → (k : ℕ) × (find_update eid q n ≡ some k)
find_update-there eid q n i lt u = elim (Option-cases (find_update eid q n)) [
  | inl e ↦ ground (arith, u, find_update-none eid q n i e lt)
  | inr found ↦ found
]

-- An update of this entity is in the queue.
record Waits (eid : ℕ) (q : FixedRingBuffer QueuedMessage) : Type 0 where
  position : ℕ
  inside : position < q.size
  matches : is_update_of eid (at q position) ≡ true

abbrev QueuedWaits : {T : Type 0} → ℕ → Bool × Channel T → Type 0
QueuedWaits eid (ok, c) = ok ≡ true → Waits eid c.send_queue

push_back-size :
    (q : FixedRingBuffer QueuedMessage) (v : QueuedMessage)
    → (q.size == capacity) ≡ false
    → (push_back q v).1.size ≡ q.size + 1
unfolding push_back
push_back-size q v room = ground (arith, room)

overwrite_or_append-Waits :
    {T : Type 0} (c : Channel T) (payload : List ℕ) (flags eid : ℕ) (o : Option ℕ)
    → c.send_queue.size ≤ capacity
    → test_bit flags send_state ≡ true
    → find_update eid c.send_queue c.send_queue.size ≡ o
    → QueuedWaits eid (overwrite_or_append c payload flags eid o)
unfolding overwrite_or_append overwrite append ready_if is_update_of full put_at
overwrite_or_append-Waits c payload flags eid (some k) h t e = λ ok.
    let found = find_update-some eid c.send_queue c.send_queue.size k e in
    record {
      position = k;
      inside = found.0;
      matches = ground (
        arith,
        t,
        found,
        at-put_at c.send_queue k k (record (at c.send_queue k) { payload = payload; flags = flags })
            (omega (arith, h, found.0)) (omega (arith, h, found.0)),
      );
    }
overwrite_or_append-Waits c payload flags eid none h t e =
    if-elim (QueuedWaits eid) (c.send_queue.size == capacity) {x = (false, c)}
      (λ is_full ok. ground (arith, ok))
      (λ room ok.
        let v : QueuedMessage = record {
          payload = payload;
          sequence = c.send_seq;
          entity_id = eid;
          flags = flags;
          valid = true;
        } in
        record {
          position = c.send_queue.size;
          inside = ground (arith, room, push_back-size c.send_queue v);
          matches = ground (
            arith,
            t,
            room,
            at-push_back c.send_queue v c.send_queue.size (ground (arith, room, h)) (omega arith),
          );
        })

queue_send_impl-Waits :
    {T : Type 0} (c : Channel T) (payload : List ℕ) (flags eid : ℕ)
    → c.send_queue.size ≤ capacity
    → eid ≢ 0
    → test_bit flags send_state ≡ true
    → QueuedWaits eid (queue_send_impl c payload flags eid)
unfolding queue_send_impl
queue_send_impl-Waits c payload flags eid h ne t =
    if-elim (QueuedWaits eid) ((length payload == 0) || ltb netudp_mtu (length payload))
      {x = (false, c)} (λ bad ok. absurd (omega (arith, true_false (sym ok))))
      (λ good. overwrite_or_append-Waits c payload flags eid _ h t (
        scanned eid (test_bit flags send_state) (find_update eid c.send_queue c.send_queue.size) t
          ne))
  where
    scanned :
        (eid : ℕ) (b : Bool) (o : Option ℕ)
        → b ≡ true
        → eid ≢ 0
        → o ≡ (if b && not (eid == 0) then o else none)
    scanned eid b o t ne = ground (arith, t, ne)

    true_false : true ≡ false → 1 ≤ 0
    true_false e = ground (arith, e)

replaced :
    {T : Type 0} (c : Channel T) (payload : List ℕ) (flags eid k : ℕ)
    → let r = overwrite_or_append c payload flags eid (some k) in
      (r.0 ≡ true) × (r.1.send_queue.size ≡ c.send_queue.size)
unfolding overwrite_or_append overwrite ready_if put_at
replaced c payload flags eid k = (refl, refl)

queue_send_impl-again :
    {T : Type 0} (c : Channel T) (payload : List ℕ) (flags eid : ℕ)
    → eid ≢ 0
    → 0 < length payload
    → length payload ≤ netudp_mtu
    → test_bit flags send_state ≡ true
    → Waits eid c.send_queue
    → let r = queue_send_impl c payload flags eid in
      (r.0 ≡ true) × (r.1.send_queue.size ≡ c.send_queue.size)
unfolding queue_send_impl
queue_send_impl-again c payload flags eid ne lo hi t w =
    let (k, e) =
      find_update-there eid c.send_queue c.send_queue.size w.position w.inside w.matches in
    if-elim (λ (r : Bool × Channel _). (r.0 ≡ true) × (r.1.send_queue.size ≡ c.send_queue.size))
      ((length payload == 0) || ltb netudp_mtu (length payload)) {x = (false, c)}
      (λ bad. ground (arith, lo, hi, bad))
      (λ good.
        subst
          (λ o.
            let r = overwrite_or_append c payload flags eid o in
            (r.0 ≡ true) × (r.1.send_queue.size ≡ c.send_queue.size))
          (sym (
            chosen eid (test_bit flags send_state) (find_update eid c.send_queue c.send_queue.size)
              k t ne e))
          (replaced c payload flags eid k))
  where
    chosen :
        (eid : ℕ) (b : Bool) (o : Option ℕ) (k : ℕ)
        → b ≡ true
        → eid ≢ 0
        → o ≡ some k
        → (if b && not (eid == 0) then o else none) ≡ some k
    chosen eid b o k t ne e = ground (arith, t, ne, e)

-- A second update of the same entity, straight after a first that was queued, is always queued, and
-- takes no more room.
pub queue_send_state_again :
    {T : Type 0} (c : Channel T) (eid flags flags' : ℕ) (payload payload' : List ℕ)
    → c.send_queue.size ≤ capacity
    → eid ≢ 0
    → 0 < length payload'
    → length payload' ≤ netudp_mtu
    → (queue_send_state c payload flags eid).0 ≡ true
    → let first = (queue_send_state c payload flags eid).1 in
      let second = queue_send_state first payload' flags' eid in
      (second.0 ≡ true) × (second.1.send_queue.size ≡ first.send_queue.size)
unfolding queue_send_state
queue_send_state_again c eid flags flags' payload payload' h ne lo hi ok =
    queue_send_impl-again (queue_send_state c payload flags eid).1 payload'
      (set_bit flags' send_state) eid ne lo hi (state_bit flags')
      (queue_send_impl-Waits c payload (set_bit flags send_state) eid h ne (state_bit flags) ok)
  where
    state_bit : (flags : ℕ) → test_bit (set_bit flags send_state) send_state ≡ true
    state_bit flags = test_bit-set_bit flags send_state send_state ∙ refl
