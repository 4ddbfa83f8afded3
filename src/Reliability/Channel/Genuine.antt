-- ===== src/Reliability/Channel/Genuine.antt =====
-- src/reliability/reliable_channel.h: what the ordered receiver hands over is what arrived.
use netudp.Base.{
  ℕ, zero, suc, ◌≡◌, ◌⊎◌, inl, inr, refl, sym, subst, true, List, [], ◌∷◌, arith, Bool-cases,
}
use netudp.Base.Lists.{take, All}
use netudp.Reliability.Channel.{
  Bytes, ReceivedMessage, ReliableChannelState, slot, max_payload, buffer_received_ordered,
  is_ready, taken, deliver_loop, deliver_ordered, reset,
}
use netudp.Reliability.Channel.Receive.{From, receive, receive_all, All-append}

From-self :
    (ms log : List (ℕ × Bytes))
    → ((m : ℕ × Bytes) → From m ms → From m log)
    → All (λ m. From (m.0, take max_payload m.1) log) ms
From-self [] log into = tt
From-self ((seq, payload) ∷ ms) log into = (
  into (seq, take max_payload payload) (inl (refl, refl)),
  From-self ms log (λ m h. into m (inr h)),
)

-- A buffered message came from the list.
abbrev FromLog : List (ℕ × Bytes) → ReceivedMessage → Type 0
FromLog log m = From (m.sequence, m.payload) log

module _ {T : Type 0} (log : List (ℕ × Bytes)) where
  -- Every buffered message did.
  abbrev Genuine : ReliableChannelState T → Type 0
  Genuine s = (i : ℕ) → (s.recv_buffer i).valid ≡ true → FromLog log (s.recv_buffer i)

  buffered_cases :
      (s : ReliableChannelState T) (seq : ℕ) (payload : Bytes) (i : ℕ)
      → ((buffer_received_ordered s seq payload).1.recv_buffer i ≡ s.recv_buffer i)
        ⊎ ((buffer_received_ordered s seq payload).1.recv_buffer i
            ≡ record { sequence = seq; payload = take max_payload payload; valid = true })
  unfolding buffer_received_ordered
  buffered_cases s seq payload i = ground arith

  buffer_received_ordered-Genuine :
      (s : ReliableChannelState T) (seq : ℕ) (payload : Bytes)
      → From (seq, take max_payload payload) log
      → Genuine s
      → Genuine (buffer_received_ordered s seq payload).1
  buffer_received_ordered-Genuine s seq payload new g i h = elim (buffered_cases s seq payload i) [
    | inl e ↦ subst (FromLog log) (sym e) (g i (subst (λ m. m.valid ≡ true) e h))
    | inr e ↦ subst (FromLog log) (sym e) new
  ]

  taken_slot :
      (s : ReliableChannelState T) (i : ℕ)
      → ((taken s).recv_buffer i).valid ≡ true
      → (taken s).recv_buffer i ≡ s.recv_buffer i
  unfolding taken
  taken_slot s i h = ground arith

  taken-Genuine : (s : ReliableChannelState T) → Genuine s → Genuine (taken s)
  taken-Genuine s g i h =
      subst (FromLog log) (sym (taken_slot s i h))
        (g i (subst (λ m. m.valid ≡ true) (taken_slot s i h) h))

  ready_message :
      (s : ReliableChannelState T)
      → Genuine s
      → is_ready s ≡ true
      → From (s.recv_seq, (s.recv_buffer (slot s.recv_seq)).payload) log
  ready_message s g ready =
      subst (λ n. From (n, (s.recv_buffer (slot s.recv_seq)).payload) log) (number s ready)
        (g (slot s.recv_seq) (present s ready))
    where
      number :
          (s : ReliableChannelState T)
          → is_ready s ≡ true
          → (s.recv_buffer (slot s.recv_seq)).sequence ≡ s.recv_seq
      number s ready = ground arith

      present :
          (s : ReliableChannelState T)
          → is_ready s ≡ true
          → (s.recv_buffer (slot s.recv_seq)).valid ≡ true
      present s ready = ground arith

  deliver_loop-Genuine :
      (fuel : ℕ) (s : ReliableChannelState T)
      → Genuine s
      → All (λ m. From m log) (deliver_loop fuel s).0 × Genuine (deliver_loop fuel s).1
  unfolding deliver_loop
  deliver_loop-Genuine zero s g = (tt, g)
  deliver_loop-Genuine (suc fuel) s g =
      let rest = deliver_loop-Genuine fuel (taken s) (taken-Genuine s g) in
      elim (Bool-cases (is_ready s)) [
        | inl ready ↦ rw (ready, deliver_loop) ((ready_message s g ready, rest.0), rest.1)
        | inr idle ↦ rw (idle, deliver_loop) (tt, g)
      ]

  receive-Genuine :
      (s : ReliableChannelState T) (seq : ℕ) (payload : Bytes)
      → From (seq, take max_payload payload) log
      → Genuine s
      → All (λ m. From m log) (receive s seq payload).0 × Genuine (receive s seq payload).1
  unfolding receive deliver_ordered
  receive-Genuine s seq payload new g =
      let g' = buffer_received_ordered-Genuine s seq payload new g in
      elim (Bool-cases (buffer_received_ordered s seq payload).0) [
        | inl is_new ↦
            rw (is_new, receive)
              (deliver_loop-Genuine 65 (buffer_received_ordered s seq payload).1 g')
        | inr old ↦ rw (old, receive) (tt, g')
      ]

  receive_all-Genuine :
      (s : ReliableChannelState T) (ms : List (ℕ × Bytes))
      → All (λ m. From (m.0, take max_payload m.1) log) ms
      → Genuine s
      → All (λ m. From m log) (receive_all s ms).0
  unfolding receive_all
  receive_all-Genuine s [] hs g = tt
  receive_all-Genuine s ((seq, payload) ∷ ms) hs g =
      let step = receive-Genuine s seq payload hs.0 g in
      All-append (λ m. From m log) (receive s seq payload).0
        (receive_all (receive s seq payload).1 ms).0 step.0
        (receive_all-Genuine (receive s seq payload).1 ms hs.1 step.1)

-- Every message that an ordered channel delivers is one that arrived: it has the number and the
-- bytes, up to 1200 of them, of an arrival.
pub receive_all-From :
    {T : Type 0} (zero_time : T) (ms : List (ℕ × Bytes))
    → All (λ m. From m ms) (receive_all (reset zero_time) ms).0
unfolding reset
receive_all-From zero_time ms =
    receive_all-Genuine ms (reset zero_time) ms (From-self ms ms (λ m h. h)) (λ i h. cc)
