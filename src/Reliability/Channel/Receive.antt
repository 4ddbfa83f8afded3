-- ===== src/Reliability/Channel/Receive.antt =====
-- src/reliability/reliable_channel.h: a whole stream of arrivals at the ordered receiver, as
-- src/server.cpp feeds it.
use netudp.Base.{ℕ, ◌<◌, ◌≡◌, ◌⊎◌, true, if◌then◌else◌, List, [], ◌∷◌, ◌++◌, arith}
use netudp.Base.Lists.{take, All}
use netudp.Base.Words.{u16_mod, sub16}
use netudp.Reliability.Channel.{
  Bytes, ReliableChannelState, slot, max_payload, reliable_buffer_size, buffer_received_ordered,
  deliver_ordered,
}

-- `m` is one of the arrivals, its bytes cut at 1200.
abbrev pub From : ℕ × Bytes → List (ℕ × Bytes) → Type 0
From m [] = ⊥
From m ((seq, payload) ∷ ms) = ((m.0 ≡ seq) × (m.1 ≡ take max_payload payload)) ⊎ From m ms

pub All-append {ℓ} :
    {A : Type ℓ} (P : A → Type 0) (l m : List A) → All P l → All P m → All P (l ++ m)
All-append P [] m h k = k
All-append P (x ∷ l) m h k = (h.0, All-append P l m h.1 k)

module _ {T : Type 0} where
  -- The server buffers a message of an ordered channel, and delivers what is ready if it was new.
  unfoldable pub receive :
      ReliableChannelState T → ℕ → Bytes → List (ℕ × Bytes) × ReliableChannelState T
  receive s seq payload =
      let (new, s') = buffer_received_ordered s seq payload in
      if new then deliver_ordered s' else ([], s')

  -- All that is delivered while these messages arrive.
  unfoldable pub receive_all :
      ReliableChannelState T → List (ℕ × Bytes) → List (ℕ × Bytes) × ReliableChannelState T
  receive_all s [] = ([], s)
  receive_all s ((seq, payload) ∷ ms) =
      let (now, s') = receive s seq payload in
      let (later, s'') = receive_all s' ms in (now ++ later, s'')

  -- A buffered message that still lies in the window is not displaced by any other.
  pub buffer_received_ordered-keeps :
      (s : ReliableChannelState T) (q seq : ℕ) (payload : Bytes)
      → s.recv_seq < u16_mod
      → q < u16_mod
      → seq < u16_mod
      → sub16 q s.recv_seq < reliable_buffer_size
      → (s.recv_buffer (slot q)).valid ≡ true
      → (s.recv_buffer (slot q)).sequence ≡ q
      → (buffer_received_ordered s seq payload).1.recv_buffer (slot q) ≡ s.recv_buffer (slot q)
  unfolding buffer_received_ordered
  buffer_received_ordered-keeps s q seq payload hr hq hs near hv he = ground arith
