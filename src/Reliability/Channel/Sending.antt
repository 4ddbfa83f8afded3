-- ===== src/Reliability/Channel/Sending.antt =====
-- src/reliability/reliable_channel.h, the sender: which messages are still to be retransmitted.
use netudp.Base.{
  ℕ, zero, suc, ◌+◌, ◌%◌, ◌≤◌, ◌<◌, ◌≡◌, refl, ◌∙◌, true, false, not, ◌||◌, leb, ◌==◌,
  if◌then◌else◌, update, some, none, List, [], ◌∷◌, arith, Bool-cases, inl, inr,
}
use netudp.Base.Float64.{Float64}
use netudp.Base.Lists.{length, All}
use netudp.Base.Words.{u16_mod, u32_mod, sub16}
use netudp.Reliability.Channel.{
  Bytes, SentMessage, ReliableChannelState, slot, max_payload, max_retries, record_send, mark,
  mark_acked, advance_oldest, get_for_retransmit, is_timed_out, retransmit_loop, find_retransmits,
}

module _ {T : Type 0} where
  -- A message of 1 to 1200 bytes is on record under the next number, with its bytes; each of the 63
  -- messages before it stays as it was, also across the wrap of the numbers.
  pub get_for_retransmit-record_send :
      (s : ReliableChannelState T) (payload : Bytes) (packet : ℕ) (time : T) (q : ℕ)
      → 0 < length payload
      → length payload ≤ max_payload
      → s.send_seq < u16_mod
      → q < u16_mod
      → 0 < sub16 s.send_seq q
      → sub16 s.send_seq q < 64
      → let (sent, s') = record_send s payload packet time in
        (sent ≡ true)
        × (s'.send_seq ≡ (s.send_seq + 1) % u16_mod)
        × (get_for_retransmit s' s.send_seq
            ≡ some (record {
              sequence = s.send_seq;
              packet_sequence = packet;
              send_time = time;
              retry_count = 0;
              payload = payload;
              acked = false;
              valid = true;
            }))
        × (get_for_retransmit s' q ≡ get_for_retransmit s q)
  unfolding record_send get_for_retransmit
  get_for_retransmit-record_send s payload packet time q h1 h2 hs hq lo hi =
      (ground arith, ground arith, ground arith, ground arith)

  -- Nothing stops the sender from running ahead: when 64 messages are under way, the next one takes
  -- the place of the oldest, which can no longer be retransmitted.
  pub record_send_displaces :
      (s : ReliableChannelState T) (payload : Bytes) (packet : ℕ) (time : T) (q : ℕ)
      → 0 < length payload
      → length payload ≤ max_payload
      → s.send_seq < u16_mod
      → q < u16_mod
      → sub16 s.send_seq q ≡ 64
      → get_for_retransmit (record_send s payload packet time).1 q ≡ none
  unfolding record_send get_for_retransmit
  record_send_displaces s payload packet time q h1 h2 hs hq e = ground arith

  advance_oldest-get_for_retransmit :
      (fuel : ℕ) (s : ReliableChannelState T) (q : ℕ)
      → get_for_retransmit (advance_oldest fuel s) q ≡ get_for_retransmit s q
  unfolding advance_oldest get_for_retransmit
  advance_oldest-get_for_retransmit zero s q = refl
  advance_oldest-get_for_retransmit (suc fuel) s q = ground (
    arith,
    advance_oldest-get_for_retransmit fuel
        (record s {
          sent_buffer =
              update s.sent_buffer (slot s.oldest_unacked)
                (record (s.sent_buffer (slot s.oldest_unacked)) { valid = false });
          oldest_unacked = (s.oldest_unacked + 1) % u16_mod;
        })
        q,
  )

  -- An acknowledgement takes exactly its own message out of what is to be retransmitted.
  pub get_for_retransmit-mark_acked :
      (s : ReliableChannelState T) (seq q : ℕ)
      → get_for_retransmit (mark_acked s seq) q
        ≡ (if seq == q then none else get_for_retransmit s q)
  unfolding mark_acked mark get_for_retransmit
  get_for_retransmit-mark_acked s seq q =
      advance_oldest-get_for_retransmit _ (mark s seq) q ∙ ground arith

  -- The oldest message was given up: it is not acknowledged and its slot no longer counts. Then no
  -- acknowledgement whatever moves `oldest_unacked` again.
  pub mark_acked_stuck :
      (s : ReliableChannelState T) (seq : ℕ)
      → (s.sent_buffer (slot s.oldest_unacked)).valid ≡ false
      → (s.sent_buffer (slot s.oldest_unacked)).acked ≡ false
      → (mark_acked s seq).oldest_unacked ≡ s.oldest_unacked
  unfolding mark_acked mark
  mark_acked_stuck s seq gone open_ = stays (sub16 s.send_seq s.oldest_unacked)
    where
      stays : (fuel : ℕ) → (advance_oldest fuel (mark s seq)).oldest_unacked ≡ s.oldest_unacked
      stays zero = unfold advance_oldest in (ground arith)
      stays (suc fuel) = unfold advance_oldest in (ground arith)

module _ (F : Float64) where
  open F use {Carrier}

  -- A message that is due: on record under `seq`, not acknowledged, timed out, with fewer than 10
  -- retries.
  abbrev pub IsDue : ReliableChannelState Carrier → Carrier → Carrier → ℕ → Type 0
  IsDue s now rto seq =
      (m : SentMessage Carrier) × (get_for_retransmit s seq ≡ some m)
      × (is_timed_out F m now rto ≡ true)
      × (m.retry_count < max_retries)

  retransmit_loop-length :
      (rounds room seq : ℕ) (s : ReliableChannelState Carrier) (now rto : Carrier)
      → length (retransmit_loop F rounds room seq s now rto).0 ≤ room
  unfolding retransmit_loop
  retransmit_loop-length zero room seq s now rto = omega arith
  retransmit_loop-length (suc rounds) zero seq s now rto = omega arith
  retransmit_loop-length (suc rounds) (suc room) seq s now rto = ground (
    arith,
    retransmit_loop-length rounds (suc room) ((seq + 1) % u16_mod) s now rto,
    retransmit_loop-length rounds room ((seq + 1) % u16_mod) s now rto,
    retransmit_loop-length rounds (suc room) ((seq + 1) % u16_mod)
        (record s {
          sent_buffer =
              update s.sent_buffer (slot seq) (record (s.sent_buffer (slot seq)) { valid = false });
          messages_dropped = (s.messages_dropped + 1) % u32_mod;
        })
        now rto,
  )

  give_up : ReliableChannelState Carrier → ℕ → ReliableChannelState Carrier
  give_up s seq = record s {
    sent_buffer =
        update s.sent_buffer (slot seq) (record (s.sent_buffer (slot seq)) { valid = false });
    messages_dropped = (s.messages_dropped + 1) % u32_mod;
  }

  give_up-get_for_retransmit :
      (s : ReliableChannelState Carrier) (seq q : ℕ) (m : SentMessage Carrier)
      → get_for_retransmit (give_up s seq) q ≡ some m
      → get_for_retransmit s q ≡ some m
  unfolding give_up get_for_retransmit
  give_up-get_for_retransmit s seq q m h = ground arith

  give_up-All :
      (s : ReliableChannelState Carrier) (now rto : Carrier) (seq : ℕ) (l : List ℕ)
      → All (IsDue (give_up s seq) now rto) l
      → All (IsDue s now rto) l
  give_up-All s now rto seq [] h = tt
  give_up-All s now rto seq (q ∷ l) ((m, kept, late, few), h) =
      ((m, give_up-get_for_retransmit s seq q m kept, late, few), give_up-All s now rto seq l h)

  retransmit_loop-IsDue :
      (rounds room seq : ℕ) (s : ReliableChannelState Carrier) (now rto : Carrier)
      → All (IsDue s now rto) (retransmit_loop F rounds room seq s now rto).0
  unfolding retransmit_loop give_up
  retransmit_loop-IsDue zero room seq s now rto = tt
  retransmit_loop-IsDue (suc rounds) zero seq s now rto = tt
  retransmit_loop-IsDue (suc rounds) (suc room) seq s now rto =
      elim (Bool-cases (not msg.valid || (not (msg.sequence == seq) || msg.acked))) [
        | inl absent ↦
            rw (absent, retransmit_loop)
              (retransmit_loop-IsDue rounds (suc room) ((seq + 1) % u16_mod) s now rto)
        | inr there ↦ elim (Bool-cases (is_timed_out F msg now rto)) [
          | inr early ↦
              rw (there, early, retransmit_loop)
                (retransmit_loop-IsDue rounds (suc room) ((seq + 1) % u16_mod) s now rto)
          | inl late ↦ elim (Bool-cases (leb max_retries msg.retry_count)) [
            | inl many ↦
                rw (there, late, many, retransmit_loop)
                  (give_up-All s now rto seq _ (
                    retransmit_loop-IsDue rounds (suc room) ((seq + 1) % u16_mod) (give_up s seq)
                      now rto))
            | inr few ↦
                rw (there, late, few, retransmit_loop)
                  (
                    (msg, unfold get_for_retransmit in (ground arith), late, ground arith),
                    retransmit_loop-IsDue rounds room ((seq + 1) % u16_mod) s now rto,
                  )
          ]
        ]
      ]
    where
      msg : SentMessage Carrier
      msg = s.sent_buffer (slot seq)

  -- `find_retransmits` gives at most `max_count` numbers, and each is that of a message that is on
  -- record, not acknowledged, past its backed-off timeout and below 10 retries.
  pub find_retransmits-IsDue :
      (s : ReliableChannelState Carrier) (now rto : Carrier) (max_count : ℕ)
      → (length (find_retransmits F s now rto max_count).0 ≤ max_count)
        × All (IsDue s now rto) (find_retransmits F s now rto max_count).0
  unfolding find_retransmits
  find_retransmits-IsDue s now rto max_count = (
    retransmit_loop-length (sub16 s.send_seq s.oldest_unacked) max_count s.oldest_unacked s now rto,
    retransmit_loop-IsDue (sub16 s.send_seq s.oldest_unacked) max_count s.oldest_unacked s now rto,
  )
