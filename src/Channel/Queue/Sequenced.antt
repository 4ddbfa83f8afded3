-- ===== src/Channel/Queue/Sequenced.antt =====
-- src/channel/channel.h, `on_recv_unreliable_sequenced`: what is delivered on a sequenced channel.
use netudp.Base.{ℕ, ◌<◌, ◌≡◌, leb, true, ◌&&◌, if◌then◌else◌, arith}
use netudp.Base.Words.{u16_mod, sub16}
use netudp.Channel.Queue.{Channel, is_stale, on_recv_unreliable, on_recv_unreliable_sequenced}

delivered_number :
    {T : Type 0} (c : Channel T) (sequence : ℕ)
    → (on_recv_unreliable_sequenced c sequence).0 ≡ true
    → (on_recv_unreliable_sequenced c sequence).1.last_delivered_seq ≡ sequence
unfolding on_recv_unreliable_sequenced on_recv_unreliable
delivered_number c sequence ok = ground (arith, ok)

next :
    {T : Type 0} (c : Channel T) (last sequence : ℕ)
    → c.last_delivered_seq ≡ last
    → 0 < last
    → last < u16_mod
    → sequence < u16_mod
    → let r = on_recv_unreliable_sequenced c sequence in
      (r.0 ≡ leb 1 (sub16 sequence last) && leb (sub16 sequence last) 32767)
      × (r.1.last_delivered_seq ≡ (if r.0 then sequence else last))
unfolding on_recv_unreliable_sequenced on_recv_unreliable is_stale
next c last sequence e pos hl hs = ground (arith, e, pos, hl, hs)

-- A message with a number other than 0 is delivered once at most in a row, and after it only numbers
-- up to 32767 ahead of it are delivered; those become the last delivered number.
pub on_recv_unreliable_sequenced-newer :
    {T : Type 0} (c : Channel T) (last sequence : ℕ)
    → 0 < last
    → last < u16_mod
    → sequence < u16_mod
    → (on_recv_unreliable_sequenced c last).0 ≡ true
    → let r = on_recv_unreliable_sequenced (on_recv_unreliable_sequenced c last).1 sequence in
      (r.0 ≡ leb 1 (sub16 sequence last) && leb (sub16 sequence last) 32767)
      × (r.1.last_delivered_seq ≡ (if r.0 then sequence else last))
on_recv_unreliable_sequenced-newer c last sequence pos hl hs ok =
    next (on_recv_unreliable_sequenced c last).1 last sequence (delivered_number c last ok) pos hl
      hs

-- When number 0 was delivered, as it is whenever the numbers wrap around, every number is delivered
-- next, 0 again and stale ones too.
pub on_recv_unreliable_sequenced_after_zero :
    {T : Type 0} (c : Channel T) (sequence : ℕ)
    → (on_recv_unreliable_sequenced c 0).0 ≡ true
    → (on_recv_unreliable_sequenced (on_recv_unreliable_sequenced c 0).1 sequence).0 ≡ true
unfolding on_recv_unreliable_sequenced is_stale
on_recv_unreliable_sequenced_after_zero c sequence ok = ground (arith, delivered_number c 0 ok)
