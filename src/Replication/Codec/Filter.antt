-- ===== src/Replication/Codec/Filter.antt =====
-- src/replication/replicate.cpp, `filter_mask` in `replicate_serialize`: which properties go to which
-- client.
use netudp.Base.{
  ℕ, zero, suc, ◌-◌, ◌%◌, ◌^◌, ◌<◌, ◌≡◌, ap, ◌∙◌, ltb, Bool, true, not, ◌&&◌, if◌then◌else◌,
  if-elim, arith,
}
use native.Mathlib.Nat.{pow-suc}
use netudp.Base.Bits.{test_bit, test_bit-clear_bit, test_bit-zero}
use netudp.Replication.Entity.{Entity}
use netudp.Replication.Schema.{PropDesc, Schema, rep_owner_only, rep_skip_owner, rep_initial_only}
use netudp.Replication.Codec.{is_owner, is_withheld, filter_mask, start_mask}
use netudp.Replication.Codec.Exchange.{sent_mask}

-- What the flags of a property say about who may see it, and when.
abbrev pub may_see : PropDesc → Bool → Bool → Bool
may_see pd owner is_initial =
    (if test_bit pd.rep_flags rep_owner_only then owner else true)
    && ((if test_bit pd.rep_flags rep_skip_owner then not owner else true)
        && (if test_bit pd.rep_flags rep_initial_only then is_initial else true))

positive : (n : ℕ) → 0 < 2 ^ n
positive zero = omega arith
positive (suc n) = omega (arith, positive n, pow-suc 2 n)

test_bit-ones : (n i : ℕ) → test_bit (2 ^ n - 1) i ≡ ltb i n
unfolding test_bit
test_bit-ones zero i = test_bit-zero i ∙ ground arith
test_bit-ones (suc n) zero = ground (arith, pow-suc 2 n, positive n)
test_bit-ones (suc n) (suc i) =
    ap (λ x. test_bit x i) (omega (arith, pow-suc 2 n, positive n))
    ∙ test_bit-ones n i
    ∙ ground arith

module _ {T : Type 0} (ent : Entity T) (s : Schema) (client : ℕ) (is_initial : Bool) where
  is_withheld-may_see :
      (pd : PropDesc)
      → is_withheld ent pd client is_initial
        ≡ not (may_see pd (is_owner ent.owner_client client) is_initial)
  unfolding is_withheld
  is_withheld-may_see pd = ground arith

  test_bit-filter_mask :
      (mask n i : ℕ)
      → test_bit (filter_mask ent s client is_initial mask n) i ≡ (
          if ltb i n
          then test_bit mask i && not (is_withheld ent (s.props i) client is_initial)
          else test_bit mask i)
  unfolding filter_mask
  test_bit-filter_mask mask zero i = ground arith
  test_bit-filter_mask mask (suc n) i =
      let before = filter_mask ent s client is_initial mask n in
      if-elim
        (λ m. test_bit m i ≡ (
          if ltb i (suc n)
          then test_bit mask i && not (is_withheld ent (s.props i) client is_initial)
          else test_bit mask i))
        (test_bit before n && is_withheld ent (s.props n) client is_initial)
        (λ cleared.
          test_bit-clear_bit before n i
          ∙ ground (arith, cleared, test_bit-filter_mask mask n i, withheld_at i n))
        (λ kept.
          test_bit-filter_mask mask n i
          ∙ ground (arith, kept, test_bit-filter_mask mask n n, withheld_at i n, bit_at i n))
    where
      withheld_at :
          (i n : ℕ)
          → i ≡ n
          → is_withheld ent (s.props i) client is_initial
            ≡ is_withheld ent (s.props n) client is_initial
      withheld_at i n e = ap (λ (k : ℕ). is_withheld ent (s.props k) client is_initial) e

      bit_at : (i n : ℕ) → i ≡ n → test_bit mask i ≡ test_bit mask n
      bit_at i n e = ap (test_bit mask) e

-- Of a schema with fewer than 64 properties, a property goes into an update for a client exactly if
-- its dirty bit is set or the update is an initial one (`is_initial`), and its flags let this client
-- see it in such an update.
pub test_bit-sent_mask :
    {T : Type 0} (ent : Entity T) (s : Schema) (client : ℕ) (is_initial : Bool) (i : ℕ)
    → s.prop_count < 64
    → i < s.prop_count
    → test_bit (sent_mask ent s client is_initial) i ≡ (
        (if is_initial then true else test_bit ent.dirty_mask i)
        && may_see (s.props i) (is_owner ent.owner_client client) is_initial)
unfolding start_mask
test_bit-sent_mask ent s client is_initial i few h =
    test_bit-filter_mask ent s client is_initial (start_mask ent s is_initial) s.prop_count i
    ∙ ground (
      arith,
      h,
      few,
      test_bit-ones s.prop_count i,
      ap (λ n. test_bit (2 ^ n - 1) i) (no_wrap s.prop_count few),
      is_withheld-may_see ent s client is_initial (s.props i),
    )
  where
    no_wrap : (n : ℕ) → n < 64 → n % 64 ≡ n
    no_wrap n h = omega (arith, h)
