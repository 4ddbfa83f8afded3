-- ===== src/Group/Members.antt =====
-- src/group/group.h: the compact array and the reverse map agree, and the group is a set of slots.
use netudp.Base.{
  ℕ, zero, suc, ◌+◌, ◌-◌, ◌≤◌, ◌<◌, ◌≡◌, refl, sym, ap, ◌==◌, ltb, Bool, true, false, not, ◌&&◌,
  leb, Bool-cases, inl, inr, if◌then◌else◌, Array, update, Option, some, none, Option-cases,
  if-elim, subst, arith,
}
use netudp.Group.{Group, add, add_slot, remove, remove_slot, has, has_pos, clear, clear_loop}

-- `p` gives the positions of exactly the first `n` entries of `m`, which are distinct.
pub record Agrees (p : Array (Option ℕ)) (m : Array ℕ) (n : ℕ) : Type 0 where
  pub names : (slot pos : ℕ) → p slot ≡ some pos → (pos < n) × (m pos ≡ slot)
  pub listed : (i : ℕ) → i < n → p (m i) ≡ some i

pub Agrees-add :
    (p : Array (Option ℕ)) (m : Array ℕ) (n s : ℕ)
    → Agrees p m n
    → p s ≡ none
    → Agrees (update p s (some n)) (update m n s) (n + 1)
Agrees-add p m n s h e = record {
  names = λ slot pos q. ground (arith, h.names slot pos, q, e);
  listed = λ i lt. ground (arith, h.listed i, e);
}

pub Agrees-remove_last :
    (p : Array (Option ℕ)) (m : Array ℕ) (n s pos : ℕ)
    → Agrees p m n
    → p s ≡ some pos
    → n - 1 ≤ pos
    → Agrees (update p s none) m (n - 1)
Agrees-remove_last p m n s pos h e last = record {
  names = λ slot k q. ground (arith, h.names slot k, h.names s pos e, q, last);
  listed = λ i lt. ground (arith, h.listed i, h.names s pos e, last);
}

pub Agrees-remove_swap :
    (p : Array (Option ℕ)) (m : Array ℕ) (n s pos : ℕ)
    → Agrees p m n
    → p s ≡ some pos
    → pos < n - 1
    → Agrees (update (update p (m (n - 1)) (some pos)) s none) (update m pos (m (n - 1))) (n - 1)
Agrees-remove_swap p m n s pos h e swap = record {
  names = λ slot k q. ground (arith, h.names slot k, h.names s pos e, h.listed (n - 1), q, swap);
  listed = λ i lt. ground (arith, h.listed i, h.listed (n - 1), h.names s pos e, swap);
}

abbrev pub positions_of : Group → Array (Option ℕ)
positions_of g = elim g.slot_to_pos [ none ↦ λ slot. none | some p ↦ p ]

-- The invariant of a group.
pub record IsValid (g : Group) : Type 0 where
  pub agrees : Agrees (positions_of g) g.members g.member_count
  pub within : g.member_count ≤ g.member_capacity

-- The group with this reverse map.
abbrev with_positions : Group → Array (Option ℕ) → Group
with_positions g p = record g { slot_to_pos = some p }

abbrev pub is_null : Group → Bool
is_null g = elim g.slot_to_pos [ none ↦ true | some p ↦ false ]

-- After `add` of `s`: the group is valid, and `s` is the one member more, if there is room.
abbrev pub Added : Group → ℕ → Bool × Group → Type 0
Added g s (ok, g') =
    (ok ≡ not (has g s) && (not (is_null g) && ltb g.member_count g.member_capacity))
    × (IsValid g' × ((t : ℕ) → has g' t ≡ (if ok && (s == t) then true else has g t)))

Added-add_slot :
    (g : Group) (p : Array (Option ℕ)) (s : ℕ) (o : Option ℕ)
    → IsValid (with_positions g p)
    → p s ≡ o
    → Added (with_positions g p) s (add_slot (with_positions g p) p s o)
unfolding add_slot has has_pos
Added-add_slot g p s (some pos) v e = (ground (arith, e), (v, λ t. refl))
Added-add_slot g p s none v e =
    if-elim (Added (with_positions g p) s) (leb g.member_capacity g.member_count)
      (λ full. (ground (arith, e, full), (v, λ t. refl)))
      (λ room. (
        ground (arith, e, room),
        (
          record {
            agrees = Agrees-add p g.members g.member_count s v.agrees e;
            within = ground (arith, room);
          },
          λ t. ground arith,
        ),
      ))

-- After `remove` of `s`: the group is valid, and `s` is the one member less.
abbrev pub Removed : Group → ℕ → Bool × Group → Type 0
Removed g s (ok, g') =
    (ok ≡ has g s) × (IsValid g' × ((t : ℕ) → has g' t ≡ (if s == t then false else has g t)))

Removed-remove_slot :
    (g : Group) (p : Array (Option ℕ)) (s : ℕ) (o : Option ℕ)
    → IsValid (with_positions g p)
    → p s ≡ o
    → Removed (with_positions g p) s (remove_slot (with_positions g p) p s o)
unfolding remove_slot has has_pos
Removed-remove_slot g p s none v e = (ground (arith, e), (v, λ t. ground (arith, e)))
Removed-remove_slot g p s (some pos) v e =
    if-elim (Removed (with_positions g p) s) (ltb pos (g.member_count - 1))
      (λ swap. (
        ground (arith, e),
        (
          record {
            agrees =
                Agrees-remove_swap p g.members g.member_count s pos v.agrees e
                  (ground (arith, swap));
            within = ground (arith, v.within);
          },
          λ t. ground (arith, swap, v.agrees.listed (g.member_count - 1)),
        ),
      ))
      (λ last. (
        ground (arith, e),
        (
          record {
            agrees =
                Agrees-remove_last p g.members g.member_count s pos v.agrees e
                  (ground (arith, last));
            within = ground (arith, v.within);
          },
          λ t. ground arith,
        ),
      ))

-- A group without a reverse map has no members, and `add` and `remove` leave it as it is.
by_positions :
    (P : Group → Type 0) (g : Group)
    → ((e : g.slot_to_pos ≡ none) → P (record g { slot_to_pos = none }))
    → ((p : Array (Option ℕ)) → P (with_positions g p))
    → P g
by_positions P g null there = elim (Option-cases g.slot_to_pos) [
  | inl e ↦ subst P (ap (λ o. record g { slot_to_pos = o }) (sym e)) (null e)
  | inr (p, e) ↦ subst P (ap (λ o. record g { slot_to_pos = o }) (sym e)) (there p)
]

-- Of a valid group, `add` of a slot answers true exactly if the slot is no member yet, the group has
-- its storage and there is room; the group stays valid and gains exactly that member if so.
pub add-Added : (g : Group) (s : ℕ) → IsValid g → Added g s (add g s)
unfolding add has
add-Added g s =
    by_positions (λ g. IsValid g → Added g s (add g s)) g (λ e v. (refl, (v, λ t. refl)))
      (λ p v. Added-add_slot g p s (p s) v refl)

-- Of a valid group, `remove` of a slot answers true exactly if the slot is a member; the group stays
-- valid and loses exactly that member.
pub remove-Removed : (g : Group) (s : ℕ) → IsValid g → Removed g s (remove g s)
unfolding remove has
remove-Removed g s =
    by_positions (λ g. IsValid g → Removed g s (remove g s)) g
      (λ e v. (refl, (v, λ t. ground arith))) (λ p v. Removed-remove_slot g p s (p s) v refl)

clear_loop-none :
    (n i : ℕ) (m : Array ℕ) (p : Array (Option ℕ)) (t : ℕ)
    → p t ≡ none
    → clear_loop n i m p t ≡ none
unfolding clear_loop
clear_loop-none zero i m p t e = e
clear_loop-none (suc n) i m p t e =
    clear_loop-none n (i + 1) m (update p (m i) none) t (ground (arith, e))

clear_loop-listed :
    (n i : ℕ) (m : Array ℕ) (p : Array (Option ℕ)) (pos : ℕ)
    → i ≤ pos
    → pos < i + n
    → clear_loop n i m p (m pos) ≡ none
unfolding clear_loop
clear_loop-listed zero i m p pos lo hi = absurd (omega arith)
clear_loop-listed (suc n) i m p pos lo hi = elim (Bool-cases (i == pos)) [
  | inl e ↦ clear_loop-none n (i + 1) m (update p (m i) none) (m pos) (ground (arith, e))
  | inr e ↦
      clear_loop-listed n (i + 1) m (update p (m i) none) pos (ground (arith, e)) (omega arith)
]

-- After `clear` of a valid group no slot is a member.
pub clear-has : (g : Group) (t : ℕ) → IsValid g → has (clear g) t ≡ false
unfolding clear has has_pos
clear-has g t =
    by_positions (λ g. IsValid g → has (clear g) t ≡ false) g (λ e v. refl)
      (λ p v. elim (Option-cases (p t)) [
        | inl e ↦ ap has_pos (clear_loop-none g.member_count 0 g.members p t e)
        | inr (pos, e) ↦
            let (lt, q) = v.agrees.names t pos e in
            ap has_pos (
              subst (λ t. clear_loop g.member_count 0 g.members p t ≡ none) q
                (clear_loop-listed g.member_count 0 g.members p pos (omega arith)
                  (omega (arith, lt))))
      ])
