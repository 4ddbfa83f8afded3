-- ===== src/Server/Slots/Partition.antt =====
-- src/server.cpp: every slot is active or free, never both, and no group keeps a slot that is free.
use netudp.Base.{
  ℕ, zero, suc, ◌+◌, ◌-◌, ◌≤◌, ◌<◌, ◌≡◌, ◌≢◌, refl, sym, ap, ◌∙◌, subst, ◌==◌, ltb, Bool, true,
  false, if◌then◌else◌, Array, update, Option, some, none, Bool-cases, inl, inr, if-elim, arith,
}
use netudp.Group
use netudp.Group.{Group, has}
use netudp.Group.Members.{
  Agrees, Agrees-add, Agrees-remove_last, Agrees-remove_swap, IsValid, remove-Removed,
}
use netudp.Server.Slots.{
  SlotTable, first_table, activate_slot, leave_groups, deactivate_at, server_deactivate_slot,
}

pub record IsPartition (max_clients : ℕ) (t : SlotTable) : Type 0 where
  pub agrees : Agrees t.slot_to_active t.active_slots t.active_count
  pub total : t.active_count + t.free_count ≡ max_clients
  pub active_lt : (i : ℕ) → i < t.active_count → t.active_slots i < max_clients
  pub free_lt : (i : ℕ) → i < t.free_count → t.free_slots i < max_clients
  pub free_idle : (i : ℕ) → i < t.free_count → t.slot_to_active (t.free_slots i) ≡ none
  pub free_once : (i j : ℕ) → i < j → j < t.free_count → t.free_slots i ≢ t.free_slots j

pub first_table-IsPartition :
    (max_clients : ℕ) (groups : Array Group) (max_groups : ℕ)
    → IsPartition max_clients (first_table max_clients groups max_groups)
unfolding first_table
first_table-IsPartition max_clients groups max_groups = record {
  agrees = record { names = λ slot pos e. ground (arith, e); listed = λ i lt. ground (arith, lt) };
  total = omega arith;
  active_lt = λ i lt. absurd (omega (arith, lt));
  free_lt = λ i lt. omega (arith, lt);
  free_idle = λ i lt. refl;
  free_once = λ i j lt up e. omega (arith, lt, up, e);
}

Agrees-remove :
    (p : Array (Option ℕ)) (m : Array ℕ) (n s pos : ℕ) (c : Bool)
    → Agrees p m n
    → p s ≡ some pos
    → ltb pos (n - 1) ≡ c
    → Agrees
        (update (if c then update p (m (n - 1)) (some pos) else p) s none)
        (if c then update m pos (m (n - 1)) else m)
        (n - 1)
Agrees-remove p m n s pos true h e swap = Agrees-remove_swap p m n s pos h e (ground (arith, swap))
Agrees-remove p m n s pos false h e last = Agrees-remove_last p m n s pos h e (ground (arith, last))

-- The slot on top of the stack becomes active.
abbrev activated : SlotTable → SlotTable
activated t =
    let slot = t.free_slots (t.free_count - 1) in
    record t {
      free_count = t.free_count - 1;
      slot_to_active = update t.slot_to_active slot (some t.active_count);
      active_slots = update t.active_slots t.active_count slot;
      active_count = t.active_count + 1;
    }

module _ (max_clients : ℕ) (t : SlotTable) (h : IsPartition max_clients t) where
  activated-IsPartition : 0 < t.free_count → IsPartition max_clients (activated t)
  activated-IsPartition some_free = record {
    agrees =
        Agrees-add t.slot_to_active t.active_slots t.active_count (t.free_slots (t.free_count - 1))
          h.agrees (h.free_idle (t.free_count - 1) (omega (arith, some_free)));
    total = omega (arith, h.total, some_free);
    active_lt = λ i lt. ground (arith, lt, some_free, h.active_lt i, h.free_lt (t.free_count - 1));
    free_lt = λ i lt. h.free_lt i (omega (arith, lt));
    free_idle = λ i lt. ground (arith, lt, h.free_idle i, h.free_once i (t.free_count - 1));
    free_once = λ i j lt up. h.free_once i j lt (omega (arith, up));
  }

  pub deactivate_at-IsPartition :
      (slot : ℕ) (o : Option ℕ)
      → t.slot_to_active slot ≡ o
      → IsPartition max_clients (deactivate_at t slot o)
  unfolding deactivate_at
  deactivate_at-IsPartition slot none e = h
  deactivate_at-IsPartition slot (some pos) e = record {
    agrees =
        Agrees-remove t.slot_to_active t.active_slots t.active_count slot pos
          (ltb pos (t.active_count - 1)) h.agrees e refl;
    total = ground (arith, h.total, h.agrees.names slot pos e);
    active_lt = λ i lt. ground (arith, lt, h.active_lt i, h.active_lt (t.active_count - 1));
    free_lt = λ i lt. ground (arith, lt, h.free_lt i, h.agrees.names slot pos e, h.active_lt pos);
    free_idle = λ i lt. ground (
      arith,
      lt,
      e,
      h.free_idle i,
      h.agrees.listed (t.active_count - 1),
      h.agrees.names slot pos e,
    );
    free_once = λ i j lt up. ground (arith, lt, up, e, h.free_idle i, h.free_once i j);
  }

-- A slot is active if it has a place in the list.
abbrev pub is_active : SlotTable → ℕ → Bool
is_active t slot = elim (t.slot_to_active slot) [ none ↦ false | some pos ↦ true ]

-- After the allocation of a slot. It fails only if as many slots are active as there are.
abbrev pub Allocated : ℕ → SlotTable → Option (ℕ × SlotTable) → Type 0
Allocated max_clients t none = t.active_count ≡ max_clients
Allocated max_clients t (some (slot, t')) =
    (slot < max_clients)
    × ((is_active t slot ≡ false)
        × (IsPartition max_clients t'
            × ((s : ℕ) → is_active t' s ≡ (if slot == s then true else is_active t s))))

-- Where every slot is either in the list or on the stack, the allocation fails only if all slots are
-- active; else it gives a slot that was idle, exactly this slot becomes active, and every slot is in
-- the list or on the stack again.
pub activate_slot-Allocated :
    (max_clients : ℕ) (t : SlotTable)
    → IsPartition max_clients t
    → Allocated max_clients t (activate_slot t)
unfolding activate_slot
activate_slot-Allocated max_clients t h =
    if-elim (Allocated max_clients t) (t.free_count == 0) (λ full. ground (arith, full, h.total))
      (λ room. (
        ground (arith, room, h.free_lt (t.free_count - 1)),
        (
          ground (arith, room, h.free_idle (t.free_count - 1)),
          (activated-IsPartition max_clients t h (ground (arith, room)), λ s. ground arith),
        ),
      ))

leave_groups-apart :
    (groups : Array Group) (slot n g : ℕ) → n ≤ g → leave_groups groups slot n g ≡ groups g
unfolding leave_groups
leave_groups-apart groups slot zero g le = refl
leave_groups-apart groups slot (suc n) g le =
    ground (arith, le, leave_groups-apart groups slot n g (omega (arith, le)))

leave_groups-at :
    (groups : Array Group) (slot n g : ℕ)
    → g < n
    → leave_groups groups slot n g
      ≡ (if (groups g).active then (Group.remove (groups g) slot).1 else groups g)
unfolding leave_groups
leave_groups-at groups slot zero g lt = absurd (omega (arith, lt))
leave_groups-at groups slot (suc n) g lt = elim (Bool-cases (g == n)) [
  | inl same ↦
      subst
        (λ (k : ℕ).
          update_if k ≡ (if (groups k).active then (Group.remove (groups k) slot).1 else groups k))
        (sym (same_index g n same))
        (ground (arith, leave_groups-apart groups slot n n (omega arith)))
  | inr other ↦ ground (arith, other, leave_groups-at groups slot n g (ground (arith, lt, other)))
]
  where
    update_if : Array Group
    update_if = leave_groups groups slot (suc n)

    same_index : (g n : ℕ) → (g == n) ≡ true → g ≡ n
    same_index g n e = ground (arith, e)

-- After a slot was given up: it is idle, the others are as before, and it is in no active group.
abbrev pub Freed : ℕ → SlotTable → ℕ → SlotTable → Type 0
Freed max_clients t slot t' =
    IsPartition max_clients t'
    × (((s : ℕ) → is_active t' s ≡ (if slot == s then false else is_active t s))
        × ((g : ℕ)
            → is_active t slot ≡ true
            → g < t.max_groups
            → (t.groups g).active ≡ true
            → IsValid (t'.groups g) × (has (t'.groups g) slot ≡ false)))

deactivate_at-Freed :
    (max_clients : ℕ) (t : SlotTable) (slot : ℕ) (o : Option ℕ)
    → IsPartition max_clients t
    → ((g : ℕ) → IsValid (t.groups g))
    → t.slot_to_active slot ≡ o
    → Freed max_clients t slot (deactivate_at t slot o)
unfolding deactivate_at
deactivate_at-Freed max_clients t slot none h valid e =
    (h, (λ s. idle s, λ g was. ground (arith, was, e)))
  where
    idle : (s : ℕ) → is_active t s ≡ (if slot == s then false else is_active t s)
    idle s = ground (arith, at s)
      where
        at : (s : ℕ) → (slot == s) ≡ true → t.slot_to_active s ≡ none
        at s q = subst (λ (k : ℕ). t.slot_to_active k ≡ none) (index slot s q) e
          where
            index : (slot s : ℕ) → (slot == s) ≡ true → slot ≡ s
            index slot s q = ground (arith, q)
deactivate_at-Freed max_clients t slot (some pos) h valid e = (
  deactivate_at-IsPartition max_clients t h slot (some pos) e,
  (
    λ s. ground (arith, e, h.agrees.listed (t.active_count - 1), h.agrees.names slot pos e),
    λ g was lt on.
        let (told, (valid', gone)) = remove-Removed (t.groups g) slot (valid g) in
        let at : leave_groups t.groups slot t.max_groups g ≡ (Group.remove (t.groups g) slot).1 =
          leave_groups-at t.groups slot t.max_groups g lt
          ∙ ap (λ (b : Bool). if b then (Group.remove (t.groups g) slot).1 else t.groups g) on in
        (
          subst IsValid (sym at) valid',
          ap (λ (k : Group). has k slot) at ∙ gone slot ∙ ground arith,
        ),
  ),
)

-- Giving up a slot leaves every slot in the list or on the stack, makes exactly this slot idle, if it
-- was not, and then takes it out of every active group.
pub server_deactivate_slot-Freed :
    (max_clients : ℕ) (t : SlotTable) (slot : ℕ)
    → IsPartition max_clients t
    → ((g : ℕ) → IsValid (t.groups g))
    → Freed max_clients t slot (server_deactivate_slot t slot)
unfolding server_deactivate_slot
server_deactivate_slot-Freed max_clients t slot h valid =
    deactivate_at-Freed max_clients t slot (t.slot_to_active slot) h valid refl
