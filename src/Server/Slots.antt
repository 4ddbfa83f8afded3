-- ===== src/Server/Slots.antt =====
-- src/server.cpp: the slots of the server's clients, the list of the active ones with its reverse map
-- and the stack of the free ones. The array of groups is there; without it the code skips the loop.
pub mod Partition
pub mod History
mod Tests
use netudp.Base.{
  ℕ, zero, suc, ◌+◌, ◌-◌, ◌==◌, ltb, Bool, true, false, if◌then◌else◌, Array, update, Option, some,
  none, List, [], ◌∷◌,
}
use netudp.Group
use netudp.Group.{Group}

-- Of `netudp_server`; `slot_to_active` is -1 where it is `none`.
pub record SlotTable : Type 0 where
  pub active_slots : Array ℕ
  pub active_count : ℕ
  pub free_slots : Array ℕ
  pub free_count : ℕ
  pub slot_to_active : Array (Option ℕ)
  pub groups : Array Group
  pub max_groups : ℕ

-- What `netudp_server_create` makes of it.
unfoldable pub first_table : ℕ → Array Group → ℕ → SlotTable
first_table max_clients groups max_groups = record {
  active_slots = λ i. 0;
  active_count = 0;
  free_slots = λ i. max_clients - 1 - i;
  free_count = max_clients;
  slot_to_active = λ i. none;
  groups = groups;
  max_groups = max_groups;
}

-- The allocation in `server_handle_connection_request`: the slot, if there is one, and the table.
unfoldable pub activate_slot : SlotTable → Option (ℕ × SlotTable)
activate_slot t =
    let slot = t.free_slots (t.free_count - 1) in
    if t.free_count == 0
    then none
    else some (
      slot,
      record t {
        free_count = t.free_count - 1;
        slot_to_active = update t.slot_to_active slot (some t.active_count);
        active_slots = update t.active_slots t.active_count slot;
        active_count = t.active_count + 1;
      },
    )

-- The loop over the groups, the first `n` of them.
unfoldable pub leave_groups : Array Group → ℕ → ℕ → Array Group
leave_groups groups slot zero = groups
leave_groups groups slot (suc n) =
    let before = leave_groups groups slot n in
    if (before n).active then update before n (Group.remove (before n) slot).1 else before

-- Where the slot stands in the list.
unfoldable pub deactivate_at : SlotTable → ℕ → Option ℕ → SlotTable
deactivate_at t slot none = t
deactivate_at t slot (some active_pos) =
    let last = t.active_count - 1 in
    let moved_slot = t.active_slots last in
    record t {
      active_count = last;
      active_slots =
          if ltb active_pos last
          then update t.active_slots active_pos moved_slot
          else t.active_slots;
      slot_to_active =
          update
            (if ltb active_pos last
              then update t.slot_to_active moved_slot (some active_pos)
              else t.slot_to_active)
            slot none;
      free_slots = update t.free_slots t.free_count slot;
      free_count = t.free_count + 1;
      groups = leave_groups t.groups slot t.max_groups;
    }

unfoldable pub server_deactivate_slot : SlotTable → ℕ → SlotTable
server_deactivate_slot t slot = deactivate_at t slot (t.slot_to_active slot)
