-- ===== src/Server/Slots/History.antt =====
-- src/server.cpp: the table of slots over all clients that come and go.
use netudp.Base.{ℕ, refl, Array, Option, some, none, List, [], ◌∷◌}
use netudp.Group.{Group}
use netudp.Server.Slots.{SlotTable, first_table, activate_slot, server_deactivate_slot}
use netudp.Server.Slots.Partition.{
  IsPartition, Allocated, activate_slot-Allocated, deactivate_at-IsPartition,
  first_table-IsPartition,
}

-- A client is let in, or the client of a slot leaves or times out.
pub data Event : Type 0 where
  enter : Event
  leave : ℕ → Event

abbrev table_after : SlotTable → Option (ℕ × SlotTable) → SlotTable
table_after t none = t
table_after t (some (slot, t')) = t'

abbrev pub happen : SlotTable → Event → SlotTable
happen t enter = table_after t (activate_slot t)
happen t (leave slot) = server_deactivate_slot t slot

abbrev pub history : SlotTable → List Event → SlotTable
history t [] = t
history t (e ∷ es) = history (happen t e) es

table_after-IsPartition :
    (max_clients : ℕ) (t : SlotTable) (o : Option (ℕ × SlotTable))
    → IsPartition max_clients t
    → Allocated max_clients t o
    → IsPartition max_clients (table_after t o)
table_after-IsPartition max_clients t none h a = h
table_after-IsPartition max_clients t (some (slot, t')) h a = a.1.1.0

happen-IsPartition :
    (max_clients : ℕ) (t : SlotTable) (e : Event)
    → IsPartition max_clients t
    → IsPartition max_clients (happen t e)
unfolding server_deactivate_slot
happen-IsPartition max_clients t enter h =
    table_after-IsPartition max_clients t (activate_slot t) h
      (activate_slot-Allocated max_clients t h)
happen-IsPartition max_clients t (leave slot) h =
    deactivate_at-IsPartition max_clients t h slot (t.slot_to_active slot) refl

history-IsPartition :
    (max_clients : ℕ) (t : SlotTable) (es : List Event)
    → IsPartition max_clients t
    → IsPartition max_clients (history t es)
history-IsPartition max_clients t [] h = h
history-IsPartition max_clients t (e ∷ es) h =
    history-IsPartition max_clients (happen t e) es (happen-IsPartition max_clients t e h)

-- However clients come and go after the server was made, every slot is in the list of active slots,
-- which the reverse map agrees with, or on the stack of free slots, once and not in both.
pub first_table-history :
    (max_clients : ℕ) (groups : Array Group) (max_groups : ℕ) (es : List Event)
    → IsPartition max_clients (history (first_table max_clients groups max_groups) es)
first_table-history max_clients groups max_groups es =
    history-IsPartition max_clients (first_table max_clients groups max_groups) es
      (first_table-IsPartition max_clients groups max_groups)
