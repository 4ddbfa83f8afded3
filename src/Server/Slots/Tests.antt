-- ===== src/Server/Slots/Tests.antt =====
-- Runs of the table of slots of src/server.cpp with three slots and one group.
use netudp.Base.{◌≡◌, refl, true, some, none, [], ◌∷◌, arith}
use netudp.Group.{Group}
use netudp.Group.Members.{IsValid}
use netudp.Server.Slots.{SlotTable, first_table, activate_slot, server_deactivate_slot}
use netudp.Server.Slots.Partition.{
  IsPartition, Freed, is_active, server_deactivate_slot-Freed, first_table-IsPartition,
}
use netudp.Server.Slots.History.{enter, leave, history, first_table-history}

abbrev party : Group
party = record {
  active = true;
  group_id = some 0;
  members = λ i. 0;
  member_count = 0;
  member_capacity = 4;
  slot_to_pos = some (λ slot. none);
}

party-IsValid : IsValid party
party-IsValid = record {
  agrees = record {
    names = λ slot pos e. ground (arith, e);
    listed = λ i lt. absurd (omega (arith, lt));
  };
  within = omega arith;
}

abbrev three : SlotTable
three = first_table 3 (λ g. party) 1

three-IsPartition : IsPartition 3 three
three-IsPartition = first_table-IsPartition 3 (λ g. party) 1

-- Slots 0 and 1 are given out and slot 0 comes back.
abbrev two_of_three : SlotTable
two_of_three = history three (enter ∷ enter ∷ [])

in_and_out : is_active two_of_three 0 ≡ true
unfolding activate_slot first_table
in_and_out = refl

server_deactivate_slot-Freed_example :
    Freed 3 two_of_three 0 (server_deactivate_slot two_of_three 0)
unfolding activate_slot first_table
server_deactivate_slot-Freed_example =
    server_deactivate_slot-Freed 3 two_of_three 0
      (first_table-history 3 (λ g. party) 1 (enter ∷ enter ∷ [])) (λ g. party-IsValid)

first_table-history_example :
    IsPartition 3 (
      history (first_table 3 (λ g. party) 1) (enter ∷ enter ∷ leave 0 ∷ enter ∷ enter ∷ enter ∷ []))
first_table-history_example =
    first_table-history 3 (λ g. party) 1 (enter ∷ enter ∷ leave 0 ∷ enter ∷ enter ∷ enter ∷ [])
