-- ===== src/Group/Tests.antt =====
-- Runs of src/group/group.h.
use netudp.Base.{false, none, arith}
use netudp.Group.{Group, add, remove, init}
use netudp.Group.Members.{IsValid, Removed, add-Added, remove-Removed}

abbrev raw : Group
raw = record {
  active = false;
  group_id = none;
  members = λ i. 0;
  member_count = 0;
  member_capacity = 0;
  slot_to_pos = none;
}

abbrev party : Group
party = init raw 3 2

party-IsValid : IsValid party
unfolding init
party-IsValid = record {
  agrees = record {
    names = λ slot pos e. ground (arith, e);
    listed = λ i lt. absurd (omega (arith, lt));
  };
  within = omega arith;
}

abbrev of_nine : Group
of_nine = (add party 9).1

of_nine-IsValid : IsValid of_nine
of_nine-IsValid = (add-Added party 9 party-IsValid).1.0

remove-Removed_example : Removed of_nine 9 (remove of_nine 9)
remove-Removed_example = remove-Removed of_nine 9 of_nine-IsValid
