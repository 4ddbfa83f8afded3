-- ===== src/Group.antt =====
-- src/group/group.h: a set of client slots as a compact array with a reverse map. Slots and positions
-- are natural numbers: the guards against a negative slot have no case here, and -1 in the reverse map
-- or as `group_id` is `none`. A null `slot_to_pos` is `none` too; `members` is null exactly then, and
-- its entries count for nothing.
pub mod Members
mod Tests
use netudp.Base.{
  ℕ, zero, suc, ◌+◌, ◌-◌, ltb, leb, Bool, true, false, if◌then◌else◌, Array, update, Option, some,
  none,
}

pub record Group : Type 0 where
  pub active : Bool
  pub group_id : Option ℕ
  pub members : Array ℕ
  pub member_count : ℕ
  pub member_capacity : ℕ
  pub slot_to_pos : Option (Array (Option ℕ))

unfoldable pub add_slot : Group → Array (Option ℕ) → ℕ → Option ℕ → Bool × Group
add_slot g positions slot (some pos) = (false, g)
add_slot g positions slot none = if leb g.member_capacity g.member_count then (false, g) else (
  true,
  record g {
    slot_to_pos = some (update positions slot (some g.member_count));
    members = update g.members g.member_count slot;
    member_count = g.member_count + 1;
  },
)

unfoldable pub add : Group → ℕ → Bool × Group
add g slot = elim g.slot_to_pos [
  | none ↦ (false, g)
  | some positions ↦ add_slot g positions slot (positions slot)
]

-- The last member moves into the place that becomes free.
unfoldable pub remove_slot : Group → Array (Option ℕ) → ℕ → Option ℕ → Bool × Group
remove_slot g positions slot none = (false, g)
remove_slot g positions slot (some pos) =
    let last = g.member_count - 1 in
    if ltb pos last
    then (
      true,
      record g {
        member_count = last;
        members = update g.members pos (g.members last);
        slot_to_pos = some (update (update positions (g.members last) (some pos)) slot none);
      },
    )
    else (true, record g { member_count = last; slot_to_pos = some (update positions slot none) })

unfoldable pub remove : Group → ℕ → Bool × Group
remove g slot = elim g.slot_to_pos [
  | none ↦ (false, g)
  | some positions ↦ remove_slot g positions slot (positions slot)
]

unfoldable pub has_pos : Option ℕ → Bool
has_pos none = false
has_pos (some pos) = true

unfoldable pub has : Group → ℕ → Bool
has g slot = elim g.slot_to_pos [ none ↦ false | some positions ↦ has_pos (positions slot) ]

-- The caller's buffers hold `max_clients` and `capacity` entries.
unfoldable pub init : Group → ℕ → ℕ → Group
init g id capacity = record g {
  active = true;
  group_id = some id;
  member_count = 0;
  member_capacity = capacity;
  slot_to_pos = some (λ slot. none);
}

-- the loop of `clear`, from the first member on
unfoldable pub clear_loop : ℕ → ℕ → Array ℕ → Array (Option ℕ) → Array (Option ℕ)
clear_loop zero i members positions = positions
clear_loop (suc n) i members positions =
    clear_loop n (i + 1) members (update positions (members i) none)

unfoldable pub clear : Group → Group
clear g = elim g.slot_to_pos [
  | none ↦ record g { member_count = 0 }
  | some positions ↦ record g {
    slot_to_pos = some (clear_loop g.member_count 0 g.members positions);
    member_count = 0;
  }
]

unfoldable pub reset : Group → Group
reset g = record (clear g) {
  active = false;
  group_id = none;
  slot_to_pos = none;
  member_count = 0;
  member_capacity = 0;
}
