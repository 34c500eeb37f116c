-- ===== src/DMember/Delivery.antt =====
-- A heartbeat from the map of its sender to the queue of its receiver.
use mathlib.Core.Option
use cranesps.Base.{string_key, Option, none, some, List, [], ◌∷◌}
use cranesps.Base.StdMap.Order.{IsSorted, insert_new-IsSorted}
use cranesps.Member.{Member}
use cranesps.DMember.Types.{DMember, MemberMap, MemberEntry}
use cranesps.DMember.Messages.{member_of, members_from}

-- The first of two.
abbrev or_else : Option Member → Option Member → Option Member
or_else none o = o
or_else (some m) o = some m

pub members_from-IsSorted :
    (entries : List MemberEntry) (m : MemberMap) → IsSorted m → IsSorted (members_from entries m)
unfolding members_from
members_from-IsSorted [] m s = s
members_from-IsSorted (e ∷ entries) m s =
    members_from-IsSorted entries _ (insert_new-IsSorted e.id (member_of e) m s)
