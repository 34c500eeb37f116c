-- ===== src/Member.antt =====
-- daemon/src/member/Member.{h,cpp}: what a node knows of a member of the group.
-- A reading of the clock is an argument, in nanoseconds since the epoch; the heartbeat count is
-- unbounded (it grows by one in half a second), a duration in milliseconds is the code's `int`.
pub mod Clock
use cranesps.Base.{ℕ, ◌+◌, String, Bool, true, false, ◌&&◌, not, ltb, if◌then◌else◌}
use cranesps.Base.Words.{narrow_diff, int_gt}

pub record Member : Type 0 where
  pub member_id : String
  pub session_id : ℕ
  pub count : ℕ
  pub last_update : ℕ
  pub suspicious : Bool
  pub leaving : Bool

-- Milliseconds.
abbrev pub t_fail : ℕ
t_fail = 2000

abbrev pub t_cleanup : ℕ
t_cleanup = 2000

abbrev pub t_left : ℕ
t_left = 4000

-- The constructor's default arguments.
abbrev pub fresh : String → ℕ → ℕ → Member
fresh member_id session_id now = record {
  member_id = member_id;
  session_id = session_id;
  count = 0;
  last_update = now;
  suspicious = false;
  leaving = false;
}

unfoldable pub update : ℕ → ℕ → Bool → Bool → Member → Member
update count timestamp suspicious leaving m = record m {
  count = count;
  last_update = timestamp;
  suspicious = suspicious;
  leaving = leaving;
}

-- The overload that takes another record of the same member.
unfoldable pub update_from : Member → ℕ → Member → Member
update_from other now m =
    if ltb m.count other.count
    then record m { count = other.count; last_update = now; leaving = other.leaving }
    else m

-- The `int` of milliseconds that the three tests below compute.
abbrev pub duration : ℕ → Member → ℕ
duration now m = narrow_diff now m.last_update 1000000

unfoldable pub is_timed_out : ℕ → Member → Bool
is_timed_out now m = int_gt (duration now m) t_fail

unfoldable pub should_be_clean_up : ℕ → Member → Bool
should_be_clean_up now m = int_gt (duration now m) (t_fail + t_cleanup) && not m.leaving

unfoldable pub has_left : ℕ → Member → Bool
has_left now m = int_gt (duration now m) t_left

abbrev pub set_timestamp : ℕ → Member → Member
set_timestamp ts m = record m { last_update = ts }

abbrev pub set_leaving : Bool → Member → Member
set_leaving leaving m = record m { leaving = leaving }
