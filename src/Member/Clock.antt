-- ===== src/Member/Clock.antt =====
-- The failure detector's tests against exact time, with the `int` of milliseconds written out.
use cranesps.Base.{ℕ, ◌+◌, ◌-◌, ◌*◌, ◌≤◌, ◌<◌, ◌≡◌, ◌↔◌, true, false, arith}
use cranesps.Member.{Member, is_timed_out, should_be_clean_up}

-- For a member heard of less than 2 ^ 31 milliseconds ago, `isTimedOut` says exactly whether more
-- than 2000 whole milliseconds have passed, and `shouldBeCleanUp` exactly whether more than 4000
-- have and the member is not leaving.
pub timeouts_exact :
    (now : ℕ) (m : Member)
    → m.last_update ≤ now
    → now - m.last_update < 2147483648 * 1000000
    → ((is_timed_out now m ≡ true) ↔ (2001 * 1000000 ≤ now - m.last_update))
      × ((should_be_clean_up now m ≡ true)
          ↔ ((4001 * 1000000 ≤ now - m.last_update) × (m.leaving ≡ false)))
unfolding is_timed_out should_be_clean_up
timeouts_exact now m past near = ground arith

-- The `int` wraps: a member silent for 2 ^ 31 to 2 ^ 32 milliseconds is neither timed out nor to
-- be cleaned up.
pub silence_wraps :
    (now : ℕ) (m : Member)
    → m.last_update + 2147483648 * 1000000 ≤ now
    → now < m.last_update + 4294967296 * 1000000
    → (is_timed_out now m ≡ false) × (should_be_clean_up now m ≡ false)
unfolding is_timed_out should_be_clean_up
silence_wraps now m low high = ground arith
