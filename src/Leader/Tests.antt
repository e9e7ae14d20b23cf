-- ===== src/Leader/Tests.antt =====
-- Two holders of a leader lease, with the theorems at these values.
use ptr_research.Common.{◌≡◌, refl, true, false, none, some, [], ok, err, pos, ◌+ℤ◌}
use ptr_research.Leader.{LeaderLease, Leader, lease_held, new_leader, acquire, renew, validate}
use ptr_research.Leader.Fencing.{acquires, starts, then_, now_, stale_refused}

program : Unit {0}
unfolding new_leader acquire renew validate ◌+ℤ◌
program = tt

abbrev fresh : Leader
fresh = record { lease_s = pos 5; lease = none; term = 0; fence = 0 }

abbrev first : LeaderLease
first = record { holder = 1; term = 1; fence = 1; expires_at = pos 15 }

abbrev second : LeaderLease
second = record { holder = 2; term = 2; fence = 2; expires_at = pos 25 }

abbrev led_by : LeaderLease → Leader
led_by l = record { lease_s = pos 5; lease = some l; term = l.term; fence = l.fence }

begins : new_leader (pos 5) ≡ ok fresh
unfolding program
begins = refl

first_leads : acquire fresh 1 (pos 10) ≡ ok (first, led_by first)
unfolding program
first_leads = refl

too_early : acquire (led_by first) 2 (pos 14) ≡ err lease_held
unfolding program
too_early = refl

second_leads : acquire (led_by first) 2 (pos 20) ≡ ok (second, led_by second)
unfolding program
second_leads = refl

first_is_valid : validate (led_by first) 1 1 (pos 14) ≡ true
unfolding program
first_is_valid = refl

stale_refused_example : validate (led_by second) 1 1 (pos 21) ≡ false
stale_refused_example =
    stale_refused [] [] first 2 (pos 20) 1 (pos 21)
      (then_ (starts begins) (acquires 1 (pos 10) first_leads)) second_leads now_
