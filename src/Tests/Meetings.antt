-- ===== src/Tests/Meetings.antt =====
-- Two publishers at a channel for one event.
use do_daemon.Prelude.{[], refl, some, ℕ, ◌∷◌, ◌≡◌}
use do_daemon.Events.{Event, drop_oldest, try_send}
use do_daemon.Events.Races.{
  Meeting, away, making_room, new_meeting, retrying, select_send, sending, take_oldest, turn_to,
}

abbrev event_of : ℕ → Event ℕ
event_of n = record { time = some n; body = n }

abbrev arrives : ℕ → Meeting ℕ → Meeting ℕ
arrives i m = record m { turns = turn_to i (sending (event_of i)) m.turns }

abbrev makes_room : ℕ → Meeting ℕ → Meeting ℕ
makes_room i m = record (take_oldest m) { turns = turn_to i (retrying (event_of i)) m.turns }

-- Publisher 1 finds the channel full of the event of publisher 0 and makes room for its own, which
-- publisher 0 then takes with another event.
abbrev full_of_first : Meeting ℕ
full_of_first =
    arrives 0 (
      arrives 1 (select_send 0 (event_of 0) (making_room (event_of 0)) (arrives 0 (new_meeting 1))))

abbrev both_missed : Meeting ℕ
both_missed =
    select_send 0 (event_of 0) (making_room (event_of 0))
      (select_send 1 (event_of 1) (making_room (event_of 1)) full_of_first)

abbrev one_is_lost : Meeting ℕ
one_is_lost =
    select_send 0 (event_of 0) away
      (select_send 1 (event_of 1) away (makes_room 0 (makes_room 1 both_missed)))

-- The event of publisher 0 has been given up.
newest_is_lost : one_is_lost.channel.queue ≡ event_of 1 ∷ []
unfolding select_send try_send take_oldest drop_oldest
newest_is_lost = refl
