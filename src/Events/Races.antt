-- ===== src/Events/Races.antt =====
-- internal/eventbus/eventbus.go: calls of `Publish` that meet at the channel of one subscriber. They hold
-- the read lock together, so each select of the loop is a step, and the subscriber may read between.
use do_daemon.Prelude.{List, [], if◌then◌else◌, length, ℕ, ◌++◌, ◌==◌, ◌∷◌, ◌≡◌, ◌≤◌}
use do_daemon.Events.{Channel, Event, drop_oldest, try_send}

-- Where a publisher stands: not at this channel, at the first select, behind its default and about to
-- make room, and at the last select.
pub data Turn (A : Type 0) : Type 0 where
  away : Turn A
  sending making_room retrying : Event A → Turn A

-- The channel, the publishers by their numbers, and a history: all events that were put into the
-- channel, the oldest first.
pub record Meeting (A : Type 0) : Type 0 where
  pub channel : Channel A
  pub turns : ℕ → Turn A
  pub history : List (Event A)

module _ {A : Type 0} where
  abbrev pub turn_to : ℕ → Turn A → (ℕ → Turn A) → ℕ → Turn A
  turn_to i t turns j = if i == j then t else turns j

  -- `Subscribe`, and nothing published yet.
  abbrev pub new_meeting : ℕ → Meeting A
  new_meeting cap = record {
    channel = record { cap = cap; queue = [] };
    turns = λ _. away;
    history = [];
  }

  -- A send of a select with a default: `missed` is where the publisher stands if it is not made.
  unfoldable pub select_send : ℕ → Event A → Turn A → Meeting A → Meeting A
  unfolding try_send
  select_send i ev missed m =
      let (c, sent) = try_send ev m.channel in
      record {
        channel = c;
        turns = turn_to i (if sent then away else missed) m.turns;
        history = if sent then m.history ++ (ev ∷ []) else m.history;
      }

  -- `case <-ch`, by a publisher or by the subscriber.
  unfoldable pub take_oldest : Meeting A → Meeting A
  unfolding drop_oldest
  take_oldest m = record m { channel = drop_oldest m.channel }

pub data Step {A : Type 0} (m : Meeting A) : Meeting A → Type 0 where
  come :
      (i : ℕ) (ev : Event A)
      → m.turns i ≡ away
      → Step m (record m { turns = turn_to i (sending ev) m.turns })
  send :
      (i : ℕ) (ev : Event A) → m.turns i ≡ sending ev → Step m (select_send i ev (making_room ev) m)
  make_room :
      (i : ℕ) (ev : Event A)
      → m.turns i ≡ making_room ev
      → Step m (record (take_oldest m) { turns = turn_to i (retrying ev) m.turns })
  retry : (i : ℕ) (ev : Event A) → m.turns i ≡ retrying ev → Step m (select_send i ev away m)
  read : Step m (take_oldest m)

pub data Reach {A : Type 0} (m : Meeting A) : Meeting A → Type 0 where
  here : Reach m m
  later : {n k : Meeting A} → Reach m n → Step n k → Reach m k

-- The channel has its capacity and holds no more. It holds the end of the history: what has left it is
-- all that went in before.
pub record IsTail {A : Type 0} (cap : ℕ) (m : Meeting A) : Type 0 where
  pub cap_is : m.channel.cap ≡ cap
  pub fits : length m.channel.queue ≤ cap
  pub gone : List (Event A)
  pub whole : m.history ≡ gone ++ m.channel.queue
