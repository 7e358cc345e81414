-- ===== src/Events.antt =====
-- internal/eventbus/eventbus.go, as a sequence of calls; a subscriber's receive is an operation too,
-- since a channel may be read between the calls. `now` is what `time.Now()` gives. `Publish` only holds
-- the read lock, so that two calls of it may meet at a channel: Events/Races has its three selects as
-- steps of their own, of any number of publishers.
pub mod Buffers
pub mod Races
use do_daemon.Prelude.{
  Bool, List, Option, [], drop, false, if◌then◌else◌, length, ltb, negsuc, none, pos, some, true, ℕ,
  ℤ, ◌++◌, ◌+◌, ◌==◌, ◌∷◌,
}

-- An event: its time, `none` for the zero time, and all else.
pub record Event (A : Type 0) : Type 0 where
  pub time : Option ℕ
  pub body : A

-- `if ev.Time.IsZero() { ev.Time = time.Now() }`
unfoldable pub stamp : {A : Type 0} → ℕ → Event A → Event A
stamp now ev = elim ev.time [ none ↦ record ev { time = some now } | some t ↦ ev ]

-- `if bufSize <= 0 { bufSize = 64 }`
unfoldable pub buffer_size : ℤ → ℕ
buffer_size (pos n) = if n == 0 then 64 else n
buffer_size (negsuc n) = 64

-- A buffered channel: its capacity and what it holds, the oldest first.
pub record Channel (A : Type 0) : Type 0 where
  pub cap : ℕ
  pub queue : List (Event A)

-- `map[int]chan Event`, keyed by the ids of `next`.
pub record Bus (A : Type 0) : Type 0 where
  pub subs : List (ℕ × Channel A)
  pub next : ℕ

module _ {A : Type 0} where
  unfoldable pub new_bus : Bus A
  new_bus = record { subs = []; next = 0 }

  -- The id stands for the channel and for the unsubscribe function, which knows it.
  unfoldable pub subscribe : ℤ → Bus A → ℕ × Bus A
  unfolding buffer_size
  subscribe buf_size b = (
    b.next,
    record {
      subs = (b.next, record { cap = buffer_size buf_size; queue = [] }) ∷ b.subs;
      next = b.next + 1;
    },
  )

  -- `delete(b.subs, id)`, if it is there; the channel is closed.
  unfoldable pub delete_sub : ℕ → List (ℕ × Channel A) → List (ℕ × Channel A)
  delete_sub id [] = []
  delete_sub id ((j, c) ∷ m) = if j == id then delete_sub id m else (j, c) ∷ delete_sub id m

  unfoldable pub unsubscribe : ℕ → Bus A → Bus A
  unfolding delete_sub
  unsubscribe id b = record b { subs = delete_sub id b.subs }

  -- `case ch <- ev` of a select with a default: the channel, and whether the send was made.
  unfoldable pub try_send : Event A → Channel A → Channel A × Bool
  try_send ev c =
      if ltb (length c.queue) c.cap
      then (record c { queue = c.queue ++ (ev ∷ []) }, true)
      else (c, false)

  -- `case <-ch`.
  unfoldable pub drop_oldest : Channel A → Channel A
  drop_oldest c = record c { queue = drop 1 c.queue }

  unfoldable pub offer : Event A → Channel A → Channel A
  unfolding try_send drop_oldest
  offer ev c =
      let (c', sent) = try_send ev c in if sent then c' else (try_send ev (drop_oldest c)).0

  unfoldable pub publish_all : Event A → List (ℕ × Channel A) → List (ℕ × Channel A)
  unfolding offer
  publish_all ev [] = []
  publish_all ev ((id, c) ∷ m) = (id, offer ev c) ∷ publish_all ev m

  unfoldable pub publish : ℕ → Event A → Bus A → Bus A
  unfolding publish_all stamp
  publish now ev b = record b { subs = publish_all (stamp now ev) b.subs }

  -- `PublishCtx`; `cancelled` is `ctx.Err() != nil`.
  unfoldable pub publish_ctx : Bool → ℕ → Event A → Bus A → Bus A
  unfolding publish
  publish_ctx cancelled now ev b = if cancelled then b else publish now ev b

  -- A subscriber receives from its channel: the event, if there is one.
  unfoldable pub receive : ℕ → List (ℕ × Channel A) → List (ℕ × Channel A)
  unfolding drop_oldest
  receive id [] = []
  receive id ((j, c) ∷ m) = if j == id then (j, drop_oldest c) ∷ m else (j, c) ∷ receive id m
