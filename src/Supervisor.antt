-- ===== src/Supervisor.antt =====
-- internal/server/server.go: the supervisor as the steps of its callers and of one `runEntry` for each
-- entry, interleaved in any order. What a mutex guards is one step. A server is known by a number; what
-- `Start` and `Shutdown` do is up to the server, so `Start` may return at any time, with an error or
-- without. `Add`, `Replace` and `Remove` are called one after the other, and `Run` not within one.
pub mod Registry
pub mod Readded
pub mod Running
pub mod Ending
use do_daemon.Prelude.{
  Bool, Bytes, Option, [], equal, false, if◌then◌else◌, ltb, none, not, some, true, ℕ, ◌*◌, ◌+◌,
  ◌==◌, ◌||◌, ◌≡◌,
}

-- Where `runEntry` stands: not begun, at the head of its loop, behind its look at the context and about
-- to lock the entry, within `Start`, behind it (with whether it returned an error), waiting out the
-- backoff, returned.
pub data Pc : Type 0 where
  unstarted looping starting : Pc
  serving : ℕ → Pc
  returned : Bool → Pc
  backing_off ended : Pc

-- `entry`. The attempts are counted: `cancel` and `attemptDone` are those of attempt `attempt`, and
-- `nil` where it is 0; `cancelled` says whether its context is.
pub record Entry : Type 0 where
  pub name : Bytes
  pub srv : ℕ
  pub attempt : ℕ
  pub cancelled : Bool
  pub pc : Pc
  pub backoff : ℕ

-- The caller: between calls; in `Replace` with what it has read of `running`, and in `Remove`, about to
-- lock the entry; within `Shutdown` of the server of an attempt; behind `cancel()`, waiting for the
-- attempt to be done.
pub data Caller : Type 0 where
  free : Caller
  swapping : (id srv : ℕ) → Bool → Caller
  stopping : ℕ → Caller
  shutting_down awaiting : (id attempt : ℕ) → Caller

-- `entries` is the map; an entry itself is found by a number below `next`. `stopped` says whether the
-- context of `Run` is done.
pub record System : Type 0 where
  pub names : Bytes → Option ℕ
  pub entries : ℕ → Entry
  pub next : ℕ
  pub running : Bool
  pub stopped : Bool
  pub caller : Caller

abbrev pub put : ℕ → Entry → (ℕ → Entry) → ℕ → Entry
put id e entries j = if id == j then e else entries j

abbrev pub bind : Bytes → Option ℕ → (Bytes → Option ℕ) → Bytes → Option ℕ
bind name o names m = if equal name m then o else names m

abbrev pub set_entry : ℕ → Entry → System → System
set_entry id e s = record s { entries = put id e s.entries }

abbrev pub set_pc : ℕ → Pc → System → System
set_pc id pc s = set_entry id (record (s.entries id) { pc = pc }) s

-- The seconds of the first backoff, and of the longest.
abbrev pub first_backoff : ℕ
first_backoff = 1

abbrev pub max_backoff : ℕ
max_backoff = 30

-- `New`
abbrev pub new_supervisor : System
new_supervisor = record {
  names = λ _. none;
  entries = λ _. record {
    name = [];
    srv = 0;
    attempt = 0;
    cancelled = false;
    pc = unstarted;
    backoff = first_backoff;
  };
  next = 0;
  running = false;
  stopped = false;
  caller = free;
}

-- `Add` of a name that is not registered.
unfoldable pub add : Bytes → ℕ → System → System
add name srv s = record s {
  names = bind name (some s.next) s.names;
  entries =
      put s.next
        (record {
          name = name;
          srv = srv;
          attempt = 0;
          cancelled = false;
          pc = if s.running then looping else unstarted;
          backoff = first_backoff;
        })
        s.entries;
  next = s.next + 1;
}

-- The caller behind `cancel == nil`, or about to call `Shutdown`.
abbrev pub stop_attempt : ℕ → ℕ → Caller
stop_attempt id attempt = if attempt == 0 then free else shutting_down id attempt

-- `Replace` of a name that entry `id` is registered under, up to its lock of the entry.
unfoldable pub replace : ℕ → ℕ → System → System
replace id srv s = record s { caller = swapping id srv s.running }

-- The rest of `Replace`, up to its call of `Shutdown`.
unfoldable pub swap : ℕ → ℕ → Bool → System → System
swap id srv running s =
    let e = s.entries id in
    record (set_entry id (record e { srv = srv }) s) {
      caller = if running then stop_attempt id e.attempt else free;
    }

-- `Remove` of a name that entry `id` is registered under.
unfoldable pub remove : Bytes → ℕ → System → System
remove name id s = record s { names = bind name none s.names; caller = stopping id }

-- `stopCurrentAttempt`, up to its call of `Shutdown`.
unfoldable pub stop_current_attempt : ℕ → System → System
stop_current_attempt id s = record s { caller = stop_attempt id (s.entries id).attempt }

-- `cancel()`: of that attempt, which may be over.
unfoldable pub cancel : ℕ → ℕ → System → System
cancel id attempt s =
    let e = s.entries id in
    record (set_entry id (record e { cancelled = e.cancelled || e.attempt == attempt }) s) {
      caller = awaiting id attempt;
    }

-- Whether `done` is closed.
abbrev pub not_serving : Pc → Bool
not_serving (serving v) = false
not_serving _ = true

unfoldable pub is_done : ℕ → ℕ → System → Bool
is_done id attempt s = let e = s.entries id in not (e.attempt == attempt) || not_serving e.pc

-- `Run`, up to `<-ctx.Done()`: every registered entry is started.
abbrev pub is_bound : ℕ → Option ℕ → Bool
is_bound id none = false
is_bound id (some j) = id == j

unfoldable pub run : System → System
run s = record s {
  entries = λ id.
      let e = s.entries id in if is_bound id (s.names e.name) then record e { pc = looping } else e;
  running = true;
}

-- The start of an attempt, behind the look at the context, which is a step of its own.
unfoldable pub begin : ℕ → System → System
begin id s =
    let e = s.entries id in
    set_entry id (record e { pc = serving e.srv; attempt = e.attempt + 1; cancelled = false }) s

-- `Start` has returned: the attempt's context is cancelled and `done` closed.
unfoldable pub finish : ℕ → Bool → System → System
finish id failed s =
    set_entry id (record (s.entries id) { pc = returned failed; cancelled = true }) s

abbrev pub is_registered : Option ℕ → Bool
is_registered none = false
is_registered (some id) = true

-- What `runEntry` does behind `Start`.
unfoldable pub after_start : Bool → Bool → Bool → Pc
after_start stopped failed registered =
    if stopped then ended else if failed then backing_off else if registered then looping else ended

unfoldable pub decide : ℕ → Bool → System → System
unfolding after_start
decide id failed s =
    set_pc id (after_start s.stopped failed (is_registered (s.names (s.entries id).name))) s

-- `backoff *= 2`, at most `maxBackoff`.
unfoldable pub next_backoff : ℕ → ℕ
next_backoff b = if ltb max_backoff (b * 2) then max_backoff else b * 2

unfoldable pub wake : ℕ → System → System
unfolding next_backoff
wake id s =
    let e = s.entries id in
    set_entry id (record e { pc = looping; backoff = next_backoff e.backoff }) s

-- The calls, and the steps of the entries' goroutines.
pub data Step (s : System) : System → Type 0 where
  add_step :
      (name : Bytes) (srv : ℕ) → s.caller ≡ free → s.names name ≡ none → Step s (add name srv s)
  replace_step :
      (name : Bytes) (id srv : ℕ)
      → s.caller ≡ free
      → s.names name ≡ some id
      → Step s (replace id srv s)
  remove_step :
      (name : Bytes) (id : ℕ) → s.caller ≡ free → s.names name ≡ some id → Step s (remove name id s)
  swap_step :
      (id srv : ℕ) (running : Bool)
      → s.caller ≡ swapping id srv running
      → Step s (swap id srv running s)
  stop_attempt_step : (id : ℕ) → s.caller ≡ stopping id → Step s (stop_current_attempt id s)
  cancel_step :
      (id attempt : ℕ) → s.caller ≡ shutting_down id attempt → Step s (cancel id attempt s)
  return_step :
      (id attempt : ℕ)
      → s.caller ≡ awaiting id attempt
      → is_done id attempt s ≡ true
      → Step s (record s { caller = free })
  run_step : s.caller ≡ free → s.running ≡ false → s.stopped ≡ false → Step s (run s)
  stop_step : s.running ≡ true → Step s (record s { stopped = true })
  wind_down_step : s.stopped ≡ true → Step s (record s { running = false })
  check_step :
      (id : ℕ) → (s.entries id).pc ≡ looping → s.stopped ≡ false → Step s (set_pc id starting s)
  begin_step : (id : ℕ) → (s.entries id).pc ≡ starting → Step s (begin id s)
  quit_step : (id : ℕ) → (s.entries id).pc ≡ looping → s.stopped ≡ true → Step s (set_pc id ended s)
  finish_step :
      (id v : ℕ) (failed : Bool) → (s.entries id).pc ≡ serving v → Step s (finish id failed s)
  decide_step :
      (id : ℕ) (failed : Bool) → (s.entries id).pc ≡ returned failed → Step s (decide id failed s)
  wake_step : (id : ℕ) → (s.entries id).pc ≡ backing_off → Step s (wake id s)
  give_up_step :
      (id : ℕ) → (s.entries id).pc ≡ backing_off → s.stopped ≡ true → Step s (set_pc id ended s)

pub data Reach (s : System) : System → Type 0 where
  here : Reach s s
  later : {t u : System} → Reach s t → Step t u → Reach s u
