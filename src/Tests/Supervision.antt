-- ===== src/Tests/Supervision.antt =====
-- The supervisor.
use do_daemon.Prelude.{Bytes, arith, codes, false, none, refl, some, true, ◌<◌, ◌≡◌, ◌≤◌, ◌⊎◌}
use do_daemon.Supervisor.{
  Reach, System, add, add_step, backing_off, begin, begin_step, check_step, decide, finish, free,
  here, later, looping, new_supervisor, run, run_step, serving, set_pc, starting,
}
use do_daemon.Supervisor.Registry.{IsKept, Reach-IsKept, removed, removed-Reach-serving}
use do_daemon.Supervisor.Running.{serving-newest}
use do_daemon.Supervisor.Ending.{RunnerStep, begins, steps_left, steps_left-RunnerStep}
use do_daemon.Supervisor.Readded.{readded-Reach-serving}

abbrev ftp : Bytes
ftp = codes "ftp"

-- Server 7 runs.
abbrev one_server : System
one_server = begin 0 (set_pc 0 starting (add ftp 7 (run new_supervisor)))

one_server_is_reached : Reach new_supervisor one_server
unfolding run add begin
one_server_is_reached =
    later
      (later (later (later here (run_step refl refl refl)) (add_step ftp 7 refl refl))
        (check_step 0 refl refl))
      (begin_step 0 refl)

name_is_bound : one_server.names ftp ≡ some 0
unfolding run add begin
name_is_bound = refl

caller_is_free : one_server.caller ≡ free
unfolding run add begin
caller_is_free = refl

is_not_stopped : one_server.stopped ≡ false
unfolding run add begin
is_not_stopped = refl

server_is_started : (one_server.entries 0).pc ≡ serving 7
unfolding run add begin
server_is_started = refl

Reach-IsKept_example : IsKept one_server ftp 0
Reach-IsKept_example = Reach-IsKept one_server ftp 0 one_server_is_reached name_is_bound

serving-newest_example : 7 ≡ (one_server.entries 0).srv
serving-newest_example =
    serving-newest one_server 0 7 one_server_is_reached caller_is_free is_not_stopped
      server_is_started

-- Server 7 has crashed.
abbrev one_crash : System
one_crash = decide 0 true (finish 0 true one_server)

crash_is_bound : one_crash.names ftp ≡ some 0
unfolding run add begin finish decide
crash_is_bound = refl

crash_is_free : one_crash.caller ≡ free
unfolding run add begin finish decide
crash_is_free = refl

crash_is_not_stopped : one_crash.stopped ≡ false
unfolding run add begin finish decide
crash_is_not_stopped = refl

crash_backs_off : (one_crash.entries 0).pc ≡ backing_off
unfolding run add begin finish decide
crash_backs_off = refl

crash_is_counted : 0 < (one_crash.entries 0).attempt
unfolding run add begin finish decide
crash_is_counted = ground arith

removed-Reach-serving_example :
    (u : System) × Reach one_crash (removed ftp 0 one_crash)
    × Reach (removed ftp 0 one_crash) u
    × (u.names ftp ≡ none)
    × (u.caller ≡ free)
    × ((u.entries 0).pc ≡ serving (one_crash.entries 0).srv)
removed-Reach-serving_example =
    removed-Reach-serving one_crash ftp 0 crash_is_bound crash_is_free crash_is_not_stopped
      crash_backs_off crash_is_counted

-- The process stops when the runner has looked at the context.
abbrev stopping_start : System
stopping_start = record (set_pc 0 starting (add ftp 7 (run new_supervisor))) { stopped = true }

starts_late : RunnerStep 0 stopping_start (begin 0 stopping_start)
unfolding run add begin
starts_late = begins refl

stop_is_set : stopping_start.stopped ≡ true
unfolding run add
stop_is_set = refl

steps_left-RunnerStep_example :
    ((begin 0 stopping_start).stopped ≡ true)
    × ((steps_left ((begin 0 stopping_start).entries 0).pc
          < steps_left (stopping_start.entries 0).pc)
        × (steps_left (stopping_start.entries 0).pc ≤ 3)
        × ((((begin 0 stopping_start).entries 0).attempt ≡ (stopping_start.entries 0).attempt)
            ⊎ ((stopping_start.entries 0).pc ≡ starting)))
steps_left-RunnerStep_example = steps_left-RunnerStep starts_late stop_is_set

is_running : one_server.running ≡ true
unfolding run add begin
is_running = refl

server_is_counted : 0 < (one_server.entries 0).attempt
unfolding run add begin
server_is_counted = ground arith

readded-Reach-serving_example :
    (t : System) × Reach one_server t
    × (t.caller ≡ free)
    × (t.stopped ≡ false)
    × (t.names ftp ≡ some one_server.next)
    × ((t.entries one_server.next).srv ≡ 8)
    × ((t.entries one_server.next).pc ≡ looping)
    × ((t.entries 0).pc ≡ serving (one_server.entries 0).srv)
readded-Reach-serving_example =
    readded-Reach-serving one_server ftp 0 7 8 one_server_is_reached name_is_bound caller_is_free
      is_running is_not_stopped server_is_started server_is_counted
