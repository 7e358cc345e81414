-- ===== src/Sftp/Transfers.antt =====
-- internal/sftp/fs.go: `trackedReaderAt`, with its calls one after the other. The library may call
-- `ReadAt` and `WriteAt` of one file from several workers at once: `touch` loads and stores
-- `lastProgress` in two steps, between which another call may come, and that is not modelled.
use do_daemon.Prelude.{
  Bool, Bytes, List, Option, [], false, if◌then◌else◌, length, ltb, none, some, true, ℕ, ◌+◌, ◌-◌,
  ◌==◌, ◌∷◌,
}
use do_daemon.Sftp.{JailedFs, St, TrackedReaderAt, publish_transfer}
use do_daemon.Ftp.{ended, moved}

-- The milliseconds from one event of a file's progress to the next.
abbrev pub progress_interval : ℕ
progress_interval = 200

-- `now.Sub(last) < progressInterval`, where `none` is the zero time of a file no progress of which
-- has been published.
abbrev pub is_early : ℕ → Option ℕ → Bool
is_early now none = false
is_early now (some last) = ltb (now - last) progress_interval

-- The calls of an open file; an offset, and the length of the slice or its bytes.
pub data FileCall : Type 0 where
  call_read_at : ℕ → ℕ → FileCall
  call_write_at : Bytes → ℕ → FileCall
  call_close : FileCall

module _ {W : Type 0} (fs : JailedFs W) where
  unfoldable pub touch : ℕ → TrackedReaderAt → St W → TrackedReaderAt × St W
  unfolding publish_transfer
  touch n t st =
      if n == 0
      then (t, st)
      else let now = fs.os.clock st.world in
        let t' = record t { done = t.done + n } in
        if is_early now t.last_progress then (t', st) else (
          record t' { last_progress = some now },
          publish_transfer fs (moved t.direction t.name t'.done t.total) st,
        )

  unfoldable pub read_at : ℕ → ℕ → TrackedReaderAt → St W → TrackedReaderAt × St W
  unfolding touch
  read_at size off t st =
      let ((p, err), w) = fs.os.read_at t.handle size off st.world in
      touch (length p) t (record st { world = w })

  unfoldable pub write_at : Bytes → ℕ → TrackedReaderAt → St W → TrackedReaderAt × St W
  unfolding touch
  write_at p off t st =
      let ((n, err), w) = fs.os.write_at t.handle p off st.world in
      touch n t (record st { world = w })

  unfoldable pub close : TrackedReaderAt → St W → TrackedReaderAt × St W
  unfolding publish_transfer
  close t st =
      let (err, w) = fs.os.close t.handle st.world in
      let s = record st { world = w } in
      if t.closed
      then (t, s)
      else (record t { closed = true }, publish_transfer fs (ended t.direction t.name) s)

  unfoldable pub file_call : FileCall → TrackedReaderAt → St W → TrackedReaderAt × St W
  unfolding read_at write_at close
  file_call (call_read_at size off) t st = read_at size off t st
  file_call (call_write_at p off) t st = write_at p off t st
  file_call call_close t st = close t st

  unfoldable pub file_calls : List FileCall → TrackedReaderAt → St W → TrackedReaderAt × St W
  unfolding file_call
  file_calls [] t st = (t, st)
  file_calls (c ∷ cs) t st = let (t', st') = file_call c t st in file_calls cs t' st'
