-- ===== src/Coalescer.antt =====
-- `outputCoalescer` (pkg/ws/coalescer.go): a goroutine joins chunks of terminal output into frames.
-- A history is a sequence of the callers' sends on the channels, the timer, and the goroutine's
-- steps, one for each `select` of `run`.
pub mod Bounds
pub mod Close
pub mod Delivery
pub mod Frames
pub mod History
pub mod Measure
pub mod Room
pub mod Rounds
pub mod Rule
pub mod Runs
pub mod Selects
pub mod Sound
pub mod Stops
pub mod Traces
mod Tests
use termyard.Base.{
  ℕ, zero, suc, ◌+◌, ◌*◌, ltb, if◌then◌else◌, Bool, true, false, not, ◌&&◌, List, [], ◌∷◌, ◌++◌,
  Option, none, some, length,
}
use termyard.Coalescer.Frames.{
  Bytes, Frame, binary, text, OutputCoalescerStats, ControlFrame, Timer, idle, running, fired,
  Connection, Output, write_frame, flush, stop_timer, append_chunk, process_control,
}

-- The `select` of `run` that the goroutine is at: the one for pongs, the two that do not wait, the
-- one that waits, the one after the chunks are closed, the loop that discards them, and the end.
-- `spins` is a call of `appendChunk` that never returns, `crashed` a send on the closed channel.
pub data Place : Type 0 where
  at_pongs : Place
  at_chunks : Place
  at_controls : Place
  at_wait : Place
  closing : Place
  discarding : Place
  stopped : Place
  spins : Place
  crashed : Place

pub record OutputCoalescer : Type 0 where
  pub out : Output
  pub chunks : List Bytes
  pub pongs : ℕ
  pub controls : List ControlFrame
  pub closed : Bool
  pub write_failed : Bool
  pub place : Place

abbrev pub output_queue_capacity : ℕ
output_queue_capacity = 16

-- An output with nothing written yet.
abbrev pub new_output : ℕ → Output
new_output max_frame = record {
  max_frame = max_frame;
  buffered = [];
  stats = record { frames = 0; bytes = 0; max_frame = 0; slow_writes = 0 };
  timer = idle;
  sent = [];
  writes = 0;
  errors = 0;
  acked = [];
}

-- `newOutputCoalescer`, with any limit for the frames.
abbrev pub new_output_coalescer : ℕ → OutputCoalescer
new_output_coalescer max_frame = record {
  out = new_output max_frame;
  chunks = [];
  pongs = 0;
  controls = [];
  closed = false;
  write_failed = false;
  place = at_pongs;
}

-- `Submit`: a full channel makes the caller wait, a closed one panics.
unfoldable pub submit : Bytes → OutputCoalescer → OutputCoalescer
submit chunk c =
    if c.closed
    then record c { place = crashed }
    else if ltb (length c.chunks) output_queue_capacity
    then record c { chunks = c.chunks ++ (chunk ∷ []) }
    else c

-- `RequestPong`, where it sends.
unfoldable pub request_pong : OutputCoalescer → OutputCoalescer
request_pong c = if ltb c.pongs 4 then record c { pongs = suc c.pongs } else c

-- The send of `SubmitControl`: a full channel makes the caller wait.
unfoldable pub send_control : ControlFrame → OutputCoalescer → OutputCoalescer
send_control cf c =
    if ltb (length c.controls) 8 then record c { controls = c.controls ++ (cf ∷ []) } else c

-- `SubmitControl`, where nothing happens between its test and its send.
unfoldable pub submit_control : ControlFrame → OutputCoalescer → OutputCoalescer
submit_control cf c = if c.closed then c else send_control cf c

-- `CloseAndFlush`, before it waits.
unfoldable pub close_chunks : OutputCoalescer → OutputCoalescer
close_chunks c = record c { closed = true }

abbrev pub tick : Timer → Timer
tick idle = idle
tick running = fired
tick fired = fired

-- The timer sends on its channel.
unfoldable pub fire : OutputCoalescer → OutputCoalescer
fire c = record c { out = record c.out { timer = tick c.out.timer } }

-- `writeFailed = true` where a write did not succeed.
abbrev pub continue_at : Place → Output × Bool → OutputCoalescer → OutputCoalescer
continue_at place (o, true) c = record c { out = o; place = place }
continue_at place (o, false) c = record c { out = o; place = place; write_failed = true }

-- `return` where a write did not succeed.
abbrev pub return_unless : Output × Bool → OutputCoalescer → OutputCoalescer
return_unless (o, true) c = record c { out = o; place = closing }
return_unless (o, false) c = record c { out = o; place = stopped }

-- What follows `appendChunk`; a call that never returns leaves what it took out of sight.
abbrev pub appended :
    Place → Option (Output × Bool) → List Bytes → OutputCoalescer → OutputCoalescer
appended place none rest c = record c { place = spins }
appended place (some r) rest c = continue_at place r (record c { chunks = rest })

-- `pongFrame`, defined in pkg/ws/pty_terminal.go
abbrev pub pong_frame : Frame
pong_frame =
    text (123 ∷ 34 ∷ 116 ∷ 121 ∷ 112 ∷ 101 ∷ 34 ∷ 58 ∷ 34 ∷ 112 ∷ 111 ∷ 110 ∷ 103 ∷ 34 ∷ 125 ∷ [])

-- The case that a `select` takes, if its channel is ready; Go picks one of those that are.
pub data Choice : Type 0 where
  take_chunk : Choice
  take_pong : Choice
  take_control : Choice
  take_tick : Choice

abbrev pub or_case : Option OutputCoalescer → Option OutputCoalescer → Option OutputCoalescer
or_case (some d) other = some d
or_case none other = other

abbrev pub or_blocked : OutputCoalescer → Option OutputCoalescer → OutputCoalescer
or_blocked c (some d) = d
or_blocked c none = c

module _ (conn : Connection) where
  -- `case <-c.pongs` followed by the given continuation.
  abbrev pub pong_to :
      (Output × Bool → OutputCoalescer → OutputCoalescer) → ℕ → OutputCoalescer → OutputCoalescer
  pong_to k n c = k (write_frame conn pong_frame c.out) (record c { pongs = n })

  -- The first `select`: a pong, or else on to the chunks or, after a failed write, to discarding.
  unfoldable pub step_pongs : ℕ → OutputCoalescer → OutputCoalescer
  step_pongs (suc n) c = pong_to (continue_at at_pongs) n c
  step_pongs zero c = record c { place = if c.write_failed then discarding else at_chunks }

  -- A chunk for `appendChunk`.
  unfoldable pub chunk_to : Place → Bytes → List Bytes → OutputCoalescer → OutputCoalescer
  chunk_to place chunk rest c = appended place (append_chunk conn chunk c.out) rest c

  -- The chunks are closed and empty.
  unfoldable pub finish : OutputCoalescer → OutputCoalescer
  finish c = record c { out = (flush conn (stop_timer c.out)).0; place = closing }

  -- The `select` of the loop that drains the chunks.
  unfoldable pub step_chunks : List Bytes → OutputCoalescer → OutputCoalescer
  step_chunks (chunk ∷ rest) c = chunk_to at_chunks chunk rest c
  step_chunks [] c = if c.closed then finish c else record c { place = at_controls }

  abbrev pub control_to :
      (Output × Bool → OutputCoalescer → OutputCoalescer)
      → ControlFrame
      → List ControlFrame
      → OutputCoalescer
      → OutputCoalescer
  control_to k cf rest c = k (process_control conn cf c.out) (record c { controls = rest })

  -- The `select` for a control frame that already waits.
  unfoldable pub step_controls : List ControlFrame → OutputCoalescer → OutputCoalescer
  step_controls (cf ∷ rest) c = control_to (continue_at at_pongs) cf rest c
  step_controls [] c = record c { place = at_wait }

  -- The cases of the `select` that waits; `none` where the channel is not ready.
  unfoldable pub wait_chunks : List Bytes → OutputCoalescer → Option OutputCoalescer
  wait_chunks (chunk ∷ rest) c = some (chunk_to at_pongs chunk rest c)
  wait_chunks [] c = if c.closed then some (finish c) else none

  abbrev pub wait_pongs : ℕ → OutputCoalescer → Option OutputCoalescer
  wait_pongs (suc n) c = some (pong_to (continue_at at_pongs) n c)
  wait_pongs zero c = none

  abbrev pub wait_controls : List ControlFrame → OutputCoalescer → Option OutputCoalescer
  wait_controls (cf ∷ rest) c = some (control_to (continue_at at_pongs) cf rest c)
  wait_controls [] c = none

  abbrev pub wait_tick : Timer → OutputCoalescer → Option OutputCoalescer
  wait_tick fired c = some (continue_at at_pongs (flush conn (stop_timer c.out)) c)
  wait_tick running c = none
  wait_tick idle c = none

  abbrev pub wait_case : Choice → OutputCoalescer → Option OutputCoalescer
  wait_case take_chunk c = wait_chunks c.chunks c
  wait_case take_pong c = wait_pongs c.pongs c
  wait_case take_control c = wait_controls c.controls c
  wait_case take_tick c = wait_tick c.out.timer c

  -- The `select` that waits: the chosen case, or else another that is ready; when none is, the
  -- goroutine stays where it is.
  unfoldable pub step_wait : Choice → OutputCoalescer → OutputCoalescer
  step_wait choice c = or_blocked c (
      or_case (wait_case choice c) (
        or_case (wait_case take_chunk c) (
          or_case (wait_case take_pong c)
            (or_case (wait_case take_control c) (wait_case take_tick c)))))

  -- The `select` after the chunks are closed: what is ready, in the order of the choice.
  unfoldable pub step_closing : Choice → ℕ → List ControlFrame → OutputCoalescer → OutputCoalescer
  step_closing choice zero [] c = record c { place = stopped }
  step_closing choice (suc n) [] c = pong_to return_unless n c
  step_closing choice zero (cf ∷ rest) c = control_to return_unless cf rest c
  step_closing take_control (suc n) (cf ∷ rest) c = control_to return_unless cf rest c
  step_closing take_pong (suc n) (cf ∷ rest) c = pong_to return_unless n c
  step_closing take_chunk (suc n) (cf ∷ rest) c = pong_to return_unless n c
  step_closing take_tick (suc n) (cf ∷ rest) c = pong_to return_unless n c

  -- `for range c.chunks`
  unfoldable pub step_discard : List Bytes → OutputCoalescer → OutputCoalescer
  step_discard (chunk ∷ rest) c = record c { chunks = rest }
  step_discard [] c = if c.closed then record c { place = stopped } else c

  unfoldable pub step_at : Place → Choice → OutputCoalescer → OutputCoalescer
  step_at at_pongs choice c = step_pongs c.pongs c
  step_at at_chunks choice c = step_chunks c.chunks c
  step_at at_controls choice c = step_controls c.controls c
  step_at at_wait choice c = step_wait choice c
  step_at closing choice c = step_closing choice c.pongs c.controls c
  step_at discarding choice c = step_discard c.chunks c
  step_at stopped choice c = c
  step_at spins choice c = c
  step_at crashed choice c = c

  -- One `select` of `run`.
  unfoldable pub step : Choice → OutputCoalescer → OutputCoalescer
  step choice c = step_at c.place choice c
