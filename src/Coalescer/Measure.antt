-- ===== src/Coalescer/Measure.antt =====
-- A number that gets smaller with every step of the goroutine once the chunks are closed: each
-- waiting message counts, and a chunk for more, since its bytes may start the timer again.
use termyard.Base.{ℕ, ◌≤◌, ◌+◌, ◌*◌, Bool, true, false, [], length, ◌≡◌, refl, ◌∙◌, arith}
use termyard.Coalescer.Frames.{
  Frame, binary, text, Timer, idle, running, fired, ControlFrame, Connection, Output, write_frame,
  flush, acknowledge, write_control, process_control,
}
use termyard.Coalescer.{
  Place, at_pongs, at_chunks, at_controls, at_wait, closing, discarding, stopped, spins, crashed,
  OutputCoalescer, tick,
}

-- How far the goroutine is from the end, among steps that handle no message.
abbrev pub rank : Place → ℕ
rank at_pongs = 5
rank at_chunks = 4
rank at_controls = 3
rank at_wait = 2
rank closing = 1
rank discarding = 1
rank stopped = 0
rank spins = 0
rank crashed = 0

-- What the timer can still cause.
abbrev pub weight : Timer → ℕ
weight idle = 0
weight fired = 4
weight running = 5

-- The messages that wait.
abbrev pub load : OutputCoalescer → ℕ
load c = 4 * (c.pongs + length c.controls) + 10 * length c.chunks

abbrev pub measure : OutputCoalescer → ℕ
measure c = load c + (weight c.out.timer + rank c.place)

pub weight_bound : (t : Timer) → weight t ≤ 5
weight_bound idle = omega arith
weight_bound fired = omega arith
weight_bound running = omega arith

pub weight-tick : (t : Timer) → weight (tick t) ≤ weight t
weight-tick idle = omega arith
weight-tick fired = omega arith
weight-tick running = omega arith

pub write_frame-timer :
    (conn : Connection) (f : Frame) (o : Output) → (write_frame conn f o).0.timer ≡ o.timer
unfolding write_frame
write_frame-timer conn f o = ground arith

pub flush-timer : (conn : Connection) (o : Output) → (flush conn o).0.timer ≡ o.timer
unfolding flush
flush-timer conn o =
    ground (arith, write_frame-timer conn (binary o.buffered) (record o { buffered = [] }))

acknowledge-timer : (cf : ControlFrame) (x : Output × Bool) → (acknowledge cf x).0.timer ≡ x.0.timer
acknowledge-timer cf (o, true) = refl
acknowledge-timer cf (o, false) = refl

write_control-timer :
    (conn : Connection) (cf : ControlFrame) (x : Output × Bool)
    → (write_control conn cf x).0.timer ≡ x.0.timer
write_control-timer conn cf (o, true) =
    acknowledge-timer cf (write_frame conn (text cf.payload) o)
    ∙ write_frame-timer conn (text cf.payload) o
write_control-timer conn cf (o, false) = refl

pub process_control-timer :
    (conn : Connection) (cf : ControlFrame) (o : Output)
    → (process_control conn cf o).0.timer ≡ o.timer
unfolding process_control
process_control-timer conn cf o = write_control-timer conn cf (flush conn o) ∙ flush-timer conn o
