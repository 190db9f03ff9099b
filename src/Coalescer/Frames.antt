-- ===== src/Coalescer/Frames.antt =====
-- The frames that `outputCoalescer` (pkg/ws/coalescer.go) writes: `writeFrame`, and the closures
-- `flush`, `appendChunk` and `processControl` of `run` with what they capture.
use termyard.Base.{
  ℕ, zero, suc, ◌+◌, ◌-◌, min, max, ◌==◌, if◌then◌else◌, Bool, true, false, List, [], ◌∷◌, ◌++◌,
  Option, none, some, length, take, drop,
}

abbrev pub Bytes : Type 0
Bytes = List ℕ

-- `websocket.BinaryMessage` and `websocket.TextMessage` with their payload.
pub data Frame : Type 0 where
  binary : Bytes → Frame
  text : Bytes → Frame

pub record OutputCoalescerStats : Type 0 where
  pub frames : ℕ
  pub bytes : ℕ
  pub max_frame : ℕ
  pub slow_writes : ℕ

-- The acknowledgement channel is a number.
pub record ControlFrame : Type 0 where
  pub payload : Bytes
  pub ack : ℕ

-- `write` and the clock: whether the n-th write is accepted, and whether it takes long.
pub record Connection : Type 0 where
  pub accepts : ℕ → Bool
  pub is_slow : ℕ → Bool

-- The timer, and whether its channel holds a tick.
pub data Timer : Type 0 where
  idle : Timer
  running : Timer
  fired : Timer

-- What only the goroutine of `run` touches, with the frames that the connection accepted, oldest
-- first, the number of writes, the calls of `onWriteError`, the closed acknowledgements, and
-- the timer.
pub record Output : Type 0 where
  pub max_frame : ℕ
  pub buffered : Bytes
  pub stats : OutputCoalescerStats
  pub timer : Timer
  pub sent : List Frame
  pub writes : ℕ
  pub errors : ℕ
  pub acked : List ℕ

abbrev pub count_frame : Frame → OutputCoalescerStats → OutputCoalescerStats
count_frame (binary p) st = record st {
  frames = suc st.frames;
  bytes = st.bytes + length p;
  max_frame = max st.max_frame (length p);
}
count_frame (text p) st = st

abbrev pub count_slow : Bool → OutputCoalescerStats → OutputCoalescerStats
count_slow slow st = if slow then record st { slow_writes = suc st.slow_writes } else st

-- `writeFrame`, with whether it succeeded.
unfoldable pub write_frame : Connection → Frame → Output → Output × Bool
write_frame conn frame o =
    let timed = count_slow (conn.is_slow o.writes) o.stats in
    let o1 = record o { writes = suc o.writes; stats = timed } in
    if conn.accepts o.writes
    then (record o1 { stats = count_frame frame timed; sent = o.sent ++ (frame ∷ []) }, true)
    else (record o1 { errors = suc o.errors }, false)

-- `flush`
unfoldable pub flush : Connection → Output → Output × Bool
flush conn o =
    if length o.buffered == 0
    then (o, true)
    else write_frame conn (binary o.buffered) (record o { buffered = [] })

abbrev pub stop_timer : Output → Output
stop_timer o = record o { timer = idle }

abbrev pub reset_timer : Output → Output
reset_timer o = record o { timer = running }

-- The first `if` of the loop in `appendChunk`: a full buffer is written.
unfoldable pub make_room : Connection → Output → Output × Bool
make_room conn o =
    if (o.max_frame - length o.buffered) == 0 then flush conn (stop_timer o) else (o, true)

-- `available` after that `if`.
abbrev pub available : Output → ℕ
available o =
    if (o.max_frame - length o.buffered) == 0 then o.max_frame else o.max_frame - length o.buffered

-- The end of the loop's body: the buffer takes `part`, and is written when that fills it.
unfoldable pub fill : Connection → Bytes → Output → Output × Bool
fill conn part o =
    let o1 = record o { buffered = o.buffered ++ part } in
    if length o1.buffered == o1.max_frame
    then flush conn (stop_timer o1)
    else (reset_timer o1, true)

-- The result of a step that may fail, and what runs after a success.
abbrev pub and_then : Output × Bool → (Output → Option (Output × Bool)) → Option (Output × Bool)
and_then (o, true) k = k o
and_then (o, false) k = some (o, false)

-- The loop of `appendChunk`; `none` when the fuel is used up.
unfoldable pub append_loop : Connection → ℕ → Bytes → Output → Option (Output × Bool)
append_loop conn n [] o = some (o, true)
append_loop conn zero (b ∷ chunk) o = none
append_loop conn (suc n) (b ∷ chunk) o =
    let count = min (available o) (length (b ∷ chunk)) in
    and_then (make_room conn o) (λ o1.
      and_then (fill conn (take count (b ∷ chunk)) o1)
        (λ o2. append_loop conn n (drop count (b ∷ chunk)) o2))

-- `appendChunk`: every round takes a byte at least, so that the chunk's length is fuel enough.
unfoldable pub append_chunk : Connection → Bytes → Output → Option (Output × Bool)
append_chunk conn chunk o = append_loop conn (length chunk) chunk o

abbrev pub acknowledge : ControlFrame → Output × Bool → Output × Bool
acknowledge cf (o, true) = (record o { acked = o.acked ++ (cf.ack ∷ []) }, true)
acknowledge cf (o, false) = (o, false)

abbrev pub write_control : Connection → ControlFrame → Output × Bool → Output × Bool
write_control conn cf (o, true) = acknowledge cf (write_frame conn (text cf.payload) o)
write_control conn cf (o, false) = (o, false)

-- `processControl`
unfoldable pub process_control : Connection → ControlFrame → Output → Output × Bool
process_control conn cf o = write_control conn cf (flush conn o)
