-- ===== src/Coalescer/History.antt =====
-- Histories of an `outputCoalescer`: what the callers do, the timer, and the steps of the goroutine.
use termyard.Base.{ltb, if◌then◌else◌, List, [], ◌∷◌, ◌++◌, length}
use termyard.Coalescer.Frames.{Bytes, Frame, binary, text, ControlFrame, Connection}
use termyard.Coalescer.{
  OutputCoalescer, output_queue_capacity, submit, request_pong, send_control, submit_control,
  close_chunks, fire, Choice, step,
}

-- `sends_control` is the send of a `SubmitControl` whose test came earlier.
pub data Action : Type 0 where
  submits : Bytes → Action
  asks_pong : Action
  submits_control : ControlFrame → Action
  sends_control : ControlFrame → Action
  closes : Action
  fires : Action
  takes_step : Choice → Action

abbrev pub handle : Connection → Action → OutputCoalescer → OutputCoalescer
handle conn (submits chunk) c = submit chunk c
handle conn asks_pong c = request_pong c
handle conn (submits_control cf) c = submit_control cf c
handle conn (sends_control cf) c = send_control cf c
handle conn closes c = close_chunks c
handle conn fires c = fire c
handle conn (takes_step choice) c = step conn choice c

unfoldable pub run : Connection → List Action → OutputCoalescer → OutputCoalescer
run conn [] c = c
run conn (e ∷ es) c = run conn es (handle conn e c)

-- The chunk that an event puts into the channel.
abbrev pub taken : Action → OutputCoalescer → Bytes
taken (submits chunk) c =
    if c.closed then [] else if ltb (length c.chunks) output_queue_capacity then chunk else []
taken asks_pong c = []
taken (submits_control cf) c = []
taken (sends_control cf) c = []
taken closes c = []
taken fires c = []
taken (takes_step choice) c = []

-- All bytes that were put into the channel, in order.
unfoldable pub submitted : Connection → List Action → OutputCoalescer → Bytes
submitted conn [] c = []
submitted conn (e ∷ es) c = taken e c ++ submitted conn es (handle conn e c)

-- The bytes of the binary frames, and of chunks.
abbrev pub bytes_of : List Frame → Bytes
bytes_of [] = []
bytes_of (binary p ∷ fs) = p ++ bytes_of fs
bytes_of (text p ∷ fs) = bytes_of fs

abbrev pub joined : List Bytes → Bytes
joined [] = []
joined (chunk ∷ chunks) = chunk ++ joined chunks
