-- ===== src/Coalescer/Room.antt =====
-- One round of `appendChunk` takes no more than the buffer has room for, and at least one byte.
use termyard.Base.{suc, ◌-◌, ◌≤◌, Bool, true, false, [], length, ◌≡◌, refl, ap, ◌∙◌, arith}
use termyard.Coalescer.Frames.{
  Frame, binary, Connection, Output, write_frame, flush, stop_timer, make_room, available, text,
  ControlFrame, acknowledge, write_control, process_control,
}

pub write_frame-max_frame :
    (conn : Connection) (f : Frame) (o : Output) → (write_frame conn f o).0.max_frame ≡ o.max_frame
unfolding write_frame
write_frame-max_frame conn f o = ground arith

pub flush-max_frame : (conn : Connection) (o : Output) → (flush conn o).0.max_frame ≡ o.max_frame
unfolding flush
flush-max_frame conn o =
    ground (arith, write_frame-max_frame conn (binary o.buffered) (record o { buffered = [] }))

pub write_frame-buffered :
    (conn : Connection) (f : Frame) (o : Output) → (write_frame conn f o).0.buffered ≡ o.buffered
unfolding write_frame
write_frame-buffered conn f o = ground arith

pub flush-buffered : (conn : Connection) (o : Output) → length (flush conn o).0.buffered ≡ 0
unfolding flush
flush-buffered conn o =
    ground (arith, write_frame-buffered conn (binary o.buffered) (record o { buffered = [] }))

pub write_frame-writes :
    (conn : Connection) (f : Frame) (o : Output) → (write_frame conn f o).0.writes ≡ suc o.writes
unfolding write_frame
write_frame-writes conn f o = ground arith

pub flush-writes : (conn : Connection) (o : Output) → o.writes ≤ (flush conn o).0.writes
unfolding flush
flush-writes conn o =
    ground (arith, write_frame-writes conn (binary o.buffered) (record o { buffered = [] }))

pub make_room-available :
    (conn : Connection) (o : Output)
    → available o ≤ (make_room conn o).0.max_frame - length (make_room conn o).0.buffered
unfolding make_room
make_room-available conn o =
    ground (arith, flush-max_frame conn (stop_timer o), flush-buffered conn (stop_timer o))

acknowledge-buffered :
    (cf : ControlFrame) (x : Output × Bool) → (acknowledge cf x).0.buffered ≡ x.0.buffered
acknowledge-buffered cf (o, true) = refl
acknowledge-buffered cf (o, false) = refl

write_control-buffered :
    (conn : Connection) (cf : ControlFrame) (x : Output × Bool)
    → (write_control conn cf x).0.buffered ≡ x.0.buffered
write_control-buffered conn cf (o, true) =
    acknowledge-buffered cf (write_frame conn (text cf.payload) o)
    ∙ write_frame-buffered conn (text cf.payload) o
write_control-buffered conn cf (o, false) = refl

pub process_control-buffered :
    (conn : Connection) (cf : ControlFrame) (o : Output)
    → length (process_control conn cf o).0.buffered ≡ 0
unfolding process_control
process_control-buffered conn cf o =
    ap length (write_control-buffered conn cf (flush conn o)) ∙ flush-buffered conn o
