-- ===== src/Coalescer/Tests.antt =====
-- Runs of the coalescer on small inputs, and the theorems on them.
use termyard.Base.{ℕ, zero, suc, ◌≤◌, ltb, true, false, List, [], ◌∷◌, ◌≡◌, refl, arith}
use termyard.Coalescer.Frames.{
  binary, text, ControlFrame, Connection, write_frame, flush, make_room, fill, append_loop,
  append_chunk, process_control,
}
use termyard.Coalescer.{
  stopped, crashed, OutputCoalescer, new_output_coalescer, submit, request_pong, send_control,
  submit_control, close_chunks, fire, take_chunk, take_control, take_tick, pong_frame, step_pongs,
  chunk_to, finish, step_chunks, step_controls, wait_chunks, step_wait, step_closing, step_at, step,
}
use termyard.Coalescer.History.{
  Action, submits, asks_pong, submits_control, closes, fires, takes_step, run, submitted, bytes_of,
}
use termyard.Coalescer.Bounds.{IsBounded, run-Bounded}
use termyard.Coalescer.Delivery.{IsPrefix, run-IsPrefix}
use termyard.Coalescer.Measure.{measure}
use termyard.Coalescer.Close.{Move, takes, ticks, moves, steps_of, moves-Stopped, moves-Delivers}

abbrev good : Connection
good = record { accepts = λ n. true; is_slow = λ n. false }

-- The first two writes succeed.
abbrev broken : Connection
broken = record { accepts = λ n. ltb n 2; is_slow = λ n. false }

abbrev replay_end : ControlFrame
replay_end = record { payload = 9 ∷ []; ack = 1 }

-- Five bytes in two chunks, a pong, a control frame, and the goroutine at work in between.
abbrev session : List Action
session =
    submits (1 ∷ 2 ∷ 3 ∷ [])
    ∷ asks_pong
    ∷ submits_control replay_end
    ∷ takes_step take_chunk
    ∷ takes_step take_chunk
    ∷ takes_step take_chunk
    ∷ submits (4 ∷ 5 ∷ [])
    ∷ fires
    ∷ closes
    ∷ []

abbrev busy : Connection → OutputCoalescer
busy conn = run conn session (new_output_coalescer 2)

busy_closed : (busy good).closed ≡ true
unfolding run submit request_pong submit_control send_control close_chunks fire step step_at
    step_pongs chunk_to step_chunks append_chunk append_loop make_room fill flush write_frame
busy_closed = refl

busy_open : ¬ ((busy good).place ≡ crashed)
unfolding run submit request_pong submit_control send_control close_chunks fire step step_at
    step_pongs chunk_to step_chunks append_chunk append_loop make_room fill flush write_frame
busy_open e = absurd (cc e)

-- Rounds of two steps that ask for different cases, with the timer between them.
abbrev rounds : ℕ → List Move
rounds zero = []
rounds (suc n) = takes take_control ∷ ticks ∷ takes take_chunk ∷ rounds n

enough_rounds : measure (busy good) ≤ steps_of (rounds 12)
unfolding run submit request_pong submit_control send_control close_chunks fire step step_at
    step_pongs chunk_to step_chunks append_chunk append_loop make_room fill flush write_frame
enough_rounds = omega arith

-- What the reader sees in the end: the pong, the frames, and the control frame after them all.
session_frames :
    (moves good (rounds 12) (busy good)).out.sent
    ≡ pong_frame ∷ binary (1 ∷ 2 ∷ []) ∷ binary (3 ∷ 4 ∷ []) ∷ binary (5 ∷ []) ∷ text (9 ∷ []) ∷ []
unfolding run submit request_pong submit_control send_control close_chunks fire step step_at
    step_pongs chunk_to step_chunks append_chunk append_loop make_room fill flush write_frame moves
    finish step_controls step_closing wait_chunks step_wait process_control
session_frames = refl

-- The control frame overtakes a chunk that arrives between the `select` for chunks and the one for
-- control frames.
overtaken :
    (run good
      (takes_step take_chunk
        ∷ takes_step take_chunk
        ∷ submits (1 ∷ [])
        ∷ submits_control replay_end
        ∷ takes_step take_chunk
        ∷ takes_step take_chunk
        ∷ takes_step take_chunk
        ∷ takes_step take_chunk
        ∷ takes_step take_chunk
        ∷ fires
        ∷ takes_step take_tick
        ∷ [])
      (new_output_coalescer 2)).out.sent
    ≡ text (9 ∷ []) ∷ binary (1 ∷ []) ∷ []
unfolding run submit request_pong submit_control send_control close_chunks fire step step_at
    step_pongs chunk_to step_chunks append_chunk append_loop make_room fill flush write_frame moves
    finish step_controls step_closing wait_chunks step_wait process_control
overtaken = refl

run-IsPrefix_example :
    IsPrefix (bytes_of (busy broken).out.sent) (submitted broken session (new_output_coalescer 2))
run-IsPrefix_example = run-IsPrefix broken (λ n m l e. ground arith) 2 session

run-Bounded_example : IsBounded 2 (busy broken).out
run-Bounded_example = run-Bounded broken 2 session

moves-Stopped_example : (moves good (rounds 12) (busy good)).place ≡ stopped
moves-Stopped_example =
    moves-Stopped good 2 session (rounds 12) (omega arith) busy_closed busy_open enough_rounds

moves-Delivers_example :
    bytes_of (moves good (rounds 12) (busy good)).out.sent
    ≡ submitted good session (new_output_coalescer 2)
moves-Delivers_example =
    moves-Delivers good 2 session (rounds 12) (omega arith) (λ n. refl) busy_closed busy_open
      enough_rounds
