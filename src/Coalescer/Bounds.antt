-- ===== src/Coalescer/Bounds.antt =====
-- The size of the frames, and the counters of `outputCoalescerStats`.
use termyard.Base.{
  ℕ, suc, ◌+◌, ◌≤◌, max, ◌==◌, if_rule, Bool, true, false, List, [], ◌∷◌, ◌++◌, length,
  length-append, ◌≡◌, refl, sym, ◌∙◌, ap, arith,
}
use termyard.Coalescer.Frames.{
  Bytes, Frame, binary, text, Connection, OutputCoalescerStats, Output, count_frame, count_slow,
  write_frame, flush,
}
use termyard.Coalescer.{new_output_coalescer}
use termyard.Coalescer.History.{Action, run, submitted, bytes_of}
use termyard.Coalescer.Rule.{IsKept}
use termyard.Coalescer.Sound.{IsSound}
use termyard.Coalescer.Traces.{run-Sound, new-Sound}

-- A binary frame has between one byte and `m` bytes.
abbrev pub HasSize : ℕ → Frame → Type 0
HasSize m (binary p) = (1 ≤ length p) × (length p ≤ m)
HasSize m (text p) = Unit

abbrev pub HaveSize : ℕ → List Frame → Type 0
HaveSize m [] = Unit
HaveSize m (f ∷ fs) = HasSize m f × HaveSize m fs

abbrev pub count_binary : List Frame → ℕ
count_binary [] = 0
count_binary (binary p ∷ fs) = suc (count_binary fs)
count_binary (text p ∷ fs) = count_binary fs

abbrev pub largest : List Frame → ℕ
largest [] = 0
largest (binary p ∷ fs) = max (length p) (largest fs)
largest (text p ∷ fs) = largest fs

abbrev pub Counts : List Frame → OutputCoalescerStats → Type 0
Counts fs st =
    (st.frames ≡ count_binary fs)
    × ((st.bytes ≡ length (bytes_of fs)) × (st.max_frame ≡ largest fs))

pub record IsBounded (m : ℕ) (o : Output) : Type 0 where
  pub limit : o.max_frame ≡ m
  pub room : length o.buffered ≤ m
  pub sizes : HaveSize m o.sent
  pub counts : Counts o.sent o.stats

HaveSize-append :
    (m : ℕ) (fs : List Frame) (f : Frame)
    → HaveSize m fs
    → HasSize m f
    → HaveSize m (fs ++ (f ∷ []))
HaveSize-append m [] f h g = (g, tt)
HaveSize-append m (x ∷ fs) f (h, hs) g = (h, HaveSize-append m fs f hs g)

count_binary-append :
    (fs : List Frame) (p : Bytes) → count_binary (fs ++ (binary p ∷ [])) ≡ suc (count_binary fs)
count_binary-append [] p = refl
count_binary-append (binary q ∷ fs) p = ap suc (count_binary-append fs p)
count_binary-append (text q ∷ fs) p = count_binary-append fs p

length-bytes_of :
    (fs : List Frame) (p : Bytes)
    → length (bytes_of (fs ++ (binary p ∷ []))) ≡ length (bytes_of fs) + length p
length-bytes_of [] p = omega (arith, length-append p [])
length-bytes_of (binary q ∷ fs) p = omega (
  arith,
  length-append q (bytes_of (fs ++ (binary p ∷ []))),
  length-append q (bytes_of fs),
  length-bytes_of fs p,
)
length-bytes_of (text q ∷ fs) p = length-bytes_of fs p

largest-append :
    (fs : List Frame) (p : Bytes) → largest (fs ++ (binary p ∷ [])) ≡ max (largest fs) (length p)
largest-append [] p = omega arith
largest-append (binary q ∷ fs) p = omega (arith, largest-append fs p)
largest-append (text q ∷ fs) p = largest-append fs p

count_binary-text :
    (fs : List Frame) (p : Bytes) → count_binary (fs ++ (text p ∷ [])) ≡ count_binary fs
count_binary-text [] p = refl
count_binary-text (binary q ∷ fs) p = ap suc (count_binary-text fs p)
count_binary-text (text q ∷ fs) p = count_binary-text fs p

bytes_of-text : (fs : List Frame) (p : Bytes) → bytes_of (fs ++ (text p ∷ [])) ≡ bytes_of fs
bytes_of-text [] p = refl
bytes_of-text (binary q ∷ fs) p = ap (λ z. q ++ z) (bytes_of-text fs p)
bytes_of-text (text q ∷ fs) p = bytes_of-text fs p

largest-text : (fs : List Frame) (p : Bytes) → largest (fs ++ (text p ∷ [])) ≡ largest fs
largest-text [] p = refl
largest-text (binary q ∷ fs) p = omega (arith, largest-text fs p)
largest-text (text q ∷ fs) p = largest-text fs p

count_frame-Counts :
    (f : Frame) (fs : List Frame) (st : OutputCoalescerStats)
    → Counts fs st
    → Counts (fs ++ (f ∷ [])) (count_frame f st)
count_frame-Counts (binary p) fs st (a, (b, c)) = (
  ap suc a ∙ sym (count_binary-append fs p),
  (omega (arith, length-bytes_of fs p), omega (arith, largest-append fs p)),
)
count_frame-Counts (text p) fs st (a, (b, c)) = (
  a ∙ sym (count_binary-text fs p),
  (b ∙ sym (ap length (bytes_of-text fs p)), c ∙ sym (largest-text fs p)),
)

count_slow-Counts :
    (slow : Bool) (fs : List Frame) (st : OutputCoalescerStats)
    → Counts fs st
    → Counts fs (count_slow slow st)
count_slow-Counts true fs st h = h
count_slow-Counts false fs st h = h

module _ (m : ℕ) (conn : Connection) where
  write_frame-Bounded :
      (f : Frame) (o : Output) → HasSize m f → IsBounded m o → IsBounded m (write_frame conn f o).0
  unfolding write_frame
  write_frame-Bounded f o z h =
      let timed = count_slow (conn.is_slow o.writes) o.stats in
      let g = count_slow-Counts (conn.is_slow o.writes) o.sent o.stats h.counts in
      if_rule (λ (x : Output × Bool). IsBounded m x.0) (conn.accepts o.writes)
        (λ _. record {
          limit = h.limit;
          room = h.room;
          sizes = HaveSize-append m o.sent f h.sizes z;
          counts = count_frame-Counts f o.sent timed g;
        })
        (λ _. record { limit = h.limit; room = h.room; sizes = h.sizes; counts = g })

  flush-Bounded : (o : Output) → IsBounded m o → IsBounded m (flush conn o).0
  unfolding flush
  flush-Bounded o h =
      if_rule (λ (x : Output × Bool). IsBounded m x.0) (length o.buffered == 0) (λ _. h)
        (λ q.
          write_frame-Bounded (binary o.buffered) (record o { buffered = [] })
            (ground (arith, q), h.room)
            (record { limit = h.limit; room = omega arith; sizes = h.sizes; counts = h.counts }))

  pub bounds : IsKept conn (λ s r o. IsBounded m o) (λ n. Unit)
  bounds = record {
    texts = λ s r p o h. write_frame-Bounded (text p) o tt h;
    flushes = λ s r o h. flush-Bounded o h;
    fills = λ s r part o l h. record {
      limit = h.limit;
      room = omega (arith, length-append o.buffered part, h.limit, h.room);
      sizes = h.sizes;
      counts = h.counts;
    };
    timers =
        λ s r t o h. record { limit = h.limit; room = h.room; sizes = h.sizes; counts = h.counts };
    acks =
        λ s r a o h. record { limit = h.limit; room = h.room; sizes = h.sizes; counts = h.counts };
    drops = λ s r q o b h. h;
    grows = λ s r t o h. h;
    fails = λ n e. tt;
    later = λ n k l b. tt;
  }

  pub run-Sized :
      (es : List Action)
      → IsSound
          (λ s r o. IsBounded m o)
          (λ n. Unit)
          (submitted conn es (new_output_coalescer m))
          (run conn es (new_output_coalescer m))
  run-Sized es = run-Sound conn _ _ bounds [] es _ (
      new-Sound conn _ _ bounds m
        (record { limit = refl; room = omega arith; sizes = tt; counts = (refl, (refl, refl)) }))

-- After any history of a new coalescer, also one with failed writes, every binary frame has between
-- one byte and `max_frame` bytes, no more than `max_frame` bytes are buffered, and the counters are
-- the number of the binary frames, of their bytes, and the size of the largest.
pub run-Bounded :
    (conn : Connection) (max_frame : ℕ) (es : List Action)
    → IsBounded max_frame (run conn es (new_output_coalescer max_frame)).out
run-Bounded conn max_frame es = (run-Sized max_frame conn es).holds
