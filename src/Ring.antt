-- ===== src/Ring.antt =====
-- `ringBuffer`, the replay buffer of a session daemon (pkg/pty/daemon.go). A write past the end of
-- a slice copies what fits, as Go's `copy` does.
pub mod Slices
pub mod Write
pub mod Holds
pub mod Append
pub mod Read
pub mod Tail
pub mod History
mod Tests
use termyard.Base.{
  ℕ, ◌+◌, ◌-◌, ◌%◌, min, ltb, leb, ◌==◌, if◌then◌else◌, List, [], ◌∷◌, length, take, drop, zero,
  suc,
}

-- `copy(buf[i:], src)`
unfoldable pub copy_at : List ℕ → ℕ → List ℕ → List ℕ
copy_at [] i src = []
copy_at (b ∷ buf) zero [] = b ∷ buf
copy_at (b ∷ buf) zero (x ∷ src) = x ∷ copy_at buf zero src
copy_at (b ∷ buf) (suc i) src = b ∷ copy_at buf i src

-- `make([]byte, n)`
unfoldable pub make : ℕ → List ℕ
make zero = []
make (suc n) = 0 ∷ make n

pub record RingBuffer : Type 0 where
  pub buf : List ℕ
  pub head : ℕ
  pub tail : ℕ
  pub size : ℕ

-- `newRingBuffer`
unfoldable pub new_ring_buffer : ℕ → RingBuffer
unfolding make
new_ring_buffer capacity = record { buf = make capacity; head = 0; tail = 0; size = 0 }

abbrev pub wrap : ℕ → ℕ → ℕ
wrap n dest = if leb n dest then dest - n else dest

-- Copying to `dest` in one piece, or in two when it passes the end: the buffer and the new `dest`.
unfoldable pub copy_around : List ℕ → ℕ → List ℕ → List ℕ × ℕ
unfolding copy_at
copy_around buf dest src =
    let n = length buf in
    let avail_to_end = n - dest in
    if leb (length src) avail_to_end then (copy_at buf dest src, wrap n (dest + length src)) else (
      copy_at (copy_at buf dest (take avail_to_end src)) 0 (drop avail_to_end src),
      wrap n (length src - avail_to_end),
    )

-- Part (a) of `Write`: fill the remaining capacity.
unfoldable pub fill : RingBuffer → List ℕ → RingBuffer
fill r src =
    let (buf, dest) = copy_around r.buf r.head src in
    if length src == 0 then r else record r { buf = buf; head = dest; size = r.size + length src }

-- Part (b) of `Write`: overwrite the oldest region.
unfoldable pub overwrite : RingBuffer → List ℕ → RingBuffer
overwrite r src =
    let (buf, dest) = copy_around r.buf r.head src in
    if length src == 0 then r else record r { buf = buf; head = dest; tail = dest }

-- The last `n` bytes of the data, when it is longer than the buffer.
abbrev pub trim : ℕ → List ℕ → List ℕ
trim n src = if ltb n (length src) then drop (length src - n) src else src

-- `Write`
unfoldable pub write : RingBuffer → List ℕ → RingBuffer
unfolding fill overwrite copy_around
write r src =
    let kept = trim (length r.buf) src in
    let used = min (length kept) (length r.buf - r.size) in
    if length src == 0
    then r
    else (if length r.buf == 0 then r else overwrite (fill r (take used kept)) (drop used kept))

-- The copy of a full buffer, oldest first.
abbrev pub whole : RingBuffer → List ℕ
whole r =
    copy_at (copy_at (make (length r.buf)) 0 (drop r.tail r.buf)) (length r.buf - r.tail)
      (take r.head r.buf)

-- The copy of a partial buffer.
abbrev pub part : RingBuffer → List ℕ
part r = copy_at (make r.size) 0 (drop r.tail (take (r.tail + r.size) r.buf))

-- `Snapshot`
unfoldable pub snapshot : RingBuffer → List ℕ
unfolding copy_at make
snapshot r = if r.size == 0 then [] else (if r.size == length r.buf then whole r else part r)

-- `SnapshotTail`
unfoldable pub snapshot_tail : RingBuffer → ℕ → List ℕ
unfolding copy_at make
snapshot_tail r max_bytes =
    let n = length r.buf in
    let start_idx = (r.tail + (r.size - max_bytes)) % n in
    let first = n - start_idx in
    let out = make max_bytes in
    if r.size == 0
    then []
    else (if max_bytes == 0
        then []
        else (if leb r.size max_bytes
            then (if r.size == length r.buf then whole r else part r)
            else (if leb max_bytes first
                then copy_at out 0 (drop start_idx (take (start_idx + max_bytes) r.buf))
                else copy_at (copy_at out 0 (drop start_idx r.buf)) first
                    (take (max_bytes - first) r.buf))))
