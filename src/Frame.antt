-- ===== src/Frame.antt =====
-- Length-prefixed frames: `write_frame` and `read_frame`, which crates/triptorrent-net/src/lib.rs,
-- crates/triptorrent-relay/src/lib.rs and crates/triptorrent-overlay/src/lib.rs each define, with a
-- limit of their own. A stream is the list of the bytes that are still to come; its end is EOF.
mod RoundTrip
mod Tests
use triptorrent.Base.{
  ℕ, ◌*◌, ◌^◌, List, [], ◌∷◌, ◌++◌, not, Option, none, some, length, take, drop, leb, ltb,
  if◌then◌else◌, Result, ok, err, guard, ◌>>=◌, ◌>>◌,
}
use triptorrent.Base.Bytes.{Bytes, be, from_be}

-- The limits of the relay and the transport, and of the bootstrap service.
abbrev pub max_frame_length : ℕ
max_frame_length = 1024 * 1024

abbrev pub max_control_frame : ℕ
max_control_frame = 256 * 1024

pub data FrameError : Type 0 where
  frame_too_large length_overflow unexpected_eof : FrameError

-- The bytes that `write_frame` hands to the stream.
unfoldable pub write_frame : ℕ → Bytes → Result FrameError Bytes
unfolding be
write_frame limit frame = do
  guard (not (ltb limit (length frame))) frame_too_large
  guard (ltb (length frame) (2 ^ 32)) length_overflow
  ok (be 4 (length frame) ++ frame)

-- `read_exact`: the next `n` bytes and the rest of the stream.
unfoldable pub read_exact : ℕ → Bytes → Result FrameError (Bytes × Bytes)
read_exact n stream =
    if leb n (length stream) then ok (take n stream, drop n stream) else err unexpected_eof

unfoldable pub read_body : ℕ → Bytes × Bytes → Result FrameError (Option Bytes × Bytes)
unfolding read_exact
read_body limit (prefix, stream) = do
  guard (not (ltb limit (from_be 0 prefix))) frame_too_large
  body ← read_exact (from_be 0 prefix) stream
  ok (some body.0, body.1)

-- The end of the stream inside the length is the end of the frames, `Ok(None)`.
unfoldable pub read_frame : ℕ → Bytes → Result FrameError (Option Bytes × Bytes)
unfolding read_body read_exact
read_frame limit stream =
    if leb 4 (length stream) then read_body limit (take 4 stream, drop 4 stream) else ok (none, [])
