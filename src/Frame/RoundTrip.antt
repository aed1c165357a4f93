-- ===== src/Frame/RoundTrip.antt =====
-- What `write_frame` put on a stream, `read_frame` takes off it.
use triptorrent.Base.{
  ℕ, ◌^◌, ◌≤◌, ◌<◌, ◌≡◌, ap, ◌∙◌, ◌++◌, true, false, some, length, leb, ltb, ok, arith,
  append_assoc, length-append, take_length, drop_length,
}
use triptorrent.Base.Bytes.{Bytes, be, from_be, from_be-be, length-be, take-be, drop-be}
use triptorrent.Frame.{write_frame, read_frame, read_exact, read_body}

written :
    (limit : ℕ) (frame out : Bytes)
    → write_frame limit frame ≡ ok out
    → out ≡ be 4 (length frame) ++ frame
unfolding write_frame
written limit frame out h = ground arith

fits :
    (limit : ℕ) (frame out : Bytes)
    → write_frame limit frame ≡ ok out
    → (length frame ≤ limit) × (length frame < 2 ^ 32)
unfolding write_frame
fits limit frame out h = ground arith

read_exact-append : (xs ys : Bytes) → read_exact (length xs) (xs ++ ys) ≡ ok (xs, ys)
unfolding read_exact
read_exact-append xs ys = ground (arith, length-append xs ys, take_length xs ys, drop_length xs ys)

read_body-be :
    (limit : ℕ) (frame rest : Bytes)
    → length frame ≤ limit
    → length frame < 2 ^ 32
    → read_body limit (be 4 (length frame), frame ++ rest) ≡ ok (some frame, rest)
unfolding read_body
read_body-be limit frame rest small word =
    let n : from_be 0 (be 4 (length frame)) ≡ length frame =
      from_be-be 4 (length frame) (omega arith) in
    let test : ltb limit (length frame) ≡ false = ground arith in
    rw (n, test, read_exact-append frame rest)

-- A frame that `write_frame` accepts is the first frame that `read_frame` finds on a stream that
-- begins with the written bytes, and what follows them is left on the stream.
pub read_frame-write_frame :
    (limit : ℕ) (frame out rest : Bytes)
    → write_frame limit frame ≡ ok out
    → read_frame limit (out ++ rest) ≡ ok (some frame, rest)
unfolding read_frame
read_frame-write_frame limit frame out rest h =
    let bounds = fits limit frame out h in
    let prefix = be 4 (length frame) in
    let stream : out ++ rest ≡ prefix ++ (frame ++ rest) =
      ap (λ x. x ++ rest) (written limit frame out h) ∙ append_assoc prefix frame rest in
    let long : leb 4 (length (prefix ++ (frame ++ rest))) ≡ true =
      ground (arith, length-append prefix (frame ++ rest), length-be 4 (length frame)) in
    rw (
      stream,
      long,
      take-be 4 (length frame) (frame ++ rest),
      drop-be 4 (length frame) (frame ++ rest),
      read_body-be limit frame rest bounds.0 bounds.1,
    )
