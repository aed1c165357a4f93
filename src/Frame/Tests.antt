-- ===== src/Frame/Tests.antt =====
-- A frame of two bytes.
use triptorrent.Base.{◌≡◌, refl, [], ◌∷◌, ◌++◌, some, ok}
use triptorrent.Frame.{write_frame, read_frame, max_frame_length}
use triptorrent.Frame.RoundTrip.{read_frame-write_frame}

written_small : write_frame max_frame_length (5 ∷ 6 ∷ []) ≡ ok (0 ∷ 0 ∷ 0 ∷ 2 ∷ 5 ∷ 6 ∷ [])
unfolding write_frame
written_small = refl

read_frame-write_frame_example :
    read_frame max_frame_length ((0 ∷ 0 ∷ 0 ∷ 2 ∷ 5 ∷ 6 ∷ []) ++ (1 ∷ []))
    ≡ ok (some (5 ∷ 6 ∷ []), 1 ∷ [])
read_frame-write_frame_example =
    read_frame-write_frame max_frame_length (5 ∷ 6 ∷ []) (0 ∷ 0 ∷ 0 ∷ 2 ∷ 5 ∷ 6 ∷ []) (1 ∷ [])
      written_small
