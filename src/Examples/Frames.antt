-- ===== src/Examples/Frames.antt =====
-- The frame of the letter's OFFER, written and read.
use khala_network.Common.{◌≡◌, refl, Str, lit, [], ◌∷◌, ◌++◌, ok, false, some}
use khala_network.Wire.Codec.{put_be}
use khala_network.Wire.Digest.{hex_encode, hex_decode, hex_decode-hex_encode}
use khala_network.Wire.Frames.{
  Frame, frame_stored, write_frame, read_frame, exceeds_limit, read_frame-write_frame,
  read_frame_bounded, Begins,
}
use khala_network.Examples.Data.{checksum, checksum-IsByte, contents}

abbrev small : Frame
small = record { typ = frame_stored; payload = lit "ab" }

abbrev small_bytes : Str
small_bytes = frame_stored ∷ 0 ∷ 0 ∷ 0 ∷ 2 ∷ 97 ∷ 98 ∷ []

small_written : write_frame small ≡ ok small_bytes
unfolding write_frame put_be
small_written = refl

small_allowed : exceeds_limit 1048576 frame_stored 2 ≡ false
unfolding exceeds_limit
small_allowed = refl

read_frame-write_frame_example : read_frame 1048576 (small_bytes ++ lit "cd") ≡ ok (small, lit "cd")
read_frame-write_frame_example =
    read_frame-write_frame 1048576 small (lit "cd") small_written small_allowed

small_read : read_frame 1048576 (small_bytes ++ lit "cd") ≡ ok (small, lit "cd")
small_read = read_frame-write_frame 1048576 small (lit "cd") small_written small_allowed

read_frame_bounded_example :
    Begins 1048576
      (small_bytes ++ lit "cd")
      (record { typ = frame_stored; payload = lit "ab" })
      (lit "cd")
read_frame_bounded_example = read_frame_bounded 1048576 (small_bytes ++ lit "cd") small_read

hex_decode-hex_encode_example :
    hex_decode (hex_encode (checksum contents)) ≡ some (checksum contents)
hex_decode-hex_encode_example = hex_decode-hex_encode (checksum contents) (checksum-IsByte contents)
