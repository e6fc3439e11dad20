-- ===== src/Wire/Header.antt =====
-- The nine header bytes of a frame are read back.
use webhook_ops.Common.{ℕ, ◌^◌, ◌≤◌, ◌<◌, ◌≡◌, refl, ◌++◌, arith, Bytes, length, drop}
use webhook_ops.Wire.{
  Frame, type_to_byte, type_of_byte, max_frame_payload, be32, load_be32, make_header, header_type,
  header_length,
}

-- A frame as the program makes it: a type that a byte names, a 32-bit stream id, and a payload within
-- the limit.
pub record IsFrame (f : Frame) : Type 0 where
  pub typed : type_of_byte (type_to_byte f.frame_type) ≡ f.frame_type
  pub id_fits : f.stream_id < 2 ^ 32
  pub fits : length f.payload ≤ max_frame_payload

pub load-be32 : (n : ℕ) (rest : Bytes) → n < 2 ^ 32 → load_be32 (be32 n ++ rest) ≡ n
unfolding load_be32 be32
load-be32 n rest h = omega arith

pub length-make_header : (f : Frame) → length (make_header f) ≡ header_length
unfolding make_header
length-make_header f = refl

module _ {f : Frame} (v : IsFrame f) where
  pub header_type-make_header : header_type (make_header f) ≡ f.frame_type
  unfolding header_type make_header
  header_type-make_header = v.typed

  pub header_id-make_header : load_be32 (drop 1 (make_header f)) ≡ f.stream_id
  unfolding make_header
  header_id-make_header = load-be32 f.stream_id _ v.id_fits

  pub header_size-make_header : load_be32 (drop 5 (make_header f)) ≡ length f.payload
  unfolding make_header load_be32
  header_size-make_header = let fits : length f.payload ≤ max_frame_payload = v.fits in omega arith

-- The bytes of a frame on a connection.
abbrev pub encode : Frame → Bytes
encode f = make_header f ++ f.payload
