-- ===== src/Raft.antt =====
-- The framing of neural_pods/raft_transport.py: a header of magic, length and sequence number in
-- network order, and a body that begins with the manifest's digest. Bytes are numbers below 256,
-- and texts are the numbers of their characters.
pub mod Words
pub mod Frames
pub mod Server
pub mod Stream
mod Tests
use ptr_research.Common.{
  ℕ, zero, suc, ◌+◌, ◌*◌, ◌/◌, ◌%◌, ◌^◌, Bool, true, false, ◌&&◌, ◌||◌, List, [], ◌∷◌, ◌++◌,
  if◌then◌else◌, ◌==◌, ltb, leb, not, length, take, drop, filter, all, Result, ok, err, ◌>>=◌, ◌>>◌,
  raise_if,
}

abbrev pub Bytes : Type 0
Bytes = List ℕ

-- `struct` writes an unsigned number in `k` bytes, the most significant first.
unfoldable pub to_be : ℕ → ℕ → Bytes
to_be zero n = []
to_be (suc k) n = to_be k (n / 256) ++ (n % 256) ∷ []

unfoldable pub from_be : ℕ → Bytes → ℕ
from_be acc [] = acc
from_be acc (b ∷ bs) = from_be (acc * 256 + b) bs

abbrev pub magic : Bytes
magic = b'N' ∷ b'P' ∷ b'R' ∷ b'1' ∷ []

abbrev pub header_size : ℕ
header_size = 16

abbrev pub is_ascii : ℕ → Bool
is_ascii c = ltb c 128

abbrev pub same : Bytes → Bytes → Bool
same [] [] = true
same [] (y ∷ ys) = false
same (x ∷ xs) [] = false
same (x ∷ xs) (y ∷ ys) = x == y && same xs ys

pub data EncodeError : Type 0 where
  not_ascii digest_length frame_too_large out_of_range : EncodeError

pub data FrameError : Type 0 where
  truncated_header invalid_frame manifest_mismatch : FrameError

-- `_HEADER.pack(_MAGIC, size, sequence)`
abbrev pub pack : ℕ → ℕ → Result EncodeError Bytes
pack size sequence =
    if ltb size (2 ^ 32) && ltb sequence (2 ^ 64)
    then ok (magic ++ (to_be 4 size ++ to_be 8 sequence))
    else err out_of_range

unfoldable pub encode_raft_frame : Bytes → Bytes → ℕ → ℕ → Result EncodeError Bytes
encode_raft_frame payload manifest_hash sequence max_bytes = do
  raise_if (not (all is_ascii manifest_hash)) not_ascii
  raise_if (not (length manifest_hash == 64)) digest_length
  raise_if (ltb max_bytes (length (manifest_hash ++ payload))) frame_too_large
  header ← pack (length (manifest_hash ++ payload)) sequence
  ok (header ++ (manifest_hash ++ payload))

abbrev pub frame_size : Bytes → ℕ
frame_size frame = from_be 0 (take 4 (drop 4 frame))

abbrev pub frame_sequence : Bytes → ℕ
frame_sequence frame = from_be 0 (take 8 (drop 8 frame))

unfoldable pub decode_raft_frame : Bytes → Bytes → ℕ → Result FrameError (ℕ × Bytes)
decode_raft_frame frame expected_manifest max_bytes = do
  raise_if (ltb (length frame) header_size) truncated_header
  raise_if
      (not (same (take 4 frame) magic)
        || ltb max_bytes (frame_size frame)
        || not (length frame == header_size + frame_size frame))
      invalid_frame
  raise_if (not (same (filter is_ascii (take 64 (drop header_size frame))) expected_manifest))
      manifest_mismatch
  ok (frame_sequence frame, drop 64 (drop header_size frame))
