-- ===== src/Raft/Tests.antt =====
-- Two messages on the wire, cut in the middle of the first header, and the theorems there.
use ptr_research.Common.{ℕ, zero, suc, ◌≡◌, refl, ◌↔◌, [], ◌∷◌, ◌++◌, arith, length, drop, ok, err}
use ptr_research.Raft.{
  Bytes, to_be, from_be, encode_raft_frame, decode_raft_frame, manifest_mismatch, truncated_header,
  invalid_frame, frame_too_large,
}
use ptr_research.Raft.Frames.{IsDigest, decode-encode}
use ptr_research.Raft.Server.{Pieces, read_loop, read_exact, connection}
use ptr_research.Raft.Stream.{wire, connection-wire}

abbrev repeated : ℕ → ℕ → Bytes
repeated zero c = []
repeated (suc n) c = c ∷ repeated n c

abbrev manifest : Bytes
manifest = repeated 64 b'a'

abbrev payload : Bytes
payload = 1 ∷ 255 ∷ []

abbrev frame : Bytes
frame =
    b'N'
    ∷ b'P'
    ∷ b'R'
    ∷ b'1'
    ∷ 0
    ∷ 0
    ∷ 0
    ∷ 66
    ∷ 0
    ∷ 0
    ∷ 0
    ∷ 0
    ∷ 0
    ∷ 0
    ∷ 1
    ∷ 7
    ∷ (manifest ++ payload)

program : Unit {0}
unfolding to_be from_be encode_raft_frame decode_raft_frame read_loop read_exact connection
program = tt

encoded : encode_raft_frame payload manifest 263 1000 ≡ ok frame
unfolding program
encoded = refl

decoded : decode_raft_frame frame manifest 1000 ≡ ok (263, payload)
unfolding program
decoded = refl

refused :
    (decode_raft_frame frame (repeated 64 b'b') 1000 ≡ err manifest_mismatch)
    × (decode_raft_frame (drop 1 frame) manifest 1000 ≡ err invalid_frame)
    × (decode_raft_frame payload manifest 1000 ≡ err truncated_header)
    × (encode_raft_frame payload manifest 263 65 ≡ err frame_too_large)
unfolding program
refused = (refl, refl, refl, refl)

manifest-IsDigest : IsDigest manifest
manifest-IsDigest = record { ascii = refl; size = refl }

decode-encode_example :
    (decode_raft_frame frame manifest 1000 ≡ ok (263, payload))
    ↔ (encode_raft_frame payload manifest 263 1000 ≡ ok frame)
decode-encode_example =
    decode-encode frame payload manifest 263 1000 (omega arith) manifest-IsDigest

abbrev pieces : Pieces
pieces = (b'N', b'P' ∷ []) ∷ (b'R', drop 3 frame ++ (b'N' ∷ [])) ∷ (b'P', drop 2 frame) ∷ []

both_frames : wire manifest 1000 ((263, payload) ∷ (263, payload) ∷ []) ≡ ok (frame ++ frame)
unfolding program
both_frames = refl

connection-wire_example :
    connection (length (frame ++ frame)) manifest 1000 pieces ≡ (263, payload) ∷ (263, payload) ∷ []
connection-wire_example =
    connection-wire manifest 1000 ((263, payload) ∷ (263, payload) ∷ []) (frame ++ frame) pieces
      both_frames refl
