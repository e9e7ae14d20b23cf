-- ===== src/Raft/Server.antt =====
-- `PersistentRaftServer` of neural_pods/raft_transport.py: how a connection reads frames from a
-- socket. What has arrived is a list of pieces, each a first byte and the rest; an empty list is
-- the end of the stream.
use ptr_research.Common.{
  ℕ, zero, suc, ◌-◌, Option, none, some, List, [], ◌∷◌, ◌++◌, if◌then◌else◌, ◌==◌, length, take,
  drop, is_empty, Result, ok, err,
}
use ptr_research.Raft.{Bytes, header_size, frame_size, FrameError, decode_raft_frame}

abbrev pub Pieces : Type 0
Pieces = List (ℕ × Bytes)

-- What is left of the first piece stays in front.
abbrev pub put_back : Bytes → Pieces → Pieces
put_back [] rest = rest
put_back (b ∷ bs) rest = (b, bs) ∷ rest

-- `sock.recv(n)`: at most `n` bytes of the first piece.
abbrev pub recv : ℕ → Pieces → Bytes × Pieces
recv n [] = ([], [])
recv n ((b, bs) ∷ rest) = (take n (b ∷ bs), put_back (drop n (b ∷ bs)) rest)

-- The loop of `_read_exact`. Each round takes a byte at least, so the size is enough fuel.
unfoldable pub read_loop : ℕ → ℕ → Bytes → Pieces → Option Bytes × Pieces
read_loop zero missing got pieces = (some got, pieces)
read_loop (suc n) missing got pieces =
    let chunk = recv missing pieces in
    let rest = read_loop n (missing - length chunk.0) (got ++ chunk.0) chunk.1 in
    if missing == 0 then (some got, pieces) else if is_empty chunk.0 then (none, chunk.1) else rest

unfoldable pub read_exact : ℕ → Pieces → Option Bytes × Pieces
unfolding read_loop
read_exact size pieces = read_loop size size [] pieces

-- The body of the loop of `_connection`, with `next` for the rounds that follow: it ends when the
-- stream does, or with the first frame that is refused, and else hands the frame to `on_frame`.
abbrev pub hand_on :
    (Pieces → List (ℕ × Bytes)) → Result FrameError (ℕ × Bytes) → Pieces → List (ℕ × Bytes)
hand_on next (err e) rest = []
hand_on next (ok frame) rest = frame ∷ next rest

abbrev pub with_body :
    (Pieces → List (ℕ × Bytes)) → Bytes → ℕ → Bytes → Option Bytes × Pieces → List (ℕ × Bytes)
with_body next manifest_hash max_bytes header (none, rest) = []
with_body next manifest_hash max_bytes header (some body, rest) =
    hand_on next (decode_raft_frame (header ++ body) manifest_hash max_bytes) rest

abbrev pub with_header :
    (Pieces → List (ℕ × Bytes)) → Bytes → ℕ → Option Bytes × Pieces → List (ℕ × Bytes)
with_header next manifest_hash max_bytes (none, rest) = []
with_header next manifest_hash max_bytes (some header, rest) =
    with_body next manifest_hash max_bytes header (read_exact (frame_size header) rest)

-- Each round takes a header, so the number of bytes is enough fuel.
unfoldable pub connection : ℕ → Bytes → ℕ → Pieces → List (ℕ × Bytes)
connection zero manifest_hash max_bytes pieces = []
connection (suc n) manifest_hash max_bytes pieces =
    with_header (connection n manifest_hash max_bytes) manifest_hash max_bytes
      (read_exact header_size pieces)
