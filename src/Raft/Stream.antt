-- ===== src/Raft/Stream.antt =====
-- A connection of neural_pods/raft_transport.py gets what was sent, however the network cuts it.
use ptr_research.Common.{
  ℕ, zero, suc, ◌-◌, ◌≤◌, ◌≡◌, refl, ap, sym, ◌∙◌, subst, false, some, List, [], ◌∷◌, ◌++◌, arith,
  ◌==◌, length, take, drop, append_assoc, append-nil, length-append, Result, ok, ◌>>=◌, bind-ok,
  ok-injective,
}
use ptr_research.Raft.{
  magic, to_be, EncodeError, Bytes, header_size, frame_size, encode_raft_frame, decode_raft_frame,
}
use ptr_research.Raft.Words.{from_be-to_be}
use ptr_research.Raft.Frames.{encode_raft_frame-Fits, encode-then-decode}
use ptr_research.Raft.Server.{
  Pieces, put_back, read_loop, read_exact, hand_on, with_body, with_header, connection,
}

-- The bytes of the stream.
abbrev pub flat : Pieces → Bytes
flat [] = []
flat ((b, bs) ∷ rest) = (b ∷ bs) ++ flat rest

flat-put_back : (bs : Bytes) (rest : Pieces) → flat (put_back bs rest) ≡ bs ++ flat rest
flat-put_back [] rest = refl
flat-put_back (b ∷ bs) rest = refl

-- A piece at the front is a part of `xs`, or it contains `xs`.
cut :
    (ps qs xs ys : Bytes)
    → ps ++ qs ≡ xs ++ ys
    → (zs : Bytes) × (xs ≡ take (length xs) ps ++ zs) × (drop (length xs) ps ++ qs ≡ zs ++ ys)
cut ps qs [] ys e = ([], refl, e)
cut [] qs (x ∷ xs) ys e = (x ∷ xs, refl, e)
cut (p ∷ ps) qs (x ∷ xs) ys e =
    let (zs, a, b) = cut ps qs xs ys (cc) in
    let first : p ≡ x = cc in (zs, rw (← first) (ap (◌∷◌ p) a), b)

suc_nonzero : (k : ℕ) → (suc k == 0) ≡ false
suc_nonzero k = ground arith

read_loop-piece :
    (n k b : ℕ) (bs got : Bytes) (rest : Pieces)
    → read_loop (suc n) (suc k) got ((b, bs) ∷ rest)
      ≡ read_loop n
          (suc k - length (take (suc k) (b ∷ bs)))
          (got ++ take (suc k) (b ∷ bs))
          (put_back (drop (suc k) (b ∷ bs)) rest)
unfolding read_loop
read_loop-piece n k b bs got rest = rw (suc_nonzero k) refl

-- `xs` is read from the front of the stream, in as many rounds as the network likes.
read_loop-lem :
    (n : ℕ) (xs ys got : Bytes) (pieces : Pieces)
    → length xs ≤ n
    → flat pieces ≡ xs ++ ys
    → (pieces' : Pieces) × (read_loop n (length xs) got pieces ≡ (some (got ++ xs), pieces'))
      × (flat pieces' ≡ ys)
unfolding read_loop
read_loop-lem zero [] ys got pieces h e = (pieces, rw (append-nil got) refl, e)
read_loop-lem zero (x ∷ xs) ys got pieces h e = absurd (omega (arith, h))
read_loop-lem (suc n) [] ys got pieces h e = (pieces, rw (append-nil got) refl, e)
read_loop-lem (suc n) (x ∷ xs) ys got [] h e = cc
read_loop-lem (suc n) (x ∷ xs) ys got ((b, bs) ∷ rest) h e =
    let (zs, a, left) = cut (b ∷ bs) (flat rest) (x ∷ xs) ys e in
    let chunk = take (suc (length xs)) (b ∷ bs) in
    let sizes = ap length a ∙ length-append chunk zs in
    let missing : suc (length xs) - length chunk ≡ length zs = omega (arith, sizes) in
    let (pieces', reads, flat') =
      read_loop-lem n zs ys (got ++ chunk) (put_back (drop (suc (length xs)) (b ∷ bs)) rest)
        (omega (arith, sizes, h)) (flat-put_back (drop (suc (length xs)) (b ∷ bs)) rest ∙ left) in
    let joined : (got ++ chunk) ++ zs ≡ got ++ (x ∷ xs) =
      append_assoc got chunk zs ∙ ap (λ r. got ++ r) (sym a) in
    let step = read_loop-piece n (length xs) b bs got rest in
    (
      pieces',
      step
          ∙ (ap
                (λ k.
                  read_loop n k (got ++ chunk) (put_back (drop (suc (length xs)) (b ∷ bs)) rest))
                missing
              ∙ (reads ∙ ap (λ r. (some r, pieces')) joined)),
      flat',
    )

read_exact-lem :
    (xs ys : Bytes) (pieces : Pieces)
    → flat pieces ≡ xs ++ ys
    → (pieces' : Pieces) × (read_exact (length xs) pieces ≡ (some xs, pieces'))
      × (flat pieces' ≡ ys)
unfolding read_exact
read_exact-lem xs ys pieces e = read_loop-lem (length xs) xs ys [] pieces (omega arith) e

-- What a client writes for messages, one after another.
abbrev pub wire : Bytes → ℕ → List (ℕ × Bytes) → Result EncodeError Bytes
wire m max_bytes [] = ok []
wire m max_bytes ((sequence, payload) ∷ messages) = do
  frame ← encode_raft_frame payload m sequence max_bytes
  rest ← wire m max_bytes messages
  ok (frame ++ rest)

-- A frame is a header of 16 bytes and a body of the size that the header says.
record Halves (frame : Bytes) : Type 0 where
  header : Bytes
  body : Bytes
  joined : frame ≡ header ++ body
  header_length : length header ≡ header_size
  body_length : length body ≡ frame_size header

frame-Halves :
    (payload m : Bytes) (sequence max_bytes : ℕ) (frame : Bytes)
    → encode_raft_frame payload m sequence max_bytes ≡ ok frame
    → Halves frame
unfolding to_be
frame-Halves payload m sequence max_bytes frame e =
    let (f, written) = (encode_raft_frame-Fits payload m sequence max_bytes frame).0 e in
    record {
      header = magic ++ (to_be 4 (length (m ++ payload)) ++ to_be 8 sequence);
      body = m ++ payload;
      joined = written;
      header_length = refl;
      body_length = sym (
          from_be-to_be 4 (length (m ++ payload))
            (omega (arith, length-append m payload, f.below_word)));
    }

flat-nil : (pieces : Pieces) → flat pieces ≡ [] → pieces ≡ []
flat-nil [] e = refl
flat-nil ((b, bs) ∷ rest) e = cc

connection-nil : (n : ℕ) (m : Bytes) (max_bytes : ℕ) → connection n m max_bytes [] ≡ []
unfolding connection read_exact read_loop
connection-nil zero m max_bytes = refl
connection-nil (suc n) m max_bytes = refl

connection-frame :
    (n : ℕ) (m : Bytes) (sequence max_bytes : ℕ) (payload frame rest : Bytes) (pieces : Pieces)
    → encode_raft_frame payload m sequence max_bytes ≡ ok frame
    → flat pieces ≡ frame ++ rest
    → (pieces' : Pieces) × (connection (suc n) m max_bytes pieces
        ≡ (sequence, payload) ∷ connection n m max_bytes pieces')
      × (flat pieces' ≡ rest)
unfolding connection
connection-frame n m sequence max_bytes payload frame rest pieces e arrives =
    let h = frame-Halves payload m sequence max_bytes frame e in
    let front : flat pieces ≡ h.header ++ (h.body ++ rest) =
      arrives ∙ (ap (λ f. f ++ rest) h.joined ∙ append_assoc h.header h.body rest) in
    let (p1, reads1, flat1) = read_exact-lem h.header (h.body ++ rest) pieces front in
    let (p2, reads2, flat2) = read_exact-lem h.body rest p1 flat1 in
    let reads1' : read_exact header_size pieces ≡ (some h.header, p1) =
      subst (λ k. read_exact k pieces ≡ (some h.header, p1)) h.header_length reads1 in
    let reads2' : read_exact (frame_size h.header) p1 ≡ (some h.body, p2) =
      subst (λ k. read_exact k p1 ≡ (some h.body, p2)) h.body_length reads2 in
    let decoded : decode_raft_frame (h.header ++ h.body) m max_bytes ≡ ok (sequence, payload) =
      subst (λ f. decode_raft_frame f m max_bytes ≡ ok (sequence, payload)) h.joined
        (encode-then-decode frame payload m sequence max_bytes e) in
    let next = connection n m max_bytes in
    (
      p2,
      ap (with_header next m max_bytes) reads1'
          ∙ (ap (with_body next m max_bytes h.header) reads2'
              ∙ ap (λ r. hand_on next r p2) decoded),
      flat2,
    )

connection-messages :
    (n : ℕ) (m : Bytes) (max_bytes : ℕ) (messages : List (ℕ × Bytes)) (bytes : Bytes)
    (pieces : Pieces)
    → wire m max_bytes messages ≡ ok bytes
    → flat pieces ≡ bytes
    → length messages ≤ n
    → connection n m max_bytes pieces ≡ messages
connection-messages n m max_bytes [] bytes pieces e arrives enough =
    ap (connection n m max_bytes) (flat-nil pieces (arrives ∙ sym (ok-injective e)))
    ∙ connection-nil n m max_bytes
connection-messages zero m max_bytes ((sequence, payload) ∷ messages) bytes pieces e arrives
      enough =
    absurd (omega (arith, enough))
connection-messages (suc n) m max_bytes ((sequence, payload) ∷ messages) bytes pieces e arrives
      enough =
    let (frame, e1, e2) = bind-ok (encode_raft_frame payload m sequence max_bytes) _ e in
    let (rest, e3, e4) = bind-ok (wire m max_bytes messages) _ e2 in
    let (pieces', first, flat') =
      connection-frame n m sequence max_bytes payload frame rest pieces e1
        (arrives ∙ sym (ok-injective e4)) in
    first
    ∙ ap (◌∷◌ (sequence, payload))
        (connection-messages n m max_bytes messages rest pieces' e3 flat' (omega (arith, enough)))

wire-length :
    (m : Bytes) (max_bytes : ℕ) (messages : List (ℕ × Bytes)) (bytes : Bytes)
    → wire m max_bytes messages ≡ ok bytes
    → length messages ≤ length bytes
wire-length m max_bytes [] bytes e = omega arith
wire-length m max_bytes ((sequence, payload) ∷ messages) bytes e =
    let (frame, e1, e2) = bind-ok (encode_raft_frame payload m sequence max_bytes) _ e in
    let (rest, e3, e4) = bind-ok (wire m max_bytes messages) _ e2 in
    let h = frame-Halves payload m sequence max_bytes frame e1 in
    let whole = ap length (ok-injective e4) in
    omega (
      arith,
      whole,
      length-append frame rest,
      ap length h.joined,
      length-append h.header h.body,
      h.header_length,
      wire-length m max_bytes messages rest e3,
    )

-- Whatever frames a client writes with the manifest and the bound that the server has, and however
-- the network cuts the bytes: the server hands on exactly the messages, in their order.
pub connection-wire :
    (m : Bytes) (max_bytes : ℕ) (messages : List (ℕ × Bytes)) (bytes : Bytes) (pieces : Pieces)
    → wire m max_bytes messages ≡ ok bytes
    → flat pieces ≡ bytes
    → connection (length bytes) m max_bytes pieces ≡ messages
connection-wire m max_bytes messages bytes pieces e arrives =
    connection-messages (length bytes) m max_bytes messages bytes pieces e arrives
      (wire-length m max_bytes messages bytes e)
