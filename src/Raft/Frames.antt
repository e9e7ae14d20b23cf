-- ===== src/Raft/Frames.antt =====
-- Frames of neural_pods/raft_transport.py, there and back: the decoder accepts exactly what the
-- encoder writes for the manifest that it expects.

use ptr_research.Common.{
  length-take-le, filter-all, filter_full, length-drop, drop-drop, ℕ, zero, suc, ◌+◌, ◌^◌, ◌<◌, ◌≤◌,
  ◌≡◌, refl, ap, sym, ◌∙◌, subst, Bool, true, false, ◌||◌, [], ◌∷◌, ◌++◌, arith, length, take, drop,
  filter, all, length-append, take-append, drop-append, take-drop, length-take, append_assoc, ◌↔◌,
  ◌==◌, ltb, not, ok, ◌>>◌, raise_if, both-ok, bind-ok, raise_if-ok, ok-injective,
}
use ptr_research.Raft.{
  Bytes, to_be, from_be, same, magic, header_size, is_ascii, not_ascii, digest_length,
  frame_too_large, truncated_header, invalid_frame, manifest_mismatch, pack, encode_raft_frame,
  frame_size, frame_sequence, decode_raft_frame,
}
use ptr_research.Raft.Words.{from_be-to_be, to_be-from_be, AreBytes, same_iff}

-- What the encoder writes.
abbrev pub framed : ℕ → ℕ → Bytes → Bytes
framed size sequence body = (magic ++ (to_be 4 size ++ to_be 8 sequence)) ++ body

pub record FrameParts (size sequence : ℕ) (body frame : Bytes) : Type 0 where
  pub magic_part : take 4 frame ≡ magic
  pub size_part : take 4 (drop 4 frame) ≡ to_be 4 size
  pub sequence_part : take 8 (drop 8 frame) ≡ to_be 8 sequence
  pub body_part : drop header_size frame ≡ body
  pub total : length frame ≡ header_size + length body

framed-FrameParts :
    (size sequence : ℕ) (body : Bytes) → FrameParts size sequence body (framed size sequence body)
unfolding to_be
framed-FrameParts size sequence body = record {
  magic_part = refl;
  size_part = refl;
  sequence_part = refl;
  body_part = refl;
  total = omega arith;
}

-- A manifest's digest in hex.
pub record IsDigest (m : Bytes) : Type 0 where
  pub ascii : all is_ascii m ≡ true
  pub size : length m ≡ 64

-- The bounds within which a payload can be sent.
pub record Fits (m payload : Bytes) (sequence max_bytes : ℕ) : Type 0 where
  pub digest : IsDigest m
  pub below_max : length m + length payload ≤ max_bytes
  pub below_word : length m + length payload < 2 ^ 32
  pub sequence_fits : sequence < 2 ^ 64

packed-fits :
    (size sequence : ℕ) (header : Bytes)
    → pack size sequence ≡ ok header
    → (size < 2 ^ 32) × (sequence < 2 ^ 64) × (header ≡ magic ++ (to_be 4 size ++ to_be 8 sequence))
packed-fits size sequence header e = ground (arith, e)

pub encode_raft_frame-Fits :
    (payload m : Bytes) (sequence max_bytes : ℕ) (frame : Bytes)
    → (encode_raft_frame payload m sequence max_bytes ≡ ok frame) ↔ (
        Fits m payload sequence max_bytes
        × (frame ≡ framed (length (m ++ payload)) sequence (m ++ payload)))
unfolding encode_raft_frame
encode_raft_frame-Fits payload m sequence max_bytes frame =
    let len = length-append m payload in
    (
      λ e.
          let (a, e1) = (both-ok (raise_if (not (all is_ascii m)) not_ascii) _).0 e in
          let (b, e2) = (both-ok (raise_if (not (length m == 64)) digest_length) _).0 e1 in
          let (c, e3) =
            (both-ok (raise_if (ltb max_bytes (length (m ++ payload))) frame_too_large) _).0 e2 in
          let (header, packed, e4) = bind-ok (pack (length (m ++ payload)) sequence) _ e3 in
          let fits = packed-fits (length (m ++ payload)) sequence header packed in
          (
            record {
              digest = record {
                ascii = ground (arith, (raise_if-ok (not (all is_ascii m)) not_ascii).0 a);
                size = ground (arith, (raise_if-ok (not (length m == 64)) digest_length).0 b);
              };
              below_max = ground (
                arith,
                len,
                (raise_if-ok (ltb max_bytes (length (m ++ payload))) frame_too_large).0 c,
              );
              below_word = omega (arith, len, fits.0);
              sequence_fits = fits.1;
            },
            sym (ok-injective e4) ∙ ap (λ h. h ++ (m ++ payload)) fits.2,
          ),
      λ p. writes p.0 ∙ ap ok (sym p.1),
    )
  where
    writes :
        Fits m payload sequence max_bytes
        → encode_raft_frame payload m sequence max_bytes
          ≡ ok (framed (length (m ++ payload)) sequence (m ++ payload))
    writes f = ground (
      arith,
      f.digest.ascii,
      f.digest.size,
      length-append m payload,
      f.below_max,
      f.below_word,
      f.sequence_fits,
    )

guards_pass :
    (size max_bytes n : ℕ)
    → size ≡ n
    → size ≤ max_bytes
    → (ltb (header_size + n) header_size ≡ false)
      × ((ltb max_bytes size || not (header_size + n == header_size + size)) ≡ false)
guards_pass size max_bytes n e below = ground (arith, e, below)

guards_passed :
    (same_ : Bool) (max_bytes size n : ℕ)
    → (not same_ || ltb max_bytes size || not (n == header_size + size)) ≡ false
    → (same_ ≡ true) × (size ≤ max_bytes) × (n ≡ header_size + size)
guards_passed same_ max_bytes size n h = ground (arith, h)

-- The header in place, the decoder compares the digest.
decode-FrameParts :
    (size sequence max_bytes : ℕ) (m body frame : Bytes)
    → FrameParts size sequence body frame
    → size < 2 ^ 32
    → sequence < 2 ^ 64
    → size ≡ length body
    → size ≤ max_bytes
    → decode_raft_frame frame m max_bytes ≡ (
        raise_if (not (same (filter is_ascii (take 64 body)) m)) manifest_mismatch
        >> ok (sequence, drop 64 body))
unfolding decode_raft_frame
decode-FrameParts size sequence max_bytes m body frame p fits fits' e below =
    let size_ : frame_size frame ≡ size =
      ap (from_be 0) p.size_part ∙ from_be-to_be 4 size (omega (arith, fits)) in
    let sequence_ : frame_sequence frame ≡ sequence =
      ap (from_be 0) p.sequence_part ∙ from_be-to_be 8 sequence (omega (arith, fits')) in
    let (long, in_bounds) = guards_pass size max_bytes (length body) e below in
    rw (p.magic_part, size_, sequence_, p.body_part, p.total) (rw (long, in_bounds) refl)

pub encode-then-decode :
    (frame payload m : Bytes) (sequence max_bytes : ℕ)
    → encode_raft_frame payload m sequence max_bytes ≡ ok frame
    → decode_raft_frame frame m max_bytes ≡ ok (sequence, payload)
encode-then-decode frame payload m sequence max_bytes e =
    let (f, written) = (encode_raft_frame-Fits payload m sequence max_bytes frame).0 e in
    let len = length-append m payload in
    let p =
      subst (FrameParts (length (m ++ payload)) sequence (m ++ payload)) (sym written)
        (framed-FrameParts (length (m ++ payload)) sequence (m ++ payload)) in
    let d = f.digest in
    let first : take 64 (m ++ payload) ≡ m =
      subst (λ n. take n (m ++ payload) ≡ m) d.size (take-append m payload) in
    let rest : drop 64 (m ++ payload) ≡ payload =
      subst (λ n. drop n (m ++ payload) ≡ payload) d.size (drop-append m payload) in
    decode-FrameParts (length (m ++ payload)) sequence max_bytes m (m ++ payload) frame p
      (omega (arith, len, f.below_word)) f.sequence_fits refl (omega (arith, len, f.below_max))
    ∙ rw (first, rest, filter-all is_ascii m d.ascii) (ground (arith, same_iff m m))

AreBytes-take : (n : ℕ) (xs : Bytes) → AreBytes xs → AreBytes (take n xs)
AreBytes-take zero xs h = tt
AreBytes-take (suc n) [] h = tt
AreBytes-take (suc n) (x ∷ xs) h = (h.0, AreBytes-take n xs h.1)

AreBytes-drop : (n : ℕ) (xs : Bytes) → AreBytes xs → AreBytes (drop n xs)
AreBytes-drop zero xs h = h
AreBytes-drop (suc n) [] h = tt
AreBytes-drop (suc n) (x ∷ xs) h = AreBytes-drop n xs h.1

-- The four fields of a frame, in order.
frame_split :
    (frame : Bytes)
    → frame
      ≡ (take 4 frame ++ (take 4 (drop 4 frame) ++ take 8 (drop 8 frame))) ++ drop header_size frame
frame_split frame =
    let a = take-drop 4 frame in
    let b = take-drop 4 (drop 4 frame) in
    let c = take-drop 8 (drop 8 frame) in
    let b' : take 4 (drop 4 frame) ++ drop 8 frame ≡ drop 4 frame =
      subst (λ r. take 4 (drop 4 frame) ++ r ≡ drop 4 frame) (drop-drop 4 4 frame) b in
    let c' : take 8 (drop 8 frame) ++ drop header_size frame ≡ drop 8 frame =
      subst (λ r. take 8 (drop 8 frame) ++ r ≡ drop 8 frame) (drop-drop 8 8 frame) c in
    sym (
      append_assoc (take 4 frame) (take 4 (drop 4 frame) ++ take 8 (drop 8 frame))
        (drop header_size frame)
      ∙ (ap (λ r. take 4 frame ++ r)
            (append_assoc (take 4 (drop 4 frame)) (take 8 (drop 8 frame)) (drop header_size frame)
              ∙ (ap (λ r. take 4 (drop 4 frame) ++ r) c' ∙ b'))
          ∙ a))

-- Where all of the first 64 bytes are characters and spell the digest, the body begins with it.
digest_first :
    (m body : Bytes) → IsDigest m → filter is_ascii (take 64 body) ≡ m → body ≡ m ++ drop 64 body
digest_first m body d e =
    let short : length (take 64 body) ≤ length (filter is_ascii (take 64 body)) =
      omega (arith, length-take-le 64 body, ap length e, d.size) in
    let whole : take 64 body ≡ m = sym (filter_full is_ascii (take 64 body) short) ∙ e in
    sym (take-drop 64 body) ∙ ap (λ h. h ++ drop 64 body) whole

assemble :
    (size sequence : ℕ) {a b c d body : Bytes}
    → a ≡ magic
    → b ≡ to_be 4 size
    → c ≡ to_be 8 sequence
    → d ≡ body
    → (a ++ (b ++ c)) ++ d ≡ framed size sequence body
assemble size sequence ea eb ec ed = cc

decode-then-encode :
    (frame payload m : Bytes) (sequence max_bytes : ℕ)
    → AreBytes frame
    → IsDigest m
    → decode_raft_frame frame m max_bytes ≡ ok (sequence, payload)
    → encode_raft_frame payload m sequence max_bytes ≡ ok frame
unfolding decode_raft_frame
decode-then-encode frame payload m sequence max_bytes bytes d e =
    let (a, e1) = (both-ok (raise_if (ltb (length frame) header_size) truncated_header) _).0 e in
    let (b, e2) =
      (both-ok
          (raise_if
            (not (same (take 4 frame) magic)
              || ltb max_bytes (frame_size frame)
              || not (length frame == header_size + frame_size frame))
            invalid_frame)
          _).0
        e1 in
    let (c, e3) =
      (both-ok
          (raise_if (not (same (filter is_ascii (take 64 (drop header_size frame))) m))
            manifest_mismatch)
          _).0
        e2 in
    let body = drop header_size frame in
    let (magic_, below, whole) =
      guards_passed (same (take 4 frame) magic) max_bytes (frame_size frame) (length frame)
        ((raise_if-ok _ invalid_frame).0 b) in
    let long : header_size ≤ length frame =
      ground (arith, (raise_if-ok (ltb (length frame) header_size) truncated_header).0 a) in
    let digest_ : filter is_ascii (take 64 body) ≡ m =
      (same_iff (filter is_ascii (take 64 body)) m).0 (
        ground (
          arith,
          (raise_if-ok (not (same (filter is_ascii (take 64 body)) m)) manifest_mismatch).0 c,
        )) in
    let returned = ok-injective e3 in
    let payload_ : drop 64 body ≡ payload = ap (λ (r : ℕ × Bytes). r.1) returned in
    let sequence_ : frame_sequence frame ≡ sequence = ap (λ (r : ℕ × Bytes). r.0) returned in
    let body_ : body ≡ m ++ payload = digest_first m body d digest_ ∙ ap (λ r. m ++ r) payload_ in
    let rest = length-drop header_size frame long in
    let size_ : frame_size frame ≡ length (m ++ payload) =
      omega (arith, whole, rest, ap length body_) in
    let (word4, fits4) =
      to_be-from_be 4 (take 4 (drop 4 frame))
        (length-take 4 (drop 4 frame)
          (omega (arith, long, length-drop 4 frame (omega (arith, long)))))
        (AreBytes-take 4 (drop 4 frame) (AreBytes-drop 4 frame bytes)) in
    let (word8, fits8) =
      to_be-from_be 8 (take 8 (drop 8 frame))
        (length-take 8 (drop 8 frame)
          (omega (arith, long, length-drop 8 frame (omega (arith, long)))))
        (AreBytes-take 8 (drop 8 frame) (AreBytes-drop 8 frame bytes)) in
    (encode_raft_frame-Fits payload m sequence max_bytes frame).1 (
      record {
        digest = d;
        below_max = omega (arith, below, size_, length-append m payload);
        below_word = omega (arith, fits4, size_, length-append m payload);
        sequence_fits = omega (arith, fits8, sequence_);
      },
      frame_split frame
          ∙ assemble (length (m ++ payload)) sequence ((same_iff (take 4 frame) magic).0 magic_)
              (sym word4 ∙ ap (to_be 4) size_) (sym word8 ∙ ap (to_be 8) sequence_) body_,
    )

-- For a manifest's digest of 64 characters the decoder returns a sequence number and a payload
-- exactly when the frame, a list of bytes, is what the encoder writes for them.
pub decode-encode :
    (frame payload m : Bytes) (sequence max_bytes : ℕ)
    → AreBytes frame
    → IsDigest m
    → (decode_raft_frame frame m max_bytes ≡ ok (sequence, payload))
      ↔ (encode_raft_frame payload m sequence max_bytes ≡ ok frame)
decode-encode frame payload m sequence max_bytes bytes d = (
  decode-then-encode frame payload m sequence max_bytes bytes d,
  encode-then-decode frame payload m sequence max_bytes,
)
