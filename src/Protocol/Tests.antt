-- ===== src/Protocol/Tests.antt =====
-- Frames and payloads on concrete bytes.
use mouser.Prelude.{
  ℕ, zero, suc, ◌+◌, ◌≤◌, ◌<◌, ◌≡◌, refl, List, [], ◌∷◌, ◌++◌, Result, ok, err, length, take, All,
  arith, ◌⊎◌,
}
use Prim.Native.String.{String}
use mouser.Prelude.Bytes.{IsByte, le_value, slice}
use mouser.Prelude.Int.{ℤ, pos, negsuc}
use mouser.Protocol.Messages.{PointerMotion, PointerMotionRel, motion, motion_rel}
use mouser.Protocol.Datagram.{
  Postcard, IsFaithful, encode_motion, encode_motion_rel, decode_datagram, alone,
  decode-encode_motion,
}
use mouser.Protocol.Framing.{Frame, too_large, max_control_frame, encode_frame, decode_frame}
use mouser.Protocol.Framing.RoundTrip.{decode-encode, encode-decode}

decode-encode_example :
    ((max_control_frame < 7) × (encode_frame 5 0 (1 ∷ 2 ∷ 3 ∷ []) ≡ err too_large))
    ⊎ ((bs : List ℕ) × (7 ≤ max_control_frame)
        × (encode_frame 5 0 (1 ∷ 2 ∷ 3 ∷ []) ≡ ok bs)
        × (decode_frame (bs ++ (9 ∷ []))
            ≡ ok (record { msg_type = 5; flags = 0; payload = 1 ∷ 2 ∷ 3 ∷ [] }, length bs)))
decode-encode_example = decode-encode 5 0 (1 ∷ 2 ∷ 3 ∷ []) (9 ∷ []) (omega arith) (omega arith)

-- A ping frame with one byte of payload, and a byte of the next frame.
abbrev wire : List ℕ
wire = 5 ∷ 0 ∷ 0 ∷ 0 ∷ 5 ∷ 0 ∷ 0 ∷ 0 ∷ 77 ∷ 1 ∷ []

wire-bytes : All IsByte wire
wire-bytes = ground arith

abbrev ping_frame : Frame
ping_frame = record { msg_type = 5; flags = 0; payload = 77 ∷ [] }

encode-decode_example :
    (encode_frame 5 0 (77 ∷ []) ≡ ok (take 9 wire)) × (9 ≤ 10) × (9 ≤ 4 + max_control_frame)
unfolding decode_frame le_value slice
encode-decode_example = encode-decode wire ping_frame 9 wire-bytes refl

-- Numbers one by one, in the place of the postcard library.
abbrev write_int : ℤ → List ℕ → List ℕ
write_int (pos n) rest = 0 ∷ n ∷ rest
write_int (negsuc n) rest = 1 ∷ n ∷ rest

abbrev read_int : ℕ → ℕ → ℤ
read_int zero n = pos n
read_int (suc s) n = negsuc n

abbrev motion_bytes : PointerMotion → List ℕ
motion_bytes m = m.owner_epoch ∷ m.seq ∷ m.display_id ∷ write_int m.x (write_int m.y [])

abbrev rel_bytes : PointerMotionRel → List ℕ
rel_bytes m = m.owner_epoch ∷ m.seq ∷ write_int m.dx_acc (write_int m.dy_acc [])

read_motion : List ℕ → Result (PointerMotion × List ℕ) String
read_motion (epoch ∷ seq ∷ display ∷ sx ∷ x ∷ sy ∷ y ∷ rest) = ok (
  record {
    owner_epoch = epoch;
    seq = seq;
    display_id = display;
    x = read_int sx x;
    y = read_int sy y;
  },
  rest,
)
read_motion _ = err "short"

read_rel : List ℕ → Result (PointerMotionRel × List ℕ) String
read_rel (epoch ∷ seq ∷ sx ∷ x ∷ sy ∷ y ∷ rest) = ok (
  record { owner_epoch = epoch; seq = seq; dx_acc = read_int sx x; dy_acc = read_int sy y },
  rest,
)
read_rel _ = err "short"

abbrev absolute : Postcard PointerMotion
absolute = record { to_allocvec = λ m. ok (motion_bytes m); take_from_bytes = read_motion }

abbrev relative : Postcard PointerMotionRel
relative = record { to_allocvec = λ m. ok (rel_bytes m); take_from_bytes = read_rel }

absolute_reads :
    (e q d : ℕ) (x y : ℤ) (rest : List ℕ)
    → read_motion ((e ∷ q ∷ d ∷ write_int x (write_int y [])) ++ rest)
      ≡ ok (record { owner_epoch = e; seq = q; display_id = d; x = x; y = y }, rest)
unfolding read_motion
absolute_reads e q d (pos x) (pos y) rest = refl
absolute_reads e q d (pos x) (negsuc y) rest = refl
absolute_reads e q d (negsuc x) (pos y) rest = refl
absolute_reads e q d (negsuc x) (negsuc y) rest = refl

relative_reads :
    (e q : ℕ) (x y : ℤ) (rest : List ℕ)
    → read_rel ((e ∷ q ∷ write_int x (write_int y [])) ++ rest)
      ≡ ok (record { owner_epoch = e; seq = q; dx_acc = x; dy_acc = y }, rest)
unfolding read_rel
relative_reads e q (pos x) (pos y) rest = refl
relative_reads e q (pos x) (negsuc y) rest = refl
relative_reads e q (negsuc x) (pos y) rest = refl
relative_reads e q (negsuc x) (negsuc y) rest = refl

abbrev absolute-IsFaithful : IsFaithful absolute
absolute-IsFaithful = record {
  bytes_of = motion_bytes;
  writes = λ m. refl;
  reads = λ m rest. absolute_reads m.owner_epoch m.seq m.display_id m.x m.y rest;
}

abbrev relative-IsFaithful : IsFaithful relative
relative-IsFaithful = record {
  bytes_of = rel_bytes;
  writes = λ m. refl;
  reads = λ m rest. relative_reads m.owner_epoch m.seq m.dx_acc m.dy_acc rest;
}

abbrev moved : PointerMotion
moved = record { owner_epoch = 3; seq = 42; display_id = 1; x = negsuc 9; y = pos 200 }

abbrev moved_by : PointerMotionRel
moved_by = record { owner_epoch = 3; seq = 43; dx_acc = pos 7; dy_acc = negsuc 0 }

decode-encode_motion_example :
    (bs : List ℕ) × (bs_rel : List ℕ) × (encode_motion absolute relative moved ≡ ok bs)
    × (encode_motion_rel absolute relative moved_by ≡ ok bs_rel)
    × (decode_datagram absolute relative (bs ++ (9 ∷ [])) ≡ alone (motion moved) (9 ∷ []))
    × (decode_datagram absolute relative (bs_rel ++ (9 ∷ []))
        ≡ alone (motion_rel moved_by) (9 ∷ []))
decode-encode_motion_example =
    decode-encode_motion absolute-IsFaithful relative-IsFaithful moved moved_by (9 ∷ [])
