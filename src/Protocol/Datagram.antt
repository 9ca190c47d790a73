-- ===== src/Protocol/Datagram.antt =====
-- crates/mouser-protocol/src/datagram.rs: the datagrams of pointer motion. The postcard library is a
-- parameter: what it writes for a value, and the value that it reads from the front of a buffer with
-- the bytes that are left.
use Prim.Native.String.{String}
use mouser.Prelude.{ℕ, ◌≡◌, refl, ◌==◌, List, [], ◌∷◌, ◌++◌, Result, ok, err, if◌then◌else◌}
use mouser.Protocol.Messages.{
  PointerMotion, PointerMotionRel, Datagram, motion, motion_rel, unknown,
}

abbrev pub tag_pointer_motion : ℕ
tag_pointer_motion = 1

abbrev pub tag_pointer_motion_rel : ℕ
tag_pointer_motion_rel = 2

pub data DatagramError : Type 0 where
  empty : DatagramError
  codec : String → DatagramError

pub record Postcard (T : Type 0) : Type 0 where
  pub to_allocvec : T → Result (List ℕ) String
  pub take_from_bytes : List ℕ → Result (T × List ℕ) String

abbrev pub tagged : ℕ → Result (List ℕ) String → Result (List ℕ) DatagramError
tagged tag (err e) = err (codec e)
tagged tag (ok encoded) = ok (tag ∷ encoded)

unfoldable pub encode_tagged : {T : Type 0} → Postcard T → ℕ → T → Result (List ℕ) DatagramError
encode_tagged postcard tag body = tagged tag (postcard.to_allocvec body)

abbrev pub whole : {T : Type 0} → Result (T × List ℕ) String → Result T DatagramError
whole (err e) = err (codec e)
whole (ok (value, [])) = ok value
whole (ok (value, b ∷ rest)) = err (codec "trailing bytes")

unfoldable pub decode_body : {T : Type 0} → Postcard T → List ℕ → Result T DatagramError
decode_body postcard body = whole (postcard.take_from_bytes body)

abbrev pub map_ok : {A B : Type 0} → (A → B) → Result A DatagramError → Result B DatagramError
map_ok f (ok a) = ok (f a)
map_ok f (err e) = err e

module _ (absolute : Postcard PointerMotion) (relative : Postcard PointerMotionRel) where
  unfoldable pub encode_motion : PointerMotion → Result (List ℕ) DatagramError
  encode_motion m = encode_tagged absolute tag_pointer_motion m

  unfoldable pub encode_motion_rel : PointerMotionRel → Result (List ℕ) DatagramError
  encode_motion_rel m = encode_tagged relative tag_pointer_motion_rel m

  unfoldable pub decode_datagram : List ℕ → Result Datagram DatagramError
  decode_datagram [] = err empty
  decode_datagram (tag ∷ body) =
      if tag == tag_pointer_motion
      then map_ok motion (decode_body absolute body)
      else (if tag == tag_pointer_motion_rel
          then map_ok motion_rel (decode_body relative body)
          else ok (unknown tag))

-- What is asked of the library: a value is written, and read back from the front of a buffer.
pub record IsFaithful {T : Type 0} (postcard : Postcard T) : Type 0 where
  pub bytes_of : T → List ℕ
  pub writes : (value : T) → postcard.to_allocvec value ≡ ok (bytes_of value)
  pub reads :
      (value : T) (rest : List ℕ)
      → postcard.take_from_bytes (bytes_of value ++ rest) ≡ ok (value, rest)

-- The verdict on a datagram with more bytes behind it.
abbrev pub alone : Datagram → List ℕ → Result Datagram DatagramError
alone d [] = ok d
alone d (b ∷ rest) = err (codec "trailing bytes")

alone_lem :
    {T : Type 0} (f : T → Datagram) (value : T) (rest : List ℕ)
    → map_ok f (whole (ok (value, rest))) ≡ alone (f value) rest
alone_lem f value [] = refl
alone_lem f value (b ∷ rest) = refl

-- A motion of either kind that is encoded is decoded to itself, as the same kind, and with any bytes
-- behind it the datagram is refused.
pub decode-encode_motion :
    {absolute : Postcard PointerMotion} {relative : Postcard PointerMotionRel}
    (a : IsFaithful absolute) (r : IsFaithful relative) (m : PointerMotion)
    (m_rel : PointerMotionRel) (rest : List ℕ)
    → (bs : List ℕ) × (bs_rel : List ℕ) × (encode_motion absolute relative m ≡ ok bs)
      × (encode_motion_rel absolute relative m_rel ≡ ok bs_rel)
      × (decode_datagram absolute relative (bs ++ rest) ≡ alone (motion m) rest)
      × (decode_datagram absolute relative (bs_rel ++ rest) ≡ alone (motion_rel m_rel) rest)
unfolding encode_motion encode_motion_rel encode_tagged decode_datagram decode_body
decode-encode_motion a r m m_rel rest = (
  tag_pointer_motion ∷ a.bytes_of m,
  tag_pointer_motion_rel ∷ r.bytes_of m_rel,
  rw (a.writes m) refl,
  rw (r.writes m_rel) refl,
  rw (a.reads m rest) (alone_lem motion m rest),
  rw (r.reads m_rel rest) (alone_lem motion_rel m_rel rest),
)
