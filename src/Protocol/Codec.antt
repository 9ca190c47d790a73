-- ===== src/Protocol/Codec.antt =====
-- crates/mouser-protocol/src/codec.rs: CBOR payloads. The CBOR library and the derived serializers
-- are a parameter, `Serde`: what is written for a value, and what is read from the front of a
-- buffer with the number of bytes consumed.
use Prim.Native.String.{String}
use mouser.Prelude.{
  ℕ, ◌≡◌, Bool, false, ◌||◌, ◌==◌, not, List, [], ◌∷◌, Result, ok, err, ◌>>=◌, ◌>>◌, guard, length,
  arith,
}

pub data CodecError : Type 0 where
  encode_error decode_error : String → CodecError

pub record Serde (T : Type 0) : Type 0 where
  pub into_writer : T → Result (List ℕ) String
  pub from_reader : List ℕ → Result (T × ℕ) String

abbrev pub indefinite_map : ℕ
indefinite_map = 0xbf

abbrev pub indefinite_array : ℕ
indefinite_array = 0x9f

abbrev pub map_err : {T : Type 0} → (String → CodecError) → Result T String → Result T CodecError
map_err f (ok a) = ok a
map_err f (err e) = err (f e)

unfoldable pub starts_indefinite : List ℕ → Bool
starts_indefinite [] = false
starts_indefinite (b ∷ bs) = b == indefinite_map || b == indefinite_array

module _ {T : Type 0} (serde : Serde T) where
  unfoldable pub to_cbor : T → Result (List ℕ) CodecError
  to_cbor value = map_err encode_error (serde.into_writer value)

  unfoldable pub from_cbor : List ℕ → Result T CodecError
  from_cbor bytes = do
    guard (not (starts_indefinite bytes)) (decode_error "indefinite-length top-level item")
    (value, position) ← map_err decode_error (serde.from_reader bytes)
    guard (position == length bytes) (decode_error "trailing bytes")
    ok value

-- What is asked of a serializer: a value is written whole, as one definite-length item, and read
-- back from its own bytes.
pub record IsLawful {T : Type 0} (serde : Serde T) : Type 0 where
  pub bytes_of : T → List ℕ
  pub writes : (value : T) → serde.into_writer value ≡ ok (bytes_of value)
  pub definite : (value : T) → starts_indefinite (bytes_of value) ≡ false
  pub reads : (value : T) → serde.from_reader (bytes_of value) ≡ ok (value, length (bytes_of value))

-- What is encoded is decoded again.
pub from_cbor-to_cbor :
    {T : Type 0} {serde : Serde T} (lawful : IsLawful serde) (value : T)
    → (to_cbor serde value ≡ ok (lawful.bytes_of value))
      × (from_cbor serde (lawful.bytes_of value) ≡ ok value)
unfolding to_cbor from_cbor
from_cbor-to_cbor lawful value =
    (rw (lawful.writes value), rw (lawful.definite value, lawful.reads value) (ground arith))

-- Nothing is decoded but a buffer that is one item from its first byte to its last, and no buffer
-- that begins with an item of indefinite length.
pub from_cbor_strict :
    {T : Type 0} (serde : Serde T) (bytes : List ℕ) (value : T)
    → from_cbor serde bytes ≡ ok value
    → (serde.from_reader bytes ≡ ok (value, length bytes)) × (starts_indefinite bytes ≡ false)
unfolding from_cbor
from_cbor_strict serde bytes value h = ground arith
