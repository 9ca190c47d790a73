-- ===== src/Platform/Windows/Text/Units.antt =====
-- UTF-16 and its bytes (crates/platform-win/src/clipboard_text.rs).
use mouser.Prelude.{
  ℕ, ◌+◌, ◌-◌, ◌*◌, ◌/◌, ◌%◌, ◌≤◌, ◌<◌, ◌≡◌, ◌⊎◌, refl, ap, ◌∙◌, true, false, ◌==◌, List, [], ◌∷◌,
  ◌++◌, none, ltb, All, arith, Bool-cases, inl, inr, All-append,
}
use mouser.Prelude.Bytes.{le_bytes}
use mouser.Platform.Windows.Text.{
  units_of, encode_utf16, is_high, is_low, decode_first, decode_unit, decode_from, from_utf16_lossy,
  read_units, until_nul, write_units,
}

-- A `char`: a code point that is no surrogate.
abbrev pub IsScalar : ℕ → Type 0
IsScalar ch = (ch < 0xd800) ⊎ ((0xe000 ≤ ch) × (ch < 0x110000))

abbrev pub IsUnit : ℕ → Type 0
IsUnit u = u < 65536

decode-units_of :
    (ch : ℕ) (us : List ℕ)
    → IsScalar ch
    → decode_from none (units_of ch ++ us) ≡ ch ∷ decode_from none us
unfolding units_of decode_from decode_unit decode_first
decode-units_of ch us h = elim (Bool-cases (ltb ch 0x10000)) [
  | inl small ↦
      (let high : is_high ch ≡ false = ground (arith, h, small) in
        let low : is_low ch ≡ false = ground (arith, h, small) in rw (small, high, low) refl)
  | inr large ↦
      (let bound : (0x10000 ≤ ch) × (ch < 0x110000) = ground (arith, h, large) in
        let high : is_high (0xd800 + (ch - 0x10000) / 1024) ≡ true = ground (arith, bound) in
        let low : is_low (0xdc00 + (ch - 0x10000) % 1024) ≡ true = ground (arith, bound) in
        let whole : 0x10000
              + (0xd800 + (ch - 0x10000) / 1024 - 0xd800) * 1024
              + (0xdc00 + (ch - 0x10000) % 1024 - 0xdc00)
            ≡ ch =
          omega (arith, bound) in
        rw (large, high, low, whole) refl)
]

pub from_utf16_lossy-encode_utf16 :
    (s : List ℕ) → All IsScalar s → from_utf16_lossy (encode_utf16 s) ≡ s
unfolding from_utf16_lossy encode_utf16 decode_from
from_utf16_lossy-encode_utf16 [] h = refl
from_utf16_lossy-encode_utf16 (ch ∷ s) (h, hs) =
    decode-units_of ch (encode_utf16 s) h ∙ ap (◌∷◌ ch) (from_utf16_lossy-encode_utf16 s hs)

-- Units with no NUL among them.
abbrev pub IsPlain : ℕ → Type 0
IsPlain u = (u < 65536) × (0 < u)

units_of-IsPlain : (ch : ℕ) → IsScalar ch → 0 < ch → All IsPlain (units_of ch)
unfolding units_of
units_of-IsPlain ch h pos = ground (arith, h)

pub encode_utf16-IsPlain :
    (s : List ℕ) → All IsScalar s → All (λ ch. 0 < ch) s → All IsPlain (encode_utf16 s)
unfolding encode_utf16
encode_utf16-IsPlain [] h n = tt
encode_utf16-IsPlain (ch ∷ s) (h, hs) (n, ns) =
    All-append IsPlain (units_of ch) (encode_utf16 s) (units_of-IsPlain ch h n)
      (encode_utf16-IsPlain s hs ns)

-- The bytes of the units, with the NUL that ends them, read up to it.
pub until_nul-write_units :
    (us : List ℕ) → All IsPlain us → until_nul (read_units (write_units us ++ le_bytes 2 0)) ≡ us
unfolding until_nul read_units write_units le_bytes
until_nul-write_units [] h = refl
until_nul-write_units (u ∷ us) ((small, pos), hs) =
    let same : u % 256 + 256 * (u / 256 % 256) ≡ u = omega arith in
    let no_nul : (u == 0) ≡ false = ground arith in
    rw (same, no_nul) (ap (◌∷◌ u) (until_nul-write_units us hs))
