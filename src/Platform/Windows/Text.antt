-- ===== src/Platform/Windows/Text.antt =====
-- crates/platform-win/src/clipboard_text.rs: texts of the Windows clipboard. A string is the list of
-- its characters, by their code points; the conversions of the standard library are written out.
pub mod Lines
pub mod Units
pub mod RoundTrip
use mouser.Prelude.{
  ℕ, ◌+◌, ◌-◌, ◌*◌, ◌/◌, ◌%◌, Bool, true, false, not, ◌&&◌, ◌==◌, List, [], ◌∷◌, ◌++◌, Option, none,
  some, if◌then◌else◌, ltb, leb,
}
use mouser.Prelude.Bytes.{le_bytes}

abbrev pub cr : ℕ
cr = 13

abbrev pub lf : ℕ
lf = 10

-- `lf_to_crlf` from a character on; the flag is `previous_was_cr`.
unfoldable pub lf_to_crlf_from : Bool → List ℕ → List ℕ
lf_to_crlf_from previous_was_cr [] = []
lf_to_crlf_from previous_was_cr (ch ∷ s) =
    let rest = lf_to_crlf_from (ch == cr) s in
    if ch == lf && not previous_was_cr then cr ∷ ch ∷ rest else ch ∷ rest

unfoldable pub lf_to_crlf : List ℕ → List ℕ
lf_to_crlf s = lf_to_crlf_from false s

-- `chars.peek() == Some(&'\n')`.
abbrev pub peeks_lf : List ℕ → Bool
peeks_lf [] = false
peeks_lf (ch ∷ s) = ch == lf

unfoldable pub crlf_to_lf : List ℕ → List ℕ
crlf_to_lf [] = []
crlf_to_lf (ch ∷ s) = let rest = crlf_to_lf s in if ch == cr && peeks_lf s then rest else ch ∷ rest

-- `encode_utf16`.
unfoldable pub units_of : ℕ → List ℕ
units_of ch =
    if ltb ch 0x10000
    then ch ∷ []
    else (0xd800 + (ch - 0x10000) / 1024) ∷ (0xdc00 + (ch - 0x10000) % 1024) ∷ []

unfoldable pub encode_utf16 : List ℕ → List ℕ
encode_utf16 [] = []
encode_utf16 (ch ∷ s) = units_of ch ++ encode_utf16 s

abbrev pub is_high : ℕ → Bool
is_high u = leb 0xd800 u && ltb u 0xdc00

abbrev pub is_low : ℕ → Bool
is_low u = leb 0xdc00 u && ltb u 0xe000

-- `char::REPLACEMENT_CHARACTER`.
abbrev pub replacement : ℕ
replacement = 0xfffd

-- A unit with no high surrogate in front of it: what it gives, and whether it is one itself.
unfoldable pub decode_first : ℕ → List ℕ × Option ℕ
decode_first u =
    if is_high u
    then ([], some u)
    else (if is_low u then (replacement ∷ [], none) else (u ∷ [], none))

unfoldable pub decode_unit : Option ℕ → ℕ → List ℕ × Option ℕ
decode_unit none u = decode_first u
decode_unit (some high) u =
    if is_low u
    then ((0x10000 + (high - 0xd800) * 1024 + (u - 0xdc00)) ∷ [], none)
    else (let (out, next) = decode_first u in (replacement ∷ out, next))

-- `String::from_utf16_lossy`, behind a high surrogate or not.
unfoldable pub decode_from : Option ℕ → List ℕ → List ℕ
decode_from none [] = []
decode_from (some high) [] = replacement ∷ []
decode_from pending (u ∷ us) = let (out, next) = decode_unit pending u in out ++ decode_from next us

unfoldable pub from_utf16_lossy : List ℕ → List ℕ
from_utf16_lossy us = decode_from none us

-- The UTF-8 bytes of a character, and of a string.
unfoldable pub utf8_of : ℕ → List ℕ
utf8_of ch =
    if ltb ch 0x80
    then ch ∷ []
    else (if ltb ch 0x800
        then (192 + ch / 64) ∷ (128 + ch % 64) ∷ []
        else (if ltb ch 0x10000
            then (224 + ch / 4096) ∷ (128 + ch / 64 % 64) ∷ (128 + ch % 64) ∷ []
            else (240 + ch / 262144)
              ∷ (128 + ch / 4096 % 64)
              ∷ (128 + ch / 64 % 64)
              ∷ (128 + ch % 64)
              ∷ []))

unfoldable pub utf8 : List ℕ → List ℕ
utf8 [] = []
utf8 (ch ∷ s) = utf8_of ch ++ utf8 s

-- `chunks_exact(2)` with `from_le_bytes`; an odd last byte is left out.
unfoldable pub read_units : List ℕ → List ℕ
read_units [] = []
read_units (lo ∷ []) = []
read_units (lo ∷ hi ∷ raw) = (lo + 256 * hi) ∷ read_units raw

-- `take_while(|&u| u != 0)`.
unfoldable pub until_nul : List ℕ → List ℕ
until_nul [] = []
until_nul (u ∷ us) = let rest = until_nul us in if u == 0 then [] else u ∷ rest

unfoldable pub cf_unicodetext_bytes_to_engine_utf8 : List ℕ → List ℕ
cf_unicodetext_bytes_to_engine_utf8 raw =
    utf8 (crlf_to_lf (from_utf16_lossy (until_nul (read_units raw))))

unfoldable pub write_units : List ℕ → List ℕ
write_units [] = []
write_units (u ∷ us) = le_bytes 2 u ++ write_units us

unfoldable pub engine_utf8_to_cf_unicodetext_bytes : List ℕ → List ℕ
engine_utf8_to_cf_unicodetext_bytes s = write_units (encode_utf16 (lf_to_crlf s)) ++ le_bytes 2 0
