-- ===== src/Platform/Tests.antt =====
-- The Windows clipboard on a concrete text, and keys.
use mouser.Prelude.{ℕ, ◌%◌, ◌<◌, ◌≡◌, ◌↔◌, ◌==◌, refl, false, some, List, [], ◌∷◌, All, arith}
use mouser.Platform.Keys.{is_some, contains, search, range, find_key}
use mouser.Platform.Linux.Keymap as Evdev
use mouser.Platform.Mac.Keymap as Quartz
use mouser.Platform.Windows.Keymap as Win
use mouser.Platform.Linux.Keymap.{hid_usage_to_evdev_code, evdev_code_to_hid_usage}
use mouser.Platform.Mac.Keymap.{hid_usage_to_cgkeycode, cgkeycode_to_hid_usage}
use mouser.Platform.Windows.Keymap.{plain, hid_usage_to_scancode, scancode_to_hid_usage}
use mouser.Platform.Parity.{parity, capture-inject}
use mouser.Platform.Mac.Modifiers.{control, cgkeycode_to_modifier_flag, flags_changed_event}
use mouser.Platform.Mac.Modifiers.Alternate.{IsForwarded, held_after, changes_of, reports_alternate}
use mouser.Prelude.Bytes.{le_bytes}
use mouser.Clipboard.Canonical
use mouser.Platform.Windows.Text
use mouser.Platform.Windows.Text.{
  utf8, crlf_to_lf, cf_unicodetext_bytes_to_engine_utf8, engine_utf8_to_cf_unicodetext_bytes,
}
use mouser.Platform.Windows.Text.Units.{IsScalar}
use mouser.Platform.Windows.Text.Lines.{crlf_to_lf-utf8}
use mouser.Platform.Windows.Text.RoundTrip.{read-write}

-- Two lines and a half, with a character beyond the basic plane.
abbrev text : List ℕ
text = b'a' ∷ 10 ∷ b'b' ∷ 13 ∷ 10 ∷ 0x1f642 ∷ 13 ∷ b'c' ∷ []

text-IsScalar : All IsScalar text
text-IsScalar = ground arith

text-pos : All (λ ch. 0 < ch) text
text-pos = ground arith

back :
    cf_unicodetext_bytes_to_engine_utf8 (engine_utf8_to_cf_unicodetext_bytes text)
    ≡ b'a' ∷ 10 ∷ b'b' ∷ 10 ∷ 240 ∷ 159 ∷ 153 ∷ 130 ∷ 13 ∷ b'c' ∷ []
unfolding cf_unicodetext_bytes_to_engine_utf8 engine_utf8_to_cf_unicodetext_bytes Text.lf_to_crlf
    utf8 crlf_to_lf Text.from_utf16_lossy Text.decode_from Text.until_nul Text.read_units
    Text.write_units Text.encode_utf16 Text.lf_to_crlf_from Text.units_of le_bytes Text.decode_unit
    Text.decode_first Text.utf8_of
back = refl

read-write_example :
    cf_unicodetext_bytes_to_engine_utf8 (engine_utf8_to_cf_unicodetext_bytes text)
    ≡ Canonical.crlf_to_lf (utf8 text)
read-write_example = read-write text text-IsScalar text-pos

crlf_to_lf-utf8_example : Canonical.crlf_to_lf (utf8 text) ≡ utf8 (crlf_to_lf text)
crlf_to_lf-utf8_example = crlf_to_lf-utf8 text

parity_example :
    (is_some (hid_usage_to_evdev_code 0x32) ≡ contains Evdev.supported_hid_usages 0x32)
    × (is_some (hid_usage_to_scancode 0x32) ≡ contains Win.supported_hid_usages 0x32)
    × (is_some (hid_usage_to_cgkeycode 0x32) ≡ contains Quartz.supported_hid_usages 0x32)
    × (Evdev.supported_hid_usages ≡ Win.supported_hid_usages)
    × (Evdev.supported_hid_usages ≡ Quartz.supported_hid_usages)
parity_example = parity 0x32

capture-inject_example :
    ((hid_usage_to_evdev_code 0x04 ≡ some 30) ↔ (evdev_code_to_hid_usage 30 ≡ some 0x04))
    × ((hid_usage_to_scancode 0x04 ≡ some (plain 0x1e))
        ↔ (scancode_to_hid_usage 0x1e false ≡ some 0x04))
    × ((hid_usage_to_cgkeycode 0x04 ≡ some 0) ↔ (cgkeycode_to_hid_usage 0 ≡ some 0x04))
capture-inject_example = capture-inject 0x04 30 0 (plain 0x1e)

-- The left control key; the right one is held in between.
left_control : IsForwarded 0x3b 0xe0
unfolding cgkeycode_to_modifier_flag cgkeycode_to_hid_usage hid_usage_to_cgkeycode search range
    find_key
left_control = record { flag = control; is_modifier = refl; has_usage = refl }

reports_alternate_example :
    (flags_changed_event 0x3b (held_after [] (0x3b ∷ 0x3e ∷ []))).1
    ≡ some (0xe0, changes_of 0x3b (0x3b ∷ 0x3e ∷ []) % 2 == 0)
reports_alternate_example = reports_alternate (0x3b ∷ 0x3e ∷ []) 0x3b 0xe0 left_control
