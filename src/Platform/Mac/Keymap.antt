-- ===== src/Platform/Mac/Keymap.antt =====
-- crates/platform-mac/src/keymap.rs, keymap_capture.rs: HID usages and the key codes of macOS.
use mouser.Prelude.{ℕ, List, [], ◌∷◌, Option}
use mouser.Platform.Keys.{nat_eq, is_some, find_key, search, range, retain, sort}

-- The arms of `hid_usage_to_cgkeycode`.
abbrev pub cgkeycodes : List (ℕ × ℕ)
cgkeycodes =
    (0x04, 0x00)
    ∷ (0x05, 0x0b)
    ∷ (0x06, 0x08)
    ∷ (0x07, 0x02)
    ∷ (0x08, 0x0e)
    ∷ (0x09, 0x03)
    ∷ (0x0a, 0x05)
    ∷ (0x0b, 0x04)
    ∷ (0x0c, 0x22)
    ∷ (0x0d, 0x26)
    ∷ (0x0e, 0x28)
    ∷ (0x0f, 0x25)
    ∷ (0x10, 0x2e)
    ∷ (0x11, 0x2d)
    ∷ (0x12, 0x1f)
    ∷ (0x13, 0x23)
    ∷ (0x14, 0x0c)
    ∷ (0x15, 0x0f)
    ∷ (0x16, 0x01)
    ∷ (0x17, 0x11)
    ∷ (0x18, 0x20)
    ∷ (0x19, 0x09)
    ∷ (0x1a, 0x0d)
    ∷ (0x1b, 0x07)
    ∷ (0x1c, 0x10)
    ∷ (0x1d, 0x06)
    ∷ (0x1e, 0x12)
    ∷ (0x1f, 0x13)
    ∷ (0x20, 0x14)
    ∷ (0x21, 0x15)
    ∷ (0x22, 0x17)
    ∷ (0x23, 0x16)
    ∷ (0x24, 0x1a)
    ∷ (0x25, 0x1c)
    ∷ (0x26, 0x19)
    ∷ (0x27, 0x1d)
    ∷ (0x28, 0x24)
    ∷ (0x29, 0x35)
    ∷ (0x2a, 0x33)
    ∷ (0x2b, 0x30)
    ∷ (0x2c, 0x31)
    ∷ (0x2d, 0x1b)
    ∷ (0x2e, 0x18)
    ∷ (0x2f, 0x21)
    ∷ (0x30, 0x1e)
    ∷ (0x31, 0x2a)
    ∷ (0x33, 0x29)
    ∷ (0x34, 0x27)
    ∷ (0x35, 0x32)
    ∷ (0x36, 0x2b)
    ∷ (0x37, 0x2f)
    ∷ (0x38, 0x2c)
    ∷ (0x39, 0x39)
    ∷ (0x3a, 0x7a)
    ∷ (0x3b, 0x78)
    ∷ (0x3c, 0x63)
    ∷ (0x3d, 0x76)
    ∷ (0x3e, 0x60)
    ∷ (0x3f, 0x61)
    ∷ (0x40, 0x62)
    ∷ (0x41, 0x64)
    ∷ (0x42, 0x65)
    ∷ (0x43, 0x6d)
    ∷ (0x44, 0x67)
    ∷ (0x45, 0x6f)
    ∷ (0x49, 0x72)
    ∷ (0x4a, 0x73)
    ∷ (0x4b, 0x74)
    ∷ (0x4c, 0x75)
    ∷ (0x4d, 0x77)
    ∷ (0x4e, 0x79)
    ∷ (0x4f, 0x7c)
    ∷ (0x50, 0x7b)
    ∷ (0x51, 0x7d)
    ∷ (0x52, 0x7e)
    ∷ (0x53, 0x47)
    ∷ (0x54, 0x4b)
    ∷ (0x55, 0x43)
    ∷ (0x56, 0x4e)
    ∷ (0x57, 0x45)
    ∷ (0x58, 0x4c)
    ∷ (0x59, 0x53)
    ∷ (0x5a, 0x54)
    ∷ (0x5b, 0x55)
    ∷ (0x5c, 0x56)
    ∷ (0x5d, 0x57)
    ∷ (0x5e, 0x58)
    ∷ (0x5f, 0x59)
    ∷ (0x60, 0x5b)
    ∷ (0x61, 0x5c)
    ∷ (0x62, 0x52)
    ∷ (0x63, 0x41)
    ∷ (0x67, 0x51)
    ∷ (0x85, 0x5f)
    ∷ (0xe0, 0x3b)
    ∷ (0xe1, 0x38)
    ∷ (0xe2, 0x3a)
    ∷ (0xe3, 0x37)
    ∷ (0xe4, 0x3e)
    ∷ (0xe5, 0x3c)
    ∷ (0xe6, 0x3d)
    ∷ (0xe7, 0x36)
    ∷ []

unfoldable pub hid_usage_to_cgkeycode : ℕ → Option ℕ
hid_usage_to_cgkeycode usage = find_key cgkeycodes usage

unfoldable pub cgkeycode_to_hid_usage : ℕ → Option ℕ
cgkeycode_to_hid_usage keycode = search hid_usage_to_cgkeycode (range 0x04 228) keycode

unfoldable pub supported_hid_usages : List ℕ
supported_hid_usages = sort (retain (λ u. is_some (hid_usage_to_cgkeycode u)) (range 0x04 228))
