-- ===== src/Platform/Linux/Keymap.antt =====
-- crates/platform-linux/src/keymap.rs: HID usages and the key codes of evdev.
use mouser.Prelude.{ℕ, not, ◌==◌, List, [], ◌∷◌, ◌++◌, Option}
use mouser.Platform.Keys.{nat_eq, find_key, find_value, range, retain, sort}

abbrev pub hid_to_evdev : List (ℕ × ℕ)
hid_to_evdev =
    (0x04, 30)
    ∷ (0x05, 48)
    ∷ (0x06, 46)
    ∷ (0x07, 32)
    ∷ (0x08, 18)
    ∷ (0x09, 33)
    ∷ (0x0a, 34)
    ∷ (0x0b, 35)
    ∷ (0x0c, 23)
    ∷ (0x0d, 36)
    ∷ (0x0e, 37)
    ∷ (0x0f, 38)
    ∷ (0x10, 50)
    ∷ (0x11, 49)
    ∷ (0x12, 24)
    ∷ (0x13, 25)
    ∷ (0x14, 16)
    ∷ (0x15, 19)
    ∷ (0x16, 31)
    ∷ (0x17, 20)
    ∷ (0x18, 22)
    ∷ (0x19, 47)
    ∷ (0x1a, 17)
    ∷ (0x1b, 45)
    ∷ (0x1c, 21)
    ∷ (0x1d, 44)
    ∷ (0x1e, 2)
    ∷ (0x1f, 3)
    ∷ (0x20, 4)
    ∷ (0x21, 5)
    ∷ (0x22, 6)
    ∷ (0x23, 7)
    ∷ (0x24, 8)
    ∷ (0x25, 9)
    ∷ (0x26, 10)
    ∷ (0x27, 11)
    ∷ (0x28, 28)
    ∷ (0x29, 1)
    ∷ (0x2a, 14)
    ∷ (0x2b, 15)
    ∷ (0x2c, 57)
    ∷ (0x2d, 12)
    ∷ (0x2e, 13)
    ∷ (0x2f, 26)
    ∷ (0x30, 27)
    ∷ (0x31, 43)
    ∷ (0x33, 39)
    ∷ (0x34, 40)
    ∷ (0x35, 41)
    ∷ (0x36, 51)
    ∷ (0x37, 52)
    ∷ (0x38, 53)
    ∷ (0x39, 58)
    ∷ (0x3a, 59)
    ∷ (0x3b, 60)
    ∷ (0x3c, 61)
    ∷ (0x3d, 62)
    ∷ (0x3e, 63)
    ∷ (0x3f, 64)
    ∷ (0x40, 65)
    ∷ (0x41, 66)
    ∷ (0x42, 67)
    ∷ (0x43, 68)
    ∷ (0x44, 87)
    ∷ (0x45, 88)
    ∷ (0x49, 110)
    ∷ (0x4a, 102)
    ∷ (0x4b, 104)
    ∷ (0x4c, 111)
    ∷ (0x4d, 107)
    ∷ (0x4e, 109)
    ∷ (0x4f, 106)
    ∷ (0x50, 105)
    ∷ (0x51, 108)
    ∷ (0x52, 103)
    ∷ (0x53, 69)
    ∷ (0x54, 98)
    ∷ (0x55, 55)
    ∷ (0x56, 74)
    ∷ (0x57, 78)
    ∷ (0x58, 96)
    ∷ (0x59, 79)
    ∷ (0x5a, 80)
    ∷ (0x5b, 81)
    ∷ (0x5c, 75)
    ∷ (0x5d, 76)
    ∷ (0x5e, 77)
    ∷ (0x5f, 71)
    ∷ (0x60, 72)
    ∷ (0x61, 73)
    ∷ (0x62, 82)
    ∷ (0x63, 83)
    ∷ (0x67, 117)
    ∷ (0x85, 121)
    ∷ (0xe0, 29)
    ∷ (0xe1, 42)
    ∷ (0xe2, 56)
    ∷ (0xe3, 125)
    ∷ (0xe4, 97)
    ∷ (0xe5, 54)
    ∷ (0xe6, 100)
    ∷ (0xe7, 126)
    ∷ []

unfoldable pub hid_usage_to_evdev_code : ℕ → Option ℕ
hid_usage_to_evdev_code usage = find_key hid_to_evdev usage

unfoldable pub evdev_code_to_hid_usage : ℕ → Option ℕ
evdev_code_to_hid_usage code = find_value hid_to_evdev code

unfoldable pub evdev_btn_to_button : ℕ → Option ℕ
evdev_btn_to_button code =
    find_key ((0x110, 0) ∷ (0x111, 1) ∷ (0x112, 2) ∷ (0x113, 3) ∷ (0x114, 4) ∷ []) code

unfoldable pub supported_hid_usages : List ℕ
supported_hid_usages = sort (
    retain (λ u. not (u == 0x32))
      (range 0x04 54
        ++ (range 0x3a 12 ++ (range 0x49 10 ++ (range 0x53 17 ++ (0x67 ∷ 0x85 ∷ range 0xe0 8))))))
