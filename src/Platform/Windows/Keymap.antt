-- ===== src/Platform/Windows/Keymap.antt =====
-- crates/platform-win/src/keymap.rs: HID usages and the scancodes of Windows.
use mouser.Prelude.{
  ℕ, ◌≡◌, ◌↔◌, Bool, true, false, not, ◌&&◌, ◌==◌, List, [], ◌∷◌, ◌++◌, Option, arith,
}
use mouser.Platform.Keys.{Eq, or_else, find_key, search, range, retain, sort}

pub record ScanCode : Type 0 where
  pub code : ℕ
  pub extended : Bool

abbrev pub plain : ℕ → ScanCode
plain code = record { code = code; extended = false }

abbrev pub ext : ℕ → ScanCode
ext code = record { code = code; extended = true }

abbrev pub same_bool : Bool → Bool → Bool
same_bool true b = b
same_bool false b = not b

abbrev pub same_code : ScanCode → ScanCode → Bool
same_code a b = a.code == b.code && same_bool a.extended b.extended

pub same_code_iff : (a b : ScanCode) → (same_code a b ≡ true) ↔ (a ≡ b)
same_code_iff a b = ground arith

instance abbrev pub scan_code_eq : Eq ScanCode
scan_code_eq = record { beq = same_code; beq_iff = same_code_iff }

-- The arms of `hid_usage_to_scancode`.
abbrev pub scancodes : List (ℕ × ScanCode)
scancodes =
    (0x04, plain 0x1e)
    ∷ (0x05, plain 0x30)
    ∷ (0x06, plain 0x2e)
    ∷ (0x07, plain 0x20)
    ∷ (0x08, plain 0x12)
    ∷ (0x09, plain 0x21)
    ∷ (0x0a, plain 0x22)
    ∷ (0x0b, plain 0x23)
    ∷ (0x0c, plain 0x17)
    ∷ (0x0d, plain 0x24)
    ∷ (0x0e, plain 0x25)
    ∷ (0x0f, plain 0x26)
    ∷ (0x10, plain 0x32)
    ∷ (0x11, plain 0x31)
    ∷ (0x12, plain 0x18)
    ∷ (0x13, plain 0x19)
    ∷ (0x14, plain 0x10)
    ∷ (0x15, plain 0x13)
    ∷ (0x16, plain 0x1f)
    ∷ (0x17, plain 0x14)
    ∷ (0x18, plain 0x16)
    ∷ (0x19, plain 0x2f)
    ∷ (0x1a, plain 0x11)
    ∷ (0x1b, plain 0x2d)
    ∷ (0x1c, plain 0x15)
    ∷ (0x1d, plain 0x2c)
    ∷ (0x1e, plain 0x02)
    ∷ (0x1f, plain 0x03)
    ∷ (0x20, plain 0x04)
    ∷ (0x21, plain 0x05)
    ∷ (0x22, plain 0x06)
    ∷ (0x23, plain 0x07)
    ∷ (0x24, plain 0x08)
    ∷ (0x25, plain 0x09)
    ∷ (0x26, plain 0x0a)
    ∷ (0x27, plain 0x0b)
    ∷ (0x28, plain 0x1c)
    ∷ (0x29, plain 0x01)
    ∷ (0x2a, plain 0x0e)
    ∷ (0x2b, plain 0x0f)
    ∷ (0x2c, plain 0x39)
    ∷ (0x2d, plain 0x0c)
    ∷ (0x2e, plain 0x0d)
    ∷ (0x2f, plain 0x1a)
    ∷ (0x30, plain 0x1b)
    ∷ (0x31, plain 0x2b)
    ∷ (0x33, plain 0x27)
    ∷ (0x34, plain 0x28)
    ∷ (0x35, plain 0x29)
    ∷ (0x36, plain 0x33)
    ∷ (0x37, plain 0x34)
    ∷ (0x38, plain 0x35)
    ∷ (0x39, plain 0x3a)
    ∷ (0x3a, plain 0x3b)
    ∷ (0x3b, plain 0x3c)
    ∷ (0x3c, plain 0x3d)
    ∷ (0x3d, plain 0x3e)
    ∷ (0x3e, plain 0x3f)
    ∷ (0x3f, plain 0x40)
    ∷ (0x40, plain 0x41)
    ∷ (0x41, plain 0x42)
    ∷ (0x42, plain 0x43)
    ∷ (0x43, plain 0x44)
    ∷ (0x44, plain 0x57)
    ∷ (0x45, plain 0x58)
    ∷ (0x49, ext 0x52)
    ∷ (0x4a, ext 0x47)
    ∷ (0x4b, ext 0x49)
    ∷ (0x4c, ext 0x53)
    ∷ (0x4d, ext 0x4f)
    ∷ (0x4e, ext 0x51)
    ∷ (0x4f, ext 0x4d)
    ∷ (0x50, ext 0x4b)
    ∷ (0x51, ext 0x50)
    ∷ (0x52, ext 0x48)
    ∷ (0x53, plain 0x45)
    ∷ (0x54, ext 0x35)
    ∷ (0x55, plain 0x37)
    ∷ (0x56, plain 0x4a)
    ∷ (0x57, plain 0x4e)
    ∷ (0x58, ext 0x1c)
    ∷ (0x59, plain 0x4f)
    ∷ (0x5a, plain 0x50)
    ∷ (0x5b, plain 0x51)
    ∷ (0x5c, plain 0x4b)
    ∷ (0x5d, plain 0x4c)
    ∷ (0x5e, plain 0x4d)
    ∷ (0x5f, plain 0x47)
    ∷ (0x60, plain 0x48)
    ∷ (0x61, plain 0x49)
    ∷ (0x62, plain 0x52)
    ∷ (0x63, plain 0x53)
    ∷ (0x67, plain 0x59)
    ∷ (0x85, plain 0x7e)
    ∷ (0xe0, plain 0x1d)
    ∷ (0xe1, plain 0x2a)
    ∷ (0xe2, plain 0x38)
    ∷ (0xe3, ext 0x5b)
    ∷ (0xe4, ext 0x1d)
    ∷ (0xe5, plain 0x36)
    ∷ (0xe6, ext 0x38)
    ∷ (0xe7, ext 0x5c)
    ∷ []

unfoldable pub hid_usage_to_scancode : ℕ → Option ScanCode
hid_usage_to_scancode usage = find_key scancodes usage

unfoldable pub scancode_usage_in : List ℕ → ScanCode → Option ℕ
scancode_usage_in usages target =
    search hid_usage_to_scancode (retain (λ u. not (u == 0x32)) usages) target

unfoldable pub scancode_to_hid_usage : ℕ → Bool → Option ℕ
scancode_to_hid_usage code extended =
    let target : ScanCode = record { code = code; extended = extended } in
    or_else (scancode_usage_in (range 0x04 54) target) (
      or_else (scancode_usage_in (range 0x3a 12) target) (
        or_else (scancode_usage_in (range 0x49 10) target) (
          or_else (scancode_usage_in (range 0x53 17) target) (
            or_else (scancode_usage_in (0x67 ∷ 0x85 ∷ []) target)
              (scancode_usage_in (range 0xe0 8) target)))))

unfoldable pub supported_hid_usages : List ℕ
supported_hid_usages = sort (
    retain (λ u. not (u == 0x32))
      (range 0x04 54
        ++ (range 0x3a 12 ++ (range 0x49 10 ++ (range 0x53 17 ++ (0x67 ∷ 0x85 ∷ range 0xe0 8))))))
