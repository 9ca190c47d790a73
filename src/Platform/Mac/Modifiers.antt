-- ===== src/Platform/Mac/Modifiers.antt =====
-- crates/platform-mac/src/keymap_capture.rs: the modifier keys, of which macOS reports only that they
-- changed.
pub mod Occurs
pub mod Alternate
use mouser.Prelude.{
  ℕ, zero, suc, ◌+◌, Bool, true, false, ◌||◌, ◌==◌, List, [], ◌∷◌, ◌++◌, Option, none, some,
  if◌then◌else◌, set, last_of, pop,
}
use mouser.Platform.Mac.Keymap.{cgkeycode_to_hid_usage}

pub data ModifierFlag : Type 0 where
  control shift alternate command : ModifierFlag

unfoldable pub cgkeycode_to_modifier_flag : ℕ → Option ModifierFlag
cgkeycode_to_modifier_flag keycode =
    if keycode == 0x3b || keycode == 0x3e
    then some control
    else (if keycode == 0x38 || keycode == 0x3c
        then some shift
        else (if keycode == 0x3a || keycode == 0x3d
            then some alternate
            else (if keycode == 0x37 || keycode == 0x36 then some command else none)))

abbrev pub next_index : Option ℕ → Option ℕ
next_index none = none
next_index (some i) = some (suc i)

-- `held.iter().position(|&k| k == keycode)`.
unfoldable pub position : List ℕ → ℕ → Option ℕ
position [] keycode = none
position (k ∷ held) keycode =
    let rest = position held keycode in if k == keycode then some 0 else next_index rest

abbrev pub swap_with : List ℕ → ℕ → Option ℕ → List ℕ
swap_with xs i none = xs
swap_with xs i (some x) = pop (set xs i x)

-- `swap_remove`: the last one takes the place of the one that goes.
unfoldable pub swap_remove : List ℕ → ℕ → List ℕ
swap_remove xs i = swap_with xs i (last_of xs)

abbrev pub toggle_at : List ℕ → ℕ → Option ℕ → List ℕ × Bool
toggle_at held keycode none = (held ++ (keycode ∷ []), true)
toggle_at held keycode (some i) = (swap_remove held i, false)

-- `toggle`, on the keys held.
unfoldable pub toggle : List ℕ → ℕ → List ℕ × Bool
toggle held keycode = toggle_at held keycode (position held keycode)

abbrev pub changed : ℕ → List ℕ → Option ModifierFlag → Option ℕ → List ℕ × Option (ℕ × Bool)
changed keycode held none usage = (held, none)
changed keycode held (some flag) none = (held, none)
changed keycode held (some flag) (some usage) =
    let (held', down) = toggle held keycode in (held', some (usage, down))

-- `flags_changed_event`, with the keys held afterwards.
unfoldable pub flags_changed_event : ℕ → List ℕ → List ℕ × Option (ℕ × Bool)
flags_changed_event keycode held =
    changed keycode held (cgkeycode_to_modifier_flag keycode) (cgkeycode_to_hid_usage keycode)
