-- ===== src/Platform/Parity.antt =====
-- The key tables of the three platforms against each other, and capture against injection
-- (keymap.rs of crates/platform-linux, crates/platform-mac and crates/platform-win).
use mouser.Prelude.{
  ℕ, ◌≡◌, ◌↔◌, refl, sym, ap, ◌∙◌, true, not, ◌==◌, List, [], ◌∷◌, ◌++◌, Option, some,
}
use mouser.Platform.Keys.{
  nat_eq, is_some, contains, range, retain, insert_sorted, sort, find_key, find_value, keys,
  is_distinct, or_else, all_in, search, find_key-keys, find_value-find_key, find_key-find_value,
  search_iff, search-append,
}
use mouser.Platform.Linux.Keymap as Evdev
use mouser.Platform.Mac.Keymap as Quartz
use mouser.Platform.Windows.Keymap as Win
use mouser.Platform.Linux.Keymap.{hid_to_evdev, hid_usage_to_evdev_code, evdev_code_to_hid_usage}
use mouser.Platform.Mac.Keymap.{cgkeycodes, hid_usage_to_cgkeycode, cgkeycode_to_hid_usage}
use mouser.Platform.Windows.Keymap.{
  ScanCode, scan_code_eq, scancodes, hid_usage_to_scancode, scancode_usage_in,
  scancode_to_hid_usage,
}

hid_to_evdev-distinct : is_distinct hid_to_evdev ≡ true
unfolding is_distinct find_key find_value
hid_to_evdev-distinct = refl

scancodes-distinct : is_distinct scancodes ≡ true
unfolding is_distinct find_key find_value
scancodes-distinct = refl

cgkeycodes-distinct : is_distinct cgkeycodes ≡ true
unfolding is_distinct find_key find_value
cgkeycodes-distinct = refl

evdev_keys : keys hid_to_evdev ≡ Evdev.supported_hid_usages
unfolding keys Evdev.supported_hid_usages sort insert_sorted retain range
evdev_keys = refl

scancode_keys : keys scancodes ≡ Win.supported_hid_usages
unfolding keys Win.supported_hid_usages sort insert_sorted retain range
scancode_keys = refl

cgkeycode_keys : keys cgkeycodes ≡ Quartz.supported_hid_usages
unfolding keys Quartz.supported_hid_usages sort insert_sorted retain range hid_usage_to_cgkeycode
    find_key
cgkeycode_keys = refl

same_keys : keys hid_to_evdev ≡ keys scancodes
unfolding keys
same_keys = refl

same_keys' : keys hid_to_evdev ≡ keys cgkeycodes
unfolding keys
same_keys' = refl

-- For every usage there is: each backend can inject it exactly if it is in the backend's list of
-- supported usages, and the three lists are the same one.
pub parity :
    (usage : ℕ)
    → (is_some (hid_usage_to_evdev_code usage) ≡ contains Evdev.supported_hid_usages usage)
      × (is_some (hid_usage_to_scancode usage) ≡ contains Win.supported_hid_usages usage)
      × (is_some (hid_usage_to_cgkeycode usage) ≡ contains Quartz.supported_hid_usages usage)
      × (Evdev.supported_hid_usages ≡ Win.supported_hid_usages)
      × (Evdev.supported_hid_usages ≡ Quartz.supported_hid_usages)
unfolding hid_usage_to_evdev_code hid_usage_to_scancode hid_usage_to_cgkeycode
parity usage = (
  find_key-keys hid_to_evdev usage ∙ ap (λ (us : List ℕ). contains us usage) evdev_keys,
  find_key-keys scancodes usage ∙ ap (λ (us : List ℕ). contains us usage) scancode_keys,
  find_key-keys cgkeycodes usage ∙ ap (λ (us : List ℕ). contains us usage) cgkeycode_keys,
  sym evdev_keys ∙ same_keys ∙ scancode_keys,
  sym evdev_keys ∙ same_keys' ∙ cgkeycode_keys,
)

-- The numbers that the reverse search of the Windows table goes through.
abbrev searched : List ℕ
searched =
    retain (λ u. not (u == 0x32)) (range 0x04 54)
    ++ (retain (λ u. not (u == 0x32)) (range 0x3a 12)
        ++ (retain (λ u. not (u == 0x32)) (range 0x49 10)
            ++ (retain (λ u. not (u == 0x32)) (range 0x53 17)
                ++ (retain (λ u. not (u == 0x32)) (0x67 ∷ 0x85 ∷ [])
                    ++ retain (λ u. not (u == 0x32)) (range 0xe0 8)))))

all_searched : all_in (keys scancodes) searched ≡ true
unfolding all_in contains keys retain range
all_searched = refl

all_ranged : all_in (keys cgkeycodes) (range 0x04 228) ≡ true
unfolding all_in contains keys range
all_ranged = refl

six_searches :
    (f : ℕ → Option ScanCode) (a b c d p q : List ℕ) (sc : ScanCode)
    → or_else (search f a sc) (
        or_else (search f b sc) (
          or_else
            (search f c sc)
            (or_else (search f d sc) (or_else (search f p sc) (search f q sc)))))
      ≡ search f (a ++ (b ++ (c ++ (d ++ (p ++ q))))) sc
six_searches f a b c d p q sc =
    rw
      (
        search-append f p q sc,
        search-append f d (p ++ q) sc,
        search-append f c (d ++ (p ++ q)) sc,
        search-append f b (c ++ (d ++ (p ++ q))) sc,
        search-append f a (b ++ (c ++ (d ++ (p ++ q)))) sc,
      )
      refl

scancode_to_hid_usage-search :
    (sc : ScanCode)
    → scancode_to_hid_usage sc.code sc.extended ≡ search (find_key scancodes) searched sc
unfolding scancode_to_hid_usage scancode_usage_in hid_usage_to_scancode
scancode_to_hid_usage-search sc = six_searches (find_key scancodes) _ _ _ _ _ _ sc

-- On each platform a key that is captured is a usage exactly if that usage is injected as that key: no
-- two usages share a key and no two keys a usage.
pub capture-inject :
    (usage code keycode : ℕ) (sc : ScanCode)
    → ((hid_usage_to_evdev_code usage ≡ some code) ↔ (evdev_code_to_hid_usage code ≡ some usage))
      × ((hid_usage_to_scancode usage ≡ some sc)
          ↔ (scancode_to_hid_usage sc.code sc.extended ≡ some usage))
      × ((hid_usage_to_cgkeycode usage ≡ some keycode)
          ↔ (cgkeycode_to_hid_usage keycode ≡ some usage))
unfolding hid_usage_to_evdev_code evdev_code_to_hid_usage hid_usage_to_cgkeycode
    cgkeycode_to_hid_usage hid_usage_to_scancode
capture-inject usage code keycode sc = (
  (
    find_value-find_key hid_to_evdev usage code hid_to_evdev-distinct,
    find_key-find_value hid_to_evdev usage code hid_to_evdev-distinct,
  ),
  rw (scancode_to_hid_usage-search sc)
      (search_iff scancodes searched usage sc scancodes-distinct all_searched),
  search_iff cgkeycodes (range 0x04 228) usage keycode cgkeycodes-distinct all_ranged,
)
