-- ===== src/Files/Path/Safety.antt =====
-- What a sanitized name can be, and on which names the check does not come to an answer
-- (crates/mouser-files/src/path.rs).
use mouser.Prelude.{
  ℕ, ◌≤◌, ◌<◌, ◌≡◌, ◌≢◌, refl, ap, ◌++◌, ◌⊎◌, true, false, List, [], ◌∷◌, Option, none, some,
  Result, ok, err, arith, Bool-cases, inl, inr, All,
}
use mouser.Files.Types.{Name, PathError}
use mouser.Files.Path.Devices.{IsDevice, IsExtension, reserved-IsDevice}
use mouser.Files.Path.{
  Outcome, returns, panics, and_then, any, contains, ends_with, stem, byte_len, split_at,
  is_bidi_control, is_fixed_device, is_reserved_device_name, is_empty_or_dotted, sanitize_name,
  eq_ignore_ascii_case, PathLib, Component, normal, other, name_eq, is_single, confine,
  resolve_safe, resolve_in_quarantine,
}

-- No code point of the name is `x`.
abbrev pub Lacks : ℕ → Name → Type 0
Lacks x name = All (λ c. c ≢ x) name

-- The last code point of the name is another one than `x`.
unfoldable pub EndsOtherwise : ℕ → Name → Type 0
EndsOtherwise x [] = Unit {0}
EndsOtherwise x (c ∷ []) = c ≢ x
EndsOtherwise x (c ∷ d ∷ cs) = EndsOtherwise x (d ∷ cs)

-- No mark, embedding, override or isolate of bidirectional text: U+200E and U+200F, U+202A to U+202E
-- and U+2066 to U+2069.
abbrev pub IsUnidirectional : ℕ → Type 0
IsUnidirectional c =
    ((c < 0x200E) ⊎ (0x200F < c)) × ((c < 0x202A) ⊎ (0x202E < c)) × ((c < 0x2066) ⊎ (0x2069 < c))

pub record IsSafeName (name : Name) : Type 0 where
  pub not_empty : name ≢ []
  pub not_dot : name ≢ b'.' ∷ []
  pub not_dots : name ≢ b'.' ∷ b'.' ∷ []
  pub no_nul : Lacks 0 name
  pub no_slash : Lacks b'/' name
  pub no_backslash : Lacks b'\\' name
  pub no_colon : Lacks b':' name
  pub no_bidi : All IsUnidirectional name
  pub no_final_dot : EndsOtherwise b'.' name
  pub no_final_space : EndsOtherwise b' ' name
  pub no_device : (d rest : Name) → IsDevice d → IsExtension rest → name ≢ d ++ rest

contains-Lacks : (x : ℕ) (name : Name) → contains x name ≡ false → Lacks x name
unfolding contains any
contains-Lacks x [] h = tt
contains-Lacks x (c ∷ cs) h = (ground arith, contains-Lacks x cs (ground arith))

is_bidi_control-IsUnidirectional : (c : ℕ) → is_bidi_control c ≡ false → IsUnidirectional c
unfolding is_bidi_control
is_bidi_control-IsUnidirectional c h = ground arith

any-IsUnidirectional : (name : Name) → any is_bidi_control name ≡ false → All IsUnidirectional name
unfolding any
any-IsUnidirectional [] h = tt
any-IsUnidirectional (c ∷ cs) h =
    (is_bidi_control-IsUnidirectional c (ground arith), any-IsUnidirectional cs (ground arith))

ends_with-EndsOtherwise : (x : ℕ) (name : Name) → ends_with x name ≡ false → EndsOtherwise x name
unfolding ends_with EndsOtherwise
ends_with-EndsOtherwise x [] h = tt
ends_with-EndsOtherwise x (c ∷ []) h = ground arith
ends_with-EndsOtherwise x (c ∷ d ∷ cs) h = ends_with-EndsOtherwise x (d ∷ cs) h

-- A name that passes all the checks.
passes :
    (name safe : Name)
    → sanitize_name name ≡ returns (ok safe)
    → (safe ≡ name)
      × (is_empty_or_dotted name ≡ false)
      × (contains 0 name ≡ false)
      × (contains b'/' name ≡ false)
      × (contains b'\\' name ≡ false)
      × (contains b':' name ≡ false)
      × (any is_bidi_control name ≡ false)
      × (ends_with b'.' name ≡ false)
      × (ends_with b' ' name ≡ false)
      × (is_reserved_device_name name ≡ returns false)
unfolding sanitize_name
passes name safe h = ground arith

no_device_lem :
    (name d rest : Name)
    → is_reserved_device_name name ≡ returns false
    → IsDevice d
    → IsExtension rest
    → name ≢ d ++ rest
no_device_lem name d rest h device ext = λ e.
    (let found = reserved-IsDevice d rest device ext in
      let same = ap is_reserved_device_name e in cc)

dotted-nil : (name : Name) → is_empty_or_dotted name ≡ false → name ≢ []
unfolding is_empty_or_dotted
dotted-nil [] h = cc
dotted-nil (c ∷ cs) h = λ e. cc

dotted_one : (name : Name) → is_empty_or_dotted name ≡ false → name ≢ b'.' ∷ []
unfolding is_empty_or_dotted
dotted_one [] h = λ e. cc
dotted_one (c ∷ []) h = λ e. ground arith
dotted_one (c ∷ d ∷ cs) h = λ e. cc

dotted_two : (name : Name) → is_empty_or_dotted name ≡ false → name ≢ b'.' ∷ b'.' ∷ []
unfolding is_empty_or_dotted
dotted_two [] h = λ e. cc
dotted_two (c ∷ []) h = λ e. cc
dotted_two (c ∷ d ∷ []) h = λ e. ground arith
dotted_two (c ∷ d ∷ f ∷ cs) h = λ e. cc

-- A name that the check lets through is handed on unchanged, and is a safe one: it is not empty and
-- not made of one or two dots, it has no separator, colon, NUL or bidi control, it does not end in
-- a dot or a space, and it is no device's name, alone or with an extension.
pub sanitize_name-IsSafeName :
    (name safe : Name) → sanitize_name name ≡ returns (ok safe) → (safe ≡ name) × IsSafeName name
sanitize_name-IsSafeName name safe h =
    let (e, dots, nul, slash, backslash, colon, bidi, final_dot, final_space, device) =
      passes name safe h in
    (
      e,
      record {
        not_empty = dotted-nil name dots;
        not_dot = dotted_one name dots;
        not_dots = dotted_two name dots;
        no_nul = contains-Lacks 0 name nul;
        no_slash = contains-Lacks b'/' name slash;
        no_backslash = contains-Lacks b'\\' name backslash;
        no_colon = contains-Lacks b':' name colon;
        no_bidi = any-IsUnidirectional name bidi;
        no_final_dot = ends_with-EndsOtherwise b'.' name final_dot;
        no_final_space = ends_with-EndsOtherwise b' ' name final_space;
        no_device = λ d rest. no_device_lem name d rest device;
      },
    )

name_eq_lem : (a b : Name) → name_eq a b ≡ true → a ≡ b
unfolding name_eq
name_eq_lem [] [] h = refl
name_eq_lem [] (d ∷ ds) h = cc
name_eq_lem (c ∷ cs) [] h = cc
name_eq_lem (c ∷ cs) (d ∷ ds) h = ground (arith, name_eq_lem cs ds)

name_eq_self : (a : Name) → name_eq a a ≡ true
unfolding name_eq
name_eq_self [] = refl
name_eq_self (c ∷ cs) = ground (arith, name_eq_self cs)

module _ (lib : PathLib) where
  is_single_lem :
      (safe : Name) (cs : List Component) → is_single lib safe cs ≡ true → cs ≡ normal safe ∷ []
  unfolding is_single
  is_single_lem safe [] h = cc
  is_single_lem safe (normal c ∷ []) h = rw (name_eq_lem c safe h) refl
  is_single_lem safe (other ∷ cs) h = cc
  is_single_lem safe (normal c ∷ d ∷ cs) h = cc

  confine_lem :
      (q p : lib.PathBuf) (safe : Name) (o : Option lib.PathBuf)
      → lib.strip_prefix (lib.join q safe) q ≡ o
      → confine lib (lib.join q safe) safe o ≡ ok p
      → (p ≡ lib.join q safe)
        × ((rest : lib.PathBuf) × (lib.strip_prefix (lib.join q safe) q ≡ some rest)
            × (lib.components rest ≡ normal safe ∷ []))
  unfolding confine
  confine_lem q p safe none e h = cc
  confine_lem q p safe (some rest) e h =
      elim (Bool-cases (is_single lib safe (lib.components rest))) [
        | inl single ↦
            (ground (arith, h), (rest, e, is_single_lem safe (lib.components rest) single))
        | inr not_single ↦ absurd (ground (arith, h))
      ]

  returns-inj : {A : Type 0} {x y : A} → returns x ≡ returns y → x ≡ y
  returns-inj e = cc

  resolved :
      (q p : lib.PathBuf) (name : Name) (r : Outcome (Result Name PathError))
      → sanitize_name name ≡ r
      → and_then r (λ a. returns (resolve_safe lib q a)) ≡ returns (ok p)
      → (p ≡ lib.join q name)
        × IsSafeName name
        × ((rest : lib.PathBuf) × (lib.strip_prefix (lib.join q name) q ≡ some rest)
            × (lib.components rest ≡ normal name ∷ []))
  unfolding resolve_safe
  resolved q p name panics e h = cc
  resolved q p name (returns (err x)) e h = cc
  resolved q p name (returns (ok safe)) e h =
      let (same, safe_name) = sanitize_name-IsSafeName name safe e in
      let found =
        confine_lem q p safe (lib.strip_prefix (lib.join q safe) q) refl (returns-inj h) in
      ground (arith, same, safe_name, found)

  -- Whatever the path library does: an offered name that is resolved is a safe one, the path is the
  -- quarantine directory joined with exactly this name, and behind the directory there is exactly one
  -- component, the name itself. A safe name is not empty and not made of one or two dots, has no
  -- separator, colon, NUL or control of bidirectional text, does not end in a dot or a space, and is
  -- none of CON, PRN, AUX, NUL, COM1 to COM9 and LPT1 to LPT9, in any case, alone or with an extension.
  pub resolve_in_quarantine_lem :
      (q p : lib.PathBuf) (name : Name)
      → resolve_in_quarantine lib q name ≡ returns (ok p)
      → (p ≡ lib.join q name)
        × IsSafeName name
        × ((rest : lib.PathBuf) × (lib.strip_prefix (lib.join q name) q ≡ some rest)
            × (lib.components rest ≡ normal name ∷ []))
  unfolding resolve_in_quarantine
  resolve_in_quarantine_lem q p name h = resolved q p name (sanitize_name name) refl h

-- An ASCII code point that no check of names looks at.
abbrev pub IsPlain : ℕ → Type 0
IsPlain c = (0x30 ≤ c) × (c < 0x80) × (c ≢ b':') × (c ≢ b'\\')

Lacks-contains : (x : ℕ) (name : Name) → Lacks x name → contains x name ≡ false
unfolding contains any
Lacks-contains x [] h = refl
Lacks-contains x (c ∷ cs) (ne, h) = ground (arith, ne, Lacks-contains x cs h)

not_bidi : (c : ℕ) → c < 0x800 → is_bidi_control c ≡ false
unfolding is_bidi_control
not_bidi c h = ground arith

not_fixed : (a b c : ℕ) → 0x80 ≤ c → is_fixed_device (a ∷ b ∷ c ∷ []) ≡ false
unfolding is_fixed_device eq_ignore_ascii_case
not_fixed a b c h = ground arith

splits_inside :
    (a b c : ℕ)
    → IsPlain a
    → IsPlain b
    → 0x80 ≤ c
    → c < 0x800
    → is_reserved_device_name (a ∷ b ∷ c ∷ []) ≡ panics
unfolding is_reserved_device_name stem byte_len split_at
splits_inside a b c ha hb hc hd = ground (arith, not_fixed a b c hc)

-- A name of three letters whose third is of two bytes, such as "abé", is refused neither by a check
-- nor accepted: its part before the dot has four bytes, which the test for a device name splits
-- behind the third, inside a character, and the program panics. The peer chooses the name.
pub sanitize_name-panics :
    (a b c : ℕ)
    → IsPlain a
    → IsPlain b
    → 0x80 ≤ c
    → c < 0x800
    → sanitize_name (a ∷ b ∷ c ∷ []) ≡ panics
unfolding sanitize_name is_empty_or_dotted contains any ends_with
sanitize_name-panics a b c ha hb hc hd =
    ground (arith, not_bidi a, not_bidi b, not_bidi c, splits_inside a b c ha hb hc hd)
