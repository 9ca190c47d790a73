-- ===== src/Files/Path.antt =====
-- crates/mouser-files/src/path.rs: which names may be written, and where. A `str` is the list of its
-- code points, and a byte index into it is counted by their widths in UTF-8. What `std::path` does
-- with a path is a parameter.
pub mod Devices
pub mod Safety
use mouser.Prelude.{
  ℕ, ◌+◌, ◌-◌, Bool, true, false, not, ◌&&◌, ◌||◌, List, [], ◌∷◌, Option, none, some, Result, ok,
  err, ltb, leb, ◌==◌, if◌then◌else◌,
}
use mouser.Files.Types.{
  Name, PathError, empty_or_dotted, contains_separator, contains_nul, reserved_device_name,
  trailing_dot_or_space, bidi_control, escapes_quarantine,
}

-- What a call comes to: a value, or a panic.
pub data Outcome {ℓ} (A : Type ℓ) : Type ℓ where
  returns : A → Outcome A
  panics : Outcome A

abbrev pub and_then {ℓ κ} : {A : Type ℓ} {B : Type κ} → Outcome A → (A → Outcome B) → Outcome B
and_then (returns a) f = f a
and_then panics f = panics

-- `c.len_utf8()`.
abbrev pub len_utf8 : ℕ → ℕ
len_utf8 c = if ltb c 0x80 then 1 else (if ltb c 0x800 then 2 else (if ltb c 0x10000 then 3 else 4))

unfoldable pub byte_len : Name → ℕ
byte_len [] = 0
byte_len (c ∷ cs) = len_utf8 c + byte_len cs

unfoldable pub any : (ℕ → Bool) → Name → Bool
any f [] = false
any f (c ∷ cs) = f c || any f cs

unfoldable pub contains : ℕ → Name → Bool
unfolding any
contains x name = any (λ c. c == x) name

unfoldable pub ends_with : ℕ → Name → Bool
ends_with x [] = false
ends_with x (c ∷ []) = c == x
ends_with x (c ∷ d ∷ cs) = ends_with x (d ∷ cs)

-- `name.split('.').next()`.
unfoldable pub stem : Name → Name
stem [] = []
stem (c ∷ cs) = if c == b'.' then [] else c ∷ stem cs

abbrev pub to_ascii_upper : ℕ → ℕ
to_ascii_upper c = if leb b'a' c && leb c b'z' then c - 32 else c

unfoldable pub eq_ignore_ascii_case : Name → Name → Bool
eq_ignore_ascii_case [] [] = true
eq_ignore_ascii_case [] (d ∷ ds) = false
eq_ignore_ascii_case (c ∷ cs) [] = false
eq_ignore_ascii_case (c ∷ cs) (d ∷ ds) =
    to_ascii_upper c == to_ascii_upper d && eq_ignore_ascii_case cs ds

-- `s.split_at(mid)`: it panics if `mid` is past the end, or inside a character.
unfoldable pub split_at : Name → ℕ → Outcome (Name × Name)
split_at [] mid = if mid == 0 then returns ([], []) else panics
split_at (c ∷ cs) mid =
    let rest = split_at cs (mid - len_utf8 c) in
    if mid == 0
    then returns ([], c ∷ cs)
    else (if ltb mid (len_utf8 c) then panics else and_then rest (λ r. returns (c ∷ r.0, r.1)))

unfoldable pub is_bidi_control : ℕ → Bool
is_bidi_control c =
    c == 0x200E
    || c == 0x200F
    || c == 0x202A
    || c == 0x202B
    || c == 0x202C
    || c == 0x202D
    || c == 0x202E
    || c == 0x2066
    || c == 0x2067
    || c == 0x2068
    || c == 0x2069

abbrev pub com_prefix : Name
com_prefix = b'C' ∷ b'O' ∷ b'M' ∷ []

abbrev pub lpt_prefix : Name
lpt_prefix = b'L' ∷ b'P' ∷ b'T' ∷ []

-- The four names of `FIXED`: CON, PRN, AUX and NUL.
unfoldable pub is_fixed_device : Name → Bool
unfolding eq_ignore_ascii_case
is_fixed_device s =
    eq_ignore_ascii_case s (b'C' ∷ b'O' ∷ b'N' ∷ [])
    || eq_ignore_ascii_case s (b'P' ∷ b'R' ∷ b'N' ∷ [])
    || eq_ignore_ascii_case s (b'A' ∷ b'U' ∷ b'X' ∷ [])
    || eq_ignore_ascii_case s (b'N' ∷ b'U' ∷ b'L' ∷ [])

abbrev pub starts_with_digit : Name → Bool
starts_with_digit [] = false
starts_with_digit (c ∷ cs) = leb b'1' c && leb c b'9'

unfoldable pub is_reserved_device_name : Name → Outcome Bool
unfolding stem is_fixed_device byte_len split_at eq_ignore_ascii_case
is_reserved_device_name name =
    let s = stem name in
    if is_fixed_device s
    then returns true
    else (if byte_len s == 4
        then and_then (split_at s 3) (λ r. returns (
            (eq_ignore_ascii_case r.0 com_prefix || eq_ignore_ascii_case r.0 lpt_prefix)
            && starts_with_digit r.1))
        else returns false)

-- `name.is_empty() || name == "." || name == ".."`.
unfoldable pub is_empty_or_dotted : Name → Bool
is_empty_or_dotted [] = true
is_empty_or_dotted (c ∷ []) = c == b'.'
is_empty_or_dotted (c ∷ d ∷ []) = c == b'.' && d == b'.'
is_empty_or_dotted (c ∷ d ∷ e ∷ cs) = false

unfoldable pub sanitize_name : Name → Outcome (Result Name PathError)
sanitize_name name =
    if is_empty_or_dotted name
    then returns (err empty_or_dotted)
    else (if contains 0 name
        then returns (err contains_nul)
        else (if contains b'/' name || contains b'\\' name || contains b':' name
            then returns (err contains_separator)
            else (if any is_bidi_control name
                then returns (err bidi_control)
                else (if ends_with b'.' name || ends_with b' ' name
                    then returns (err trailing_dot_or_space)
                    else and_then (is_reserved_device_name name) (λ reserved.
                      returns (if reserved then err reserved_device_name else ok name))))))

pub data Component : Type 0 where
  normal : Name → Component
  other : Component

-- What `std::path` gives: `join`, `strip_prefix` and `components`.
pub record PathLib : Type 1 where
  pub PathBuf : Type 0
  pub join : PathBuf → Name → PathBuf
  pub strip_prefix : PathBuf → PathBuf → Option PathBuf
  pub components : PathBuf → List Component

unfoldable pub name_eq : Name → Name → Bool
name_eq [] [] = true
name_eq [] (d ∷ ds) = false
name_eq (c ∷ cs) [] = false
name_eq (c ∷ cs) (d ∷ ds) = c == d && name_eq cs ds

module _ (lib : PathLib) where
  -- The check of what is left behind the quarantine directory.
  unfoldable pub is_single : Name → List Component → Bool
  is_single safe (normal c ∷ []) = name_eq c safe
  is_single safe _ = false

  -- The candidate path, by what is left of it behind the quarantine directory.
  unfoldable pub confine : lib.PathBuf → Name → Option lib.PathBuf → Result lib.PathBuf PathError
  confine candidate safe none = err escapes_quarantine
  confine candidate safe (some rest) =
      if is_single safe (lib.components rest) then ok candidate else err escapes_quarantine

  unfoldable pub resolve_safe : lib.PathBuf → Result Name PathError → Result lib.PathBuf PathError
  resolve_safe quarantine (err e) = err e
  resolve_safe quarantine (ok safe) =
      let candidate = lib.join quarantine safe in
      confine candidate safe (lib.strip_prefix candidate quarantine)

  unfoldable pub resolve_in_quarantine : lib.PathBuf → Name → Outcome (Result lib.PathBuf PathError)
  resolve_in_quarantine quarantine name =
      and_then (sanitize_name name) (λ r. returns (resolve_safe quarantine r))
