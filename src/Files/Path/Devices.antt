-- ===== src/Files/Path/Devices.antt =====
-- The names that Windows keeps for devices, independently of how the program looks for them, and that
-- it finds them all (crates/mouser-files/src/path.rs).
use mouser.Prelude.{
  Bool, ◌&&◌, leb, ℕ, ◌||◌, ◌+◌, ◌≤◌, ◌<◌, ◌≡◌, ◌≢◌, refl, true, [], ◌∷◌, ◌++◌, ◌⊎◌, inl, inr,
  arith, if_cases,
}
use mouser.Files.Types.{Name}
use mouser.Files.Path.{
  Outcome, returns, stem, byte_len, split_at, is_fixed_device, is_reserved_device_name,
  eq_ignore_ascii_case,
}

-- The capital letter `x`, or its small letter.
abbrev pub IsLetter : ℕ → ℕ → Type 0
IsLetter x c = (c ≡ x) ⊎ (c ≡ x + 32)

-- CON, PRN, AUX, NUL, COM1 to COM9 and LPT1 to LPT9, in whatever case.
pub data IsDevice : Name → Type 0 where
  con :
      (a b c : ℕ) → IsLetter b'C' a → IsLetter b'O' b → IsLetter b'N' c → IsDevice (a ∷ b ∷ c ∷ [])
  prn :
      (a b c : ℕ) → IsLetter b'P' a → IsLetter b'R' b → IsLetter b'N' c → IsDevice (a ∷ b ∷ c ∷ [])
  aux :
      (a b c : ℕ) → IsLetter b'A' a → IsLetter b'U' b → IsLetter b'X' c → IsDevice (a ∷ b ∷ c ∷ [])
  nul :
      (a b c : ℕ) → IsLetter b'N' a → IsLetter b'U' b → IsLetter b'L' c → IsDevice (a ∷ b ∷ c ∷ [])
  com_port :
      (a b c k : ℕ)
      → IsLetter b'C' a
      → IsLetter b'O' b
      → IsLetter b'M' c
      → b'1' ≤ k
      → k ≤ b'9'
      → IsDevice (a ∷ b ∷ c ∷ k ∷ [])
  lpt_port :
      (a b c k : ℕ)
      → IsLetter b'L' a
      → IsLetter b'P' b
      → IsLetter b'T' c
      → b'1' ≤ k
      → k ≤ b'9'
      → IsDevice (a ∷ b ∷ c ∷ k ∷ [])

-- What may stand behind a device's name: nothing, or a dot and anything.
abbrev pub IsExtension : Name → Type 0
IsExtension [] = Unit {0}
IsExtension (c ∷ cs) = c ≡ b'.'

stem_three :
    (a b c : ℕ) (rest : Name)
    → a ≢ b'.'
    → b ≢ b'.'
    → c ≢ b'.'
    → IsExtension rest
    → stem (a ∷ b ∷ c ∷ rest) ≡ a ∷ b ∷ c ∷ []
unfolding stem
stem_three a b c [] ha hb hc e = ground arith
stem_three a b c (d ∷ rest) ha hb hc e = ground arith

stem_four :
    (a b c k : ℕ) (rest : Name)
    → a ≢ b'.'
    → b ≢ b'.'
    → c ≢ b'.'
    → k ≢ b'.'
    → IsExtension rest
    → stem (a ∷ b ∷ c ∷ k ∷ rest) ≡ a ∷ b ∷ c ∷ k ∷ []
unfolding stem
stem_four a b c k [] ha hb hc hk e = ground arith
stem_four a b c k (d ∷ rest) ha hb hc hk e = ground arith

letter_no_dot : (x c : ℕ) → IsLetter x c → b'A' ≤ x → c ≢ b'.'
letter_no_dot x c (inl e) h = λ d. omega (arith, e, d, h)
letter_no_dot x c (inr e) h = λ d. omega (arith, e, d, h)

reserved_fixed :
    (name : Name) (a b c : ℕ)
    → stem name ≡ a ∷ b ∷ c ∷ []
    → is_fixed_device (a ∷ b ∷ c ∷ []) ≡ true
    → is_reserved_device_name name ≡ returns true
unfolding is_reserved_device_name
reserved_fixed name a b c e h = rw (e, h) refl

con-fixed :
    (a b c : ℕ)
    → IsLetter b'C' a
    → IsLetter b'O' b
    → IsLetter b'N' c
    → is_fixed_device (a ∷ b ∷ c ∷ []) ≡ true
unfolding is_fixed_device eq_ignore_ascii_case
con-fixed a b c ha hb hc = ground (arith, ha, hb, hc)

prn-fixed :
    (a b c : ℕ)
    → IsLetter b'P' a
    → IsLetter b'R' b
    → IsLetter b'N' c
    → is_fixed_device (a ∷ b ∷ c ∷ []) ≡ true
unfolding is_fixed_device eq_ignore_ascii_case
prn-fixed a b c ha hb hc = ground (arith, ha, hb, hc)

aux-fixed :
    (a b c : ℕ)
    → IsLetter b'A' a
    → IsLetter b'U' b
    → IsLetter b'X' c
    → is_fixed_device (a ∷ b ∷ c ∷ []) ≡ true
unfolding is_fixed_device eq_ignore_ascii_case
aux-fixed a b c ha hb hc = ground (arith, ha, hb, hc)

nul-fixed :
    (a b c : ℕ)
    → IsLetter b'N' a
    → IsLetter b'U' b
    → IsLetter b'L' c
    → is_fixed_device (a ∷ b ∷ c ∷ []) ≡ true
unfolding is_fixed_device eq_ignore_ascii_case
nul-fixed a b c ha hb hc = ground (arith, ha, hb, hc)

len_four :
    (a b c k : ℕ) → a < 0x80 → b < 0x80 → c < 0x80 → k < 0x80 → byte_len (a ∷ b ∷ c ∷ k ∷ []) ≡ 4
unfolding byte_len
len_four a b c k ha hb hc hk = ground arith

split_four :
    (a b c k : ℕ)
    → a < 0x80
    → b < 0x80
    → c < 0x80
    → k < 0x80
    → split_at (a ∷ b ∷ c ∷ k ∷ []) 3 ≡ returns (a ∷ b ∷ c ∷ [], k ∷ [])
unfolding split_at
split_four a b c k ha hb hc hk = ground arith

-- A port: three letters that are COM or LPT, and a digit from 1 to 9.
reserved_port :
    (name : Name) (a b c k : ℕ)
    → stem name ≡ a ∷ b ∷ c ∷ k ∷ []
    → a < 0x80
    → b < 0x80
    → c < 0x80
    → b'1' ≤ k
    → k ≤ b'9'
    → (eq_ignore_ascii_case (a ∷ b ∷ c ∷ []) (b'C' ∷ b'O' ∷ b'M' ∷ [])
        || eq_ignore_ascii_case (a ∷ b ∷ c ∷ []) (b'L' ∷ b'P' ∷ b'T' ∷ []))
      ≡ true
    → is_reserved_device_name name ≡ returns true
unfolding is_reserved_device_name is_fixed_device
reserved_port name a b c k e ha hb hc lo hi h =
    let small : k < 0x80 = omega (arith, hi) in
    let len = len_four a b c k ha hb hc small in
    let parts = split_four a b c k ha hb hc small in
    let digit : (leb b'1' k && leb k b'9') ≡ true = ground (arith, lo, hi) in
    rw (e) (
      if_cases (λ (o : Outcome Bool). o ≡ returns true) (is_fixed_device (a ∷ b ∷ c ∷ k ∷ [])) refl
        (rw (len, parts, h, digit) refl))

com_letters :
    (a b c : ℕ)
    → IsLetter b'C' a
    → IsLetter b'O' b
    → IsLetter b'M' c
    → (eq_ignore_ascii_case (a ∷ b ∷ c ∷ []) (b'C' ∷ b'O' ∷ b'M' ∷ [])
        || eq_ignore_ascii_case (a ∷ b ∷ c ∷ []) (b'L' ∷ b'P' ∷ b'T' ∷ []))
      ≡ true
unfolding eq_ignore_ascii_case
com_letters a b c ha hb hc = ground (arith, ha, hb, hc)

lpt_letters :
    (a b c : ℕ)
    → IsLetter b'L' a
    → IsLetter b'P' b
    → IsLetter b'T' c
    → (eq_ignore_ascii_case (a ∷ b ∷ c ∷ []) (b'C' ∷ b'O' ∷ b'M' ∷ [])
        || eq_ignore_ascii_case (a ∷ b ∷ c ∷ []) (b'L' ∷ b'P' ∷ b'T' ∷ []))
      ≡ true
unfolding eq_ignore_ascii_case
lpt_letters a b c ha hb hc = ground (arith, ha, hb, hc)

letter_ascii : (x c : ℕ) → IsLetter x c → x ≤ b'Z' → c < 0x80
letter_ascii x c (inl e) h = omega (arith, e, h)
letter_ascii x c (inr e) h = omega (arith, e, h)

-- The check finds every device's name, with any extension.
pub reserved-IsDevice :
    (d rest : Name)
    → IsDevice d
    → IsExtension rest
    → is_reserved_device_name (d ++ rest) ≡ returns true
reserved-IsDevice _ rest (con a b c ha hb hc) x =
    reserved_fixed _ a b c
      (stem_three a b c rest (letter_no_dot b'C' a ha (omega arith))
        (letter_no_dot b'O' b hb (omega arith)) (letter_no_dot b'N' c hc (omega arith)) x)
      (con-fixed a b c ha hb hc)
reserved-IsDevice _ rest (prn a b c ha hb hc) x =
    reserved_fixed _ a b c
      (stem_three a b c rest (letter_no_dot b'P' a ha (omega arith))
        (letter_no_dot b'R' b hb (omega arith)) (letter_no_dot b'N' c hc (omega arith)) x)
      (prn-fixed a b c ha hb hc)
reserved-IsDevice _ rest (aux a b c ha hb hc) x =
    reserved_fixed _ a b c
      (stem_three a b c rest (letter_no_dot b'A' a ha (omega arith))
        (letter_no_dot b'U' b hb (omega arith)) (letter_no_dot b'X' c hc (omega arith)) x)
      (aux-fixed a b c ha hb hc)
reserved-IsDevice _ rest (nul a b c ha hb hc) x =
    reserved_fixed _ a b c
      (stem_three a b c rest (letter_no_dot b'N' a ha (omega arith))
        (letter_no_dot b'U' b hb (omega arith)) (letter_no_dot b'L' c hc (omega arith)) x)
      (nul-fixed a b c ha hb hc)
reserved-IsDevice _ rest (com_port a b c k ha hb hc lo hi) x =
    reserved_port _ a b c k
      (stem_four a b c k rest (letter_no_dot b'C' a ha (omega arith))
        (letter_no_dot b'O' b hb (omega arith)) (letter_no_dot b'M' c hc (omega arith))
        (λ e. omega (arith, e, lo)) x)
      (letter_ascii b'C' a ha (omega arith)) (letter_ascii b'O' b hb (omega arith))
      (letter_ascii b'M' c hc (omega arith)) lo hi (com_letters a b c ha hb hc)
reserved-IsDevice _ rest (lpt_port a b c k ha hb hc lo hi) x =
    reserved_port _ a b c k
      (stem_four a b c k rest (letter_no_dot b'L' a ha (omega arith))
        (letter_no_dot b'P' b hb (omega arith)) (letter_no_dot b'T' c hc (omega arith))
        (λ e. omega (arith, e, lo)) x)
      (letter_ascii b'L' a ha (omega arith)) (letter_ascii b'P' b hb (omega arith))
      (letter_ascii b'T' c hc (omega arith)) lo hi (lpt_letters a b c ha hb hc)
