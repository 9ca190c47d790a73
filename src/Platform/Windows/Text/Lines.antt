-- ===== src/Platform/Windows/Text/Lines.antt =====
-- The line ends of a text (crates/platform-win/src/clipboard_text.rs), and that the clipboard crate
-- treats them in the same way (crates/mouser-clipboard/src/canonical.rs).
use mouser.Prelude.{
  ℕ, ◌+◌, ◌/◌, ◌%◌, ◌≤◌, ◌<◌, ◌≡◌, refl, ap, ◌∙◌, Bool, true, false, ◌&&◌, ◌==◌, List, [], ◌∷◌,
  ◌++◌, Option, none, some, ltb, All, arith, Bool-cases, inl, inr,
}
use mouser.Clipboard.Canonical
use mouser.Clipboard.Canonical.{is_pair}
use mouser.Clipboard.Canonical.Laws.{collapsed, peek, crlf_to_lf-collapsed}
use mouser.Platform.Windows.Text.{
  cr, lf, lf_to_crlf_from, lf_to_crlf, peeks_lf, crlf_to_lf, utf8_of, utf8,
}

not_pair : (b : ℕ) (o : Option ℕ) → 128 ≤ b → is_pair b o ≡ false
not_pair b none h = refl
not_pair b (some c) h = ground (arith, h)

collapsed-append : (bs r : List ℕ) → All (λ b. 128 ≤ b) bs → collapsed (bs ++ r) ≡ bs ++ collapsed r
unfolding collapsed
collapsed-append [] r h = refl
collapsed-append (b ∷ bs) r (h, hs) =
    rw (not_pair b (peek (bs ++ r)) h) (ap (◌∷◌ b) (collapsed-append bs r hs))

-- A character beyond ASCII, in bytes that are no line ends.
utf8_wide :
    (ch : ℕ)
    → 128 ≤ ch
    → (b : ℕ) × (bs : List ℕ) × (utf8_of ch ≡ b ∷ bs) × (128 ≤ b) × All (λ b. 128 ≤ b) bs
unfolding utf8_of
utf8_wide ch h = elim (Bool-cases (ltb ch 0x800)) [
  | inl two ↦
      (192 + ch / 64, (128 + ch % 64) ∷ [], ground (arith, two, h), omega arith, omega arith)
  | inr more ↦ elim (Bool-cases (ltb ch 0x10000)) [
    | inl three ↦ (
      224 + ch / 4096,
      (128 + ch / 64 % 64) ∷ (128 + ch % 64) ∷ [],
      ground (arith, more, three, h),
      omega arith,
      omega arith,
    )
    | inr four ↦ (
      240 + ch / 262144,
      (128 + ch / 4096 % 64) ∷ (128 + ch / 64 % 64) ∷ (128 + ch % 64) ∷ [],
      ground (arith, more, four, h),
      omega arith,
      omega arith,
    )
  ]
]

utf8_ascii : (ch : ℕ) → ch < 128 → utf8_of ch ≡ ch ∷ []
unfolding utf8_of
utf8_ascii ch h = ground (arith, h)

-- A pair in the bytes is a pair in the text.
is_pair-utf8 : (b : ℕ) (s : List ℕ) → is_pair b (peek (utf8 s)) ≡ (b == cr && peeks_lf s)
unfolding utf8
is_pair-utf8 b [] = ground arith
is_pair-utf8 b (ch ∷ s) = elim (Bool-cases (ltb ch 128)) [
  | inl small ↦ rw (utf8_ascii ch (ground (arith, small))) refl
  | inr large ↦
      (let (c, cs, bytes, big, rest) = utf8_wide ch (ground (arith, large)) in
        let no_lf : (c == lf) ≡ false = ground (arith, big) in
        let no_lf' : (ch == lf) ≡ false = ground (arith, large) in rw (bytes, no_lf, no_lf') refl)
]

collapsed-utf8 : (s : List ℕ) → collapsed (utf8 s) ≡ utf8 (crlf_to_lf s)
unfolding utf8 crlf_to_lf collapsed
collapsed-utf8 [] = refl
collapsed-utf8 (ch ∷ s) = elim (Bool-cases (ltb ch 128)) [
  | inl small ↦
      (let one = utf8_ascii ch (ground (arith, small)) in
        elim (Bool-cases (ch == cr && peeks_lf s)) [
          | inl pair ↦ rw (one, is_pair-utf8 ch s, pair) (collapsed-utf8 s)
          | inr single ↦ rw (one, is_pair-utf8 ch s, single, one) (ap (◌∷◌ ch) (collapsed-utf8 s))
        ])
  | inr large ↦
      (let (c, cs, bytes, big, rest) = utf8_wide ch (ground (arith, large)) in
        let no_cr : (ch == cr) ≡ false = ground (arith, large) in
        rw (no_cr, bytes)
          (collapsed-append (c ∷ cs) (utf8 s) (big, rest) ∙ ap (◌++◌ (c ∷ cs)) (collapsed-utf8 s)))
]

-- The clipboard crate, which looks for pairs in the bytes of a text by their index, and the Windows
-- backend, which looks ahead in its characters, collapse the same line ends: the one gives the bytes
-- of what the other gives.
pub crlf_to_lf-utf8 : (s : List ℕ) → Canonical.crlf_to_lf (utf8 s) ≡ utf8 (crlf_to_lf s)
crlf_to_lf-utf8 s = crlf_to_lf-collapsed (utf8 s) ∙ collapsed-utf8 s

peeks_lf-expanded : (s : List ℕ) → peeks_lf (lf_to_crlf_from true s) ≡ peeks_lf s
unfolding lf_to_crlf_from
peeks_lf-expanded [] = refl
peeks_lf-expanded (ch ∷ s) = ground arith

-- What is expanded is collapsed to the text with its own pairs collapsed.
expanded_lem : (prev : Bool) (s : List ℕ) → crlf_to_lf (lf_to_crlf_from prev s) ≡ crlf_to_lf s
unfolding crlf_to_lf lf_to_crlf_from
expanded_lem prev [] = refl
expanded_lem prev (ch ∷ s) = elim (Bool-cases (ch == cr)) [
  | inl e ↦
      (let no_lf : (ch == lf) ≡ false = ground (arith, e) in
        rw (no_lf, e, peeks_lf-expanded s, expanded_lem true s) refl)
  | inr e ↦ ground (arith, e, expanded_lem (ch == cr) s)
]

pub crlf_to_lf-lf_to_crlf : (s : List ℕ) → crlf_to_lf (lf_to_crlf s) ≡ crlf_to_lf s
unfolding lf_to_crlf
crlf_to_lf-lf_to_crlf s = expanded_lem false s
