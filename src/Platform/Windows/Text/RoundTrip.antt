-- ===== src/Platform/Windows/Text/RoundTrip.antt =====
-- What the Windows clipboard gives back of a text (crates/platform-win/src/clipboard_text.rs).
use mouser.Prelude.{
  ℕ, ◌<◌, ◌≡◌, sym, ap, ◌∙◌, Bool, false, not, ◌&&◌, ◌==◌, List, [], ◌∷◌, All, arith, inl, if_cases,
}
use mouser.Clipboard.Canonical
use mouser.Platform.Windows.Text.{
  cr, lf, lf_to_crlf_from, lf_to_crlf, crlf_to_lf, encode_utf16, from_utf16_lossy, utf8,
  cf_unicodetext_bytes_to_engine_utf8, engine_utf8_to_cf_unicodetext_bytes,
}
use mouser.Platform.Windows.Text.Lines.{crlf_to_lf-utf8, crlf_to_lf-lf_to_crlf}
use mouser.Platform.Windows.Text.Units.{
  IsScalar, from_utf16_lossy-encode_utf16, encode_utf16-IsPlain, until_nul-write_units,
}

expanded-All :
    (P : ℕ → Type 0) (prev : Bool) (s : List ℕ) → P cr → All P s → All P (lf_to_crlf_from prev s)
unfolding lf_to_crlf_from
expanded-All P prev [] c h = tt
expanded-All P prev (ch ∷ s) c (h, hs) =
    if_cases (All P) (ch == lf && not prev) (c, (h, expanded-All P (ch == cr) s c hs))
      (h, expanded-All P (ch == cr) s c hs)

-- A text with no NUL that is written to the Windows clipboard comes back, in UTF-8, with the line ends
-- that the clipboard crate gives it before it hashes it.
pub read-write :
    (s : List ℕ)
    → All IsScalar s
    → All (λ ch. 0 < ch) s
    → cf_unicodetext_bytes_to_engine_utf8 (engine_utf8_to_cf_unicodetext_bytes s)
      ≡ Canonical.crlf_to_lf (utf8 s)
unfolding cf_unicodetext_bytes_to_engine_utf8 engine_utf8_to_cf_unicodetext_bytes lf_to_crlf
read-write s scalar pos =
    let t = lf_to_crlf_from false s in
    let scalar' : All IsScalar t = expanded-All IsScalar false s (inl (omega arith)) scalar in
    let pos' : All (λ ch. 0 < ch) t = expanded-All (λ ch. 0 < ch) false s (omega arith) pos in
    let units = until_nul-write_units (encode_utf16 t) (encode_utf16-IsPlain t scalar' pos') in
    let chars = from_utf16_lossy-encode_utf16 t scalar' in
    ap (λ (us : List ℕ). utf8 (crlf_to_lf (from_utf16_lossy us))) units
    ∙ ap (λ (x : List ℕ). utf8 (crlf_to_lf x)) chars
    ∙ ap utf8 (crlf_to_lf-lf_to_crlf s)
    ∙ sym (crlf_to_lf-utf8 s)
