-- ===== src/Clipboard/Canonical/Laws.antt =====
-- What the canonical bytes keep and what they drop (crates/mouser-clipboard/src/canonical.rs).
use mouser.Prelude.{
  ℕ, zero, suc, ◌+◌, ◌-◌, ◌≤◌, ◌≡◌, refl, sym, ap, ◌∙◌, true, false, ◌==◌, List, [], ◌∷◌, ◌++◌,
  append-nil, append_assoc, Option, none, some, if◌then◌else◌, length, get_elem?, drop, ltb, arith,
  Bool-cases, inl, inr, ◌⊎◌, ◌≢◌, last_of, pop,
}
use mouser.Clipboard.Types.{ClipFormat}
use mouser.Clipboard.Settings.{utf8_text, uri_list}
use mouser.Clipboard.Canonical.{
  lf, contains_crlf, is_pair, crlf_turn, crlf_loop, crlf_to_lf, is_last, pop_nuls, canonical_text,
  canonical_uri_list, canonical,
}

-- The byte behind, if there is one.
abbrev pub peek : List ℕ → Option ℕ
peek [] = none
peek (b ∷ bytes) = some b

-- The bytes without the carriage returns that stand before a line feed.
unfoldable pub collapsed : List ℕ → List ℕ
collapsed [] = []
collapsed (b ∷ bytes) =
    let rest = collapsed bytes in if is_pair b (peek bytes) then rest else b ∷ rest

get_elem?-drop_nil :
    (i : ℕ) (xs : List ℕ) → drop i xs ≡ [] → (get_elem? xs i ≡ none) × (length xs ≤ i)
get_elem?-drop_nil zero [] e = (refl, omega arith)
get_elem?-drop_nil (suc i) [] e = (refl, omega arith)
get_elem?-drop_nil zero (x ∷ xs) e = cc
get_elem?-drop_nil (suc i) (x ∷ xs) e =
    let (a, b) = get_elem?-drop_nil i xs e in (a, omega (arith, b))

get_elem?-drop_cons :
    (i : ℕ) (xs : List ℕ) (b : ℕ) (r : List ℕ)
    → drop i xs ≡ b ∷ r
    → (get_elem? xs i ≡ some b)
      × (get_elem? xs (suc i) ≡ peek r)
      × (drop (suc i) xs ≡ r)
      × (length xs ≡ i + suc (length r))
get_elem?-drop_cons zero [] b r e = cc
get_elem?-drop_cons (suc i) [] b r e = cc
get_elem?-drop_cons zero (x ∷ []) b [] e = (cc, refl, refl, omega arith)
get_elem?-drop_cons zero (x ∷ []) b (c ∷ r) e = cc
get_elem?-drop_cons zero (x ∷ y ∷ xs) b [] e = cc
get_elem?-drop_cons zero (x ∷ y ∷ xs) b (c ∷ r) e = (cc, cc, cc, omega (arith, ap length e))
get_elem?-drop_cons (suc i) (x ∷ xs) b r e =
    let (p, q, s, t) = get_elem?-drop_cons i xs b r e in (p, q, s, omega (arith, t))

collapsed_pair :
    (b c : ℕ) (r : List ℕ) → is_pair b (some c) ≡ true → collapsed (b ∷ c ∷ r) ≡ lf ∷ collapsed r
unfolding collapsed
collapsed_pair b c r h = ground (arith, h)

crlf_turn_single :
    (next : ℕ → List ℕ → List ℕ) (b : ℕ) (second : Option ℕ) (i : ℕ) (out : List ℕ)
    → is_pair b second ≡ false
    → crlf_turn next (some b) second i out ≡ next (suc i) (out ++ (b ∷ []))
unfolding crlf_turn
crlf_turn_single next b second i out h = let e : i + 1 ≡ suc i = omega arith in rw (h, e) refl

crlf_turn_pair :
    (next : ℕ → List ℕ → List ℕ) (b : ℕ) (second : Option ℕ) (i : ℕ) (out : List ℕ)
    → is_pair b second ≡ true
    → crlf_turn next (some b) second i out ≡ next (suc (suc i)) (out ++ (lf ∷ []))
unfolding crlf_turn
crlf_turn_pair next b second i out h = let e : i + 2 ≡ suc (suc i) = omega arith in rw (h, e) refl

-- A turn on the bytes `b ∷ r` from the index on, if the rest of the loop appends what is left.
crlf_turn_lem :
    (next : ℕ → List ℕ → List ℕ) (bytes : List ℕ) (i : ℕ) (out : List ℕ) (b : ℕ) (r : List ℕ)
    → drop (suc i) bytes ≡ r
    → ((j : ℕ) (o ds : List ℕ)
        → drop j bytes ≡ ds
        → length ds ≤ length r
        → next j o ≡ o ++ collapsed ds)
    → crlf_turn next (some b) (peek r) i out ≡ out ++ collapsed (b ∷ r)
unfolding collapsed
crlf_turn_lem next bytes i out b [] q ih =
    crlf_turn_single next b none i out refl
    ∙ ih (suc i) (out ++ (b ∷ [])) [] q (omega arith)
    ∙ append_assoc out (b ∷ []) []
crlf_turn_lem next bytes i out b (c ∷ r) q ih = elim (Bool-cases (is_pair b (some c))) [
  | inl pair ↦
      (crlf_turn_pair next b (some c) i out pair
        ∙ ih (suc (suc i)) (out ++ (lf ∷ [])) r (get_elem?-drop_cons (suc i) bytes c r q).2
            (omega arith)
        ∙ append_assoc out (lf ∷ []) (collapsed r)
        ∙ ap (◌++◌ out) (sym (collapsed_pair b c r pair)))
  | inr single ↦
      (crlf_turn_single next b (some c) i out single
        ∙ ih (suc i) (out ++ (b ∷ [])) (c ∷ r) q (omega arith)
        ∙ append_assoc out (b ∷ []) (collapsed (c ∷ r))
        ∙ ap (◌++◌ out) (rw (single) refl))
]

-- The rest of the loop appends what is left of the bytes from the index on.
crlf_loop_lem :
    (fuel : ℕ) (bytes : List ℕ) (i : ℕ) (out ds : List ℕ)
    → drop i bytes ≡ ds
    → length ds ≤ fuel
    → crlf_loop fuel bytes i out ≡ out ++ collapsed ds
unfolding crlf_loop collapsed
crlf_loop_lem zero bytes i out [] e h = sym (append-nil out)
crlf_loop_lem zero bytes i out (b ∷ r) e h = absurd (omega (arith, h))
crlf_loop_lem (suc fuel) bytes i out [] e h =
    let past : ltb i (length bytes) ≡ false = ground (arith, get_elem?-drop_nil i bytes e) in
    rw (past) (sym (append-nil out))
crlf_loop_lem (suc fuel) bytes i out (b ∷ r) e h =
    let (at_i, behind, rest, len) = get_elem?-drop_cons i bytes b r e in
    let inside : ltb i (length bytes) ≡ true = ground (arith, len) in
    let one : i + 1 ≡ suc i = omega arith in
    rw (inside, at_i, one, behind)
      (crlf_turn_lem (crlf_loop fuel bytes) bytes i out b r rest
        (λ j o ds q le. crlf_loop_lem fuel bytes j o ds q (omega (arith, le, h))))

collapsed-no_crlf : (bytes : List ℕ) → contains_crlf bytes ≡ false → collapsed bytes ≡ bytes
unfolding collapsed contains_crlf
collapsed-no_crlf [] h = refl
collapsed-no_crlf (a ∷ []) h = refl
collapsed-no_crlf (a ∷ b ∷ bytes) h = ground (arith, h, collapsed-no_crlf (b ∷ bytes))

-- The function behind its scan and its loop over the indices.
pub crlf_to_lf-collapsed : (bytes : List ℕ) → crlf_to_lf bytes ≡ collapsed bytes
unfolding crlf_to_lf
crlf_to_lf-collapsed bytes = elim (Bool-cases (contains_crlf bytes)) [
  | inl e ↦ rw (e) (crlf_loop_lem (length bytes) bytes 0 [] bytes refl (omega arith))
  | inr e ↦ rw (e) (sym (collapsed-no_crlf bytes e))
]

length-pop : (out : List ℕ) → length (pop out) ≡ length out - 1
unfolding pop
length-pop [] = omega arith
length-pop (x ∷ []) = omega arith
length-pop (x ∷ y ∷ xs) = omega (arith, length-pop (y ∷ xs))

-- The text that is left has no NUL at its end.
pub pop_nuls-last :
    (fuel : ℕ) (out : List ℕ) → length out ≤ fuel → is_last 0 (last_of (pop_nuls fuel out)) ≡ false
unfolding pop_nuls last_of
pop_nuls-last zero [] h = refl
pop_nuls-last zero (x ∷ out) h = absurd (omega (arith, h))
pop_nuls-last (suc fuel) out h = elim (Bool-cases (is_last 0 (last_of out))) [
  | inl e ↦
      (let less : length (pop out) ≤ fuel = omega (arith, h, length-pop out) in
        rw (e) (pop_nuls-last fuel (pop out) less))
  | inr e ↦ rw (e) e
]

pop_nuls-done :
    (fuel : ℕ) (out : List ℕ) → is_last 0 (last_of out) ≡ false → pop_nuls fuel out ≡ out
unfolding pop_nuls
pop_nuls-done zero out h = refl
pop_nuls-done (suc fuel) out h = rw (h) refl

-- Bytes that a second pass leaves alone: no line end to collapse, and no line feed at the end of a list.
abbrev pub IsSettled : ClipFormat → List ℕ → Type 0
IsSettled format bytes =
    (contains_crlf bytes ≡ false) × (is_last lf (last_of bytes) ≡ false ⊎ format ≢ uri_list)

settled-crlf_to_lf : (bytes : List ℕ) → contains_crlf bytes ≡ false → crlf_to_lf bytes ≡ bytes
unfolding crlf_to_lf
settled-crlf_to_lf bytes h = rw (h) refl

canonical_of_settled :
    (format : ClipFormat) (bytes : List ℕ)
    → IsSettled format bytes
    → (format ≡ utf8_text → is_last 0 (last_of bytes) ≡ false)
    → canonical format bytes ≡ bytes
unfolding canonical canonical_text canonical_uri_list
canonical_of_settled format bytes (lines, list) text =
    rw (settled-crlf_to_lf bytes lines)
      (ground (arith, list, text, pop_nuls-done (length bytes) bytes))

canonical_text-last :
    (format : ClipFormat) (bytes : List ℕ)
    → format ≡ utf8_text
    → is_last 0 (last_of (canonical format bytes)) ≡ false
unfolding canonical canonical_text
canonical_text-last format bytes e =
    let text : (format == utf8_text) ≡ true = ground (arith, e) in
    rw (text) (pop_nuls-last (length (crlf_to_lf bytes)) (crlf_to_lf bytes) (omega arith))

-- The canonical bytes are their own canonical bytes, if they hold no line end to collapse and, in a
-- list of URIs, end in no line feed.
pub canonical-canonical :
    (format : ClipFormat) (bytes : List ℕ)
    → IsSettled format (canonical format bytes)
    → canonical format (canonical format bytes) ≡ canonical format bytes
canonical-canonical format bytes h =
    canonical_of_settled format (canonical format bytes) h (canonical_text-last format bytes)
