-- ===== src/Clipboard/Engine/Choice.antt =====
-- Which entry of an offer a device pulls (crates/mouser-clipboard/src/engine.rs).
use mouser.Prelude.{
  ℕ, suc, ◌≤◌, ◌≡◌, refl, true, false, List, [], ◌∷◌, Option, none, some, ltb, get_elem?, All,
  arith, some-inj, sym, ◌∙◌, if_split,
}
use mouser.Clipboard.Settings.{ClipboardSettings}
use mouser.Clipboard.Engine.{ClipboardEntry, preference_rank, is_eligible, better, best_entry}

-- The entry may not be pulled, or its rank is at least `r`.
abbrev pub AtLeast : ClipboardSettings → ℕ → ClipboardEntry → Type 0
AtLeast settings r x =
    is_eligible settings x ≡ true → (n : ℕ) → preference_rank x.format ≡ some n → r ≤ n

abbrev pub Unpullable : ClipboardSettings → ClipboardEntry → Type 0
Unpullable settings x = is_eligible settings x ≡ true → preference_rank x.format ≡ none

-- What the choice among the entries comes to.
unfoldable pub IsChoice :
    ClipboardSettings → List ClipboardEntry → Option (ℕ × ClipboardEntry) → Type 0
IsChoice settings entries none = All (Unpullable settings) entries
IsChoice settings entries (some (r, entry)) =
    ((i : ℕ) × (get_elem? entries i ≡ some entry))
    × (is_eligible settings entry ≡ true)
    × (preference_rank entry.format ≡ some r)
    × All (AtLeast settings r) entries

lower :
    (settings : ClipboardSettings) (r n : ℕ) (es : List ClipboardEntry)
    → n ≤ r
    → All (AtLeast settings r) es
    → All (AtLeast settings n) es
lower settings r n [] le h = tt
lower settings r n (x ∷ es) le (h, hs) =
    (λ e m q. omega (arith, le, h e m q), lower settings r n es le hs)

Unpullable-AtLeast :
    (settings : ClipboardSettings) (r : ℕ) (es : List ClipboardEntry)
    → All (Unpullable settings) es
    → All (AtLeast settings r) es
Unpullable-AtLeast settings r [] h = tt
Unpullable-AtLeast settings r (x ∷ es) (h, hs) =
    (λ e n q. (let none_of = h e in absurd (cc)), Unpullable-AtLeast settings r es hs)

better-IsChoice :
    (settings : ClipboardSettings) (x : ClipboardEntry) (es : List ClipboardEntry) (rank : Option ℕ)
    (best : Option (ℕ × ClipboardEntry))
    → is_eligible settings x ≡ true
    → preference_rank x.format ≡ rank
    → IsChoice settings es best
    → IsChoice settings (x ∷ es) (better rank x best)
unfolding IsChoice better
better-IsChoice settings x es none none e q h = (λ _. q, h)
better-IsChoice settings x es none (some (r, y)) e q ((i, found), ok_y, rank_y, all) =
    ((suc i, found), ok_y, rank_y, ((λ _ n p. cc), all))
better-IsChoice settings x es (some n) none e q h = (
  (0, refl),
  e,
  q,
  (
    (λ _ m p. (let same : n ≡ m = some-inj (sym q ∙ p) in omega (arith, same))),
    Unpullable-AtLeast settings n es h,
  ),
)
better-IsChoice settings x es (some n) (some (r, y)) e q ((i, found), ok_y, rank_y, all) =
    if_split (IsChoice settings (x ∷ es)) (ltb r n)
      (λ t. (
        (suc i, found),
        ok_y,
        rank_y,
        ((λ _ m p. (let same : n ≡ m = some-inj (sym q ∙ p) in ground (arith, same, t))), all),
      ))
      (λ t. (
        (0, refl),
        e,
        q,
        (
          (λ _ m p. (let same : n ≡ m = some-inj (sym q ∙ p) in omega (arith, same))),
          lower settings r n es (ground (arith, t)) all,
        ),
      ))

skip-IsChoice :
    (settings : ClipboardSettings) (x : ClipboardEntry) (es : List ClipboardEntry)
    (best : Option (ℕ × ClipboardEntry))
    → is_eligible settings x ≡ false
    → IsChoice settings es best
    → IsChoice settings (x ∷ es) best
unfolding IsChoice
skip-IsChoice settings x es none e h = (λ t. absurd (cc), h)
skip-IsChoice settings x es (some (r, y)) e ((i, found), ok_y, rank_y, all) =
    ((suc i, found), ok_y, rank_y, ((λ t. absurd (cc)), all))

-- The entry that is pulled is one of the offer, of a format that is shared and within the size limit,
-- and no such entry is preferred to it. If none is pulled, no entry has a known format that is
-- shared and a size within the limit.
pub best_entry-IsChoice :
    (settings : ClipboardSettings) (es : List ClipboardEntry)
    → IsChoice settings es (best_entry settings es)
unfolding best_entry IsChoice
best_entry-IsChoice settings [] = tt
best_entry-IsChoice settings (x ∷ es) =
    if_split (IsChoice settings (x ∷ es)) (is_eligible settings x)
      (λ e.
        better-IsChoice settings x es (preference_rank x.format) (best_entry settings es) e refl
          (best_entry-IsChoice settings es))
      (λ e.
        skip-IsChoice settings x es (best_entry settings es) e (best_entry-IsChoice settings es))
