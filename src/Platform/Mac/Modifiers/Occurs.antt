-- ===== src/Platform/Mac/Modifiers/Occurs.antt =====
-- How often a key stands among the held ones (crates/platform-mac/src/keymap_capture.rs).
use mouser.Prelude.{
  ℕ, zero, suc, ◌+◌, ◌≤◌, ◌≡◌, refl, sym, ap, ◌==◌, ==_iff, List, [], ◌∷◌, ◌++◌, Option, none, some,
  if◌then◌else◌, set, last_of, pop, get_elem?, Bool-cases, inl, inr, arith, some-inj,
}
use mouser.Platform.Mac.Modifiers.{next_index, position, swap_remove}

abbrev pub hit : ℕ → ℕ → ℕ
hit x j = if x == j then 1 else 0

-- How often a key stands in a list.
unfoldable pub occurs : ℕ → List ℕ → ℕ
occurs j [] = 0
occurs j (x ∷ xs) = hit x j + occurs j xs

pub occurs-append : (j : ℕ) (xs ys : List ℕ) → occurs j (xs ++ ys) ≡ occurs j xs + occurs j ys
unfolding occurs
occurs-append j [] ys = omega arith
occurs-append j (x ∷ xs) ys = omega (arith, occurs-append j xs ys)

occurs-set :
    (j : ℕ) (xs : List ℕ) (i x y : ℕ)
    → get_elem? xs i ≡ some x
    → occurs j (set xs i y) + hit x j ≡ occurs j xs + hit y j
unfolding occurs
occurs-set j [] i x y h = cc
occurs-set j (z ∷ xs) zero x y h = let same : z ≡ x = some-inj h in rw (same) (omega arith)
occurs-set j (z ∷ xs) (suc i) x y h = omega (arith, occurs-set j xs i x y h)

occurs-pop :
    (j : ℕ) (xs : List ℕ) (l : ℕ) → last_of xs ≡ some l → occurs j (pop xs) + hit l j ≡ occurs j xs
unfolding occurs last_of pop
occurs-pop j [] l h = cc
occurs-pop j (x ∷ []) l h = let same : x ≡ l = some-inj h in rw (same) (omega arith)
occurs-pop j (x ∷ y ∷ xs) l h = omega (arith, occurs-pop j (y ∷ xs) l h)

last_of-set : (xs : List ℕ) (i l : ℕ) → last_of xs ≡ some l → last_of (set xs i l) ≡ some l
unfolding last_of
last_of-set [] i l h = cc
last_of-set (x ∷ []) zero l h = refl
last_of-set (x ∷ []) (suc i) l h = h
last_of-set (x ∷ y ∷ xs) zero l h = h
last_of-set (x ∷ y ∷ xs) (suc zero) l h = last_of-set (y ∷ xs) zero l h
last_of-set (x ∷ y ∷ xs) (suc (suc i)) l h = last_of-set (y ∷ xs) (suc i) l h

last_of-some : (xs : List ℕ) (i x : ℕ) → get_elem? xs i ≡ some x → (l : ℕ) × (last_of xs ≡ some l)
unfolding last_of
last_of-some [] i x h = cc
last_of-some (y ∷ []) i x h = (y, refl)
last_of-some (y ∷ z ∷ xs) i x h = last_of-some (z ∷ xs) 0 z refl

-- Exactly one occurrence goes.
pub occurs-swap_remove :
    (j : ℕ) (xs : List ℕ) (i x : ℕ)
    → get_elem? xs i ≡ some x
    → occurs j (swap_remove xs i) + hit x j ≡ occurs j xs
unfolding swap_remove
occurs-swap_remove j xs i x h =
    let (l, last) = last_of-some xs i x h in
    let popped = occurs-pop j (set xs i l) l (last_of-set xs i l last) in
    let moved = occurs-set j xs i x l h in rw (last) (omega (arith, popped, moved))

next_index-none : (o : Option ℕ) → next_index o ≡ none → o ≡ none
next_index-none none h = refl
next_index-none (some i) h = cc

pub position-none : (held : List ℕ) (k : ℕ) → position held k ≡ none → occurs k held ≡ 0
unfolding position occurs
position-none [] k h = refl
position-none (x ∷ held) k h = elim (Bool-cases (x == k)) [
  | inl e ↦ (let found : ◌≡◌ {A = Option ℕ} (some 0) none = rw (e) at h in absurd (cc))
  | inr e ↦
      (let rest = position-none held k (next_index-none (position held k) (rw (e) at h)) in
        rw (e) (omega (arith, rest)))
]

-- An index that is found is the index of the key.
pub position-some : (held : List ℕ) (k i : ℕ) → position held k ≡ some i → get_elem? held i ≡ some k
unfolding position
position-some [] k i h = cc
position-some (x ∷ held) k i h = elim (Bool-cases (x == k)) [
  | inl e ↦
      (let first : 0 ≡ i = some-inj (rw (e) at h) in rw (sym first) (ap some ((==_iff x k).0 e)))
  | inr e ↦ behind i (position held k) refl (rw (e) at h) (λ j q. position-some held k j q)
]
  where
    behind :
        (i : ℕ) (o : Option ℕ)
        → position held k ≡ o
        → next_index o ≡ some i
        → ((j : ℕ) → position held k ≡ some j → get_elem? held j ≡ some k)
        → get_elem? (x ∷ held) i ≡ some k
    behind i none q n ih = cc
    behind i (some j) q n ih = let same : suc j ≡ i = some-inj n in rw (sym same) (ih j q)

pub occurs_there : (k : ℕ) (xs : List ℕ) (i : ℕ) → get_elem? xs i ≡ some k → 1 ≤ occurs k xs
unfolding occurs
occurs_there k [] i h = cc
occurs_there k (x ∷ xs) zero h = let same : x ≡ k = some-inj h in rw (same) (ground arith)
occurs_there k (x ∷ xs) (suc i) h = omega (arith, occurs_there k xs i h)
