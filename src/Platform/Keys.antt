-- ===== src/Platform/Keys.antt =====
-- Tables of keys, and searches in them.
use mouser.Prelude.{
  ℕ, ◌≡◌, ◌↔◌, refl, sym, ap, ◌∙◌, Bool, true, false, not, ◌&&◌, ◌||◌, ◌==◌, ==_iff, List, [], ◌∷◌,
  ◌++◌, Option, none, some, if◌then◌else◌, Bool-cases, inl, inr, some-inj, arith, leb,
}

-- A Boolean equality.
pub record Eq {ℓ} (A : Type ℓ) : Type ℓ where
  pub beq : A → A → Bool
  pub beq_iff : (a b : A) → (beq a b ≡ true) ↔ (a ≡ b)

instance abbrev pub nat_eq : Eq ℕ
nat_eq = record { beq = ◌==◌; beq_iff = ==_iff }

abbrev pub or_else : Option ℕ → Option ℕ → Option ℕ
or_else none o = o
or_else (some u) o = some u

abbrev pub is_some {ℓ} : {A : Type ℓ} → Option A → Bool
is_some none = false
is_some (some a) = true

unfoldable pub contains : List ℕ → ℕ → Bool
contains [] k = false
contains (x ∷ xs) k = let rest = contains xs k in x == k || rest

-- The numbers from `first` on.
unfoldable pub range : ℕ → ℕ → List ℕ
range first ℕ.zero = []
range first (ℕ.suc count) = first ∷ range (ℕ.suc first) count

unfoldable pub retain : (ℕ → Bool) → List ℕ → List ℕ
retain f [] = []
retain f (x ∷ xs) = let rest = retain f xs in if f x then x ∷ rest else rest

-- `sort_unstable` on numbers, by insertion.
unfoldable pub insert_sorted : ℕ → List ℕ → List ℕ
insert_sorted x [] = x ∷ []
insert_sorted x (y ∷ ys) = let rest = insert_sorted x ys in if leb x y then x ∷ y ∷ ys else y ∷ rest

unfoldable pub sort : List ℕ → List ℕ
sort [] = []
sort (x ∷ xs) = insert_sorted x (sort xs)

module _ {ℓ} {V : Type ℓ} where
  -- The first pair with a key: the arms of a `match`, or `find_map`.
  unfoldable pub find_key : List (ℕ × V) → ℕ → Option V
  find_key [] k = none
  find_key ((key, v) ∷ table) k = let rest = find_key table k in if key == k then some v else rest

  unfoldable pub keys : List (ℕ × V) → List ℕ
  keys [] = []
  keys ((key, v) ∷ table) = key ∷ keys table

  pub find_key-keys :
      (table : List (ℕ × V)) (k : ℕ) → is_some (find_key table k) ≡ contains (keys table) k
  unfolding find_key keys contains
  find_key-keys [] k = refl
  find_key-keys ((key, v) ∷ table) k = ground (arith, find_key-keys table k)

unfoldable pub all_in : List ℕ → List ℕ → Bool
all_in [] us = true
all_in (x ∷ xs) us = let rest = all_in xs us in contains us x && rest

pub all_in_lem :
    (xs us : List ℕ) (k : ℕ) → all_in xs us ≡ true → contains xs k ≡ true → contains us k ≡ true
unfolding all_in contains
all_in_lem [] us k h c = cc
all_in_lem (x ∷ xs) us k h c = elim (Bool-cases (x == k)) [
  | inl hit ↦
      (let here : contains us x ≡ true = ground (arith, h) in
        ap (contains us) (sym ((==_iff x k).0 hit)) ∙ here)
  | inr miss ↦ all_in_lem xs us k (ground (arith, h)) (rw (miss) at c)
]

module _ {V : Type 0} ⦃e : Eq V⦄ where
  -- The first key with a value: a `find_map` in the other direction.
  unfoldable pub find_value : List (ℕ × V) → V → Option ℕ
  find_value [] w = none
  find_value ((key, v) ∷ table) w =
      let rest = find_value table w in if e.beq v w then some key else rest

  -- No key and no value stands twice.
  unfoldable pub is_distinct : List (ℕ × V) → Bool
  is_distinct [] = true
  is_distinct ((key, v) ∷ table) =
      let rest = is_distinct table in
      not (is_some (find_key table key)) && not (is_some (find_value table v)) && rest

  abbrev pub is_at : Option V → V → Bool
  is_at none target = false
  is_at (some v) target = e.beq v target

  -- `usages.find(|u| f(u) == Some(target))`.
  unfoldable pub search : (ℕ → Option V) → List ℕ → V → Option ℕ
  search f [] target = none
  search f (u ∷ us) target =
      let rest = search f us target in if is_at (f u) target then some u else rest

  beq_refl : (v : V) → e.beq v v ≡ true
  beq_refl v = (e.beq_iff v v).1 refl

  pub find_value-find_key :
      (table : List (ℕ × V)) (k : ℕ) (v : V)
      → is_distinct table ≡ true
      → find_key table k ≡ some v
      → find_value table v ≡ some k
  unfolding find_key find_value is_distinct
  find_value-find_key [] k v d h = cc
  find_value-find_key ((key, w) ∷ table) k v d h = elim (Bool-cases (key == k)) [
    | inl hit ↦
        (let same : w ≡ v = some-inj (rw (hit) at h) in
          let key_is : key ≡ k = (==_iff key k).0 hit in
          let eq : e.beq w v ≡ true = (e.beq_iff w v).1 same in rw (eq) (ap some key_is))
    | inr miss ↦
        (let rest : is_distinct table ≡ true = ground (arith, d) in
          let fresh : is_some (find_value table w) ≡ false = ground (arith, d) in
          let there = find_value-find_key table k v rest (rw (miss) at h) in
          elim (Bool-cases (e.beq w v)) [
            | inl eq ↦
                (let again : is_some (find_value table w) ≡ true =
                    ap (λ (x : V). is_some (find_value table x)) ((e.beq_iff w v).0 eq)
                    ∙ ap is_some there in
                  absurd (cc))
            | inr other ↦ rw (other) there
          ])
  ]

  pub find_key-find_value :
      (table : List (ℕ × V)) (k : ℕ) (v : V)
      → is_distinct table ≡ true
      → find_value table v ≡ some k
      → find_key table k ≡ some v
  unfolding find_key find_value is_distinct
  find_key-find_value [] k v d h = cc
  find_key-find_value ((key, w) ∷ table) k v d h = elim (Bool-cases (e.beq w v)) [
    | inl eq ↦
        (let same : key ≡ k = some-inj (rw (eq) at h) in
          let hit : (key == k) ≡ true = (==_iff key k).1 same in
          rw (hit) (ap some ((e.beq_iff w v).0 eq)))
    | inr other ↦
        (let rest : is_distinct table ≡ true = ground (arith, d) in
          let fresh : is_some (find_key table key) ≡ false = ground (arith, d) in
          let there = find_key-find_value table k v rest (rw (other) at h) in
          elim (Bool-cases (key == k)) [
            | inl hit ↦
                (let again : is_some (find_key table key) ≡ true =
                    ap (λ (x : ℕ). is_some (find_key table x)) ((==_iff key k).0 hit)
                    ∙ ap is_some there in
                  absurd (cc))
            | inr miss ↦ rw (miss) there
          ])
  ]

  is_at-some : (o : Option V) (target : V) → is_at o target ≡ true → o ≡ some target
  is_at-some none target h = cc
  is_at-some (some v) target h = ap some ((e.beq_iff v target).0 h)

  pub search_sound :
      (f : ℕ → Option V) (us : List ℕ) (target : V) (u : ℕ)
      → search f us target ≡ some u
      → f u ≡ some target
  unfolding search
  search_sound f [] target u h = cc
  search_sound f (x ∷ us) target u h = elim (Bool-cases (is_at (f x) target)) [
    | inl hit ↦
        (let same : x ≡ u = some-inj (rw (hit) at h) in
          ap f (sym same) ∙ is_at-some (f x) target hit)
    | inr miss ↦ search_sound f us target u (rw (miss) at h)
  ]

  -- What is found only at one place is found there.
  pub search_complete :
      (f : ℕ → Option V) (us : List ℕ) (target : V) (k : ℕ)
      → f k ≡ some target
      → contains us k ≡ true
      → ((j : ℕ) → f j ≡ some target → j ≡ k)
      → search f us target ≡ some k
  unfolding search contains
  search_complete f [] target k h c only = cc
  search_complete f (x ∷ us) target k h c only = elim (Bool-cases (is_at (f x) target)) [
    | inl hit ↦ rw (hit) (ap some (only x (is_at-some (f x) target hit)))
    | inr miss ↦
        (let other : (x == k) ≡ false = elim (Bool-cases (x == k)) [
          | inl same ↦
              (let here : is_at (f x) target ≡ true =
                  ap (λ (y : ℕ). is_at (f y) target) ((==_iff x k).0 same)
                  ∙ ap (λ (o : Option V). is_at o target) h
                  ∙ beq_refl target in
                absurd (cc))
          | inr different ↦ different
        ] in
          let c' : contains us k ≡ true = rw (other) at c in
          rw (miss) (search_complete f us target k h c' only))
  ]

  -- A search of a table, over numbers that have every key among them, is the reverse of the table.
  pub search_iff :
      (table : List (ℕ × V)) (us : List ℕ) (k : ℕ) (v : V)
      → is_distinct table ≡ true
      → all_in (keys table) us ≡ true
      → (find_key table k ≡ some v) ↔ (search (find_key table) us v ≡ some k)
  search_iff table us k v d every = (
    (λ h.
        (let listed : contains (keys table) k ≡ true = sym (find_key-keys table k) ∙ ap is_some h in
          search_complete (find_key table) us v k h (all_in_lem (keys table) us k every listed)
            (λ j at_j.
              some-inj
                (sym (find_value-find_key table j v d at_j) ∙ find_value-find_key table k v d h)))),
    search_sound (find_key table) us v k,
  )

  pub search-append :
      (f : ℕ → Option V) (xs ys : List ℕ) (target : V)
      → or_else (search f xs target) (search f ys target) ≡ search f (xs ++ ys) target
  unfolding search
  search-append f [] ys target = refl
  search-append f (x ∷ xs) ys target = elim (Bool-cases (is_at (f x) target)) [
    | inl hit ↦ rw (hit) refl
    | inr miss ↦ rw (miss) (search-append f xs ys target)
  ]
