-- ===== src/Core/DeviceId.antt =====
-- A `DeviceId` is a `[u8; 32]` (crates/mouser-core/src/lib.rs). It stands here as the number that
-- its bytes write, most significant first: the derived order of the arrays is that of the numbers.
use mouser.Prelude.{
  ℕ, zero, suc, ◌+◌, ◌*◌, ◌/◌, ◌%◌, ◌^◌, ◌≤◌, ◌<◌, ◌≡◌, refl, Bool, true, false, List, [], ◌∷◌,
  Option, some, none, ltb, ◌==◌, if◌then◌else◌, arith, length, sym, ap,
}
use native.Mathlib.Nat.{div-add-mod, div-div-eq-div-mul, pow-suc, mod-lt}

abbrev pub DeviceId : Type 0
DeviceId = ℕ

-- The `k` lowest bytes of `n`, most significant first.
unfoldable pub be_bytes : ℕ → ℕ → List ℕ
be_bytes zero n = []
be_bytes (suc k) n = (n / 256 ^ k % 256) ∷ be_bytes k n

unfoldable pub be_value : List ℕ → ℕ
be_value [] = 0
be_value (b ∷ bs) = b * 256 ^ length bs + be_value bs

-- `id.to_vec()`.
unfoldable pub to_vec : DeviceId → List ℕ
to_vec id = be_bytes 32 id

-- `<[u8; 32]>::try_from(bytes).ok()`.
unfoldable pub to_id : List ℕ → Option DeviceId
to_id bytes = if length bytes == 32 then some (be_value bytes) else none

-- The order of byte arrays, as Rust derives it.
pub lex_lt : List ℕ → List ℕ → Bool
lex_lt [] [] = false
lex_lt [] (y ∷ ys) = true
lex_lt (x ∷ xs) [] = false
lex_lt (x ∷ xs) (y ∷ ys) = if x == y then lex_lt xs ys else ltb x y

length-be_bytes : (k n : ℕ) → length (be_bytes k n) ≡ k
unfolding be_bytes
length-be_bytes zero n = refl
length-be_bytes (suc k) n = omega (arith, length-be_bytes k n)

-- Splitting off the top digit of base 256.
mod-split : (n p : ℕ) → n % (p * 256) ≡ n / p % 256 * p + n % p
mod-split n p = omega (
  arith,
  div-add-mod n p,
  div-add-mod n (p * 256),
  ap (λ (t : ℕ). p * t) (div-add-mod (n / p) 256),
  ap (λ (t : ℕ). p * 256 * t) (div-div-eq-div-mul n p 256),
)

be_value-be_bytes : (k n : ℕ) → be_value (be_bytes k n) ≡ n % 256 ^ k
unfolding be_bytes be_value
be_value-be_bytes zero n = omega arith
be_value-be_bytes (suc k) n =
    rw (length-be_bytes k n, be_value-be_bytes k n, pow-suc 256 k) (sym (mod-split n (256 ^ k)))

-- The id that is written into a message is the id that is read out of it.
pub to_id-to_vec : (id : DeviceId) → id < 256 ^ 32 → to_id (to_vec id) ≡ some id
unfolding to_id to_vec
to_id-to_vec id h = rw (length-be_bytes 32 id, be_value-be_bytes 32 id) (ap some (omega arith))

mul-le-of_lt : (d e p : ℕ) → d < e → d * p + p ≤ e * p
mul-le-of_lt d e p h = grind arith

-- A number is compared by its top digit first.
digit_order :
    (d e p l m : ℕ)
    → l < p
    → m < p
    → (if d == e then ltb l m else ltb d e) ≡ ltb (d * p + l) (e * p + m)
digit_order d e p l m hl hm =
    ground (arith, mul-le-of_lt d e p, mul-le-of_lt e d p, ap (λ (t : ℕ). t * p) {x = d} {y = e})

pow-pos : (k : ℕ) → 0 < 256 ^ k
pow-pos zero = omega arith
pow-pos (suc k) = rw (pow-suc 256 k) (omega (arith, pow-pos k))

lex_lt-be_bytes :
    (k a b : ℕ) → lex_lt (be_bytes k a) (be_bytes k b) ≡ ltb (a % 256 ^ k) (b % 256 ^ k)
unfolding lex_lt be_bytes
lex_lt-be_bytes zero a b = ground arith
lex_lt-be_bytes (suc k) a b =
    rw (lex_lt-be_bytes k a b, pow-suc 256 k, mod-split a (256 ^ k), mod-split b (256 ^ k))
      (digit_order _ _ _ _ _ (mod-lt a (pow-pos k)) (mod-lt b (pow-pos k)))

-- The derived order of the 32-byte arrays is the order of the numbers that stand for them.
pub lex_lt-to_vec :
    (a b : DeviceId) → a < 256 ^ 32 → b < 256 ^ 32 → lex_lt (to_vec a) (to_vec b) ≡ ltb a b
unfolding to_vec
lex_lt-to_vec a b ha hb = rw (lex_lt-be_bytes 32 a b) (ground arith)
