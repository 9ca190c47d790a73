-- ===== src/Daemon/Reconnect.antt =====
-- crates/mouser-engine/src/daemon/reconnect.rs: how long a lost session waits between two attempts.
-- A duration is its milliseconds; a device id is its 32 bytes.
use Prim.Native.Nat.{bit_xor}
use mouser.Prelude.{
  ℕ, zero, suc, ◌+◌, ◌-◌, ◌*◌, ◌/◌, ◌%◌, ◌^◌, ◌≤◌, ◌<◌, ◌≡◌, List, [], ◌∷◌, ◌++◌, min, arith, ltb,
  Bool-cases, inl, inr,
}
use mouser.Prelude.Sat.{u64_max, saturating_add}
use mouser.Prelude.Bytes.{le_bytes}
use native.Mathlib.Nat.{pow-suc, mul-le-mul_left, mod-lt}

abbrev pub base_backoff : ℕ
base_backoff = 250

abbrev pub max_backoff : ℕ
max_backoff = 30000

abbrev pub jitter_percent : ℕ
jitter_percent = 20

abbrev u128_max : ℕ
u128_max = 340282366920938463463374607431768211455

unfoldable pub saturating_mul : ℕ → ℕ → ℕ → ℕ
saturating_mul top a b = min (a * b) top

-- `1u128.checked_shl(shift)` of a shift below 128.
unfoldable pub reconnect_backoff : ℕ → ℕ
reconnect_backoff attempt =
    let factor = 2 ^ min attempt 16 in
    let millis = saturating_mul u128_max base_backoff factor in min (min millis max_backoff) u64_max

-- One round of the hash, with its wrapping product.
unfoldable pub mix : ℕ → ℕ → ℕ
mix hash byte = bit_xor hash byte * 0x100000001b3 % 2 ^ 64

unfoldable pub mix_all : ℕ → List ℕ → ℕ
mix_all hash [] = hash
mix_all hash (byte ∷ bytes) = mix_all (mix hash byte) bytes

unfoldable pub stable_jitter : List ℕ → ℕ → ℕ
stable_jitter peer_id attempt = mix_all 0xcbf29ce484222325 (peer_id ++ le_bytes 4 attempt)

unfoldable pub reconnect_delay : ℕ → List ℕ → ℕ
reconnect_delay attempt peer_id =
    let base_ms = min (reconnect_backoff attempt) u64_max in
    let span = saturating_add u64_max (saturating_mul u64_max jitter_percent 2) 1 in
    let jitter = stable_jitter peer_id attempt % span in
    let pct = saturating_add u64_max (100 - jitter_percent) jitter in
    let jittered = saturating_mul u64_max base_ms pct / 100 in min jittered max_backoff

pow-pos : (k : ℕ) → 0 < 2 ^ k
pow-pos zero = omega arith
pow-pos (suc k) = omega (arith, pow-suc 2 k, pow-pos k)

backoff_bounds :
    (attempt : ℕ) → (250 ≤ reconnect_backoff attempt) × (reconnect_backoff attempt ≤ 30000)
unfolding reconnect_backoff saturating_mul
backoff_bounds attempt = omega (arith, pow-pos (min attempt 16))

backoff_grows : (attempt : ℕ) → reconnect_backoff attempt ≤ reconnect_backoff (suc attempt)
unfolding reconnect_backoff saturating_mul
backoff_grows attempt = elim (Bool-cases (ltb attempt 16)) [
  | inl below ↦
      (let next : min (suc attempt) 16 ≡ suc (min attempt 16) = ground (arith, below) in
        rw (next) (omega (arith, pow-suc 2 (min attempt 16))))
  | inr above ↦
      (let next : min (suc attempt) 16 ≡ min attempt 16 = ground (arith, above) in
        rw (next) (omega arith))
]

jitter_bounds :
    (base percent : ℕ)
    → 250 ≤ base
    → base ≤ 30000
    → 80 ≤ percent
    → percent ≤ 120
    → (200 ≤ base * percent / 100) × (base * 80 ≤ base * percent) × (base * percent ≤ base * 120)
jitter_bounds base percent lo hi l h =
    let least = mul-le-mul_left base l in
    let most = mul-le-mul_left base h in (omega (arith, least), least, most)

-- An attempt waits at least 200 milliseconds and at most 30 seconds, whatever the peer's id is; the
-- wait is within 20 percent of the backoff, which never falls from one attempt to the next.
pub reconnect_delay_bounds :
    (attempt : ℕ) (peer_id : List ℕ)
    → (200 ≤ reconnect_delay attempt peer_id)
      × (reconnect_delay attempt peer_id ≤ 30000)
      × (reconnect_backoff attempt * 80 ≤ reconnect_delay attempt peer_id * 100 + 99)
      × (reconnect_delay attempt peer_id * 100 ≤ reconnect_backoff attempt * 120)
      × (reconnect_backoff attempt ≤ reconnect_backoff (suc attempt))
unfolding reconnect_delay saturating_mul
reconnect_delay_bounds attempt peer_id =
    let base = reconnect_backoff attempt in
    let (lo, hi) = backoff_bounds attempt in
    let jitter = stable_jitter peer_id attempt % 41 in
    let small : jitter < 41 = mod-lt (stable_jitter peer_id attempt) (omega arith) in
    let (least, low, high) =
      jitter_bounds base (80 + jitter) lo hi (omega arith) (omega (arith, small)) in
    let same : min base u64_max ≡ base = omega (arith, hi) in
    let pct : min (80 + jitter) u64_max ≡ 80 + jitter = omega (arith, small) in
    let grows = backoff_grows attempt in rw (same, pct) (omega (arith, least, low, high, hi, grows))
