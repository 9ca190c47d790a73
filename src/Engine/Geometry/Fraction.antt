-- ===== src/Engine/Geometry/Fraction.antt =====
-- crates/mouser-engine/src/core.rs: where a position of one axis lands on the other screen.
use mouser.Prelude.{ℕ, min, ◌+◌, ◌*◌, ◌/◌, ◌^◌, ◌≤◌, ◌<◌, ◌≡◌, refl, arith}
use mouser.Prelude.Int.{
  ℤ, pos, pos_part, ◌≤ℤ◌, IsI32, max_ℤ, min_ℤ, wrap_i32_self, saturating_sub_i32,
}
use native.Mathlib.Nat.{
  mul-add-div, div-eq_of_lt, le-div_iff_mul-le, div-mul-le_self, mul-le-mul_right, zero-mul,
}
use mouser.Engine.Geometry.{map_axis_fraction, max_index}

-- The position is scaled and rounded to the nearest, half up.
unfoldable pub scale : ℕ → ℕ → ℕ → ℕ
scale p src dst = (p * dst + src / 2) / src

scale_mono : (p q src dst : ℕ) → 0 < src → p ≤ q → scale p src dst ≤ scale q src dst
unfolding scale
scale_mono p q src dst h le = (le-div_iff_mul-le h).1 (
    omega (arith, div-mul-le_self (p * dst + src / 2) src, mul-le-mul_right {m = p} {n = q} dst le))

scale_top : (src dst : ℕ) → 0 < src → scale src src dst ≡ dst
unfolding scale
scale_top src dst h =
    omega
      (arith, mul-add-div h dst (src / 2), div-eq_of_lt {n = src / 2} {m = src} (omega (arith, h)))

scale_le : (p src dst : ℕ) → 0 < src → p ≤ src → scale p src dst ≤ dst
scale_le p src dst h le = omega (arith, scale_mono p src src dst h le, scale_top src dst h)

-- The positions of the source's axis.
abbrev pub src_max : ℤ → ℕ
src_max src_len = pos_part (max_ℤ (saturating_sub_i32 src_len (pos 1)) (pos 1))

abbrev pub dst_max : ℤ → ℕ
dst_max dst_len = pos_part (max_index dst_len)

abbrev pub on_axis : ℤ → ℤ → ℕ
on_axis position src_len = min (pos_part position) (src_max src_len)

part-clamp :
    (p m : ℤ) → pos 1 ≤ℤ m → pos_part (min_ℤ (max_ℤ p (pos 0)) m) ≡ min (pos_part p) (pos_part m)
unfolding min_ℤ max_ℤ
part-clamp p m h = ground arith

max_index-IsI32 : (len : ℤ) → (max_index len ≡ pos (dst_max len)) × (dst_max len < 2 ^ 31)
unfolding max_index saturating_sub_i32 max_ℤ
max_index-IsI32 len = ground arith

one-le-src_max : (len : ℤ) → pos 1 ≤ℤ max_ℤ (saturating_sub_i32 len (pos 1)) (pos 1)
unfolding max_ℤ
one-le-src_max len = ground arith

src_max-pos : (len : ℤ) → 0 < src_max len
unfolding max_ℤ
src_max-pos len = ground arith

on_axis_le : (p s : ℤ) → on_axis p s ≤ src_max s
on_axis_le p s = omega arith

small-IsI32 : (n : ℕ) → n < 2 ^ 31 → IsI32 (pos n)
small-IsI32 n h = ground arith

map_axis_fraction_lem :
    (p s d : ℤ) → map_axis_fraction p s d ≡ pos (scale (on_axis p s) (src_max s) (dst_max d))
unfolding map_axis_fraction scale max_ℤ
map_axis_fraction_lem p s d = rw (part-clamp p _ (one-le-src_max s)) (
    wrap_i32_self _ (
      small-IsI32 _ (
        omega (
          arith,
          scale_le (on_axis p s) (src_max s) (dst_max d) (src_max-pos s) (on_axis_le p s),
          (max_index-IsI32 d).1,
        ))))

on_axis_mono : (p q s : ℤ) → p ≤ℤ q → on_axis p s ≤ on_axis q s
on_axis_mono p q s h = ground arith

on_axis_top : (s : ℤ) → on_axis (pos (src_max s)) s ≡ src_max s
on_axis_top s = omega arith

on_axis_zero : (s : ℤ) → on_axis (pos 0) s ≡ 0
on_axis_zero s = omega arith

scale_zero : (src dst : ℕ) → 0 < src → scale 0 src dst ≡ 0
unfolding scale
scale_zero src dst h = div-eq_of_lt (omega (arith, h, zero-mul dst))

-- A position on one axis lands on the other one, whatever the position and the two lengths are.
pub map_axis_fraction_bounds :
    (p s d : ℤ) → (pos 0 ≤ℤ map_axis_fraction p s d) × (map_axis_fraction p s d ≤ℤ max_index d)
map_axis_fraction_bounds p s d =
    rw (map_axis_fraction_lem p s d, (max_index-IsI32 d).0)
      (
        omega arith,
        omega (
          arith,
          scale_le (on_axis p s) (src_max s) (dst_max d) (src_max-pos s) (on_axis_le p s),
        ),
      )

-- The order of positions is kept.
map_axis_fraction_order :
    (p q s d : ℤ) → p ≤ℤ q → map_axis_fraction p s d ≤ℤ map_axis_fraction q s d
map_axis_fraction_order p q s d h =
    rw (map_axis_fraction_lem p s d, map_axis_fraction_lem q s d)
      (omega (
        arith,
        scale_mono (on_axis p s) (on_axis q s) (src_max s) (dst_max d) (src_max-pos s)
            (on_axis_mono p q s h),
      ))

-- The two ends of an axis land on the ends of the other one.
map_axis_fraction_ends :
    (s d : ℤ)
    → (map_axis_fraction (pos 0) s d ≡ pos 0)
      × (map_axis_fraction (pos (src_max s)) s d ≡ max_index d)
map_axis_fraction_ends s d = (
  rw
      (
        map_axis_fraction_lem (pos 0) s d,
        on_axis_zero s,
        scale_zero (src_max s) (dst_max d) (src_max-pos s),
      )
      refl,
  rw
      (
        map_axis_fraction_lem (pos (src_max s)) s d,
        (max_index-IsI32 d).0,
        on_axis_top s,
        scale_top (src_max s) (dst_max d) (src_max-pos s),
      )
      refl,
)
