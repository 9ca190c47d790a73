-- ===== src/Engine/Geometry.antt =====
-- crates/mouser-engine/src/core.rs: the tests on positions and deltas by which the cursor leaves a
-- screen and comes back. Every value is an `i32`; what overflows wraps, as in a release build.
pub mod Fraction
use mouser.Prelude.{ℕ, ◌+◌, ◌*◌, ◌/◌, Bool, true, false, ◌&&◌, if◌then◌else◌}
use mouser.Prelude.Int.{
  ℤ, pos, negsuc, pos_part, ◌+ℤ◌, ◌-ℤ◌, ltb_ℤ, leb_ℤ, max_ℤ, min_ℤ, saturating_add_i32,
  saturating_sub_i32, wrap_i32,
}
use mouser.Engine.Types.{Edge, left, right, top, bottom, EdgeLayout}

abbrev pub edge_rearm_margin : ℤ
edge_rearm_margin = pos 8

abbrev pub escape_min_travel : ℤ
escape_min_travel = pos 64

-- `len.saturating_sub(1).max(0)`.
unfoldable pub max_index : ℤ → ℤ
unfolding saturating_sub_i32 max_ℤ
max_index len = max_ℤ (saturating_sub_i32 len (pos 1)) (pos 0)

unfoldable pub clamp : ℤ → ℤ → ℤ → ℤ
unfolding min_ℤ max_ℤ
clamp v lo hi = min_ℤ (max_ℤ v lo) (max_ℤ hi lo)

-- The factors are never negative, so that the products and quotients are those of the numbers;
-- they are below 2 ^ 62, and fit the `i64` in which the source computes them.
unfoldable pub map_axis_fraction : ℤ → ℤ → ℤ → ℤ
map_axis_fraction position src_len dst_len =
    let src_max = max_ℤ (saturating_sub_i32 src_len (pos 1)) (pos 1) in
    let dst_max = max_index dst_len in
    let p = min_ℤ (max_ℤ position (pos 0)) src_max in
    wrap_i32 (pos ((pos_part p * pos_part dst_max + pos_part src_max / 2) / pos_part src_max))

-- The test by which an outward motion crosses one edge.
abbrev crosses_high : ℤ → ℤ → ℤ → Bool
crosses_high v d max_v =
    leb_ℤ (saturating_sub_i32 max_v edge_rearm_margin) v && leb_ℤ max_v (saturating_add_i32 v d)

abbrev crosses_low : ℤ → ℤ → Bool
crosses_low v d = leb_ℤ v edge_rearm_margin && leb_ℤ (saturating_add_i32 v d) (pos 0)

module _ (l : EdgeLayout) where
  unfoldable pub crosses_out : ℤ → ℤ → ℤ → ℤ → Bool
  unfolding max_index saturating_sub_i32 saturating_add_i32
  crosses_out x y dx dy = elim l.edge [
    | right ↦ crosses_high x dx (max_index l.width)
    | left ↦ crosses_low x dx
    | bottom ↦ crosses_high y dy (max_index l.height)
    | top ↦ crosses_low y dy
  ]

  unfoldable pub local_left_cross_edge : ℤ → ℤ → Bool
  unfolding max_index saturating_sub_i32
  local_left_cross_edge x y = elim l.edge [
    | right ↦ ltb_ℤ x (saturating_sub_i32 (max_index l.width) edge_rearm_margin)
    | left ↦ ltb_ℤ edge_rearm_margin x
    | bottom ↦ ltb_ℤ y (saturating_sub_i32 (max_index l.height) edge_rearm_margin)
    | top ↦ ltb_ℤ edge_rearm_margin y
  ]

  unfoldable pub local_escape_back : ℤ → ℤ → ℤ → ℤ → Bool
  unfolding max_index saturating_sub_i32
  local_escape_back x y dx dy = elim l.edge [
    | right ↦ leb_ℤ x edge_rearm_margin && ltb_ℤ dx (pos 0)
    | left ↦ leb_ℤ (saturating_sub_i32 (max_index l.width) edge_rearm_margin) x && ltb_ℤ (pos 0) dx
    | bottom ↦ leb_ℤ y edge_rearm_margin && ltb_ℤ dy (pos 0)
    | top ↦ leb_ℤ (saturating_sub_i32 (max_index l.height) edge_rearm_margin) y && ltb_ℤ (pos 0) dy
  ]

  unfoldable pub homeward_delta : ℤ → ℤ → ℤ
  unfolding wrap_i32 ◌-ℤ◌
  homeward_delta dx dy = elim l.edge [
    | left ↦ dx
    | right ↦ wrap_i32 (pos 0 -ℤ dx)
    | bottom ↦ wrap_i32 (pos 0 -ℤ dy)
    | top ↦ dy
  ]

  unfoldable pub escape_threshold : ℤ
  unfolding max_ℤ
  escape_threshold = elim l.edge [
    | left ↦ max_ℤ l.width escape_min_travel
    | right ↦ max_ℤ l.width escape_min_travel
    | top ↦ max_ℤ l.height escape_min_travel
    | bottom ↦ max_ℤ l.height escape_min_travel
  ]

  -- The last two arguments of each are the peer's cursor.
  unfoldable pub crosses_back : ℤ → ℤ → ℤ → ℤ → Bool
  unfolding saturating_sub_i32
  crosses_back dx dy peer_x peer_y = elim l.edge [
    | right ↦ leb_ℤ peer_x (pos 0) && ltb_ℤ dx (pos 0)
    | left ↦ leb_ℤ (saturating_sub_i32 l.peer_width (pos 1)) peer_x && ltb_ℤ (pos 0) dx
    | bottom ↦ leb_ℤ peer_y (pos 0) && ltb_ℤ dy (pos 0)
    | top ↦ leb_ℤ (saturating_sub_i32 l.peer_height (pos 1)) peer_y && ltb_ℤ (pos 0) dy
  ]

  unfoldable pub peer_left_entry_edge : ℤ → ℤ → Bool
  unfolding max_index
  peer_left_entry_edge peer_x peer_y = elim l.edge [
    | right ↦ ltb_ℤ (pos 0) peer_x
    | left ↦ ltb_ℤ peer_x (max_index l.peer_width)
    | bottom ↦ ltb_ℤ (pos 0) peer_y
    | top ↦ ltb_ℤ peer_y (max_index l.peer_height)
  ]

  -- Where the peer's cursor starts after a crossing at the local position.
  unfoldable pub entry_point : ℤ → ℤ → ℤ × ℤ
  entry_point x y =
      let max_x = max_index l.peer_width in
      let max_y = max_index l.peer_height in
      let across_y = map_axis_fraction y l.height l.peer_height in
      let across_x = map_axis_fraction x l.width l.peer_width in
      elim l.edge [
        | right ↦ (pos 0, across_y)
        | left ↦ (max_x, across_y)
        | bottom ↦ (across_x, pos 0)
        | top ↦ (across_x, max_y)
      ]

  -- Where the local cursor is put on the way back, from the peer's cursor.
  unfoldable pub return_point : ℤ → ℤ → ℤ × ℤ
  return_point peer_x peer_y =
      let max_x = max_index l.width in
      let max_y = max_index l.height in
      let local_y = map_axis_fraction peer_y l.peer_height l.height in
      let local_x = map_axis_fraction peer_x l.peer_width l.width in
      elim l.edge [
        | left ↦ (pos 0, local_y)
        | right ↦ (max_x, local_y)
        | top ↦ (local_x, pos 0)
        | bottom ↦ (local_x, max_y)
      ]
