-- ===== src/Daemon/Tests.antt =====
-- The waits between attempts for a concrete peer.
use mouser.Prelude.{ℕ, ◌+◌, ◌*◌, ◌≤◌, List, [], ◌∷◌}
use mouser.Daemon.Reconnect.{reconnect_backoff, reconnect_delay, reconnect_delay_bounds}

abbrev peer : List ℕ
peer = 1 ∷ 2 ∷ 3 ∷ []

reconnect_delay_bounds_example :
    (200 ≤ reconnect_delay 4 peer)
    × (reconnect_delay 4 peer ≤ 30000)
    × (reconnect_backoff 4 * 80 ≤ reconnect_delay 4 peer * 100 + 99)
    × (reconnect_delay 4 peer * 100 ≤ reconnect_backoff 4 * 120)
    × (reconnect_backoff 4 ≤ reconnect_backoff 5)
reconnect_delay_bounds_example = reconnect_delay_bounds 4 peer
