-- ===== src/Protocol/Enums.antt =====
-- crates/mouser-protocol/src/enums.rs: the scalar enums of the wire, and their discriminants.

pub data TransferReason : Type 0 where
  edge_cross hotkey ui_select local_reclaim unknown : TransferReason

pub data FocusKind : Type 0 where
  active standby disconnected input_blocked unknown : FocusKind

pub data ScrollUnit : Type 0 where
  detent120 logical_pixel unknown : ScrollUnit

pub data GoodbyeReason : Type 0 where
  shutdown sleep user_quit network_leave unknown : GoodbyeReason
