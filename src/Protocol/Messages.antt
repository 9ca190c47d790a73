-- ===== src/Protocol/Messages.antt =====
-- crates/mouser-protocol/src/messages.rs and datagram.rs: the messages that the engine exchanges,
-- and their type numbers. A byte string is a list of numbers; an `i32` is an integer.
use Prim.Native.String.{String}
use mouser.Prelude.{ℕ, Bool, List, Option}
use mouser.Prelude.Int.{ℤ}
use mouser.Protocol.Enums.{TransferReason, GoodbyeReason, ScrollUnit}

abbrev pub type_ping : ℕ
type_ping = 0x05

abbrev pub type_pong : ℕ
type_pong = 0x06

abbrev pub type_heartbeat : ℕ
type_heartbeat = 0x07

abbrev pub type_goodbye : ℕ
type_goodbye = 0x08

abbrev pub type_ownership_transfer : ℕ
type_ownership_transfer = 0x30

abbrev pub type_ownership_ack : ℕ
type_ownership_ack = 0x31

abbrev pub type_key_event : ℕ
type_key_event = 0x40

abbrev pub type_pointer_button : ℕ
type_pointer_button = 0x41

abbrev pub type_scroll : ℕ
type_scroll = 0x42

pub record Ping : Type 0 where
  pub id : ℕ

pub record Pong : Type 0 where
  pub id : ℕ

pub record Heartbeat : Type 0 where
  pub seq : ℕ

pub record Goodbye : Type 0 where
  pub reason : GoodbyeReason

pub record OwnershipTransfer : Type 0 where
  pub to : List ℕ
  pub owner_epoch : ℕ
  pub layout_rev : ℕ
  pub reason : TransferReason

pub record OwnershipAck : Type 0 where
  pub owner_epoch : ℕ
  pub accepted : Bool
  pub reason : Option String

pub record KeyEvent : Type 0 where
  pub usage : ℕ
  pub down : Bool
  pub mods : ℕ
  pub owner_epoch : ℕ
  pub ctr : ℕ

pub record PointerButton : Type 0 where
  pub button : ℕ
  pub down : Bool
  pub owner_epoch : ℕ
  pub ctr : ℕ

pub record Scroll : Type 0 where
  pub dx : ℤ
  pub dy : ℤ
  pub unit : ScrollUnit
  pub owner_epoch : ℕ
  pub ctr : ℕ

pub record PointerMotion : Type 0 where
  pub owner_epoch : ℕ
  pub seq : ℕ
  pub display_id : ℕ
  pub x : ℤ
  pub y : ℤ

pub record PointerMotionRel : Type 0 where
  pub owner_epoch : ℕ
  pub seq : ℕ
  pub dx_acc : ℤ
  pub dy_acc : ℤ

pub data Datagram : Type 0 where
  motion : PointerMotion → Datagram
  motion_rel : PointerMotionRel → Datagram
  unknown : ℕ → Datagram
