-- ===== src/Clipboard/Session/Delivery.antt =====
-- Two sessions: what one copies, the other pastes (crates/mouser-engine/src/daemon/clipboard.rs).
use mouser.Prelude.{
  ℕ, ◌^◌, ◌≤◌, ◌<◌, ◌≡◌, sym, ap, ◌∙◌, Bool, true, ◌||◌, List, [], ◌∷◌, some, ok, length,
}
use mouser.Prelude.Sat.{u64_max}
use mouser.Core.DeviceId.{DeviceId, to_vec}
use mouser.Clipboard.Pulls.{lookup}
use mouser.Clipboard.Reassembly.{new}
use mouser.Clipboard.Types.{pull_key, Hash, ClipFormat}
use mouser.Clipboard.Settings.{ClipboardSettings, format_enabled, can_offer}
use mouser.Clipboard.Canonical.{canonical, content_hash}
use mouser.Clipboard.Engine.{ClipboardEntry, parse_hash}
use mouser.Clipboard.Offer.{LocalRepr, entry_of}
use mouser.Clipboard.Engine.Serve.{transport_for}
use mouser.Clipboard.Session.{
  control_entry, is_control, PlatformFormat, ClipboardSession, Codecs, ControlFrame,
  ClipboardOutput, Clipboard, frame, supported_entry, to_platform,
}
use mouser.Clipboard.Session.Handlers.{on_control, local_offer, write_of}
use mouser.Clipboard.Session.Chunks.{AreLawful, parse_hash-to_vec}
use mouser.Clipboard.Session.Arrival.{take_outputs, answer_lem}
use mouser.Clipboard.Session.Entries.{IsSent, local_offer_lem}
use mouser.Clipboard.Session.Pulling.{IsPulling}
use mouser.Clipboard.Session.Exchange.{
  offer_frame, pull_frame, on_control-IsPulling, on_control-pull_frame,
}

-- The pull, answered by one session and taken by the other, ends in a single write of the canonical
-- bytes of something that the local clipboard of the first one holds, in the same format.
pub record IsPasted (sha256 : List ℕ → Hash) (cs : Codecs) (a b : ClipboardSession)
    (clipboard : Clipboard) (g : ControlFrame) : Type 0 where
  pub platform : PlatformFormat
  pub wire : ClipFormat
  pub bytes : List ℕ
  pub held : clipboard platform ≡ some bytes
  pub known : to_platform wire ≡ some platform
  pub enabled : format_enabled a.engine.settings wire ≡ true
  pub written :
      (take_outputs sha256 cs b (on_control sha256 cs a g).1).1
      ≡ record { format = platform; bytes = canonical wire bytes } ∷ []

module _ (sha256 : List ℕ → Hash) (cs : Codecs) (lawful : AreLawful cs) where
  same_hash : (x y : Hash) → x < 256 ^ 32 → parse_hash (to_vec x) ≡ ok y → y ≡ x
  same_hash x y range h = let q = parse_hash-to_vec x range in cc

  way_lem :
      (be : Bool) (rep : LocalRepr) (entry : ClipboardEntry)
      → entry ≡ entry_of sha256 rep
      → supported_entry be entry ≡ true
      → (be || is_control (transport_for rep.format (length (canonical rep.format rep.bytes))))
        ≡ true
  unfolding supported_entry control_entry entry_of
  way_lem be rep entry same h = rw (same) at h

  -- What the other device writes of a representation.
  abbrev pasted : LocalRepr → List ℕ
  pasted rep = canonical rep.format rep.bytes

  module _ (a b : ClipboardSession) (clipboard : Clipboard) (settings : ClipboardSettings)
      (be : Bool) (g : ControlFrame) (range : (bytes : List ℕ) → sha256 bytes < 256 ^ 32)
      (small : (x : PlatformFormat) (bytes : List ℕ) (format : ClipFormat)
        → clipboard x ≡ some bytes
        → length (canonical format bytes) ≤ u64_max) where
    -- What the pull is, with the entry of the offer replaced by the representation it stands for.
    standing_lem :
        (q : IsPulling cs lawful.pull
          (IsSent sha256 clipboard settings a.source be)
          b.peer_id
          b.engine
          g)
        → (q.entry.format ≡ q.of_offer.0.rep.format)
          × (g
              ≡ pull_frame sha256 cs lawful
                  (sha256 (pasted q.of_offer.0.rep))
                  q.of_offer.0.rep.format)
          × (lookup
                (pull_key b.peer_id q.of_offer.0.rep.format (sha256 (pasted q.of_offer.0.rep)))
                b.engine.pending.entries
              ≡ some q.pull)
          × (q.pull.reasm
              ≡ new q.of_offer.0.rep.format
                  (sha256 (pasted q.of_offer.0.rep))
                  (length (pasted q.of_offer.0.rep)))
    unfolding content_hash entry_of
    standing_lem q =
        let own = q.of_offer.0 in
        let rep = own.rep in
        let bytes = pasted rep in
        let of_format : q.entry.format ≡ rep.format =
          ap (λ (x : ClipboardEntry). x.format) own.of_rep in
        let of_size : q.entry.size ≡ length bytes =
          ap (λ (x : ClipboardEntry). x.size) own.of_rep in
        let of_hash : q.hash ≡ sha256 bytes =
          same_hash (sha256 bytes) q.hash (range bytes)
            (ap (λ (x : ClipboardEntry). parse_hash x.hash) (sym own.of_rep) ∙ q.named) in
        let pulled : g ≡ pull_frame sha256 cs lawful (sha256 bytes) rep.format =
          q.same_frame
          ∙ ap (λ (h : Hash). pull_frame sha256 cs lawful h q.entry.format) of_hash
          ∙ ap (pull_frame sha256 cs lawful (sha256 bytes)) of_format in
        let found : lookup (pull_key b.peer_id rep.format (sha256 bytes)) b.engine.pending.entries
            ≡ some q.pull =
          ap
            (λ (f : ClipFormat).
              lookup (pull_key b.peer_id f (sha256 bytes)) b.engine.pending.entries)
            (sym of_format)
          ∙ ap (λ (h : Hash). lookup (pull_key b.peer_id q.entry.format h) b.engine.pending.entries)
              (sym of_hash)
          ∙ q.found in
        let fresh : q.pull.reasm ≡ new rep.format (sha256 bytes) (length bytes) =
          q.fresh
          ∙ ap (λ (f : ClipFormat). new f q.hash q.entry.size) of_format
          ∙ ap (λ (h : Hash). new rep.format h q.entry.size) of_hash
          ∙ ap (new rep.format (sha256 bytes)) of_size in
        (of_format, pulled, found, fresh)

    -- The pull ends in a write of what the representation stands for.
    paste_lem :
        can_offer a.engine.settings ≡ true
        → a.engine.settings ≡ settings
        → a.bulk_enabled ≡ be
        → IsPulling cs lawful.pull
            (IsSent sha256 clipboard settings a.source be)
            b.peer_id
            b.engine
            g
        → IsPasted sha256 cs a b clipboard g
    unfolding content_hash
    paste_lem can same_settings same_be q =
        let (own, way) = q.of_offer in
        let rep = own.rep in
        let held = own.is_held in
        let bytes = canonical rep.format rep.bytes in
        let (of_format, pulled, found, fresh) = standing_lem q in
        let shared : format_enabled a.engine.settings rep.format ≡ true =
          ap (λ (x : ClipboardSettings). format_enabled x rep.format) same_settings
          ∙ held.enabled in
        let answer =
          ap (λ (x : ControlFrame). (on_control sha256 cs a x).1) pulled
          ∙ on_control-pull_frame sha256 cs lawful a (sha256 bytes) rep.format bytes (range bytes)
              can shared held.kept in
        let way' : (a.bulk_enabled || is_control (transport_for rep.format (length bytes))) ≡ true =
          ap (λ (x : Bool). x || is_control (transport_for rep.format (length bytes))) same_be
          ∙ way_lem be rep q.entry own.of_rep way in
        record {
          platform = held.platform;
          wire = rep.format;
          bytes = rep.bytes;
          held = held.held;
          known = held.listed;
          enabled = shared;
          written =
              ap (λ (out : List ClipboardOutput). (take_outputs sha256 cs b out).1) answer
              ∙ answer_lem sha256 cs lawful.content a.bulk_enabled b rep.format bytes q.pull
                  (range bytes) (small held.platform rep.bytes rep.format held.held) found
                  (q.format ∙ of_format) fresh q.gates way'
              ∙ ap (write_of (record { format = rep.format; bytes = bytes })) held.listed;
        }

  -- Whatever the two sessions met before: if one offers a change of its local clipboard, and the other
  -- answers the offer with a pull, then the answer to the pull, on the control stream or in chunks,
  -- ends at the other in a single write: of the canonical bytes of something that the local clipboard
  -- of the first one holds, as its format there, which is a shared one. Hashes and the device's id have
  -- 32 bytes, sizes 64 bits, and the serializers read back what they write.
  pub local_offer-IsPasted :
      (a b : ClipboardSession) (clipboard : Clipboard) (f g : ControlFrame)
      → ((bytes : List ℕ) → sha256 bytes < 256 ^ 32)
      → ((x : PlatformFormat) (bytes : List ℕ) (format : ClipFormat)
          → clipboard x ≡ some bytes
          → length (canonical format bytes) ≤ u64_max)
      → a.engine.device_id ≡ b.peer_id
      → b.peer_id < 256 ^ 32
      → (local_offer sha256 cs a clipboard).1 ≡ some f
      → (on_control sha256 cs b f).1 ≡ frame g ∷ []
      → IsPasted sha256 cs
          (local_offer sha256 cs a clipboard).0
          (on_control sha256 cs b f).0
          clipboard
          g
  local_offer-IsPasted a b clipboard f g range small peer id offered pulled =
      let a' = (local_offer sha256 cs a clipboard).0 in
      let b' = (on_control sha256 cs b f).0 in
      let o = local_offer_lem sha256 cs lawful.offer a clipboard f offered in
      let sent : f ≡ offer_frame sha256 cs lawful b.peer_id o.entries =
        o.same_frame ∙ ap (λ (x : DeviceId). offer_frame sha256 cs lawful x o.entries) peer in
      let P : ClipboardEntry → Type 0 =
        IsSent sha256 clipboard a.engine.settings a'.source a.bulk_enabled in
      let (q, same_peer) =
        on_control-IsPulling sha256 cs lawful P b.peer_id b g o.entries o.sent id
          (rw (sent) at pulled) in
      let waits : IsPulling cs lawful.pull P b'.peer_id b'.engine g = rw (sent, same_peer) q in
      paste_lem a' b' clipboard a.engine.settings a.bulk_enabled g range small
        (ap can_offer o.same_settings ∙ o.can) o.same_settings o.same_bulk waits
