-- ===== src/Clipboard/Session/Pulling.antt =====
-- What a session that answers an offer with a pull waits for
-- (crates/mouser-engine/src/daemon/clipboard.rs).
use mouser.Prelude.{
  ℕ, ◌≡◌, refl, true, false, List, [], ◌∷◌, Option, none, some, Result, ok, err, ◌==◌, Bool-cases,
  inl, inr, All, All-get_elem?, arith,
}
use mouser.Core.DeviceId.{DeviceId, to_vec}
use mouser.Protocol.Codec.{IsLawful, from_cbor-to_cbor}
use mouser.Clipboard.Types.{Hash, pull_key, ClipboardError}
use mouser.Clipboard.Settings.{format_enabled, can_receive, prefer_native_suppresses}
use mouser.Clipboard.Reassembly.{new}
use mouser.Clipboard.Pulls.{Pending, new_pending, lookup}
use mouser.Clipboard.Engine.{
  ClipboardEngine, ClipboardEntry, ClipboardOffer, pull_hash, pull_best, offer_from, on_offer,
  parse_hash, parse_device_id, supersede_origin, best_entry,
}
use mouser.Clipboard.Pulls.Lookup.{lookup-insert}
use mouser.Clipboard.Engine.Choice.{IsChoice, best_entry-IsChoice}
use mouser.Clipboard.Session.{
  Codecs, ControlFrame, ClipboardOutput, frame, encode, type_clipboard_pull,
}
use mouser.Clipboard.Session.Handlers.{pull_of}
use mouser.Clipboard.Session.Feed.{IsOpen}

-- A session that waits for the content of one of the entries, by the pull that it sent.
module _ (cs : Codecs) (lawful : IsLawful cs.pull) (P : ClipboardEntry → Type 0)
    (origin : DeviceId) where
  pub record IsPulling (e : ClipboardEngine) (g : ControlFrame) : Type 0 where
    pub entry : ClipboardEntry
    pub of_offer : P entry
    pub hash : Hash
    pub named : parse_hash entry.hash ≡ ok hash
    pub same_frame : g ≡ record {
      ty = type_clipboard_pull;
      payload = lawful.bytes_of (record { hash = to_vec hash; format = entry.format });
    }
    pub pull : Pending
    pub found : lookup (pull_key origin entry.format hash) e.pending.entries ≡ some pull
    pub format : pull.key.format ≡ entry.format
    pub fresh : pull.reasm ≡ new entry.format hash entry.size
    pub gates : IsOpen e pull

  pull_hash-IsPulling :
      (sha256 : List ℕ → Hash) (e : ClipboardEngine) (os : ℕ) (entry : ClipboardEntry)
      (g : ControlFrame) (r : Result Hash ClipboardError)
      → P entry
      → parse_hash entry.hash ≡ r
      → can_receive e.settings ≡ true
      → format_enabled e.settings entry.format ≡ true
      → prefer_native_suppresses e.settings e.local_os os ≡ false
      → pull_of sha256 cs (pull_hash e origin os entry r).1 ≡ frame g ∷ []
      → IsPulling (pull_hash e origin os entry r).0 g
  unfolding pull_hash new_pending encode
  pull_hash-IsPulling sha256 e os entry g (err x) of_offer named can enabled native h = cc
  pull_hash-IsPulling sha256 e os entry g (ok hash) of_offer named can enabled native h =
      let (written, back) =
        from_cbor-to_cbor lawful (record { hash = to_vec hash; format = entry.format }) in
      record {
        entry = entry;
        of_offer = of_offer;
        hash = hash;
        named = named;
        same_frame = same_of (rw (written) at h);
        pull = _;
        found =
            lookup-insert e.pending
              (new_pending (pull_key origin entry.format hash) entry.size os e.now_tick);
        format = refl;
        fresh = refl;
        gates = (can, enabled, native);
      }
    where
      same_of :
          {x y : ControlFrame}
          → (◌≡◌ {A = List ClipboardOutput} (frame x ∷ []) (frame y ∷ []))
          → y ≡ x
      same_of q = cc

  module _ (sha256 : List ℕ → Hash) (os : ℕ) where
    pull_best-IsPulling :
        (e : ClipboardEngine) (g : ControlFrame) (es : List ClipboardEntry)
        (o : Option (ℕ × ClipboardEntry))
        → All P es
        → IsChoice e.settings es o
        → can_receive e.settings ≡ true
        → prefer_native_suppresses e.settings e.local_os os ≡ false
        → pull_of sha256 cs (pull_best e origin os o).1 ≡ frame g ∷ []
        → IsPulling (pull_best e origin os o).0 g
    unfolding pull_best IsChoice
    pull_best-IsPulling e g es none hs choice can native h = cc
    pull_best-IsPulling e g es (some (r, entry)) hs ((i, at_i), eligible, rank, all) can native h =
        pull_hash-IsPulling sha256 e os entry g (parse_hash entry.hash)
          (All-get_elem? P es i hs at_i) refl can (ground (arith, eligible)) native h

    offer_from-IsPulling :
        (e : ClipboardEngine) (g : ControlFrame) (offer : ClipboardOffer)
        → All P offer.entries
        → can_receive e.settings ≡ true
        → pull_of sha256 cs (offer_from e offer os (ok origin)).1 ≡ frame g ∷ []
        → IsPulling (offer_from e offer os (ok origin)).0 g
    unfolding offer_from supersede_origin
    offer_from-IsPulling e g offer hs can h = elim (Bool-cases (origin == e.device_id)) [
      | inl own ↦
          (let q : ◌≡◌ {A = List ClipboardOutput} [] (frame g ∷ []) = rw (own) at h in absurd (cc))
      | inr peer ↦ elim (Bool-cases (prefer_native_suppresses e.settings e.local_os os)) [
        | inl yes_native ↦
            (let q : ◌≡◌ {A = List ClipboardOutput} [] (frame g ∷ []) =
                rw (peer, yes_native) at h in
              absurd (cc))
        | inr native ↦
            rw (peer, native)
              (pull_best-IsPulling (supersede_origin e origin offer) g offer.entries
                (best_entry e.settings offer.entries) hs
                (best_entry-IsChoice e.settings offer.entries) can native (rw (peer, native) at h))
      ]
    ]

    pub on_offer-IsPulling :
        (e : ClipboardEngine) (g : ControlFrame) (offer : ClipboardOffer)
        → All P offer.entries
        → parse_device_id offer.origin ≡ ok origin
        → pull_of sha256 cs (on_offer e offer os).1 ≡ frame g ∷ []
        → IsPulling (on_offer e offer os).0 g
    unfolding on_offer
    on_offer-IsPulling e g offer hs named h = elim (Bool-cases (can_receive e.settings)) [
      | inl can ↦ rw (can, named) (offer_from-IsPulling e g offer hs can (rw (can, named) at h))
      | inr cannot ↦
          (let q : ◌≡◌ {A = List ClipboardOutput} [] (frame g ∷ []) = rw (cannot) at h in
            absurd (cc))
    ]
