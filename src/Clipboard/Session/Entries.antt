-- ===== src/Clipboard/Session/Entries.antt =====
-- What a device's own offer says (crates/mouser-engine/src/daemon/clipboard.rs).
use mouser.Prelude.{
  ℕ, ◌≡◌, refl, sym, Bool, true, ◌⊎◌, List, [], ◌∷◌, none, some, Bool-cases, inl, inr, All, arith,
  if_split, some-inj,
}
use mouser.Core.DeviceId.{DeviceId, to_vec}
use mouser.Protocol.Codec.{IsLawful, from_cbor-to_cbor}
use mouser.Clipboard.Types.{Hash}
use mouser.Clipboard.Settings.{ClipboardSettings, can_offer}
use mouser.Clipboard.Applied.{AppliedMarker}
use mouser.Clipboard.Engine.{ClipboardEntry}
use mouser.Clipboard.Offer.{
  LocalRepr, Content, entry_of, offer_rep, offer_reps, offer_of, on_local_change,
}
use mouser.Clipboard.Session.{
  ClipboardSession, Codecs, ControlFrame, formats, Clipboard, supported_entry, supported_entries,
  supported_offer, offer_with, encode, type_clipboard_offer,
}
use mouser.Clipboard.Session.Handlers.{
  snapshot_formats, snapshot_local, offered, sent_offer, local_offer,
}
use mouser.Clipboard.Session.Offered.{IsHeld, formats-AllDistinct, snapshot_formats-AllHeld}

module _ (sha256 : List ℕ → Hash) (clipboard : Clipboard) (settings : ClipboardSettings)
    (source : List Content) where
  -- The entry of a representation that is held.
  pub record IsOwn (entry : ClipboardEntry) : Type 0 where
    pub rep : LocalRepr
    pub of_rep : entry ≡ entry_of sha256 rep
    pub is_held : IsHeld sha256 clipboard settings formats source rep

  offer_rep_entry :
      (applied : List AppliedMarker) (rep : LocalRepr)
      → ((offer_rep sha256 settings applied rep).1 ≡ none)
        ⊎ ((offer_rep sha256 settings applied rep).1 ≡ some (entry_of sha256 rep))
  unfolding offer_rep
  offer_rep_entry applied rep = ground arith

  offer_reps-IsOwn :
      (applied : List AppliedMarker) (reps : List LocalRepr)
      → All (IsHeld sha256 clipboard settings formats source) reps
      → All IsOwn (offer_reps sha256 settings applied reps).1
  unfolding offer_reps
  offer_reps-IsOwn applied [] hs = tt
  offer_reps-IsOwn applied (rep ∷ reps) (h, hs) =
      let ih = offer_reps-IsOwn (offer_rep sha256 settings applied rep).0 reps hs in
      elim (offer_rep_entry applied rep) [
        | inl skipped ↦ rw (skipped) ih
        | inr taken ↦ rw (taken) (record { rep = rep; of_rep = refl; is_held = h }, ih)
      ]

  -- An entry that is held and that the planes can carry.
  abbrev pub IsSent : Bool → ClipboardEntry → Type 0
  IsSent be entry = IsOwn entry × (supported_entry be entry ≡ true)

  supported-IsSent :
      (be : Bool) (es : List ClipboardEntry)
      → All IsOwn es
      → All (IsSent be) (supported_entries be es)
  unfolding supported_entries
  supported-IsSent be [] hs = tt
  supported-IsSent be (e ∷ es) (h, hs) =
      if_split (All (IsSent be)) (supported_entry be e) (λ t. ((h, t), supported-IsSent be es hs))
        (λ _. supported-IsSent be es hs)

  module _ (cs : Codecs) (lawful : IsLawful cs.offer) where
    abbrev offer_frame : DeviceId → List ClipboardEntry → ControlFrame
    offer_frame id es = record {
      ty = type_clipboard_offer;
      payload = lawful.bytes_of (record { entries = es; origin = to_vec id });
    }

    sent_lem :
        (id : DeviceId) (be : Bool) (es : List ClipboardEntry) (f : ControlFrame)
        → All (IsSent be) es
        → sent_offer sha256 cs (offer_with es (to_vec id)) ≡ some f
        → (es' : List ClipboardEntry) × (f ≡ offer_frame id es') × All (IsSent be) es'
    unfolding encode
    sent_lem id be [] f hs h = cc
    sent_lem id be (e ∷ es) f hs h =
        let (written, back) =
          from_cbor-to_cbor lawful (record { entries = e ∷ es; origin = to_vec id }) in
        (e ∷ es, sym (some-inj (rw (written) at h)), hs)

    -- The frame of an offer carries entries that are held.
    pub offered_lem :
        (id : DeviceId) (be : Bool) (es : List ClipboardEntry) (f : ControlFrame)
        → All IsOwn es
        → offered sha256 cs be (offer_of id es) ≡ some f
        → (es' : List ClipboardEntry) × (f ≡ offer_frame id es') × All (IsSent be) es'
    unfolding supported_offer
    offered_lem id be [] f hs h = cc
    offered_lem id be (e ∷ es) f hs h =
        sent_lem id be (supported_entries be (e ∷ es)) f (supported-IsSent be (e ∷ es) hs) h

module _ (sha256 : List ℕ → Hash) (cs : Codecs) (lawful : IsLawful cs.offer) where
  -- What a local change that is offered comes to.
  pub record IsOffered (s s' : ClipboardSession) (clipboard : Clipboard) (f : ControlFrame)
      : Type 0 where
    pub entries : List ClipboardEntry
    pub same_frame : f ≡ record {
      ty = type_clipboard_offer;
      payload = lawful.bytes_of (record { entries = entries; origin = to_vec s.engine.device_id });
    }
    pub sent : All (IsSent sha256 clipboard s.engine.settings s'.source s.bulk_enabled) entries
    pub can : can_offer s.engine.settings ≡ true
    pub same_settings : s'.engine.settings ≡ s.engine.settings
    pub same_bulk : s'.bulk_enabled ≡ s.bulk_enabled

  pub local_offer_lem :
      (s : ClipboardSession) (clipboard : Clipboard) (f : ControlFrame)
      → (local_offer sha256 cs s clipboard).1 ≡ some f
      → IsOffered s (local_offer sha256 cs s clipboard).0 clipboard f
  unfolding local_offer on_local_change snapshot_local
  local_offer_lem s clipboard f h = elim (Bool-cases (can_offer s.engine.settings)) [
    | inl can ↦
        (let snap = snapshot_formats sha256 clipboard s.engine.settings formats in
          let own =
            offer_reps-IsOwn sha256 clipboard s.engine.settings snap.1 s.engine.applied snap.0 (
              snapshot_formats-AllHeld sha256 clipboard s.engine.settings formats
                formats-AllDistinct) in
          let (es, same, sent) =
            offered_lem sha256 clipboard s.engine.settings snap.1 cs lawful s.engine.device_id
              s.bulk_enabled (offer_reps sha256 s.engine.settings s.engine.applied snap.0).1 f own
              (rw (can) at h) in
          rw (can) (record {
            entries = es;
            same_frame = same;
            sent = sent;
            can = can;
            same_settings = refl;
            same_bulk = refl;
          }))
    | inr cannot ↦ (let lost : none ≡ some f = rw (cannot) at h in absurd (cc))
  ]
