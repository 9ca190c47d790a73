-- ===== src/Clipboard/Offer/Echo.antt =====
-- What was applied from a peer is not offered back (crates/mouser-clipboard/src/engine.rs).
use mouser.Prelude.{
  ℕ, ◌≡◌, refl, ap, ◌∙◌, true, List, [], ◌∷◌, none, some, ok, Bool-cases, inl, inr, arith,
}
use mouser.Core.DeviceId.{DeviceId}
use mouser.Clipboard.Types.{Hash}
use mouser.Clipboard.Settings.{ClipboardSettings, can_offer}
use mouser.Clipboard.Canonical.{canonical, content_hash}
use mouser.Clipboard.Applied.{AppliedMarker, suppress_once, suppress_once-record_applied}
use mouser.Clipboard.Engine.{ClipboardEngine, ClipboardData, AppliedClip, new_engine, on_data_from}
use mouser.Clipboard.Engine.Keys.{Event, meet_all}
use mouser.Clipboard.Engine.Apply.{on_data_from-IsVerified}
use mouser.Clipboard.Offer.{LocalRepr, offer_rep, offer_reps, on_local_change}

module _ (sha256 : List ℕ → Hash) where
  suppressed_lem :
      (settings : ClipboardSettings) (applied : List AppliedMarker) (rep : LocalRepr)
      → (suppress_once applied rep.format (content_hash sha256 rep.format rep.bytes)).1 ≡ true
      → (offer_rep sha256 settings applied rep).1 ≡ none
  unfolding offer_rep
  suppressed_lem settings applied rep h = ground (arith, h)

  unoffered_lem :
      (e : ClipboardEngine) (rep : LocalRepr)
      → (offer_rep sha256 e.settings e.applied rep).1 ≡ none
      → (on_local_change sha256 e (rep ∷ [])).1 ≡ none
  unfolding on_local_change offer_reps
  unoffered_lem e rep h = elim (Bool-cases (can_offer e.settings)) [
    | inl can ↦ rw (can, h) refl
    | inr cannot ↦ rw (cannot) refl
  ]

  -- A content that was applied from a peer, and that the local clipboard then reports as it was
  -- written, is not offered back, whatever the device met before, if the content is its own canonical
  -- form.
  pub echo_lem :
      (id : DeviceId) (os : ℕ) (settings : ClipboardSettings) (xs : List Event)
      (e' : ClipboardEngine) (origin : DeviceId) (d : ClipboardData) (clip : AppliedClip)
      → on_data_from sha256 (meet_all sha256 (new_engine id os settings) xs) origin d
        ≡ (e', ok (some clip))
      → canonical clip.format clip.bytes ≡ clip.bytes
      → (on_local_change sha256 e' (record { format = clip.format; bytes = clip.bytes } ∷ [])).1
        ≡ none
  unfolding content_hash
  echo_lem id os settings xs e' origin d clip h own =
      let e = meet_all sha256 (new_engine id os settings) xs in
      let v = on_data_from-IsVerified sha256 id os settings xs e' origin d clip h in
      let rep : LocalRepr = record { format = clip.format; bytes = clip.bytes } in
      let marked : (suppress_once e'.applied clip.format v.hash).1 ≡ true =
        ap (λ (l : List AppliedMarker). (suppress_once l clip.format v.hash).1) v.recorded
        ∙ suppress_once-record_applied e.applied origin clip.format v.hash in
      let key : content_hash sha256 clip.format clip.bytes ≡ v.hash = ap sha256 own ∙ v.digest in
      unoffered_lem e' rep (
        suppressed_lem e'.settings e'.applied rep
          (ap (λ (k : Hash). (suppress_once e'.applied clip.format k).1) key ∙ marked))
