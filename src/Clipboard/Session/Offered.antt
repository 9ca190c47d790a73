-- ===== src/Clipboard/Session/Offered.antt =====
-- What the entries of a device's own offer stand for (crates/mouser-engine/src/daemon/clipboard.rs).
use mouser.Prelude.{
  ℕ, ◌≡◌, refl, sym, ap, ◌∙◌, true, false, ◌==◌, List, [], ◌∷◌, Option, none, some, Bool-cases, inl,
  inr, All, All-weaken, arith, ==_iff,
}
use mouser.Clipboard.Types.{Hash, ClipFormat}
use mouser.Clipboard.Settings.{ClipboardSettings, format_enabled}
use mouser.Clipboard.Canonical.{canonical, content_hash}
use mouser.Clipboard.Offer.{LocalRepr, Content, canonical_bytes}
use mouser.Clipboard.Session.{PlatformFormat, formats, Clipboard, to_platform_in}
use mouser.Clipboard.Session.Handlers.{snapped, snapshot_formats}

-- No format is listed twice.
unfoldable pub AllDistinct : List (ClipFormat × PlatformFormat) → Type 0
AllDistinct [] = Unit
AllDistinct ((wire, platform) ∷ rest) = (to_platform_in rest wire ≡ none) × AllDistinct rest

pub formats-AllDistinct : AllDistinct formats
unfolding AllDistinct to_platform_in
formats-AllDistinct = ground arith

module _ (sha256 : List ℕ → Hash) (clipboard : Clipboard) (settings : ClipboardSettings) where
  -- A representation that the local clipboard holds, in a shared format, with its content kept.
  pub record IsHeld (fs : List (ClipFormat × PlatformFormat)) (source : List Content)
      (rep : LocalRepr) : Type 0 where
    pub platform : PlatformFormat
    pub listed : to_platform_in fs rep.format ≡ some platform
    pub held : clipboard platform ≡ some rep.bytes
    pub enabled : format_enabled settings rep.format ≡ true
    pub kept :
        canonical_bytes source rep.format (content_hash sha256 rep.format rep.bytes)
        ≡ some (canonical rep.format rep.bytes)

  other_format :
      (wire format : ClipFormat) (platform : PlatformFormat)
      (fs : List (ClipFormat × PlatformFormat))
      → to_platform_in fs wire ≡ none
      → to_platform_in fs format ≡ some platform
      → (wire == format) ≡ false
  other_format wire format platform fs fresh listed = elim (Bool-cases (wire == format)) [
    | inl e ↦
        (let same : wire ≡ format = (==_iff wire format).0 e in
          let lost : to_platform_in fs format ≡ none = ap (to_platform_in fs) (sym same) ∙ fresh in
          cc)
    | inr e ↦ e
  ]

  listed_later :
      (wire format : ClipFormat) (front platform : PlatformFormat)
      (fs : List (ClipFormat × PlatformFormat))
      → to_platform_in fs wire ≡ none
      → to_platform_in fs format ≡ some platform
      → to_platform_in ((wire, front) ∷ fs) format ≡ some platform
  unfolding to_platform_in
  listed_later wire format front platform fs fresh listed =
      rw (other_format wire format platform fs fresh listed) listed

  kept_later :
      (wire : ClipFormat) (content : Content) (source : List Content) (format : ClipFormat)
      (hash : Hash) (bytes : List ℕ)
      → content.format ≡ wire
      → (wire == format) ≡ false
      → canonical_bytes source format hash ≡ some bytes
      → canonical_bytes (content ∷ source) format hash ≡ some bytes
  unfolding canonical_bytes
  kept_later wire content source format hash bytes same other kept = rw (same, other) kept

  -- A format that is not held, or not shared, changes nothing for the later ones.
  skip-IsHeld :
      (wire : ClipFormat) (front : PlatformFormat) (fs : List (ClipFormat × PlatformFormat))
      (source : List Content) (rep : LocalRepr)
      → to_platform_in fs wire ≡ none
      → IsHeld fs source rep
      → IsHeld ((wire, front) ∷ fs) source rep
  skip-IsHeld wire front fs source rep fresh h = record {
    platform = h.platform;
    listed = listed_later wire rep.format front h.platform fs fresh h.listed;
    held = h.held;
    enabled = h.enabled;
    kept = h.kept;
  }

  -- Nor does the content of another format.
  push-IsHeld :
      (wire : ClipFormat) (front : PlatformFormat) (content : Content)
      (fs : List (ClipFormat × PlatformFormat)) (source : List Content) (rep : LocalRepr)
      → content.format ≡ wire
      → to_platform_in fs wire ≡ none
      → IsHeld fs source rep
      → IsHeld ((wire, front) ∷ fs) (content ∷ source) rep
  push-IsHeld wire front content fs source rep same fresh h = record {
    platform = h.platform;
    listed = listed_later wire rep.format front h.platform fs fresh h.listed;
    held = h.held;
    enabled = h.enabled;
    kept =
        kept_later wire content source rep.format (content_hash sha256 rep.format rep.bytes)
          (canonical rep.format rep.bytes) same
          (other_format wire rep.format h.platform fs fresh h.listed) h.kept;
  }

  abbrev pub AllHeld : List (ClipFormat × PlatformFormat) → List LocalRepr × List Content → Type 0
  AllHeld fs m = All (IsHeld fs m.1) m.0

  snapped-AllHeld :
      (wire : ClipFormat) (front : PlatformFormat) (fs : List (ClipFormat × PlatformFormat))
      (o : Option (List ℕ)) (m : List LocalRepr × List Content)
      → to_platform_in fs wire ≡ none
      → clipboard front ≡ o
      → format_enabled settings wire ≡ true
      → AllHeld fs m
      → AllHeld ((wire, front) ∷ fs) (snapped sha256 wire o m)
  unfolding to_platform_in canonical_bytes
  snapped-AllHeld wire front fs none (reps, source) fresh held on hs =
      All-weaken reps (λ rep h. skip-IsHeld wire front fs source rep fresh h) hs
  snapped-AllHeld wire front fs (some bytes) (reps, source) fresh held on hs = (
    record {
      platform = front;
      listed = ground arith;
      held = held;
      enabled = on;
      kept = ground arith;
    },
    All-weaken reps (λ rep h. push-IsHeld wire front _ fs source rep refl fresh h) hs,
  )

  pub snapshot_formats-AllHeld :
      (fs : List (ClipFormat × PlatformFormat))
      → AllDistinct fs
      → AllHeld fs (snapshot_formats sha256 clipboard settings fs)
  unfolding snapshot_formats AllDistinct
  snapshot_formats-AllHeld [] ds = tt
  snapshot_formats-AllHeld ((wire, front) ∷ fs) (fresh, ds) =
      let rest = snapshot_formats sha256 clipboard settings fs in
      let ih = snapshot_formats-AllHeld fs ds in
      elim (Bool-cases (format_enabled settings wire)) [
        | inl on ↦ rw (on) (snapped-AllHeld wire front fs (clipboard front) rest fresh refl on ih)
        | inr off ↦
            rw (off) (All-weaken rest.0 (λ rep h. skip-IsHeld wire front fs rest.1 rep fresh h) ih)
      ]
