-- ===== src/Clipboard/Session/Feed.antt =====
-- A pull whose chunks come in one after the other (crates/mouser-clipboard/src/engine.rs).
use mouser.Prelude.{
  ℕ, ◌≡◌, refl, ap, true, false, List, [], ◌∷◌, ◌++◌, map, Option, none, some, Result, ok, err,
  Bool-cases, inl, inr, arith, some-inj, All,
}
use mouser.Core.DeviceId.{DeviceId}
use mouser.Clipboard.Types.{Hash, ClipFormat, PullKey, pull_key, key_eq, ClipboardError}
use mouser.Clipboard.Settings.{format_enabled, can_receive, prefer_native_suppresses}
use mouser.Clipboard.Reassembly.{Reassembly, push}
use mouser.Clipboard.Reassembly.Complete.{receive, receive_case}
use mouser.Clipboard.Pulls.{Pending, lookup, key_for_origin_data}
use mouser.Clipboard.Engine.{
  ClipboardEngine, ClipboardData, AppliedClip, pushed, data_for, on_data_for_key, on_data_from,
  parse_hash, update_entry,
}
use mouser.Clipboard.Engine.Serve.{chunk_of}
use mouser.Clipboard.Pulls.Lookup.{lookup-remove}

abbrev pub clips_of : Result (Option AppliedClip) ClipboardError → List AppliedClip
clips_of (err e) = []
clips_of (ok none) = []
clips_of (ok (some clip)) = clip ∷ []

-- A chunk of a representation.
abbrev pub IsChunk : ClipFormat → Hash → ClipboardData → Type 0
IsChunk format hash d = (parse_hash d.hash ≡ ok hash) × (d.format ≡ format)

-- Every gate that a content of a pull has to pass.
abbrev pub IsOpen : ClipboardEngine → Pending → Type 0
IsOpen e p =
    (can_receive e.settings ≡ true)
    × (format_enabled e.settings p.key.format ≡ true)
    × (prefer_native_suppresses e.settings e.local_os p.peer_os ≡ false)

lookup-update_entry :
    (key : PullKey) (r : Reassembly) (ps : List Pending) (p : Pending)
    → lookup key ps ≡ some p
    → lookup key (update_entry key r ps) ≡ some (record p { reasm = r })
unfolding lookup update_entry
lookup-update_entry key r [] p h = cc
lookup-update_entry key r (q ∷ ps) p h = elim (Bool-cases (key_eq q.key key)) [
  | inl e ↦
      (let same : q ≡ p = some-inj (rw (e) at h) in
        rw (e, e) (ap (λ (x : Pending). some (record x { reasm = r })) same))
  | inr e ↦ rw (e, e) (lookup-update_entry key r ps p (rw (e) at h))
]

ends :
    {format : ClipFormat} {out bytes : List ℕ} {xs ys : List AppliedClip}
    → xs ≡ record { format = format; bytes = out } ∷ []
    → ys ≡ []
    → out ≡ bytes
    → xs ++ ys ≡ record { format = format; bytes = bytes } ∷ []
ends {format} a b c = rw (a, b, c) refl

module _ (sha256 : List ℕ → Hash) where
  -- The contents that are applied while chunks come in; a chunk that is turned down is logged.
  unfoldable pub feed :
      ClipboardEngine → DeviceId → List ClipboardData → ClipboardEngine × List AppliedClip
  feed e origin [] = (e, [])
  feed e origin (d ∷ ds) =
      let (e', result) = on_data_from sha256 e origin d in
      let (e'', clips) = feed e' origin ds in (e'', clips_of result ++ clips)

  found_key :
      (e : ClipboardEngine) (origin : DeviceId) (format : ClipFormat) (hash : Hash)
      (d : ClipboardData) (p : Pending)
      → IsChunk format hash d
      → lookup (pull_key origin format hash) e.pending.entries ≡ some p
      → on_data_from sha256 e origin d
        ≡ pushed sha256 e
            (pull_key origin format hash)
            p
            (push sha256 p.reasm d.offset d.bytes d.last)
  unfolding on_data_from key_for_origin_data on_data_for_key data_for
  found_key e origin format hash d p (named, same) found = rw (named, same, found, found) refl

  lost_key :
      (e : ClipboardEngine) (origin : DeviceId) (format : ClipFormat) (hash : Hash)
      (d : ClipboardData)
      → IsChunk format hash d
      → lookup (pull_key origin format hash) e.pending.entries ≡ none
      → ((on_data_from sha256 e origin d).0 ≡ e)
        × (clips_of (on_data_from sha256 e origin d).1 ≡ [])
  unfolding on_data_from key_for_origin_data
  lost_key e origin format hash d (named, same) lost = rw (named, same, lost) (ground arith)

  feed_lost :
      (e : ClipboardEngine) (origin : DeviceId) (format : ClipFormat) (hash : Hash)
      (ds : List ClipboardData)
      → All (IsChunk format hash) ds
      → lookup (pull_key origin format hash) e.pending.entries ≡ none
      → (feed e origin ds).1 ≡ []
  unfolding feed
  feed_lost e origin format hash [] hs lost = refl
  feed_lost e origin format hash (d ∷ ds) (h, hs) lost =
      let (same, none_of) = lost_key e origin format hash d h lost in
      rw (none_of, same) (feed_lost e origin format hash ds hs lost)

  pushed_end :
      (e : ClipboardEngine) (key : PullKey) (p : Pending) (r : Reassembly) (out : List ℕ)
      → IsOpen e p
      → (clips_of (pushed sha256 e key p (r, ok (some out))).1
          ≡ record { format = p.key.format; bytes = out } ∷ [])
        × (lookup key (pushed sha256 e key p (r, ok (some out))).0.pending.entries ≡ none)
  unfolding pushed
  pushed_end e key p r out (can, enabled, native) =
      rw (can, enabled, native) (refl, lookup-remove e.pending key)

  -- A pull whose chunks make up its content is applied once, as that content, if every gate is open.
  pub feed_lem :
      (e : ClipboardEngine) (origin : DeviceId) (format : ClipFormat) (hash : Hash) (p : Pending)
      (ds : List ClipboardData) (bytes : List ℕ)
      → All (IsChunk format hash) ds
      → lookup (pull_key origin format hash) e.pending.entries ≡ some p
      → IsOpen e p
      → receive sha256 p.reasm (map chunk_of ds) ≡ some bytes
      → (feed e origin ds).1 ≡ record { format = p.key.format; bytes = bytes } ∷ []
  unfolding feed receive pushed
  feed_lem e origin format hash p [] bytes hs found gates h = cc
  feed_lem e origin format hash p (d ∷ ds) bytes (c, hs) found gates h =
      rw (found_key e origin format hash d p c found) (
        go (push sha256 p.reasm d.offset d.bytes d.last) h
          (λ e' p' lk g run. feed_lem e' origin format hash p' ds bytes hs lk g run))
    where
      go :
          (m : Reassembly × Result (Option (List ℕ)) ClipboardError)
          → receive_case m.1 (receive sha256 m.0 (map chunk_of ds)) ≡ some bytes
          → ((e' : ClipboardEngine) (p' : Pending)
              → lookup (pull_key origin format hash) e'.pending.entries ≡ some p'
              → IsOpen e' p'
              → receive sha256 p'.reasm (map chunk_of ds) ≡ some bytes
              → (feed e' origin ds).1 ≡ record { format = p'.key.format; bytes = bytes } ∷ [])
          → clips_of (pushed sha256 e (pull_key origin format hash) p m).1
              ++ (feed (pushed sha256 e (pull_key origin format hash) p m).0 origin ds).1
            ≡ record { format = p.key.format; bytes = bytes } ∷ []
      go (r, err x) q ih = cc
      go (r, ok none) q ih =
          ih
            (record e {
              pending = record e.pending {
                entries = update_entry (pull_key origin format hash) r e.pending.entries;
              };
            })
            (record p { reasm = r })
            (lookup-update_entry (pull_key origin format hash) r e.pending.entries p found) gates q
      go (r, ok (some out)) q ih =
          let (clip, gone) = pushed_end e (pull_key origin format hash) p r out gates in
          let lost =
            feed_lost (pushed sha256 e (pull_key origin format hash) p (r, ok (some out))).0 origin
              format hash ds hs gone in
          ends clip lost (some-inj q)
