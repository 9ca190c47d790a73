-- ===== src/Clipboard/Engine/Apply.antt =====
-- Which contents a device applies (crates/mouser-clipboard/src/engine.rs).
use mouser.Prelude.{
  ℕ, ◌≡◌, refl, sym, ap, ◌∙◌, Bool, true, false, List, ◌++◌, Option, none, some, Result, ok, err,
  length, arith,
}
use mouser.Core.DeviceId.{DeviceId}
use mouser.Clipboard.Types.{Hash, ClipFormat, PullKey, pull_key, ClipboardError}
use mouser.Clipboard.Settings.{
  ClipboardSettings, format_enabled, can_receive, prefer_native_suppresses,
}
use mouser.Clipboard.Reassembly.{Reassembly, push, commit, finish}
use mouser.Clipboard.Pulls.Lookup.{lookup-remove}
use mouser.Clipboard.Pulls.{Pending, PendingPulls, lookup, remove, key_for_origin_data}
use mouser.Clipboard.Applied.{record_applied}
use mouser.Clipboard.Engine.{
  ClipboardEngine, ClipboardData, AppliedClip, with_hash, new_engine, pushed, data_for,
  on_data_for_key, on_data_from, parse_hash, with_key,
}
use mouser.Clipboard.Engine.Keys.{
  AllOfKey, lookup-key, lookup-IsOfKey, Event, meet_all, meet_all-AllOfKey,
}

module _ (sha256 : List ℕ → Hash) where
  -- How a content came to be applied: it completes the pull of the key, and every gate is open.
  pub record IsApplied (e e' : ClipboardEngine) (key : PullKey) (d : ClipboardData)
      (clip : AppliedClip) : Type 0 where
    pub pull : Pending
    pub in_flight : lookup key e.pending.entries ≡ some pull
    pub receives : can_receive e.settings ≡ true
    pub enabled : format_enabled e.settings clip.format ≡ true
    pub not_native : prefer_native_suppresses e.settings e.local_os pull.peer_os ≡ false
    pub format : clip.format ≡ pull.key.format
    pub bytes : clip.bytes ≡ pull.reasm.buf ++ d.bytes
    pub size : length clip.bytes ≡ pull.reasm.size
    pub hash : sha256 clip.bytes ≡ pull.reasm.hash
    pub removed : e'.pending ≡ remove e.pending key
    pub recorded : e'.applied ≡ record_applied e.applied pull.key.origin pull.key.format key.hash

  push_sound :
      (r r' : Reassembly) (o : ℕ) (d bytes : List ℕ) (l : Bool)
      → push sha256 r o d l ≡ (r', ok (some bytes))
      → (bytes ≡ r.buf ++ d) × (length bytes ≡ r.size) × (sha256 bytes ≡ r.hash)
  unfolding push commit finish
  push_sound r r' o d bytes l h = ground arith

  pushed_lem :
      (e e' : ClipboardEngine) (key : PullKey) (p : Pending) (d : ClipboardData)
      (clip : AppliedClip) (m : Reassembly × Result (Option (List ℕ)) ClipboardError)
      → lookup key e.pending.entries ≡ some p
      → push sha256 p.reasm d.offset d.bytes d.last ≡ m
      → pushed sha256 e key p m ≡ (e', ok (some clip))
      → IsApplied e e' key d clip
  unfolding pushed
  pushed_lem e e' key p d clip (r, err x) found run h = cc
  pushed_lem e e' key p d clip (r, ok none) found run h = cc
  pushed_lem e e' key p d clip (r, ok (some bytes)) found run h =
      let (b, n, s) = push_sound p.reasm r d.offset d.bytes bytes d.last run in
      record {
        pull = p;
        in_flight = found;
        receives = ground (arith, h);
        enabled = ground (arith, h);
        not_native = ground (arith, h);
        format = ground (arith, h);
        bytes = ground (arith, h, b);
        size = ground (arith, h, n);
        hash = ground (arith, h, s);
        removed = ground (arith, h);
        recorded = ground (arith, h);
      }

  data_for_lem :
      (e e' : ClipboardEngine) (key : PullKey) (d : ClipboardData) (clip : AppliedClip)
      (o : Option Pending)
      → lookup key e.pending.entries ≡ o
      → data_for sha256 e key d o ≡ (e', ok (some clip))
      → IsApplied e e' key d clip
  unfolding data_for
  data_for_lem e e' key d clip none found h = cc
  data_for_lem e e' key d clip (some p) found h =
      pushed_lem e e' key p d clip (push sha256 p.reasm d.offset d.bytes d.last) found refl h

origin_key :
    (pulls : PendingPulls) (origin : DeviceId) (format : ClipFormat) (hash : Hash) (key : PullKey)
    → key_for_origin_data pulls origin format hash ≡ ok key
    → key ≡ pull_key origin format hash
unfolding key_for_origin_data
origin_key pulls origin format hash key h = ground (arith, h)

module _ (sha256 : List ℕ → Hash) where
  -- What is true of a content that is applied.
  pub record IsVerified (e e' : ClipboardEngine) (origin : DeviceId) (d : ClipboardData)
      (clip : AppliedClip) : Type 0 where
    pub hash : Hash
    pub named : parse_hash d.hash ≡ ok hash
    pub digest : sha256 clip.bytes ≡ hash
    pub format : clip.format ≡ d.format
    pub receives : can_receive e.settings ≡ true
    pub enabled : format_enabled e.settings clip.format ≡ true
    pub finished : lookup (pull_key origin d.format hash) e'.pending.entries ≡ none
    pub recorded : e'.applied ≡ record_applied e.applied origin clip.format hash

  with_key_lem :
      (e e' : ClipboardEngine) (origin : DeviceId) (hash : Hash) (d : ClipboardData)
      (clip : AppliedClip) (r : Result PullKey ClipboardError)
      → AllOfKey e.pending
      → parse_hash d.hash ≡ ok hash
      → key_for_origin_data e.pending origin d.format hash ≡ r
      → with_key sha256 e d r ≡ (e', ok (some clip))
      → IsVerified e e' origin d clip
  unfolding on_data_for_key
  with_key_lem e e' origin hash d clip (err x) w named found h = cc
  with_key_lem e e' origin hash d clip (ok key) w named found h =
      let a = data_for_lem sha256 e e' key d clip (lookup key e.pending.entries) refl h in
      let same : key ≡ pull_key origin d.format hash =
        origin_key e.pending origin d.format hash key found in
      let of_key = lookup-key key e.pending.entries a.pull a.in_flight in
      let honest = lookup-IsOfKey key e.pending.entries a.pull w a.in_flight in
      let of_format = a.format ∙ ap (λ (k : PullKey). k.format) (of_key ∙ same) in
      record {
        hash = hash;
        named = named;
        digest = a.hash ∙ honest ∙ ap (λ (k : PullKey). k.hash) (of_key ∙ same);
        format = of_format;
        receives = a.receives;
        enabled = a.enabled;
        finished = rw (a.removed, sym same) (lookup-remove e.pending key);
        recorded =
            a.recorded
            ∙ ap (λ (k : PullKey). record_applied e.applied k.origin k.format key.hash)
                (of_key ∙ same)
            ∙ ap (λ (k : PullKey). record_applied e.applied origin d.format k.hash) same
            ∙ ap (λ (f : ClipFormat). record_applied e.applied origin f hash) (sym of_format);
      }

  with_hash_lem :
      (e e' : ClipboardEngine) (origin : DeviceId) (d : ClipboardData) (clip : AppliedClip)
      (r : Result Hash ClipboardError)
      → AllOfKey e.pending
      → parse_hash d.hash ≡ r
      → with_hash sha256 e d (λ hash. key_for_origin_data e.pending origin d.format hash) r
        ≡ (e', ok (some clip))
      → IsVerified e e' origin d clip
  with_hash_lem e e' origin d clip (err x) w named h = cc
  with_hash_lem e e' origin d clip (ok hash) w named h =
      with_key_lem e e' origin hash d clip (key_for_origin_data e.pending origin d.format hash) w
        named refl h

  -- Whatever a device met before, offers, contents, ends of pulls, changes of its settings and of its
  -- own clipboard: a content that it applies hashes to the hash that the chunk names and has its
  -- format, the settings of now allow to receive it, the pull that it completes is in flight no more,
  -- and it is marked as applied.
  pub on_data_from-IsVerified :
      (id : DeviceId) (os : ℕ) (settings : ClipboardSettings) (xs : List Event)
      (e' : ClipboardEngine) (origin : DeviceId) (d : ClipboardData) (clip : AppliedClip)
      → on_data_from sha256 (meet_all sha256 (new_engine id os settings) xs) origin d
        ≡ (e', ok (some clip))
      → IsVerified (meet_all sha256 (new_engine id os settings) xs) e' origin d clip
  unfolding on_data_from new_engine
  on_data_from-IsVerified id os settings xs e' origin d clip h =
      with_hash_lem (meet_all sha256 (new_engine id os settings) xs) e' origin d clip
        (parse_hash d.hash) (meet_all-AllOfKey sha256 (new_engine id os settings) xs tt) refl h
