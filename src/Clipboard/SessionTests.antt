-- ===== src/Clipboard/SessionTests.antt =====
-- Two clipboard sessions on a concrete text.
use Prim.Native.String.{String}
use mouser.Prelude.{
  ℕ, zero, suc, ◌+◌, ◌^◌, ◌%◌, ◌≤◌, ◌<◌, ◌≡◌, refl, sym, some-inj, Bool, true, false, ◌==◌, List,
  [], ◌∷◌, ◌++◌, Option, none, some, Result, ok, err, if_cases, length, take, drop,
  take-append_self, last_of, drop-append_self, append_assoc, arith,
}
use mouser.Prelude.Sat.{u64_max}
use mouser.Protocol.Codec.{starts_indefinite, to_cbor, from_cbor}
use mouser.Core.DeviceId
use mouser.Core.DeviceId.{to_vec}
use mouser.Clipboard.Engine
use mouser.Clipboard.Engine.Serve
use mouser.Clipboard.Offer
use mouser.Clipboard.Applied
use mouser.Clipboard.Canonical
use mouser.Clipboard.Settings
use mouser.Clipboard.Pulls
use mouser.Clipboard.Session
use mouser.Clipboard.Session.Handlers
use mouser.Clipboard.Types.{Hash, ClipFormat}
use mouser.Clipboard.Engine.{ClipboardEntry, ClipboardOffer, ClipboardPull, ClipboardData}
use mouser.Clipboard.Session.{
  PlatformFormat, utf8_text, html, rtf, uri_list, png, Clipboard, Codecs, ControlFrame,
  ClipboardOutput, frame, chunks, ClipboardSession, new_session,
}
use mouser.Clipboard.Session.Handlers.{local_offer, on_control}
use mouser.Clipboard.Session.Chunks.{AreLawful}
use mouser.Clipboard.Session.Delivery.{IsPasted, local_offer-IsPasted}

-- Serializers by lengths, in the place of the CBOR library.
write_entries : List ClipboardEntry → List ℕ
write_entries [] = []
write_entries (e ∷ es) = e.format ∷ e.size ∷ length e.hash ∷ (e.hash ++ write_entries es)

abbrev add_read :
    ClipboardEntry → Option (List ClipboardEntry × List ℕ) → Option (List ClipboardEntry × List ℕ)
add_read e none = none
add_read e (some (es, rest)) = some (e ∷ es, rest)

read_entries : ℕ → List ℕ → Option (List ClipboardEntry × List ℕ)
read_entries zero bs = some ([], bs)
read_entries (suc n) (format ∷ size ∷ len ∷ bs) =
    add_read (record { format = format; hash = take len bs; size = size })
      (read_entries n (drop len bs))
read_entries (suc n) _ = none

read-write_entries :
    (es : List ClipboardEntry) (rest : List ℕ)
    → read_entries (length es) (write_entries es ++ rest) ≡ some (es, rest)
unfolding read_entries write_entries
read-write_entries [] rest = refl
read-write_entries (e ∷ es) rest =
    rw
      (
        append_assoc e.hash (write_entries es) rest,
        take-append_self e.hash (write_entries es ++ rest),
        drop-append_self e.hash (write_entries es ++ rest),
        read-write_entries es rest,
      )
      refl

abbrev offer_of : Option (List ClipboardEntry × List ℕ) → ℕ → Result (ClipboardOffer × ℕ) String
offer_of none n = err "short"
offer_of (some (es, origin)) n = ok (record { entries = es; origin = origin }, n)

abbrev offer_bytes : ClipboardOffer → List ℕ
offer_bytes o = 0 ∷ length o.entries ∷ (write_entries o.entries ++ o.origin)

read_offer : List ℕ → Result (ClipboardOffer × ℕ) String
read_offer (t ∷ n ∷ bs) = offer_of (read_entries n bs) (length (t ∷ n ∷ bs))
read_offer _ = err "short"

abbrev pull_bytes : ClipboardPull → List ℕ
pull_bytes p = 0 ∷ p.format ∷ p.hash

read_pull : List ℕ → Result (ClipboardPull × ℕ) String
read_pull (t ∷ format ∷ hash) =
    ok (record { hash = hash; format = format }, length (t ∷ format ∷ hash))
read_pull _ = err "short"

abbrev flag : Bool → ℕ
flag true = 1
flag false = 0

abbrev content_bytes : ClipboardData → List ℕ
content_bytes d = 0 ∷ d.format ∷ d.offset ∷ flag d.last ∷ length d.hash ∷ (d.hash ++ d.bytes)

read_content : List ℕ → Result (ClipboardData × ℕ) String
read_content (t ∷ format ∷ offset ∷ last ∷ len ∷ bs) = ok (
  record {
    hash = take len bs;
    format = format;
    offset = offset;
    bytes = drop len bs;
    last = last == 1;
  },
  length (t ∷ format ∷ offset ∷ last ∷ len ∷ bs),
)
read_content _ = err "short"

abbrev codecs : Codecs
codecs = record {
  offer = record { into_writer = λ o. ok (offer_bytes o); from_reader = read_offer };
  pull = record { into_writer = λ p. ok (pull_bytes p); from_reader = read_pull };
  content = record { into_writer = λ d. ok (content_bytes d); from_reader = read_content };
}

flag_back : (b : Bool) → (flag b == 1) ≡ b
flag_back true = refl
flag_back false = refl

codecs-AreLawful : AreLawful codecs
unfolding starts_indefinite read_offer read_pull read_content
codecs-AreLawful = record {
  offer = record {
    bytes_of = offer_bytes;
    writes = λ o. refl;
    definite = λ o. refl;
    reads = λ o. rw (read-write_entries o.entries o.origin) refl;
  };
  pull = record {
    bytes_of = pull_bytes;
    writes = λ o. refl;
    definite = λ o. refl;
    reads = λ o. refl;
  };
  content = record {
    bytes_of = content_bytes;
    writes = λ o. refl;
    definite = λ o. refl;
    reads = λ d.
        rw (take-append_self d.hash d.bytes, drop-append_self d.hash d.bytes, flag_back d.last)
          refl;
  };
}

-- A stand-in for the hash.
unfoldable sum_of : List ℕ → ℕ
sum_of [] = 0
sum_of (b ∷ bs) = b + sum_of bs

unfoldable digest : List ℕ → Hash
digest bytes = sum_of bytes % 65536

digest-lt : (bytes : List ℕ) → digest bytes < 256 ^ 32
unfolding digest
digest-lt bytes = omega arith

-- A text of three characters with a line end of Windows.
abbrev copied : Clipboard
copied utf8_text = some (b'a' ∷ 13 ∷ 10 ∷ b'b' ∷ [])
copied html = none
copied rtf = none
copied uri_list = none
copied png = none

abbrev left : ClipboardSession
left = new_session 1 2 2 2 false

abbrev right : ClipboardSession
right = new_session 2 1 2 2 false

abbrev offer_frame : ControlFrame
offer_frame = record {
  ty = 0x50;
  payload = offer_bytes (record {
    entries = record { format = 0; hash = to_vec 205; size = 3 } ∷ [];
    origin = to_vec 1;
  });
}

abbrev pull_frame : ControlFrame
pull_frame = record { ty = 0x51; payload = pull_bytes (record { hash = to_vec 205; format = 0 }) }

offers_text : (local_offer digest codecs left copied).1 ≡ some offer_frame
unfolding local_offer Offer.on_local_change new_session Engine.new_engine Offer.offer_reps
    Handlers.snapshot_local Handlers.snapshot_formats Settings.format_enabled Offer.offer_rep
    Applied.suppress_once Session.supported_offer Session.supported_entries Session.supported_entry
    Session.control_entry Serve.transport_for Serve.is_text_format Offer.entry_of
    Canonical.canonical Canonical.canonical_text Canonical.contains_crlf Canonical.content_hash
    Canonical.crlf_loop Canonical.crlf_to_lf Canonical.crlf_turn last_of Canonical.pop_nuls
    Session.encode to_cbor digest sum_of
offers_text = refl

pulls_text : (on_control digest codecs right offer_frame).1 ≡ frame pull_frame ∷ []
unfolding on_control Handlers.session_offer from_cbor starts_indefinite read_offer read_entries
    write_entries Session.supported_offer Session.supported_entries Session.supported_entry
    Session.control_entry Serve.transport_for Serve.is_text_format Engine.on_offer new_session
    Engine.new_engine Engine.parse_device_id Engine.offer_from DeviceId.to_id to_vec
    DeviceId.be_bytes DeviceId.be_value Settings.prefer_native_suppresses Settings.is_apple
    Engine.supersede_origin Engine.still_offered Engine.best_entry Settings.format_enabled
    Settings.within_auto_sync_limit Engine.better Engine.preference_rank Engine.pull_best
    Engine.parse_hash Engine.pull_hash Session.encode to_cbor Pulls.retain_origin_offer
pulls_text = refl

text_small :
    (format : ClipFormat)
    → length (Canonical.canonical format (b'a' ∷ 13 ∷ 10 ∷ b'b' ∷ [])) ≤ u64_max
unfolding Canonical.canonical Canonical.canonical_text Canonical.contains_crlf Canonical.crlf_loop
    Canonical.crlf_to_lf Canonical.crlf_turn last_of Canonical.pop_nuls Canonical.canonical_uri_list
text_small format =
    let keep : List ℕ → Type 0 = (λ l. length l ≤ u64_max) in
    if_cases keep (format == 0) (omega arith)
      (if_cases keep (format == 3) (omega arith) (omega arith))

copied_small :
    (x : PlatformFormat) (bytes : List ℕ) (format : ClipFormat)
    → copied x ≡ some bytes
    → length (Canonical.canonical format bytes) ≤ u64_max
copied_small utf8_text bytes format e = rw (sym (some-inj e)) (text_small format)
copied_small html bytes format e = cc
copied_small rtf bytes format e = cc
copied_small uri_list bytes format e = cc
copied_small png bytes format e = cc

local_offer-IsPasted_example :
    IsPasted digest codecs
      (local_offer digest codecs left copied).0
      (on_control digest codecs right offer_frame).0
      copied
      pull_frame
unfolding new_session Engine.new_engine
local_offer-IsPasted_example =
    local_offer-IsPasted digest codecs codecs-AreLawful left right copied offer_frame pull_frame
      digest-lt copied_small refl (omega arith) offers_text pulls_text
