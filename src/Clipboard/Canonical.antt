-- ===== src/Clipboard/Canonical.antt =====
-- crates/mouser-clipboard/src/canonical.rs: the canonical bytes of a representation, by which it is
-- hashed. The SHA-256 of a byte string, which another crate computes, is a parameter.
pub mod Laws
use mouser.Prelude.{
  ℕ, zero, suc, ◌+◌, Bool, true, false, ◌&&◌, ◌||◌, ◌==◌, List, [], ◌∷◌, ◌++◌, Option, none, some,
  if◌then◌else◌, length, get_elem?, ltb, last_of, pop,
}
use mouser.Clipboard.Types.{Hash, ClipFormat}
use mouser.Clipboard.Settings.{utf8_text, uri_list}

abbrev pub cr : ℕ
cr = 13

abbrev pub lf : ℕ
lf = 10

-- `bytes.windows(2).any(|w| w == CRLF)`.
unfoldable pub contains_crlf : List ℕ → Bool
contains_crlf [] = false
contains_crlf (a ∷ []) = false
contains_crlf (a ∷ b ∷ bytes) = let rest = contains_crlf (b ∷ bytes) in (a == cr && b == lf) || rest

abbrev pub is_pair : ℕ → Option ℕ → Bool
is_pair b none = false
is_pair b (some c) = b == cr && c == lf

-- One turn of the loop of `crlf_to_lf`, on the byte at the index and the one behind it; `next` is the
-- rest of the loop.
unfoldable pub crlf_turn : (ℕ → List ℕ → List ℕ) → Option ℕ → Option ℕ → ℕ → List ℕ → List ℕ
crlf_turn next none second i out = out
crlf_turn next (some b) second i out =
    let pair = is_pair b second in
    next (if pair then i + 2 else i + 1) (out ++ ((if pair then lf else b) ∷ []))

-- The loop, on fuel: every turn moves the index, so that as many turns as bytes are enough.
unfoldable pub crlf_loop : ℕ → List ℕ → ℕ → List ℕ → List ℕ
crlf_loop zero bytes i out = out
crlf_loop (suc fuel) bytes i out =
    if ltb i (length bytes)
    then crlf_turn (crlf_loop fuel bytes) (get_elem? bytes i) (get_elem? bytes (i + 1)) i out
    else out

unfoldable pub crlf_to_lf : List ℕ → List ℕ
crlf_to_lf bytes = if contains_crlf bytes then crlf_loop (length bytes) bytes 0 [] else bytes

abbrev pub is_last : ℕ → Option ℕ → Bool
is_last b none = false
is_last b (some c) = c == b

-- The loop of `canonical_text`, on fuel: every turn but the last removes a byte.
unfoldable pub pop_nuls : ℕ → List ℕ → List ℕ
pop_nuls zero out = out
pop_nuls (suc fuel) out =
    let rest = pop_nuls fuel (pop out) in if is_last 0 (last_of out) then rest else out

unfoldable pub canonical_text : List ℕ → List ℕ
canonical_text bytes = let out = crlf_to_lf bytes in pop_nuls (length out) out

unfoldable pub canonical_uri_list : List ℕ → List ℕ
canonical_uri_list bytes =
    let out = crlf_to_lf bytes in if is_last lf (last_of out) then pop out else out

unfoldable pub canonical : ClipFormat → List ℕ → List ℕ
canonical format bytes =
    if format == utf8_text
    then canonical_text bytes
    else (if format == uri_list then canonical_uri_list bytes else bytes)

unfoldable pub content_hash : (List ℕ → Hash) → ClipFormat → List ℕ → Hash
content_hash sha256 format bytes = sha256 (canonical format bytes)
