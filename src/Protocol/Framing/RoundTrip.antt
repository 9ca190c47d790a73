-- ===== src/Protocol/Framing/RoundTrip.antt =====
-- What is framed is unframed, and nothing else is (crates/mouser-protocol/src/framing.rs).
use mouser.Prelude.{
  ℕ, suc, ◌+◌, ◌-◌, ◌^◌, ◌≤◌, ◌<◌, ◌≡◌, refl, ◌∙◌, List, [], ◌∷◌, ◌++◌, some, none, ok, err, length,
  take, All, length-append, take-append_self, length-take, take-take, arith, ◌⊎◌, inl, inr, dec_lt,
  ◌≢◌,
}
use mouser.Prelude.Bytes.{IsByte, le_bytes, le_value, slice, le_value-le_bytes, le_bytes-le_value}
use mouser.Protocol.Framing.{
  Frame, truncated, too_large, max_control_frame, encode_frame, decode_frame,
}

-- The eight bytes of a header before the payload.
abbrev headed : ℕ → ℕ → ℕ → List ℕ → List ℕ
headed len t f rest = le_bytes 4 len ++ (le_bytes 2 t ++ (le_bytes 2 f ++ rest))

module _ (a b c d t u f g : ℕ) where
  abbrev eight : List ℕ → List ℕ
  eight body = a ∷ b ∷ c ∷ d ∷ t ∷ u ∷ f ∷ g ∷ body

  slice_total :
      (n : ℕ) (body : List ℕ)
      → n ≤ length body
      → slice (eight body) 0 (4 + (4 + n)) ≡ some (eight (take n body))
  unfolding slice
  slice_total n body h =
      let total : 4 + (4 + n) ≡ suc (suc (suc (suc (suc (suc (suc (suc n))))))) = omega arith in
      rw total (ground arith)

  slice_payload :
      (n : ℕ) (body : List ℕ)
      → n ≤ length body
      → slice (eight (take n body)) 8 (4 + (4 + n)) ≡ some (take n body)
  unfolding slice
  slice_payload n body h = ground (arith, length-take n body, take-take n body)

  -- A whole frame whose length field says `4 + n`, over a body of at least `n` bytes.
  decode_whole :
      (n : ℕ) (body : List ℕ)
      → le_value (a ∷ b ∷ c ∷ d ∷ []) ≡ 4 + n
      → 4 + n ≤ max_control_frame
      → n ≤ length body
      → decode_frame (eight body)
        ≡ ok (
          record {
            msg_type = le_value (t ∷ u ∷ []);
            flags = le_value (f ∷ g ∷ []);
            payload = take n body;
          },
          4 + (4 + n),
        )
  unfolding decode_frame
  decode_whole n body e hp hl =
      let length_bytes : slice (eight body) 0 4 ≡ some (a ∷ b ∷ c ∷ d ∷ []) =
        unfold slice in ground arith in
      let types : slice (eight (take n body)) 4 6 ≡ some (t ∷ u ∷ []) =
        unfold slice in ground arith in
      let flag_bytes : slice (eight (take n body)) 6 8 ≡ some (f ∷ g ∷ []) =
        unfold slice in ground arith in
      ground (arith, slice_total n body, slice_payload n body)

  decode_cases :
      (body : List ℕ)
      → let len = le_value (a ∷ b ∷ c ∷ d ∷ []) in
        ((len < 4) × (decode_frame (eight body) ≡ err too_large))
        ⊎ ((max_control_frame < len) × (decode_frame (eight body) ≡ err too_large))
        ⊎ ((length (eight body) < 4 + len) × (decode_frame (eight body) ≡ err truncated))
        ⊎ ((n : ℕ) × (len ≡ 4 + n) × (len ≤ max_control_frame) × (n ≤ length body))
  unfolding decode_frame
  decode_cases body = split (le_value (a ∷ b ∷ c ∷ d ∷ [])) refl
    where
      length_bytes : slice (eight body) 0 4 ≡ some (a ∷ b ∷ c ∷ d ∷ [])
      length_bytes = unfold slice in ground arith

      split :
          (len : ℕ)
          → le_value (a ∷ b ∷ c ∷ d ∷ []) ≡ len
          → ((len < 4) × (decode_frame (eight body) ≡ err too_large))
            ⊎ ((max_control_frame < len) × (decode_frame (eight body) ≡ err too_large))
            ⊎ ((length (eight body) < 4 + len) × (decode_frame (eight body) ≡ err truncated))
            ⊎ ((n : ℕ) × (len ≡ 4 + n) × (len ≤ max_control_frame) × (n ≤ length body))
      split len e = elim (dec_lt len 4) [
        | yes small ↦ inl (small, ground (arith, length_bytes))
        | no h ↦ elim (dec_lt max_control_frame len) [
          | yes big ↦ inr (inl (big, ground (arith, length_bytes)))
          | no fits ↦ elim (dec_lt (length (eight body)) (4 + len)) [
            | yes short ↦
                let cut : slice (eight body) 0 (4 + len) ≡ none = unfold slice in ground arith in
                inr (inr (inl (short, ground (arith, length_bytes))))
            | no whole ↦ inr (inr (inr (len - 4, omega arith, omega arith, omega arith)))
          ]
        ]
      ]

decode_headed :
    (t f : ℕ) (p rest : List ℕ)
    → t < 2 ^ 16
    → f < 2 ^ 16
    → 4 + length p ≤ max_control_frame
    → decode_frame (headed (4 + length p) t f (p ++ rest))
      ≡ ok (record { msg_type = t; flags = f; payload = p }, 4 + (4 + length p))
unfolding le_bytes
decode_headed t f p rest ht hf hp =
    decode_whole _ _ _ _ _ _ _ _ (length p) (p ++ rest)
      (le_value-le_bytes 4 (4 + length p) (omega arith)) hp (omega (arith, length-append p rest))
    ∙ rw (le_value-le_bytes 2 t ht, le_value-le_bytes 2 f hf, take-append_self p rest) refl

-- Encoding succeeds exactly when type, flags and payload stay within the cap, and what it writes is
-- decoded again, whatever bytes follow it: to the same type, flags and payload, and to the number
-- of bytes that were written.
pub decode-encode :
    (t f : ℕ) (p rest : List ℕ)
    → t < 2 ^ 16
    → f < 2 ^ 16
    → ((max_control_frame < 4 + length p) × (encode_frame t f p ≡ err too_large))
      ⊎ ((bs : List ℕ) × (4 + length p ≤ max_control_frame)
          × (encode_frame t f p ≡ ok bs)
          × (decode_frame (bs ++ rest)
              ≡ ok (record { msg_type = t; flags = f; payload = p }, length bs)))
unfolding encode_frame
decode-encode t f p rest ht hf = elim (dec_lt max_control_frame (4 + length p)) [
  | yes big ↦ inl (big, ground arith)
  | no fits ↦ inr (headed (4 + length p) t f p, omega arith, ground arith, written (omega arith))
]
  where
    around : headed (4 + length p) t f p ++ rest ≡ headed (4 + length p) t f (p ++ rest)
    around = unfold le_bytes in refl

    size : 4 + (4 + length p) ≡ length (headed (4 + length p) t f p)
    size = unfold le_bytes in omega arith

    written :
        4 + length p ≤ max_control_frame
        → decode_frame (headed (4 + length p) t f p ++ rest)
          ≡ ok (
            record { msg_type = t; flags = f; payload = p },
            length (headed (4 + length p) t f p),
          )
    written fits = rw (around, ← size) (decode_headed t f p rest ht hf fits)

-- A buffer of fewer than eight bytes holds no frame.
short_fails : (buf : List ℕ) {r : Frame × ℕ} → length buf < 8 → decode_frame buf ≢ ok r
unfolding decode_frame slice
short_fails buf h e = ground arith

module _ (a b c d t u f g : ℕ) where
  encode-take :
      (n : ℕ) (body : List ℕ)
      → All IsByte (eight a b c d t u f g body)
      → le_value (a ∷ b ∷ c ∷ d ∷ []) ≡ 4 + n
      → 4 + n ≤ max_control_frame
      → n ≤ length body
      → encode_frame (le_value (t ∷ u ∷ [])) (le_value (f ∷ g ∷ [])) (take n body)
        ≡ ok (take (4 + (4 + n)) (eight a b c d t u f g body))
  unfolding encode_frame
  encode-take n body (ha, (hb, (hc, (hd, (ht, (hu, (hf, (hg, _)))))))) e hp hl =
      let total : 4 + (4 + n) ≡ suc (suc (suc (suc (suc (suc (suc (suc n))))))) = omega arith in
      let size : le_bytes 4 (4 + n) ≡ a ∷ b ∷ c ∷ d ∷ [] =
        rw (← e) (le_bytes-le_value (a ∷ b ∷ c ∷ d ∷ []) (ha, (hb, (hc, (hd, tt))))) in
      let types = le_bytes-le_value (t ∷ u ∷ []) (ht, (hu, tt)) in
      let flag_bytes = le_bytes-le_value (f ∷ g ∷ []) (hf, (hg, tt)) in
      rw total (ground (arith, length-take n body, size, types, flag_bytes))

  encode-decode_eight :
      (body : List ℕ) (fr : Frame) (total : ℕ)
      → All IsByte (eight a b c d t u f g body)
      → decode_frame (eight a b c d t u f g body) ≡ ok (fr, total)
      → (encode_frame fr.msg_type fr.flags fr.payload
          ≡ ok (take total (eight a b c d t u f g body)))
        × (total ≤ length (eight a b c d t u f g body))
        × (total ≤ 4 + max_control_frame)
  encode-decode_eight body fr total bytes e = elim (decode_cases a b c d t u f g body) [
    | inl (_, bad) ↦ cc
    | inr (inl (_, bad)) ↦ cc
    | inr (inr (inl (_, bad))) ↦ cc
    | inr (inr (inr (n, len, hp, hl))) ↦
        let whole = decode_whole a b c d t u f g n body len (omega arith) hl in
        ground (arith, whole, encode-take n body bytes len (omega arith) hl)
  ]

-- Whatever decodes is the encoding of what it decodes to: of all byte strings only one decodes
-- wholly to a given type, flags and payload. The count that is returned does not exceed the buffer,
-- nor the cap with the length field.
pub encode-decode :
    (buf : List ℕ) (fr : Frame) (total : ℕ)
    → All IsByte buf
    → decode_frame buf ≡ ok (fr, total)
    → (encode_frame fr.msg_type fr.flags fr.payload ≡ ok (take total buf))
      × (total ≤ length buf)
      × (total ≤ 4 + max_control_frame)
encode-decode (a ∷ b ∷ c ∷ d ∷ t ∷ u ∷ f ∷ g ∷ body) fr total bytes e =
    encode-decode_eight a b c d t u f g body fr total bytes e
encode-decode buf fr total bytes e = absurd (short_fails buf (omega arith) e)
