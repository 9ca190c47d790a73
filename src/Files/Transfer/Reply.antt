-- ===== src/Files/Transfer/Reply.antt =====
-- What the arrival of a response comes to, under the invariant of a transfer
-- (crates/mouser-files/src/sender.rs and receiver.rs).
use mouser.Prelude.{
  ℕ, zero, suc, ◌+◌, ◌-◌, ◌≤◌, ◌≡◌, refl, sym, ap, ◌∙◌, true, false, Bool-cases, inl, inr, List, [],
  ◌∷◌, some, ok, ltb, length, length-set, get_elem?, get_elem?-some, set, set-get_elem?, map-set,
  All, some-inj, arith,
}
use mouser.Files.Types.{Hash, FileChunk, FileAck, FileDone}
use mouser.Files.Path.{PathLib}
use mouser.Files.Sink.{mem_source, mem_sink}
use mouser.Files.Sender.{Track, Sender, on_ack, ack_track, on_done}
use mouser.Files.Receiver.{Outbound, accept, reject, ack, done, Slot}
use mouser.Files.Transfer.{Transfer, on_response}
use mouser.Files.Transfer.Outcome.{Inv, IsReplyOf, sources, unsent}
use mouser.Files.Transfer.Delivery.{zero_add, from_zero}
use mouser.Files.Transfer.Flight.{FileInv, FilesInv, FilesInv-track, FilesInv-update, FilesInv-all}
use mouser.Files.Transfer.Receipt.{answered_other, answered_this, answered_done}

module _ (lib : PathLib) (sha256 : List ℕ → Hash) where
  abbrev pub replying :
      Transfer lib sha256 → List Outbound → Sender mem_source → Transfer lib sha256
  replying x os s' = record x { sender = s'; responses = os }

  to_zero :
      (k : ℕ) (t : Track mem_source) (p : Slot lib (mem_sink sha256)) (cs : List FileChunk)
      (os : List Outbound)
      → FileInv lib sha256 k t p cs os
      → FileInv lib sha256 (0 + k) t p cs os
  to_zero k t p cs os h = rw (sym (zero_add lib sha256 k)) h

  foreign :
      (x : Transfer lib sha256) (o : Outbound) (os : List Outbound)
      → Inv lib sha256 x
      → x.responses ≡ o ∷ os
      → IsReplyOf x.sender.transfer_id (length x.sender.tracks) o
  foreign x o os h q =
      let responses : All (IsReplyOf x.sender.transfer_id (length x.sender.tracks)) (o ∷ os) =
        rw (q) at h.responses in
      responses.0

  ack_track_lem :
      (s : Sender mem_source) (a : FileAck) (t : Track mem_source)
      → get_elem? s.tracks a.file_index ≡ some t
      → t.acked ≤ a.acked_through
      → a.acked_through ≤ t.sent
      → t.sent ≤ t.size
      → ack_track mem_source s a (some t) ≡ (
        record s { tracks = set s.tracks a.file_index (record t { acked = a.acked_through }) },
        ok tt,
      )
  unfolding ack_track
  ack_track_lem s a t found rise sent size =
      let t1 : ltb t.size a.acked_through ≡ false = ground (arith, sent, size) in
      let t2 : ltb t.sent a.acked_through ≡ false = ground (arith, sent) in
      elim (Bool-cases (ltb t.acked a.acked_through)) [
        | inl e ↦ rw (t1, t2, e) refl
        | inr e ↦
            (let same : t.acked ≡ a.acked_through = ground (arith, rise, e) in
              rw (t1, t2, e)
                (ap (λ ts. (record s { tracks = ts }, ok tt))
                  (sym (
                    set-get_elem? s.tracks a.file_index _
                      (found ∙ ap (λ n. some (record t { acked = n })) same)))))
      ]

  unsent-acked :
      (ts : List (Track mem_source)) (k n : ℕ) (t : Track mem_source)
      → get_elem? ts k ≡ some t
      → unsent lib sha256 (set ts k (record t { acked = n })) ≡ unsent lib sha256 ts
  unsent-acked [] k n t e = refl
  unsent-acked (u ∷ ts) zero n t e = rw (some-inj e) refl
  unsent-acked (u ∷ ts) (suc k) n t e = ap (λ m. (u.size - u.sent) + m) (unsent-acked ts k n t e)

  on_ack_lem :
      (s : Sender mem_source) (a : FileAck)
      → a.transfer_id ≡ s.transfer_id
      → s.accepted ≡ true
      → on_ack mem_source s a ≡ ack_track mem_source s a (get_elem? s.tracks a.file_index)
  unfolding on_ack
  on_ack_lem s a e h = ground (arith, e, h)

  ack_Inv :
      (x : Transfer lib sha256) (a : FileAck) (os : List Outbound) (t : Track mem_source)
      (p : Slot lib (mem_sink sha256))
      → Inv lib sha256 x
      → x.responses ≡ ack a ∷ os
      → get_elem? x.receiver.slots a.file_index ≡ some p
      → FileInv lib sha256 (0 + a.file_index) (record t { acked = a.acked_through }) p x.chunks os
      → Inv lib sha256 (
          replying x os (record x.sender {
            tracks = set x.sender.tracks a.file_index (record t { acked = a.acked_through });
          }))
  ack_Inv x a os t p h q found inv =
      let responses : All (IsReplyOf x.sender.transfer_id (length x.sender.tracks)) (ack a ∷ os) =
        rw (q) at h.responses in
      let same = length-set x.sender.tracks a.file_index (record t { acked = a.acked_through }) in
      record {
        transfer_id = h.transfer_id;
        accepted = h.accepted;
        sender_lives = h.sender_lives;
        receiver_lives = h.receiver_lives;
        some_bytes = h.some_bytes;
        small = h.small;
        some_files = rw (same) h.some_files;
        few = rw (same) h.few;
        files = rw (sym (set-get_elem? x.receiver.slots a.file_index p found)) (
            FilesInv-update lib sha256 0 a.file_index x.sender.tracks x.receiver.slots x.chunks
              x.chunks (ack a ∷ os) os _ p (rw (q) at h.files)
              (λ i u v ne g.
                answered_other lib sha256 i u v x.chunks os a
                  (λ e. ne (sym e ∙ zero_add lib sha256 a.file_index)) g)
              inv);
        settled = h.settled;
        chunks = rw (same) h.chunks;
        responses = rw (same) responses.1;
      }

  on_done_lem :
      (s : Sender mem_source) (d : FileDone)
      → d.transfer_id ≡ s.transfer_id
      → d.is_ok ≡ true
      → on_done mem_source s d ≡ (s, ok tt)
  unfolding on_done
  on_done_lem s d e h = ground (arith, e, h)

  -- What the answer to one response comes to.
  pub record Answered (x : Transfer lib sha256) (o : Outbound) (os : List Outbound) : Type 0 where
    pub s' : Sender mem_source
    pub runs : on_response x.sender o ≡ (s', ok tt)
    pub inv : Inv lib sha256 (replying x os s')
    pub same_unsent : unsent lib sha256 s'.tracks ≡ unsent lib sha256 x.sender.tracks
    pub same_sources : sources lib sha256 (replying x os s') ≡ sources lib sha256 x

  ack_outcome :
      (x : Transfer lib sha256) (a : FileAck) (os : List Outbound)
      → Inv lib sha256 x
      → x.responses ≡ ack a ∷ os
      → Answered x (ack a) os
  unfolding on_response
  ack_outcome x a os h q =
      let responses : All (IsReplyOf x.sender.transfer_id (length x.sender.tracks)) (ack a ∷ os) =
        rw (q) at h.responses in
      let files : FilesInv lib sha256 0 x.sender.tracks x.receiver.slots x.chunks (ack a ∷ os) =
        rw (q) at h.files in
      let (t, found) = get_elem?-some x.sender.tracks a.file_index responses.0.1 in
      let (p, slot, inv0) =
        FilesInv-track lib sha256 0 a.file_index x.sender.tracks x.receiver.slots x.chunks
          (ack a ∷ os) t files found in
      let inv = from_zero lib sha256 a.file_index t p x.chunks (ack a ∷ os) inv0 in
      let (rise, sent, after) = answered_this lib sha256 a.file_index t p x.chunks os a refl inv in
      let next = to_zero a.file_index _ p x.chunks os after in
      let run =
        on_ack_lem x.sender a responses.0.0 h.accepted
        ∙ ap (ack_track mem_source x.sender a) found
        ∙ ack_track_lem x.sender a t found rise sent inv.within in
      record {
        s' = record x.sender {
          tracks = set x.sender.tracks a.file_index (record t { acked = a.acked_through });
        };
        runs = rw (run) refl;
        inv = ack_Inv x a os t p h q slot next;
        same_unsent = unsent-acked x.sender.tracks a.file_index a.acked_through t found;
        same_sources = map-set (λ u. u.src) x.sender.tracks a.file_index _ t found refl;
      }

  done_outcome :
      (x : Transfer lib sha256) (d : FileDone) (os : List Outbound)
      → Inv lib sha256 x
      → x.responses ≡ done d ∷ os
      → Answered x (done d) os
  unfolding on_response
  done_outcome x d os h q =
      let responses : All (IsReplyOf x.sender.transfer_id (length x.sender.tracks)) (done d ∷ os) =
        rw (q) at h.responses in
      let files : FilesInv lib sha256 0 x.sender.tracks x.receiver.slots x.chunks (done d ∷ os) =
        rw (q) at h.files in
      record {
        s' = x.sender;
        runs = rw (on_done_lem x.sender d responses.0.0 responses.0.1) refl;
        inv = record {
          transfer_id = h.transfer_id;
          accepted = h.accepted;
          sender_lives = h.sender_lives;
          receiver_lives = h.receiver_lives;
          some_bytes = h.some_bytes;
          small = h.small;
          some_files = h.some_files;
          few = h.few;
          files =
              FilesInv-all lib sha256 0 x.sender.tracks x.receiver.slots x.chunks x.chunks
                (done d ∷ os) os files
                (λ i u v _ g. answered_done lib sha256 i u v x.chunks os d g);
          settled = h.settled;
          chunks = h.chunks;
          responses = responses.1;
        };
        same_unsent = refl;
        same_sources = refl;
      }

  -- Every response that arrives is one that the sender takes without an error.
  pub respond_outcome :
      (x : Transfer lib sha256) (o : Outbound) (os : List Outbound)
      → Inv lib sha256 x
      → x.responses ≡ o ∷ os
      → Answered x o os
  respond_outcome x (ack a) os h q = ack_outcome x a os h q
  respond_outcome x (done d) os h q = done_outcome x d os h q
  respond_outcome x (accept m) os h q = absurd (foreign x (accept m) os h q)
  respond_outcome x (reject m) os h q = absurd (foreign x (reject m) os h q)
