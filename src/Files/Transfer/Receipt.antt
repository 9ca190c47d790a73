-- ===== src/Files/Transfer/Receipt.antt =====
-- What a message does to the files when it is sent, received or answered
-- (crates/mouser-files/src/sender.rs and receiver.rs).
use mouser.Prelude.{
  ℕ, ◌+◌, ◌≤◌, ◌≡◌, ◌≢◌, refl, sym, ap, ◌∙◌, inl, inr, List, [], ◌∷◌, ◌++◌, Option, none, some,
  length, take, take-add, arith,
}
use mouser.Files.Types.{Hash, FileChunk, FileAck, FileDone}
use mouser.Files.Path.{PathLib}
use mouser.Files.Sink.{mem_source, mem_sink}
use mouser.Files.Sender.{Track}
use mouser.Files.Receiver.{Outbound, ack, done, Slot, done_list}
use mouser.Files.Transfer.Poll.{IsNext}
use mouser.Files.Transfer.Flight.{
  Flight, Acks, Acks-le, Flight-le, Flight-send, Flight-send_other, Acks-append, FileInv,
}

module _ (lib : PathLib) (sha256 : List ℕ → Hash) where
  pub sent_other :
      (i : ℕ) (t : Track mem_source) (p : Slot lib (mem_sink sha256)) (cs : List FileChunk)
      (os : List Outbound) (c : FileChunk)
      → c.file_index ≢ i
      → FileInv lib sha256 i t p cs os
      → FileInv lib sha256 i t p (cs ++ c ∷ []) os
  sent_other i t p cs os c e h = record {
    size = h.size;
    same_size = h.same_size;
    machine = h.machine;
    within = h.within;
    held = h.held;
    expected = h.expected;
    acks = h.acks;
    flight = Flight-send_other i t.src p.acked cs t.sent c h.flight e;
  }

  pub sent_this :
      (i : ℕ) (t : Track mem_source) (p : Slot lib (mem_sink sha256)) (cs : List FileChunk)
      (os : List Outbound) (c : FileChunk)
      → c.file_index ≡ i
      → IsNext t.src t.sent c
      → FileInv lib sha256 i t p cs os
      → FileInv lib sha256 i (record t { sent = t.sent + length c.bytes }) p (cs ++ c ∷ []) os
  sent_this i t p cs os c e n h = record {
    size = h.size;
    same_size = h.same_size;
    machine = h.machine;
    held = h.held;
    within = omega (arith, n.fits, h.size);
    expected = h.expected;
    acks = h.acks;
    flight = Flight-send i t.src p.acked cs t.sent c h.flight e n;
  }

  Acks-done_list :
      (i held : ℕ) (f : Option FileDone) → Acks i held (done_list lib (mem_sink sha256) f) held
  unfolding Acks
  Acks-done_list i held none = refl
  Acks-done_list i held (some d) = refl

  -- The messages that the receiver answers a chunk with.
  abbrev pub answer : FileAck → Option FileDone → List Outbound
  answer a f = ack a ∷ done_list lib (mem_sink sha256) f

  Flight-other :
      (i : ℕ) (src : List ℕ) (pos : ℕ) (c : FileChunk) (cs : List FileChunk) (sent : ℕ)
      → c.file_index ≢ i
      → Flight i src pos (c ∷ cs) sent
      → Flight i src pos cs sent
  unfolding Flight
  Flight-other i src pos c cs sent e (inl h) = absurd (e h.0)
  Flight-other i src pos c cs sent e (inr h) = h.1

  pub Flight-this :
      (i : ℕ) (src : List ℕ) (pos : ℕ) (c : FileChunk) (cs : List FileChunk) (sent : ℕ)
      → c.file_index ≡ i
      → Flight i src pos (c ∷ cs) sent
      → IsNext src pos c × Flight i src (pos + length c.bytes) cs sent
  unfolding Flight
  Flight-this i src pos c cs sent e (inl h) = (h.1, h.2)
  Flight-this i src pos c cs sent e (inr h) = absurd (h.0 e)

  pub received_other :
      (i : ℕ) (t : Track mem_source) (p : Slot lib (mem_sink sha256)) (c : FileChunk)
      (cs : List FileChunk) (os : List Outbound) (a : FileAck) (f : Option FileDone)
      → c.file_index ≢ i
      → a.file_index ≡ c.file_index
      → FileInv lib sha256 i t p (c ∷ cs) os
      → FileInv lib sha256 i t p cs (os ++ answer a f)
  unfolding Acks
  received_other i t p c cs os a f e q h = record {
    size = h.size;
    same_size = h.same_size;
    machine = h.machine;
    within = h.within;
    held = h.held;
    expected = h.expected;
    flight = Flight-other i t.src p.acked c cs t.sent e h.flight;
    acks =
        Acks-append i t.acked os (answer a f) p.acked p.acked h.acks
          (inr (λ x. e (sym q ∙ x), Acks-done_list i p.acked f));
  }

  pub received_this :
      (i : ℕ) (t : Track mem_source) (p : Slot lib (mem_sink sha256)) (c : FileChunk)
      (cs : List FileChunk) (os : List Outbound) (a : FileAck) (f : Option FileDone)
      → c.file_index ≡ i
      → a.file_index ≡ i
      → a.acked_through ≡ c.offset + length c.bytes
      → FileInv lib sha256 i t p (c ∷ cs) os
      → FileInv lib sha256 i t
          (record p { snk = p.snk ++ c.bytes; acked = c.offset + length c.bytes })
          cs
          (os ++ answer a f)
  unfolding Acks
  received_this i t p c cs os a f e q d h =
      let (n, rest) = Flight-this i t.src p.acked c cs t.sent e h.flight in
      let end : c.offset + length c.bytes ≡ p.acked + length c.bytes = omega (arith, n.at) in
      record {
        size = h.size;
        same_size = h.same_size;
        machine = h.machine;
        within = h.within;
        held =
            rw (end, h.held, sym (take-add p.acked (length c.bytes) t.src))
              (ap (λ x. take p.acked t.src ++ x) n.content);
        expected = h.expected;
        flight = rw (end) rest;
        acks = Acks-append i t.acked os (answer a f) p.acked (c.offset + length c.bytes) h.acks (
            inl
              (q, omega (arith, d, n.at), rw (d) (Acks-done_list i (c.offset + length c.bytes) f)));
      }

  Acks-rest :
      (i acked : ℕ) (a : FileAck) (os : List Outbound) (held : ℕ)
      → a.file_index ≢ i
      → Acks i acked (ack a ∷ os) held
      → Acks i acked os held
  unfolding Acks
  Acks-rest i acked a os held e (inl h) = absurd (e h.0)
  Acks-rest i acked a os held e (inr h) = h.1

  pub answered_other :
      (i : ℕ) (t : Track mem_source) (p : Slot lib (mem_sink sha256)) (cs : List FileChunk)
      (os : List Outbound) (a : FileAck)
      → a.file_index ≢ i
      → FileInv lib sha256 i t p cs (ack a ∷ os)
      → FileInv lib sha256 i t p cs os
  answered_other i t p cs os a e h = record {
    size = h.size;
    same_size = h.same_size;
    machine = h.machine;
    within = h.within;
    held = h.held;
    expected = h.expected;
    flight = h.flight;
    acks = Acks-rest i t.acked a os p.acked e h.acks;
  }

  Acks-this :
      (i acked : ℕ) (a : FileAck) (os : List Outbound) (held : ℕ)
      → a.file_index ≡ i
      → Acks i acked (ack a ∷ os) held
      → (acked ≤ a.acked_through) × Acks i a.acked_through os held
  unfolding Acks
  Acks-this i acked a os held e (inl h) = (h.1, h.2)
  Acks-this i acked a os held e (inr h) = absurd (h.0 e)

  -- An acknowledgement of this file is one that the sender takes.
  pub answered_this :
      (i : ℕ) (t : Track mem_source) (p : Slot lib (mem_sink sha256)) (cs : List FileChunk)
      (os : List Outbound) (a : FileAck)
      → a.file_index ≡ i
      → FileInv lib sha256 i t p cs (ack a ∷ os)
      → (t.acked ≤ a.acked_through)
        × (a.acked_through ≤ t.sent)
        × FileInv lib sha256 i (record t { acked = a.acked_through }) p cs os
  answered_this i t p cs os a e h =
      let (le, rest) = Acks-this i t.acked a os p.acked e h.acks in
      (
        le,
        omega (
          arith,
          Acks-le i a.acked_through os p.acked rest,
          Flight-le i t.src p.acked cs t.sent h.flight,
        ),
        record {
          size = h.size;
          same_size = h.same_size;
          machine = h.machine;
          within = h.within;
          held = h.held;
          expected = h.expected;
          flight = h.flight;
          acks = rest;
        },
      )

  pub answered_done :
      (i : ℕ) (t : Track mem_source) (p : Slot lib (mem_sink sha256)) (cs : List FileChunk)
      (os : List Outbound) (d : FileDone)
      → FileInv lib sha256 i t p cs (done d ∷ os)
      → FileInv lib sha256 i t p cs os
  unfolding Acks
  answered_done i t p cs os d h = record {
    size = h.size;
    same_size = h.same_size;
    machine = h.machine;
    within = h.within;
    held = h.held;
    expected = h.expected;
    flight = h.flight;
    acks = h.acks;
  }
