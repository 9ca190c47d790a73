-- ===== src/Files/Transfer/Flight.antt =====
-- What is under way between the two ends of a transfer, seen from one file, and how a message that
-- is sent, received or answered changes it (crates/mouser-files/src/sender.rs and receiver.rs).
use mouser.Prelude.{
  ℕ, zero, suc, ◌+◌, ◌≤◌, ◌≡◌, ◌≢◌, refl, sym, ap, ◌∙◌, true, ◌⊎◌, inl, inr, List, [], ◌∷◌, ◌++◌,
  some, ok, length, get_elem?, set, take, some-inj, arith,
}
use mouser.Prelude.Sat.{u64_max}
use mouser.Files.Types.{Hash, FileChunk}
use mouser.Files.Path.{PathLib}
use mouser.Files.Sink.{mem_source, mem_sink}
use mouser.Files.Sender.{Track}
use mouser.Files.Receiver.{Outbound, accept, reject, ack, done, Slot, is_ok_digest}
use mouser.Files.Transfer.Poll.{IsNext}

-- The chunks of file `i` lead from what the receiver holds to what the sender has sent.
unfoldable pub Flight : ℕ → List ℕ → ℕ → List FileChunk → ℕ → Type 0
Flight i src pos [] sent = pos ≡ sent
Flight i src pos (c ∷ cs) sent =
    ((c.file_index ≡ i) × IsNext src pos c × Flight i src (pos + length c.bytes) cs sent)
    ⊎ ((c.file_index ≢ i) × Flight i src pos cs sent)

-- The acknowledgements of file `i` rise from what the sender knows to what the receiver holds.
unfoldable pub Acks : ℕ → ℕ → List Outbound → ℕ → Type 0
Acks i acked [] held = acked ≡ held
Acks i acked (ack a ∷ os) held =
    ((a.file_index ≡ i) × (acked ≤ a.acked_through) × Acks i a.acked_through os held)
    ⊎ ((a.file_index ≢ i) × Acks i acked os held)
Acks i acked (done d ∷ os) held = Acks i acked os held
Acks i acked (accept m ∷ os) held = Acks i acked os held
Acks i acked (reject m ∷ os) held = Acks i acked os held

pub Flight-le :
    (i : ℕ) (src : List ℕ) (pos : ℕ) (cs : List FileChunk) (sent : ℕ)
    → Flight i src pos cs sent
    → pos ≤ sent
unfolding Flight
Flight-le i src pos [] sent h = omega (arith, h)
Flight-le i src pos (c ∷ cs) sent (inl (e, n, h)) =
    omega (arith, Flight-le i src (pos + length c.bytes) cs sent h)
Flight-le i src pos (c ∷ cs) sent (inr (e, h)) = Flight-le i src pos cs sent h

pub Acks-le : (i acked : ℕ) (os : List Outbound) (held : ℕ) → Acks i acked os held → acked ≤ held
unfolding Acks
Acks-le i acked [] held h = omega (arith, h)
Acks-le i acked (ack a ∷ os) held (inl (e, l, h)) =
    omega (arith, l, Acks-le i a.acked_through os held h)
Acks-le i acked (ack a ∷ os) held (inr (e, h)) = Acks-le i acked os held h
Acks-le i acked (done d ∷ os) held h = Acks-le i acked os held h
Acks-le i acked (accept m ∷ os) held h = Acks-le i acked os held h
Acks-le i acked (reject m ∷ os) held h = Acks-le i acked os held h

pub Flight-send :
    (i : ℕ) (src : List ℕ) (pos : ℕ) (cs : List FileChunk) (sent : ℕ) (c : FileChunk)
    → Flight i src pos cs sent
    → c.file_index ≡ i
    → IsNext src sent c
    → Flight i src pos (cs ++ c ∷ []) (sent + length c.bytes)
unfolding Flight
Flight-send i src pos [] sent c h e n = inl (e, rw (h) n, ap (λ p. p + length c.bytes) h)
Flight-send i src pos (d ∷ cs) sent c (inl (q, m, h)) e n =
    inl (q, m, Flight-send i src (pos + length d.bytes) cs sent c h e n)
Flight-send i src pos (d ∷ cs) sent c (inr (q, h)) e n =
    inr (q, Flight-send i src pos cs sent c h e n)

pub Flight-send_other :
    (i : ℕ) (src : List ℕ) (pos : ℕ) (cs : List FileChunk) (sent : ℕ) (c : FileChunk)
    → Flight i src pos cs sent
    → c.file_index ≢ i
    → Flight i src pos (cs ++ c ∷ []) sent
unfolding Flight
Flight-send_other i src pos [] sent c h e = inr (e, h)
Flight-send_other i src pos (d ∷ cs) sent c (inl (q, m, h)) e =
    inl (q, m, Flight-send_other i src (pos + length d.bytes) cs sent c h e)
Flight-send_other i src pos (d ∷ cs) sent c (inr (q, h)) e =
    inr (q, Flight-send_other i src pos cs sent c h e)

-- Messages that the receiver adds, which lead from what it held to what it holds.
pub Acks-append :
    (i acked : ℕ) (os out : List Outbound) (held held' : ℕ)
    → Acks i acked os held
    → Acks i held out held'
    → Acks i acked (os ++ out) held'
unfolding Acks
Acks-append i acked [] out held held' h f = rw (h) f
Acks-append i acked (ack a ∷ os) out held held' (inl (e, l, h)) f =
    inl (e, l, Acks-append i a.acked_through os out held held' h f)
Acks-append i acked (ack a ∷ os) out held held' (inr (e, h)) f =
    inr (e, Acks-append i acked os out held held' h f)
Acks-append i acked (done d ∷ os) out held held' h f = Acks-append i acked os out held held' h f
Acks-append i acked (accept d ∷ os) out held held' h f = Acks-append i acked os out held held' h f
Acks-append i acked (reject d ∷ os) out held held' h f = Acks-append i acked os out held held' h f

module _ (lib : PathLib) (sha256 : List ℕ → Hash) where
  -- What the two ends and the stream between them have of file `i`.
  pub record FileInv (i : ℕ) (t : Track mem_source) (p : Slot lib (mem_sink sha256))
      (cs : List FileChunk) (os : List Outbound) : Type 0 where
    pub size : t.size ≡ length t.src
    pub same_size : p.size ≡ t.size
    pub machine : t.size ≤ u64_max
    pub within : t.sent ≤ t.size
    pub held : p.snk ≡ take p.acked t.src
    pub expected : is_ok_digest lib (mem_sink sha256) p.expected (ok (sha256 t.src)) ≡ true
    pub flight : Flight i t.src p.acked cs t.sent
    pub acks : Acks i t.acked os p.acked

  -- The same of all files, from index `b` on.
  unfoldable pub FilesInv :
      ℕ
      → List (Track mem_source)
      → List (Slot lib (mem_sink sha256))
      → List FileChunk
      → List Outbound
      → Type 0
  FilesInv b [] [] cs os = Unit {0}
  FilesInv b [] (p ∷ ps) cs os = ⊥
  FilesInv b (t ∷ ts) [] cs os = ⊥
  FilesInv b (t ∷ ts) (p ∷ ps) cs os = FileInv b t p cs os × FilesInv (suc b) ts ps cs os

  shift : (b k : ℕ) → suc b + k ≡ b + suc k
  shift b k = omega arith

  shift_zero : (b : ℕ) → b + 0 ≡ b
  shift_zero b = omega arith

  pub FilesInv-all :
      (b : ℕ) (ts : List (Track mem_source)) (ps : List (Slot lib (mem_sink sha256)))
      (cs cs' : List FileChunk) (os os' : List Outbound)
      → FilesInv b ts ps cs os
      → ((i : ℕ) (u : Track mem_source) (q : Slot lib (mem_sink sha256))
          → b ≤ i
          → FileInv i u q cs os
          → FileInv i u q cs' os')
      → FilesInv b ts ps cs' os'
  unfolding FilesInv
  FilesInv-all b [] [] cs cs' os os' h f = tt
  FilesInv-all b [] (p ∷ ps) cs cs' os os' h f = absurd h
  FilesInv-all b (t ∷ ts) [] cs cs' os os' h f = absurd h
  FilesInv-all b (t ∷ ts) (p ∷ ps) cs cs' os os' (h, hs) f = (
    f b t p (omega arith) h,
    FilesInv-all (suc b) ts ps cs cs' os os' hs (λ i v r l. f i v r (omega (arith, l))),
  )

  pub FilesInv-track :
      (b k : ℕ) (ts : List (Track mem_source)) (ps : List (Slot lib (mem_sink sha256)))
      (cs : List FileChunk) (os : List Outbound) (t : Track mem_source)
      → FilesInv b ts ps cs os
      → get_elem? ts k ≡ some t
      → (p : Slot lib (mem_sink sha256)) × (get_elem? ps k ≡ some p) × FileInv (b + k) t p cs os
  unfolding FilesInv
  FilesInv-track b k [] ps cs os t h e = cc
  FilesInv-track b k (u ∷ ts) [] cs os t h e = absurd h
  FilesInv-track b zero (u ∷ ts) (p ∷ ps) cs os t (h, hs) e =
      (p, refl, rw (shift_zero b, sym (some-inj e)) h)
  FilesInv-track b (suc k) (u ∷ ts) (p ∷ ps) cs os t (h, hs) e =
      let (q, f, g) = FilesInv-track (suc b) k ts ps cs os t hs e in (q, f, rw (shift b k) at g)

  pub FilesInv-update :
      (b k : ℕ) (ts : List (Track mem_source)) (ps : List (Slot lib (mem_sink sha256)))
      (cs cs' : List FileChunk) (os os' : List Outbound) (t : Track mem_source)
      (p : Slot lib (mem_sink sha256))
      → FilesInv b ts ps cs os
      → ((i : ℕ) (u : Track mem_source) (q : Slot lib (mem_sink sha256))
          → i ≢ b + k
          → FileInv i u q cs os
          → FileInv i u q cs' os')
      → FileInv (b + k) t p cs' os'
      → FilesInv b (set ts k t) (set ps k p) cs' os'
  unfolding FilesInv
  FilesInv-update b k [] [] cs cs' os os' t p h f g = tt
  FilesInv-update b k [] (q ∷ ps) cs cs' os os' t p h f g = absurd h
  FilesInv-update b k (u ∷ ts) [] cs cs' os os' t p h f g = absurd h
  FilesInv-update b zero (u ∷ ts) (q ∷ ps) cs cs' os os' t p (h, hs) f g = (
    rw (shift_zero b) at g,
    FilesInv-all (suc b) ts ps cs cs' os os' hs (λ i v r l. f i v r (omega (arith, l))),
  )
  FilesInv-update b (suc k) (u ∷ ts) (q ∷ ps) cs cs' os os' t p (h, hs) f g = (
    f b u q (omega arith) h,
    FilesInv-update (suc b) k ts ps cs cs' os os' t p hs
        (λ i v r e. f i v r (λ x. e (x ∙ sym (shift b k)))) (rw (sym (shift b k)) at g),
  )
