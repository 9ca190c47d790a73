-- ===== src/Files/Transfer/Runs.antt =====
-- What every sequence of steps of the two ends comes to, in whatever order they take their turns
-- (crates/mouser-files/src/sender.rs and receiver.rs, as
-- crates/mouser-engine/src/daemon/file_transfer.rs drives them).
use mouser.Prelude.{
  ℕ, suc, ◌+◌, ◌*◌, ◌≤◌, ◌≡◌, ◌≢◌, refl, sym, ap, ◌∙◌, true, false, inl, inr, List, [], ◌∷◌, map,
  some, ok, err, leb, length, ◌==◌, length-append, All, arith,
}
use mouser.Files.Types.{Hash, FileChunk, FileError}
use mouser.Files.Path.{PathLib}
use mouser.Files.Sink.{mem_source, mem_sink}
use mouser.Files.Sender.{Track, Sender, poll_chunk, is_sendable, all_acked}
use mouser.Files.Receiver
use mouser.Files.Sender
use mouser.Files.Receiver.{Outbound, Slot, Receiver, on_chunk, all_complete}
use mouser.Files.Transfer.{
  Transfer, on_response, Step, send, receive, respond, Steps, here, after, StreamError,
}
use mouser.Files.Transfer.Flight.{Flight, Acks, FileInv, FilesInv}
use mouser.Files.Transfer.Outcome.{Inv, IsSettled, sources, unsent, sending, send_outcome}
use mouser.Files.Transfer.Delivery.{receiving, receive_outcome}
use mouser.Files.Transfer.Settle.{whole_file}
use mouser.Files.Transfer.Reply.{replying, respond_outcome}

module _ (lib : PathLib) (sha256 : List ℕ → Hash) where
  -- A bound on the steps that are left.
  abbrev pub weight : Transfer lib sha256 → ℕ
  weight x = 4 * unsent lib sha256 x.sender.tracks + 3 * length x.chunks + length x.responses

  abbrev pub sunk : Transfer lib sha256 → List (List ℕ)
  sunk x = map (λ (p : Slot lib (mem_sink sha256)). p.snk) x.receiver.slots

  -- What a step keeps, and that it comes closer to the end.
  record Progress (x y : Transfer lib sha256) : Type 0 where
    inv : Inv lib sha256 y
    less : suc (weight y) ≤ weight x
    same : sources lib sha256 y ≡ sources lib sha256 x

  step_send :
      (x : Transfer lib sha256) (s' : Sender mem_source) (c : FileChunk)
      → Inv lib sha256 x
      → poll_chunk mem_source x.sender ≡ (s', ok (some c))
      → Progress x (sending lib sha256 x s' c)
  step_send x s' c h e = elim (send_outcome lib sha256 x h) [
    | inl (q, _) ↦ cc
    | inr (t, d, q, inv, less, same) ↦
        (let e1 : t ≡ s' = cc in
          let e2 : d ≡ c = cc in
          rw (sym e1, sym e2)
            (record {
              inv = inv;
              less = omega (arith, less, length-append x.chunks (d ∷ []));
              same = same;
            }))
  ]

  step_receive :
      (x : Transfer lib sha256) (c : FileChunk) (cs : List FileChunk)
      (r' : Receiver lib (mem_sink sha256)) (out : List Outbound)
      → Inv lib sha256 x
      → x.chunks ≡ c ∷ cs
      → on_chunk lib (mem_sink sha256) x.receiver c ≡ (r', ok out)
      → Progress x (receiving lib sha256 x cs r' out)
  step_receive x c cs r' out h q e =
      let (r2, out2, run, inv, short) = receive_outcome lib sha256 x c cs h q in
      let e1 : r2 ≡ r' = cc in
      let e2 : out2 ≡ out = cc in
      let count : length x.chunks ≡ suc (length cs) = ap length q in
      rw (sym e1, sym e2)
        (record {
          inv = inv;
          less = omega (arith, count, length-append x.responses out2, short);
          same = refl;
        })

  step_respond :
      (x : Transfer lib sha256) (o : Outbound) (os : List Outbound) (s' : Sender mem_source)
      → Inv lib sha256 x
      → x.responses ≡ o ∷ os
      → on_response x.sender o ≡ (s', ok tt)
      → Progress x (replying lib sha256 x os s')
  step_respond x o os s' h q e =
      let a = respond_outcome lib sha256 x o os h q in
      let run = a.runs in
      let e1 : a.s' ≡ s' = ap (λ m. m.0) (sym run ∙ e) in
      let count : length x.responses ≡ suc (length os) = ap length q in
      rw (sym e1)
        (record { inv = a.inv; less = omega (arith, count, a.same_unsent); same = a.same_sources })

  step_lem : (x y : Transfer lib sha256) → Step lib sha256 x y → Inv lib sha256 x → Progress x y
  step_lem _ _ (send s s' cs r os c e) h = step_send _ s' c h e
  step_lem _ _ (receive s cs r r' os out c e) h = step_receive _ c cs r' out h refl e
  step_lem _ _ (respond s s' cs r os o e) h = step_respond _ o os s' h refl e

  -- What any number of steps keep.
  steps_lem :
      (n : ℕ) (x y : Transfer lib sha256)
      → Steps lib sha256 n x y
      → Inv lib sha256 x
      → Inv lib sha256 y × (n + weight y ≤ weight x) × (sources lib sha256 y ≡ sources lib sha256 x)
  steps_lem _ _ _ (here x) h = (h, omega arith, refl)
  steps_lem _ _ _ (after n x y z run step) h =
      let (inv, less, same) = steps_lem n x y run h in
      let p = step_lem y z step inv in (p.inv, omega (arith, less, p.less), p.same ∙ same)

  -- No step leads on.
  abbrev pub IsStuck : Transfer lib sha256 → Type 0
  IsStuck x = (y : Transfer lib sha256) → ¬ Step lib sha256 x y

  abbrev IsIdle : Track mem_source → Type 0
  IsIdle t = is_sendable mem_source t ≡ false

  -- The two ends with nothing under way.
  abbrev drained : Sender mem_source → Receiver lib (mem_sink sha256) → Transfer lib sha256
  drained s r = record { sender = s; chunks = []; receiver = r; responses = [] }

  stuck_lem :
      (s : Sender mem_source) (cs : List FileChunk) (r : Receiver lib (mem_sink sha256))
      (os : List Outbound)
      → Inv lib sha256 (record { sender = s; chunks = cs; receiver = r; responses = os })
      → IsStuck (record { sender = s; chunks = cs; receiver = r; responses = os })
      → Inv lib sha256 (drained s r) × All IsIdle s.tracks
  stuck_lem s (c ∷ cs) r os h stuck =
      let (r', out, run, _, _) = receive_outcome lib sha256 _ c cs h refl in
      absurd (stuck _ (receive s cs r r' os out c run))
  stuck_lem s [] r (o ∷ os) h stuck =
      let a = respond_outcome lib sha256 _ o os h refl in
      absurd (stuck _ (respond s a.s' [] r os o a.runs))
  stuck_lem s [] r [] h stuck = elim (send_outcome lib sha256 _ h) [
    | inl (_, idle) ↦ (h, idle)
    | inr (s', c, run, _, _, _) ↦ absurd (stuck _ (send s s' [] r [] c run))
  ]

  idle_file :
      (i : ℕ) (t : Track mem_source) (p : Slot lib (mem_sink sha256))
      → FileInv lib sha256 i t p [] []
      → IsIdle t
      → (t.size ≤ t.acked) × (p.size ≤ p.acked)
  unfolding Flight Acks
  idle_file i t p h idle =
      let flight : p.acked ≡ t.sent = h.flight in
      let acks : t.acked ≡ p.acked = h.acks in
      let sent : t.size ≤ t.sent = ground (arith, idle, flight, acks) in
      (omega (arith, sent, flight, acks), omega (arith, sent, flight, h.same_size))

  idle_files :
      (b : ℕ) (ts : List (Track mem_source)) (ps : List (Slot lib (mem_sink sha256)))
      → FilesInv lib sha256 b ts ps [] []
      → All IsIdle ts
      → All (IsSettled lib sha256) ps
      → (all_acked mem_source ts ≡ true)
        × (all_complete lib (mem_sink sha256) ps ≡ true)
        × (map (λ (p : Slot lib (mem_sink sha256)). p.snk) ps
            ≡ map (λ (t : Track mem_source). t.src) ts)
        × (length ps ≡ length ts)
  unfolding FilesInv all_acked all_complete
  idle_files b [] [] h i q = (refl, refl, refl, refl)
  idle_files b [] (p ∷ ps) h i q = absurd h
  idle_files b (t ∷ ts) [] h i q = absurd h
  idle_files b (t ∷ ts) (p ∷ ps) (h, hs) (i, is) (q, qs) =
      let (acked, complete, bytes, len) = idle_files (suc b) ts ps hs is qs in
      let (t1, p1) = idle_file b t p h i in
      let e1 : leb t.size t.acked ≡ true = ground (arith, t1) in
      let e2 : leb p.size p.acked ≡ true = ground (arith, p1) in
      (
        rw (e1) acked,
        rw (q, e2) complete,
        rw (whole_file lib sha256 b t p [] [] h p1, bytes) refl,
        ap suc len,
      )

  finished :
      (s : Sender mem_source) (cs : List FileChunk) (r : Receiver lib (mem_sink sha256))
      (os : List Outbound)
      → Inv lib sha256 (record { sender = s; chunks = cs; receiver = r; responses = os })
      → IsStuck (record { sender = s; chunks = cs; receiver = r; responses = os })
      → (Sender.is_complete mem_source s ≡ true)
        × (Receiver.is_complete lib (mem_sink sha256) r ≡ true)
        × (map (λ (p : Slot lib (mem_sink sha256)). p.snk) r.slots
            ≡ map (λ (t : Track mem_source). t.src) s.tracks)
  unfolding Sender.is_complete Receiver.is_complete
  finished s cs r os h stuck =
      let (inv, idle) = stuck_lem s cs r os h stuck in
      let (acked, complete, bytes, len) =
        idle_files 0 s.tracks r.slots inv.files idle inv.settled in
      let nonempty : (length r.slots == 0) ≡ false = ground (arith, len, inv.some_files) in
      (rw (inv.sender_lives, acked) refl, rw (inv.receiver_lives, complete, nonempty) refl, bytes)

  -- Every run of the two ends is finite, whatever the order of their turns: it has at most four steps
  -- for each byte that is not sent, three for each chunk under way and one for each response.
  pub steps-weight :
      (n : ℕ) (x y : Transfer lib sha256) → Inv lib sha256 x → Steps lib sha256 n x y → n ≤ weight x
  steps-weight n x y h run = omega (arith, (steps_lem n x y run h).1)

  -- A run that cannot go on has done the transfer: both ends count as complete, nothing is aborted, and
  -- the sinks hold the bytes of the sources, file by file.
  pub steps-is_complete :
      (n : ℕ) (x y : Transfer lib sha256)
      → Inv lib sha256 x
      → Steps lib sha256 n x y
      → IsStuck y
      → (Sender.is_complete mem_source y.sender ≡ true)
        × (Receiver.is_complete lib (mem_sink sha256) y.receiver ≡ true)
        × (sunk y ≡ sources lib sha256 x)
  steps-is_complete n x y h run stuck =
      let (inv, _, same) = steps_lem n x y run h in
      let (s, r, bytes) = finished y.sender y.chunks y.receiver y.responses inv stuck in
      (s, r, bytes ∙ same)

  -- None of the three things that may happen next ends in an error.
  pub record Goes (x : Transfer lib sha256) : Type 0 where
    pub poll :
        (s' : Sender mem_source) (e : FileError) → poll_chunk mem_source x.sender ≢ (s', err e)
    pub chunk :
        (c : FileChunk) (cs : List FileChunk) (r' : Receiver lib (mem_sink sha256)) (e : FileError)
        → x.chunks ≡ c ∷ cs
        → on_chunk lib (mem_sink sha256) x.receiver c ≢ (r', err e)
    pub response :
        (o : Outbound) (os : List Outbound) (s' : Sender mem_source) (e : StreamError)
        → x.responses ≡ o ∷ os
        → on_response x.sender o ≢ (s', err e)

  Inv-Goes : (x : Transfer lib sha256) → Inv lib sha256 x → Goes x
  Inv-Goes x h = record {
    poll = λ s' e q. elim (send_outcome lib sha256 x h) [
      | inl (run, _) ↦ cc
      | inr (_, _, run, _, _, _) ↦ cc
    ];
    chunk =
        λ c cs r' e q bad. (let (_, _, run, _, _) = receive_outcome lib sha256 x c cs h q in cc);
    response = λ o os s' e q bad.
        (let a = respond_outcome lib sha256 x o os h q in let run = a.runs in cc);
  }

  -- Whatever the order of the turns, neither end ever answers the other with an error.
  pub steps-Goes :
      (n : ℕ) (x y : Transfer lib sha256) → Inv lib sha256 x → Steps lib sha256 n x y → Goes y
  steps-Goes n x y h run = Inv-Goes y (steps_lem n x y run h).0
