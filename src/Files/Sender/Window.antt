-- ===== src/Files/Sender/Window.antt =====
-- The window of a sender, whatever the receiver answers (crates/mouser-files/src/sender.rs).
use mouser.Prelude.{
  ℕ, ◌+◌, ◌-◌, ◌≤◌, ◌≡◌, refl, true, false, not, ◌||◌, ◌==◌, if_cases, if_split, List, [], ◌∷◌, map,
  Option, none, some, Result, ok, err, ltb, length, get_elem?, set, All, All-set, All-get_elem?,
  arith,
}
use mouser.Files.Types.{
  Hash, Name, max_in_flight_per_file, FileError, ResumePoint, FileAccept, FileChunk, FileAck,
  FileDone, SinkError,
}
use mouser.Files.Sink.{FileSource}
use mouser.Files.Sender.{
  Track, Sender, new_track, new_with_hashes, check_resume, resume_at, apply_resume, accepted_with,
  on_accept, ack_track, on_ack, on_done, want, is_sendable, emit, poll_tracks, poll_chunk,
}
use mouser.Files.Sender.Resume.{
  Fits, Distinct, Resumed, check_resume-Distinct, check_resume-All, All-Fits-set, Resumed-cons,
}

module _ (fs : FileSource) where
  -- No more is acknowledged than sent, no more is sent than the file has, and no more than 8 MiB are
  -- under way.
  pub record IsWindowed (t : Track fs) : Type 0 where
    pub acked : t.acked ≤ t.sent
    pub sent : t.sent ≤ t.size
    pub window : t.sent - t.acked ≤ max_in_flight_per_file

  -- Checked points are all applied, and keep the window.
  apply_resume_lem :
      (ts : List (Track fs)) (rs : List ResumePoint)
      → All IsWindowed ts
      → All (Fits fs ts) rs
      → Distinct fs rs
      → (ts' : List (Track fs)) × (apply_resume fs ts rs ≡ (ts', ok tt))
        × All IsWindowed ts'
        × Resumed fs ts rs ts'
  unfolding apply_resume Distinct
  apply_resume_lem ts [] w h d = (ts, refl, w, record { applied = tt; others = λ i n. refl })
  apply_resume_lem ts (r ∷ rs) w ((t, e, le), hs) (ne, d) =
      let w' : All IsWindowed (set ts r.file_index (resume_at fs t r.offset)) =
        All-set IsWindowed ts r.file_index _ w
          (record { acked = omega arith; sent = le; window = omega arith }) in
      let (ts', run, good, goes) =
        apply_resume_lem (set ts r.file_index (resume_at fs t r.offset)) rs w'
          (All-Fits-set fs ts rs r t e hs) d in
      (ts', rw (apply_resume, e) run, good, Resumed-cons fs ts ts' r rs t e le ne goes)

  abbrev pub AllWindowed : Sender fs → Type 0
  AllWindowed s = All IsWindowed s.tracks

  -- What `on_accept` does to a sender: all or nothing.
  pub data Accepting (s : Sender fs) (a : FileAccept)
      : Sender fs × Result (Unit {0}) FileError → Type 0 where
    refused : (e : FileError) → Accepting s a (s, err e)
    taken :
        (ts : List (Track fs))
        → s.accepted ≡ false
        → a.transfer_id ≡ s.transfer_id
        → Distinct fs a.resume
        → Resumed fs s.tracks a.resume ts
        → All IsWindowed ts
        → Accepting s a (record s { tracks = ts; accepted = true }, ok tt)

  accept_case :
      (s : Sender fs) (a : FileAccept) (checked : Result (Unit {0}) FileError)
      → AllWindowed s
      → a.transfer_id ≡ s.transfer_id
      → s.accepted ≡ false
      → check_resume fs s.tracks [] a.resume ≡ checked
      → Accepting s a (elim checked [
        | err e ↦ (s, err e)
        | ok _ ↦ accepted_with fs s (apply_resume fs s.tracks a.resume)
      ])
  unfolding accepted_with
  accept_case s a (err e) w id f h = refused e
  accept_case s a (ok _) w id f h =
      let d = check_resume-Distinct fs s.tracks [] a.resume h in
      let (ts, run, good, goes) =
        apply_resume_lem s.tracks a.resume w (check_resume-All fs s.tracks [] a.resume h) d in
      rw (run) (taken ts f id d goes good)

  -- An answer to the offer is taken as a whole or not at all. One that is turned down changes nothing.
  -- One that is taken is the first one, for this transfer; its resume points are of different files,
  -- each within its file; each of these files goes on at its point, with all before it acknowledged,
  -- every other file is as it was, and the window of each file is kept.
  pub on_accept-Accepting :
      (s : Sender fs) (a : FileAccept) → AllWindowed s → Accepting s a (on_accept fs s a)
  unfolding on_accept
  on_accept-Accepting s a w =
      if_split (Accepting s a) (not (a.transfer_id == s.transfer_id)) (λ _. refused _)
        (λ id.
          if_split (Accepting s a) s.accepted (λ _. refused _)
            (λ f.
              accept_case s a (check_resume fs s.tracks [] a.resume) w (ground (arith, id)) f refl))

  new_tracks-IsWindowed :
      (files : List (Name × fs.Src × Option Hash)) → All IsWindowed (map (new_track fs) files)
  unfolding new_track
  new_tracks-IsWindowed [] = tt
  new_tracks-IsWindowed (f ∷ files) = (
    record { acked = omega arith; sent = omega arith; window = omega arith },
    new_tracks-IsWindowed files,
  )

  new_with_hashes_tracks :
      (id : ℕ) (files : List (Name × fs.Src × Option Hash)) (s : Sender fs)
      → new_with_hashes fs id files ≡ ok s
      → s.tracks ≡ map (new_track fs) files
  unfolding new_with_hashes
  new_with_hashes_tracks id files s h = ground (arith, h)

  ack_track-AllWindowed :
      (s : Sender fs) (a : FileAck) (o : Option (Track fs))
      → AllWindowed s
      → ((t : Track fs) → o ≡ some t → IsWindowed t)
      → AllWindowed (ack_track fs s a o).0
  unfolding ack_track
  ack_track-AllWindowed s a none w h = w
  ack_track-AllWindowed s a (some t) w h =
      let keep : Sender fs × Result (Unit {0}) FileError → Type 0 = (λ m. AllWindowed m.0) in
      if_split keep (ltb t.size a.acked_through || ltb t.sent a.acked_through) (λ _. w)
        (λ e.
          if_split keep (ltb t.acked a.acked_through)
            (λ q. All-set IsWindowed s.tracks a.file_index _ w (record {
              acked = ground (arith, e);
              sent = (h t refl).sent;
              window = ground (arith, e, q, (h t refl).window);
            }))
            (λ _. w))

  emit-IsWindowed :
      (id i n : ℕ) (t : Track fs) (r : Result (List ℕ) SinkError)
      → IsWindowed t
      → n ≤ t.size - t.sent
      → n ≤ max_in_flight_per_file - (t.sent - t.acked)
      → ((bytes : List ℕ) → r ≡ ok bytes → length bytes ≤ n)
      → IsWindowed (emit fs id i t r).0
  unfolding emit
  emit-IsWindowed id i n t (err e) w h1 h2 h = w
  emit-IsWindowed id i n t (ok bytes) w h1 h2 h =
      let keep : Track fs × Result (Option FileChunk) FileError → Type 0 = (λ m. IsWindowed m.0) in
      let le = h bytes refl in
      if_cases keep (length bytes == 0) w (record {
        acked = omega (arith, w.acked);
        sent = omega (arith, w.sent, h1, le);
        window = omega (arith, w.acked, w.window, h2, le);
      })

  -- A source that reads no more than the buffer has room for.
  module _
      (bounded : (src : fs.Src) (offset n : ℕ) (bytes : List ℕ)
        → fs.read_at src offset n ≡ ok bytes
        → length bytes ≤ n) where
    poll_tracks-IsWindowed :
        (id n i : ℕ) (ts : List (Track fs))
        → All IsWindowed ts
        → All IsWindowed (poll_tracks fs id n i ts).0
    unfolding poll_tracks
    poll_tracks-IsWindowed id n i [] w = tt
    poll_tracks-IsWindowed id n i (t ∷ ts) (w, ws) =
        let keep : List (Track fs) × Result (Option FileChunk) FileError → Type 0 =
          (λ m. All IsWindowed m.0) in
        if_cases keep (is_sendable fs t)
          (
            emit-IsWindowed id i (want fs n t) t (fs.read_at t.src t.sent (want fs n t)) w
                (omega arith) (omega arith) (λ bytes. bounded t.src t.sent (want fs n t) bytes),
            ws,
          )
          (w, poll_tracks-IsWindowed id n (i + 1) ts ws)

    on_ack-AllWindowed :
        (s : Sender fs) (a : FileAck) → AllWindowed s → AllWindowed (on_ack fs s a).0
    unfolding on_ack
    on_ack-AllWindowed s a w =
        let keep : Sender fs × Result (Unit {0}) FileError → Type 0 = (λ m. AllWindowed m.0) in
        if_cases keep (not (a.transfer_id == s.transfer_id)) w (
          if_cases keep (not s.accepted) w (
            ack_track-AllWindowed s a (get_elem? s.tracks a.file_index) w
              (λ t e. All-get_elem? IsWindowed s.tracks a.file_index w e)))

    on_done_tracks : (s : Sender fs) (d : FileDone) → (on_done fs s d).0.tracks ≡ s.tracks
    unfolding on_done
    on_done_tracks s d = ground arith

    poll_chunk-AllWindowed : (s : Sender fs) → AllWindowed s → AllWindowed (poll_chunk fs s).0
    unfolding poll_chunk
    poll_chunk-AllWindowed s w =
        let keep : Sender fs × Result (Option FileChunk) FileError → Type 0 =
          (λ m. AllWindowed m.0) in
        if_cases keep (not s.accepted || s.aborted) w
          (poll_tracks-IsWindowed s.transfer_id s.chunk_size 0 s.tracks w)

    on_accept-AllWindowed :
        (s : Sender fs) (a : FileAccept) → AllWindowed s → AllWindowed (on_accept fs s a).0
    on_accept-AllWindowed s a w = go (on_accept fs s a) (on_accept-Accepting s a w)
      where
        go : (m : Sender fs × Result (Unit {0}) FileError) → Accepting s a m → AllWindowed m.0
        go _ (refused e) = w
        go _ (taken ts f id d goes good) = good

    -- What a driver calls on a sender.
    pub data Call : Type 0 where
      accepts : FileAccept → Call
      acks : FileAck → Call
      dones : FileDone → Call
      polls : Call

    abbrev pub called : Sender fs → Call → Sender fs
    called s (accepts a) = (on_accept fs s a).0
    called s (acks a) = (on_ack fs s a).0
    called s (dones d) = (on_done fs s d).0
    called s polls = (poll_chunk fs s).0

    abbrev pub called_all : Sender fs → List Call → Sender fs
    called_all s [] = s
    called_all s (c ∷ cs) = called_all (called s c) cs

    called-AllWindowed : (s : Sender fs) (c : Call) → AllWindowed s → AllWindowed (called s c)
    called-AllWindowed s (accepts a) w = on_accept-AllWindowed s a w
    called-AllWindowed s (acks a) w = on_ack-AllWindowed s a w
    called-AllWindowed s (dones d) w = rw (on_done_tracks s d) w
    called-AllWindowed s polls w = poll_chunk-AllWindowed s w

    called_all-AllWindowed :
        (s : Sender fs) (cs : List Call) → AllWindowed s → AllWindowed (called_all s cs)
    called_all-AllWindowed s [] w = w
    called_all-AllWindowed s (c ∷ cs) w =
        called_all-AllWindowed (called s c) cs (called-AllWindowed s c w)

    -- Whatever answers, acknowledgements and ends come in from the receiver, and in whatever order the
    -- sender is polled between them: each file has no more acknowledged than sent, no more sent than its
    -- size, and at most 8 MiB sent that are not acknowledged. The source reads no more than asked for.
    pub new_with_hashes-AllWindowed :
        (id : ℕ) (files : List (Name × fs.Src × Option Hash)) (s : Sender fs) (cs : List Call)
        → new_with_hashes fs id files ≡ ok s
        → AllWindowed (called_all s cs)
    new_with_hashes-AllWindowed id files s cs h =
        called_all-AllWindowed s cs
          (rw (new_with_hashes_tracks id files s h) (new_tracks-IsWindowed files))
