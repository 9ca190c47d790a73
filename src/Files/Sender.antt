-- ===== src/Files/Sender.antt =====
-- crates/mouser-files/src/sender.rs: the sending half of one transfer. The bytes come from a
-- `FileSource`. A method that changes the sender returns the new one with its result.
pub mod Resume
pub mod Window
use mouser.Prelude.{
  ℕ, zero, suc, ◌+◌, ◌-◌, Bool, true, false, not, ◌&&◌, ◌||◌, List, [], ◌∷◌, map, Option, none,
  some, Result, ok, err, ltb, leb, ◌==◌, if◌then◌else◌, length, get_elem?, set, min,
}
use mouser.Prelude.Sat.{u32_max}
use mouser.Core.DeviceId.{to_vec}
use mouser.Files.Types.{
  Hash, Name, max_in_flight_per_file, default_chunk_size, max_chunk_size, FileError,
  unknown_transfer, unknown_file_index, offset_out_of_range, protocol, sink, nothing_to_send,
  too_many_files, chunk_size_out_of_range, duplicate_accept, duplicate_resume, ack_before_accept,
  FileEntry, FileOffer, ResumePoint, FileAccept, FileChunk, FileAck, FileDone, SinkError,
}
use mouser.Files.Sink.{FileSource}

-- `u32::try_from(i).unwrap_or(u32::MAX)`.
abbrev pub index_u32 : ℕ → ℕ
index_u32 i = min i u32_max

module _ (fs : FileSource) where
  pub record Track : Type 0 where
    pub name : Name
    pub src : fs.Src
    pub size : ℕ
    pub sha256 : Option Hash
    pub sent : ℕ
    pub acked : ℕ
    pub resumed : Bool

  pub record Sender : Type 0 where
    pub transfer_id : ℕ
    pub tracks : List Track
    pub chunk_size : ℕ
    pub accepted : Bool
    pub aborted : Bool

  unfoldable pub new_track : Name × fs.Src × Option Hash → Track
  new_track (name, src, sha256) = record {
    name = name;
    src = src;
    size = fs.len src;
    sha256 = sha256;
    sent = 0;
    acked = 0;
    resumed = false;
  }

  unfoldable pub new_with_hashes : ℕ → List (Name × fs.Src × Option Hash) → Result Sender FileError
  new_with_hashes transfer_id files =
      if length files == 0
      then err (protocol nothing_to_send)
      else (if ltb u32_max (length files)
          then err (protocol too_many_files)
          else ok (record {
            transfer_id = transfer_id;
            tracks = map new_track files;
            chunk_size = default_chunk_size;
            accepted = false;
            aborted = false;
          }))

  unfoldable pub new : ℕ → List (Name × fs.Src) → Result Sender FileError
  new transfer_id files =
      new_with_hashes transfer_id (map (λ (f : Name × fs.Src). (f.0, f.1, none)) files)

  unfoldable pub with_chunk_size : Sender → ℕ → Result Sender FileError
  with_chunk_size s n =
      if n == 0 || ltb max_chunk_size n
      then err (protocol chunk_size_out_of_range)
      else ok (record s { chunk_size = n })

  abbrev pub hash_bytes : Option Hash → Option (List ℕ)
  hash_bytes none = none
  hash_bytes (some h) = some (to_vec h)

  unfoldable pub offer : Sender → FileOffer
  offer s = record {
    transfer_id = s.transfer_id;
    files =
        map (λ (t : Track). record { name = t.name; size = t.size; sha256 = hash_bytes t.sha256 })
          s.tracks;
  }

  unfoldable pub resumes : List ResumePoint → ℕ → Bool
  resumes [] i = false
  resumes (r ∷ rs) i = r.file_index == i || resumes rs i

  -- The checks of `on_accept` on one point, with the points that come earlier in the list and what
  -- the checks of the later ones give.
  unfoldable pub check_point :
      List ResumePoint
      → ResumePoint
      → Result (Unit {0}) FileError
      → Option Track
      → Result (Unit {0}) FileError
  check_point earlier r rest none = err (unknown_file_index r.file_index)
  check_point earlier r rest (some t) =
      if ltb t.size r.offset
      then err (offset_out_of_range r.file_index r.offset)
      else (if resumes earlier r.file_index
          then err (protocol (duplicate_resume r.file_index))
          else rest)

  unfoldable pub check_resume :
      List Track → List ResumePoint → List ResumePoint → Result (Unit {0}) FileError
  check_resume tracks earlier [] = ok tt
  check_resume tracks earlier (r ∷ rs) =
      check_point earlier r (check_resume tracks (r ∷ earlier) rs) (get_elem? tracks r.file_index)

  abbrev pub resume_at : Track → ℕ → Track
  resume_at t offset = record t { resumed = true; sent = offset; acked = offset }

  unfoldable pub apply_resume :
      List Track → List ResumePoint → List Track × Result (Unit {0}) FileError
  apply_resume tracks [] = (tracks, ok tt)
  apply_resume tracks (r ∷ rs) = elim (get_elem? tracks r.file_index) [
    | none ↦ (tracks, err (unknown_file_index r.file_index))
    | some t ↦ apply_resume (set tracks r.file_index (resume_at t r.offset)) rs
  ]

  -- The state behind the application of the resume points.
  unfoldable pub accepted_with :
      Sender → List Track × Result (Unit {0}) FileError → Sender × Result (Unit {0}) FileError
  accepted_with s (tracks, err e) = (record s { tracks = tracks }, err e)
  accepted_with s (tracks, ok _) = (record s { tracks = tracks; accepted = true }, ok tt)

  unfoldable pub on_accept : Sender → FileAccept → Sender × Result (Unit {0}) FileError
  on_accept s a =
      if not (a.transfer_id == s.transfer_id)
      then (s, err (unknown_transfer a.transfer_id))
      else (if s.accepted
          then (s, err (protocol duplicate_accept))
          else elim (check_resume s.tracks [] a.resume) [
            | err e ↦ (s, err e)
            | ok _ ↦ accepted_with s (apply_resume s.tracks a.resume)
          ])

  -- `on_ack` on the track that the acknowledgement names.
  unfoldable pub ack_track : Sender → FileAck → Option Track → Sender × Result (Unit {0}) FileError
  ack_track s a none = (s, err (unknown_file_index a.file_index))
  ack_track s a (some t) =
      if ltb t.size a.acked_through || ltb t.sent a.acked_through
      then (s, err (offset_out_of_range a.file_index a.acked_through))
      else (if ltb t.acked a.acked_through
          then (
            record s { tracks = set s.tracks a.file_index (record t { acked = a.acked_through }) },
            ok tt,
          )
          else (s, ok tt))

  unfoldable pub on_ack : Sender → FileAck → Sender × Result (Unit {0}) FileError
  on_ack s a =
      if not (a.transfer_id == s.transfer_id)
      then (s, err (unknown_transfer a.transfer_id))
      else (if not s.accepted
          then (s, err (protocol ack_before_accept))
          else ack_track s a (get_elem? s.tracks a.file_index))

  unfoldable pub on_done : Sender → FileDone → Sender × Result (Unit {0}) FileError
  on_done s d =
      if not (d.transfer_id == s.transfer_id)
      then (s, err (unknown_transfer d.transfer_id))
      else (if not d.is_ok then (record s { aborted = true }, ok tt) else (s, ok tt))

  -- How many bytes the next chunk of a track may have.
  abbrev pub want : ℕ → Track → ℕ
  want chunk_size t =
      min (min chunk_size (max_in_flight_per_file - (t.sent - t.acked))) (t.size - t.sent)

  abbrev pub is_sendable : Track → Bool
  is_sendable t = ltb t.sent t.size && ltb (t.sent - t.acked) max_in_flight_per_file

  -- The chunk that a read of the source gives.
  unfoldable pub emit :
      ℕ → ℕ → Track → Result (List ℕ) SinkError → Track × Result (Option FileChunk) FileError
  emit transfer_id i t (err e) = (t, err (sink e))
  emit transfer_id i t (ok bytes) =
      if length bytes == 0 then (t, err (offset_out_of_range (index_u32 i) t.sent)) else (
        record t { sent = t.sent + length bytes },
        ok (
            some (record {
              transfer_id = transfer_id;
              file_index = index_u32 i;
              offset = t.sent;
              bytes = bytes;
            })),
      )

  -- The loop of `poll_chunk` over the tracks from the given index on.
  unfoldable pub poll_tracks :
      ℕ → ℕ → ℕ → List Track → List Track × Result (Option FileChunk) FileError
  poll_tracks transfer_id chunk_size i [] = ([], ok none)
  poll_tracks transfer_id chunk_size i (t ∷ ts) =
      let (later, result) = poll_tracks transfer_id chunk_size (i + 1) ts in
      if is_sendable t
      then (let (t', sent) = emit transfer_id i t (fs.read_at t.src t.sent (want chunk_size t)) in
          (t' ∷ ts, sent))
      else (t ∷ later, result)

  unfoldable pub poll_chunk : Sender → Sender × Result (Option FileChunk) FileError
  poll_chunk s =
      if not s.accepted || s.aborted
      then (s, ok none)
      else (let (tracks, result) = poll_tracks s.transfer_id s.chunk_size 0 s.tracks in
          (record s { tracks = tracks }, result))

  unfoldable pub all_acked : List Track → Bool
  all_acked [] = true
  all_acked (t ∷ ts) = leb t.size t.acked && all_acked ts

  unfoldable pub is_complete : Sender → Bool
  is_complete s = not s.aborted && all_acked s.tracks
