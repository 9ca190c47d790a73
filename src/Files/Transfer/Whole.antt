-- ===== src/Files/Transfer/Whole.antt =====
-- What an accepted offer of new files comes to, in whatever order the two ends take their turns
-- (crates/mouser-files/src/sender.rs and receiver.rs, as
-- crates/mouser-engine/src/daemon/file_transfer.rs drives them).
use mouser.Prelude.{
  ℕ, ◌+◌, ◌*◌, ◌≤◌, ◌≡◌, ap, ◌∙◌, true, List, [], ◌∷◌, map, Option, Result, ok, All, arith,
}
use mouser.Files.Types.{Hash, Name, FileAccept, SinkError}
use mouser.Files.Path.{returns, PathLib}
use mouser.Files.Sink.{mem_source, mem_sink}
use mouser.Files.Sender
use mouser.Files.Sender.{Sender, new_with_hashes, offer, on_accept}
use mouser.Files.Receiver
use mouser.Files.Receiver.{Outbound, accept, ReceiverConfig, Receiver}
use mouser.Files.Receiver.Open.{accept_offer}
use mouser.Files.Transfer.{Transfer, Steps}
use mouser.Files.Transfer.Outcome.{Inv, unsent}
use mouser.Files.Transfer.Runs.{IsStuck, Goes, sunk, steps-weight, steps-is_complete, steps-Goes}
use mouser.Files.Transfer.Fresh.{IsSendable, total}
use mouser.Files.Transfer.Start.{start}

-- The two ends once the sender has taken the answer to its offer.
abbrev pub started :
    (lib : PathLib) (sha256 : List ℕ → Hash)
    → Sender mem_source
    → FileAccept
    → Receiver lib (mem_sink sha256)
    → List Outbound
    → Transfer lib sha256
started lib sha256 s a r out = record {
  sender = (on_accept mem_source s a).0;
  chunks = [];
  receiver = r;
  responses = out;
}

-- A path library, a digest, a disk on which each file that is opened is new and empty, a receiver that
-- is told no digests, and files of 64-bit sizes that are offered with their own digests or none, and
-- accepted.
module _ (lib : PathLib) (sha256 : List ℕ → Hash) {W : Type 0}
    (make_sink : W → ℕ → lib.PathBuf → W × Result (List ℕ) SinkError)
    (fresh : (w : W) (i : ℕ) (path : lib.PathBuf) → (make_sink w i path).1 ≡ ok [])
    (config : ReceiverConfig lib) (no_hashes : config.expected_hashes ≡ []) (id : ℕ)
    (fs : List (Name × List ℕ × Option Hash)) (sendable : All (IsSendable lib sha256) fs)
    (s : Sender mem_source) (new : new_with_hashes mem_source id fs ≡ ok s) (w w' : W)
    (r : Receiver lib (mem_sink sha256)) (a : FileAccept) (out : List Outbound)
    (admitted : accept_offer lib (mem_sink sha256) make_sink (offer mem_source s) config w
      ≡ returns (w', ok (r, accept a ∷ out))) where
  started-Inv : Inv lib sha256 (started lib sha256 s a r out)
  started-Inv =
      let (taken, inv, _, _, _) =
        start lib sha256 make_sink fresh config no_hashes id fs s w w' r a out sendable new
          admitted in
      rw (taken) inv

  -- Behind an accepted offer of such files, with sinks in memory: every run of the two ends is finite,
  -- in whatever order they take their turns. It has no more than four steps for each byte of the
  -- files, and one more.
  pub started_steps :
      (n : ℕ) (y : Transfer lib sha256)
      → Steps lib sha256 n (started lib sha256 s a r out) y
      → n ≤ 4 * total lib sha256 fs + 1
  started_steps n y run =
      let (taken, _, _, bytes, one) =
        start lib sha256 make_sink fresh config no_hashes id fs s w w' r a out sendable new
          admitted in
      let bound = steps-weight lib sha256 n (started lib sha256 s a r out) y started-Inv run in
      let left : unsent lib sha256 (on_accept mem_source s a).0.tracks ≡ total lib sha256 fs =
        ap (λ m. unsent lib sha256 m.0.tracks) taken ∙ bytes in
      omega (arith, bound, left, one)

  -- Behind an accepted offer of such files, with sinks in memory, and whatever the order of the turns,
  -- neither end ever fails: no poll of the sender, no chunk at the
  -- receiver and no response at the sender ends in an error.
  pub started-Goes :
      (n : ℕ) (y : Transfer lib sha256)
      → Steps lib sha256 n (started lib sha256 s a r out) y
      → Goes lib sha256 y
  started-Goes n y run = steps-Goes lib sha256 n _ y started-Inv run

  -- Behind an accepted offer of such files, with sinks in memory: a run that cannot go on has done the
  -- transfer. Both ends count as complete, and the sinks hold the bytes of the files, file by file.
  pub started-is_complete :
      (n : ℕ) (y : Transfer lib sha256)
      → Steps lib sha256 n (started lib sha256 s a r out) y
      → IsStuck lib sha256 y
      → (Sender.is_complete mem_source y.sender ≡ true)
        × (Receiver.is_complete lib (mem_sink sha256) y.receiver ≡ true)
        × (sunk lib sha256 y ≡ map (λ f. f.1) fs)
  started-is_complete n y run stuck =
      let (taken, _, sources, _, _) =
        start lib sha256 make_sink fresh config no_hashes id fs s w w' r a out sendable new
          admitted in
      let (sender, receiver, bytes) = steps-is_complete lib sha256 n _ y started-Inv run stuck in
      (sender, receiver, bytes ∙ ap (λ m. map (λ t. t.src) m.0.tracks) taken ∙ sources)
