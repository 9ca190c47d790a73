-- ===== src/Files/Transfer.antt =====
-- crates/mouser-engine/src/daemon/file_transfer.rs: a sender and a receiver at the two ends of a
-- stream that keeps the order, behind the accepted offer. The bytes are in memory. A turn of either
-- loop is a step of its own, so that every interleaving of the two ends is a sequence of steps.
pub mod Poll
pub mod Flight
pub mod Receipt
pub mod Settle
pub mod Outcome
pub mod Delivery
pub mod Reply
pub mod Runs
pub mod Fresh
pub mod Start
pub mod Whole
use mouser.Prelude.{◌≡◌, List, [], ◌∷◌, ◌++◌, ℕ, suc, some, Result, ok, err, Bool, ◌||◌}
use mouser.Files.Types.{Hash, FileError, FileChunk}
use mouser.Files.Path.{PathLib}
use mouser.Files.Sink.{mem_source, mem_sink}
use mouser.Files.Sender.{Sender, on_ack, on_done, poll_chunk}
use mouser.Files.Receiver.{Outbound, accept, reject, ack, done, Receiver, on_chunk}

pub data StreamError : Type 0 where
  files : FileError → StreamError
  unexpected_type : StreamError

abbrev pub with_stream_error :
    Sender mem_source × Result (Unit {0}) FileError
    → Sender mem_source × Result (Unit {0}) StreamError
with_stream_error (s, ok _) = (s, ok tt)
with_stream_error (s, err e) = (s, err (files e))

-- What the loop of `run_sender_stream` does with a message of the receiver.
unfoldable pub on_response :
    Sender mem_source → Outbound → Sender mem_source × Result (Unit {0}) StreamError
on_response s (accept a) = (s, err unexpected_type)
on_response s (reject j) = (s, err unexpected_type)
on_response s (ack a) = with_stream_error (on_ack mem_source s a)
on_response s (done d) = with_stream_error (on_done mem_source s d)

module _ (lib : PathLib) (sha256 : List ℕ → Hash) where
  -- The two ends, with the chunks and the responses that are under way, oldest first.
  pub record Transfer : Type 0 where
    pub sender : Sender mem_source
    pub chunks : List FileChunk
    pub receiver : Receiver lib (mem_sink sha256)
    pub responses : List Outbound

  pub data Step : Transfer → Transfer → Type 0 where
    send :
        (s s' : Sender mem_source) (cs : List FileChunk) (r : Receiver lib (mem_sink sha256))
        (os : List Outbound) (c : FileChunk)
        → poll_chunk mem_source s ≡ (s', ok (some c))
        → Step
            (record { sender = s; chunks = cs; receiver = r; responses = os })
            (record { sender = s'; chunks = cs ++ c ∷ []; receiver = r; responses = os })
    receive :
        (s : Sender mem_source) (cs : List FileChunk) (r r' : Receiver lib (mem_sink sha256))
        (os out : List Outbound) (c : FileChunk)
        → on_chunk lib (mem_sink sha256) r c ≡ (r', ok out)
        → Step
            (record { sender = s; chunks = c ∷ cs; receiver = r; responses = os })
            (record { sender = s; chunks = cs; receiver = r'; responses = os ++ out })
    respond :
        (s s' : Sender mem_source) (cs : List FileChunk) (r : Receiver lib (mem_sink sha256))
        (os : List Outbound) (o : Outbound)
        → on_response s o ≡ (s', ok tt)
        → Step
            (record { sender = s; chunks = cs; receiver = r; responses = o ∷ os })
            (record { sender = s'; chunks = cs; receiver = r; responses = os })

  -- So many steps lead from one state to the other.
  pub data Steps : ℕ → Transfer → Transfer → Type 0 where
    here : (x : Transfer) → Steps 0 x x
    after : (n : ℕ) (x y z : Transfer) → Steps n x y → Step y z → Steps (suc n) x z
