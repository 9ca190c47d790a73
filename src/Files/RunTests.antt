-- ===== src/Files/RunTests.antt =====
-- A run of a transfer of one file.
use mouser.Prelude.{ℕ, ◌+◌, ◌*◌, ◌≤◌, ◌≡◌, ◌≢◌, refl, true, [], ◌∷◌, map, none, some, ok}
use mouser.Files.Types.{FileChunk}
use mouser.Files.Sink.{mem_source, mem_sink, mem_read_at, mem_write_at}
use mouser.Files.Sender
use mouser.Files.Sender.{Sender, Track, poll_chunk, new_with_hashes, offer, on_accept}
use mouser.Files.Receiver
use mouser.Files.Receiver.{
  Outbound, accept, reject, ReceiverConfig, ack, done, on_chunk, Receiver, Slot,
}
use mouser.Files.Transfer.{Transfer, on_response, Step, send, receive, respond, Steps, here, after}
use mouser.Files.Transfer.Runs.{IsStuck, Goes, sunk}
use mouser.Files.Transfer.Fresh.{total}
use mouser.Files.Transfer.Whole.{started, started_steps, started-Goes, started-is_complete}
use mouser.Files.Tests.{
  list_paths, sum_of, open_empty, name_a, one_file, config, track_of, sender, slot_of, receiver,
  accepted, the_chunk, one_file-IsSendable, new_one_file, admitted,
}

-- A step is one of three, by what is under way.
no_step :
    (x y : Transfer list_paths sum_of)
    → Step list_paths sum_of x y
    → x.chunks ≡ []
    → x.responses ≡ []
    → ((s' : Sender mem_source) (c : FileChunk)
        → poll_chunk mem_source x.sender ≢ (s', ok (some c)))
    → ⊥
no_step _ _ (send s s' cs r os c e) h1 h2 h3 = h3 s' c e
no_step _ _ (receive s cs r r' os out c e) h1 h2 h3 = cc
no_step _ _ (respond s s' cs r os o e) h1 h2 h3 = cc

-- The sender after so many bytes are sent and acknowledged.
abbrev sender_at : ℕ → ℕ → Sender mem_source
sender_at sent acked = record sender {
  accepted = true;
  tracks = record (track_of (name_a, 1 ∷ 2 ∷ 3 ∷ [], some 6)) { sent = sent; acked = acked } ∷ [];
}

abbrev full_receiver : Receiver list_paths (mem_sink sum_of)
full_receiver = record receiver {
  slots =
      record (slot_of (name_a, 1 ∷ 2 ∷ 3 ∷ [], some 6)) {
        snk = 1 ∷ 2 ∷ 3 ∷ [];
        acked = 3;
        complete = true;
      }
      ∷ [];
  done_emitted = true;
}

abbrev the_ack : Outbound
the_ack = ack (record { transfer_id = 7; file_index = 0; acked_through = 3 })

abbrev the_done : Outbound
the_done = done (record { transfer_id = 7; is_ok = true })

one_poll : poll_chunk mem_source (sender_at 0 0) ≡ (sender_at 3 0, ok (some the_chunk))
unfolding poll_chunk Sender.poll_tracks Sender.emit mem_read_at
one_poll = refl

receives :
    on_chunk list_paths (mem_sink sum_of) receiver the_chunk
    ≡ (full_receiver, ok (the_ack ∷ the_done ∷ []))
unfolding on_chunk Receiver.chunk_for Receiver.write_chunk Receiver.written mem_write_at
    Receiver.finalize_completed_files Receiver.finalize_slots Receiver.all_complete Receiver.abort
    sum_of
receives = refl

one_ack : on_response (sender_at 3 0) the_ack ≡ (sender_at 3 3, ok tt)
unfolding on_response Sender.on_ack Sender.ack_track
one_ack = refl

finishes : on_response (sender_at 3 3) the_done ≡ (sender_at 3 3, ok tt)
unfolding on_response Sender.on_done
finishes = refl

idles : poll_chunk mem_source (sender_at 3 3) ≡ (sender_at 3 3, ok none)
unfolding poll_chunk Sender.poll_tracks Sender.emit mem_read_at
idles = refl

abbrev first : Transfer list_paths sum_of
first = record { sender = sender_at 0 0; chunks = []; receiver = receiver; responses = [] }

abbrev last : Transfer list_paths sum_of
last = record { sender = sender_at 3 3; chunks = []; receiver = full_receiver; responses = [] }

started-first : started list_paths sum_of sender accepted receiver [] ≡ first
unfolding Sender.on_accept Sender.accepted_with Sender.apply_resume Sender.check_resume
started-first = refl

four_steps : Steps list_paths sum_of 4 (started list_paths sum_of sender accepted receiver []) last
four_steps = rw (started-first) (
    after 3 first _ last
      (after 2 first _ _
        (after 1 first _ _
          (after 0 first _ _ (here first)
            (send (sender_at 0 0) (sender_at 3 0) [] receiver [] the_chunk one_poll))
          (receive (sender_at 3 0) [] receiver full_receiver [] (the_ack ∷ the_done ∷ []) the_chunk
            receives))
        (respond (sender_at 3 0) (sender_at 3 3) [] full_receiver (the_done ∷ []) the_ack one_ack))
      (respond (sender_at 3 3) (sender_at 3 3) [] full_receiver [] the_done finishes))

last-IsStuck : IsStuck list_paths sum_of last
last-IsStuck y step = no_step last y step refl refl (λ s' c e. let q = idles in cc)

started_steps_example : 4 ≤ 4 * total list_paths sum_of one_file + 1
started_steps_example =
    started_steps list_paths sum_of open_empty (λ w i path. refl) config refl 7 one_file
      one_file-IsSendable sender new_one_file 0 1 receiver accepted [] admitted 4 last four_steps

started-Goes_example : Goes list_paths sum_of last
started-Goes_example =
    started-Goes list_paths sum_of open_empty (λ w i path. refl) config refl 7 one_file
      one_file-IsSendable sender new_one_file 0 1 receiver accepted [] admitted 4 last four_steps

started-is_complete_example :
    (Sender.is_complete mem_source last.sender ≡ true)
    × (Receiver.is_complete list_paths (mem_sink sum_of) last.receiver ≡ true)
    × (sunk list_paths sum_of last ≡ map (λ f. f.1) one_file)
started-is_complete_example =
    started-is_complete list_paths sum_of open_empty (λ w i path. refl) config refl 7 one_file
      one_file-IsSendable sender new_one_file 0 1 receiver accepted [] admitted 4 last four_steps
      last-IsStuck
