-- ===== src/Clipboard/Tests.antt =====
-- Clipboard transfers on concrete contents.
use mouser.Prelude.{ℕ, ◌+◌, ◌≡◌, refl, true, List, [], ◌∷◌, ◌++◌, some, arith}
use mouser.Clipboard.Types.{Hash, PullKey, pull_key}
use mouser.Clipboard.Reassembly
use mouser.Clipboard.Reassembly.{Reassembly, new, push, commit, finish}
use mouser.Clipboard.Pulls.{PendingPulls, new_pending, insert}
use mouser.Clipboard.Pulls.Bounds.{IsWellFormed, of_entries, latest, others, insert_lem}
use mouser.Prelude.{ok}
use mouser.Core.DeviceId.{be_bytes, be_value, to_id, to_vec}
use mouser.Clipboard.Settings.{
  ClipboardSettings, bidirectional, format_enabled, within_auto_sync_limit, is_apple,
  prefer_native_suppresses,
}
use mouser.Clipboard.Pulls
use mouser.Clipboard.Engine
use mouser.Clipboard.Engine.{
  ClipboardEntry, ClipboardData, AppliedClip, ClipboardEngine, new_engine, on_offer, offer_from,
  on_data_from, best_entry,
}
use mouser.Clipboard.Engine.Keys.{offers, meet_all, Event}
use mouser.Clipboard.Engine.Apply.{IsVerified, on_data_from-IsVerified}
use mouser.Clipboard.Engine.Choice.{IsChoice, best_entry-IsChoice}
use mouser.Prelude.{none, last_of}
use mouser.Clipboard.Canonical
use mouser.Clipboard.Offer.{on_local_change}
use mouser.Clipboard.Offer.Echo.{echo_lem}

-- A stand-in for the hash.
unfoldable sum_of : List ℕ → Hash
sum_of [] = 0
sum_of (b ∷ bs) = b + sum_of bs

abbrev first_key : PullKey
first_key = pull_key 1 0 100

abbrev one_pull : PendingPulls
one_pull = of_entries (new_pending first_key 5 0 0 ∷ [])

one_pull-IsWellFormed : IsWellFormed one_pull
one_pull-IsWellFormed = (refl, (tt, tt), omega arith)

insert_lem_example :
    (insert one_pull (new_pending (pull_key 2 0 100) 9 0 4)
      ≡ of_entries (
          latest (others one_pull (new_pending (pull_key 2 0 100) 9 0 4).key)
          ++ (new_pending (pull_key 2 0 100) 9 0 4 ∷ [])))
    × IsWellFormed (insert one_pull (new_pending (pull_key 2 0 100) 9 0 4))
insert_lem_example =
    insert_lem one_pull (new_pending (pull_key 2 0 100) 9 0 4) one_pull-IsWellFormed

abbrev all_on : ClipboardSettings
all_on = record {
  shared_clipboard = true;
  sync_text = true;
  sync_images = true;
  sync_files = true;
  max_auto_sync_bytes = 0;
  prefer_native_apple = true;
  direction = bidirectional;
}

abbrev text_entry : ClipboardEntry
text_entry = record { format = 0; hash = to_vec 15; size = 5 }

abbrev text_offer : Event
text_offer = offers (record { entries = text_entry ∷ []; origin = to_vec 2 }) 1

abbrev text_data : ClipboardData
text_data = record {
  hash = to_vec 15;
  format = 0;
  offset = 0;
  bytes = 1 ∷ 2 ∷ 3 ∷ 4 ∷ 5 ∷ [];
  last = true;
}

abbrev text_clip : AppliedClip
text_clip = record { format = 0; bytes = 1 ∷ 2 ∷ 3 ∷ 4 ∷ 5 ∷ [] }

abbrev pulling : ClipboardEngine
pulling = meet_all sum_of (new_engine 1 0 all_on) (text_offer ∷ [])

applies :
    on_data_from sum_of pulling 2 text_data
    ≡ ((on_data_from sum_of pulling 2 text_data).0, ok (some text_clip))
unfolding on_data_from new_engine on_offer offer_from sum_of be_bytes be_value to_id to_vec
    format_enabled within_auto_sync_limit is_apple prefer_native_suppresses Engine.parse_device_id
    Engine.parse_hash Engine.supersede_origin Engine.still_offered Engine.best_entry Engine.better
    Engine.preference_rank Engine.pull_best Engine.pull_hash Engine.on_data_for_key Engine.data_for
    Engine.pushed Pulls.insert Pulls.remove Pulls.retain Pulls.make_room Pulls.evict_oldest
    Pulls.new_pending Pulls.lookup Pulls.retain_origin_offer Pulls.remove_all
    Pulls.key_for_origin_data Reassembly.new push commit finish
applies = refl

on_data_from-IsVerified_example :
    IsVerified sum_of pulling (on_data_from sum_of pulling 2 text_data).0 2 text_data text_clip
on_data_from-IsVerified_example =
    on_data_from-IsVerified sum_of 1 0 all_on (text_offer ∷ [])
      (on_data_from sum_of pulling 2 text_data).0 2 text_data text_clip applies

best_entry-IsChoice_example :
    IsChoice all_on (text_entry ∷ []) (best_entry all_on (text_entry ∷ []))
best_entry-IsChoice_example = best_entry-IsChoice all_on (text_entry ∷ [])

echo_lem_example :
    (on_local_change sum_of
      (on_data_from sum_of pulling 2 text_data).0
      (record { format = 0; bytes = 1 ∷ 2 ∷ 3 ∷ 4 ∷ 5 ∷ [] } ∷ [])).1
    ≡ none
unfolding Canonical.canonical Canonical.canonical_text Canonical.crlf_to_lf Canonical.contains_crlf
    Canonical.pop_nuls last_of
echo_lem_example =
    echo_lem sum_of 1 0 all_on (text_offer ∷ []) (on_data_from sum_of pulling 2 text_data).0 2
      text_data text_clip applies refl
