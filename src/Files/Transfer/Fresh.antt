-- ===== src/Files/Transfer/Fresh.antt =====
-- The files that an accepted offer opens, where each is new (crates/mouser-files/src/sender.rs and
-- receiver.rs).
use mouser.Prelude.{
  ℕ, suc, ◌+◌, ◌≤◌, ◌<◌, ◌^◌, ◌≡◌, refl, sym, ap, ◌∙◌, true, false, List, [], ◌∷◌, map, Option,
  none, some, Result, ok, err, ltb, if◌then◌else◌, length, All, arith,
}
use mouser.Prelude.Sat.{u64_max}
use mouser.Core.DeviceId.{to_id-to_vec}
use mouser.Files.Types.{Hash, Name, FileDone, FileEntry, ResumePoint, SinkError, Reason, PathError}
use mouser.Files.Path.{Outcome, returns, panics, and_then, PathLib, resolve_in_quarantine}
use mouser.Files.Sink.{mem_source, mem_sink}
use mouser.Files.Sender.{Track, new_track, hash_bytes}
use mouser.Files.Receiver.{
  ReceiverConfig, in_band, settle, with_hash, validate_entry, add_plan, validate, Slot, done_list,
  is_ok_digest,
}
use mouser.Files.Receiver.Open.{Opening, failed, refused, opened, add_slot, open_case, open_sinks}
use mouser.Files.Transfer.Flight.{Flight, Acks, FileInv, FilesInv}
use mouser.Files.Transfer.Outcome.{unsent}
use mouser.Files.Transfer.Delivery.{IsHonest}

returns-inj {ℓ} : {A : Type ℓ} {x y : A} → returns x ≡ returns y → x ≡ y
returns-inj q = cc

ok-inj {ℓ κ} : {A : Type ℓ} {E : Type κ} {x y : A} → ◌≡◌ {A = Result A E} (ok x) (ok y) → x ≡ y
ok-inj q = cc

module _ (lib : PathLib) (sha256 : List ℕ → Hash) where
  -- A file to send: its size is a 64-bit number, and its digest, where one is given, is its own.
  pub record IsSendable (f : Name × List ℕ × Option Hash) : Type 0 where
    pub machine : length f.1 ≤ u64_max
    pub own_hash : (h : Hash) → f.2 ≡ some h → (sha256 f.1 ≡ h) × (h < 256 ^ 32)

  -- The entry of a file in the offer.
  abbrev pub entry_of : Track mem_source → FileEntry
  entry_of t = record { name = t.name; size = t.size; sha256 = hash_bytes mem_source t.sha256 }

  in_band-hash_bytes :
      (i : ℕ) (h : Option Hash)
      → ((g : Hash) → h ≡ some g → g < 256 ^ 32)
      → in_band lib i (hash_bytes mem_source h) ≡ ok h
  unfolding in_band
  in_band-hash_bytes i none b = refl
  in_band-hash_bytes i (some g) b = rw (in_band, to_id-to_vec g (b g refl)) refl

  with_hash_lem :
      (i : ℕ) (entry : FileEntry) (config : ReceiverConfig lib) (r : Result lib.PathBuf PathError)
      (plan : lib.PathBuf × Option Hash)
      → config.expected_hashes ≡ []
      → with_hash lib i entry config r ≡ ok plan
      → in_band lib i entry.sha256 ≡ ok plan.1
  unfolding with_hash settle
  with_hash_lem i entry config r plan e h = ground (arith, e, h)

  validate_entry_lem :
      (i : ℕ) (entry : FileEntry) (config : ReceiverConfig lib) (plan : lib.PathBuf × Option Hash)
      → config.expected_hashes ≡ []
      → validate_entry lib i entry config ≡ returns (ok plan)
      → in_band lib i entry.sha256 ≡ ok plan.1
  unfolding validate_entry
  validate_entry_lem i entry config plan e h =
      go (resolve_in_quarantine lib config.quarantine entry.name) h
    where
      go :
          (v : Outcome (Result lib.PathBuf PathError))
          → and_then v (λ r. returns (with_hash lib i entry config r)) ≡ returns (ok plan)
          → in_band lib i entry.sha256 ≡ ok plan.1
      go panics q = cc
      go (returns r) q = with_hash_lem i entry config r plan e (returns-inj q)

  add_plan_lem :
      (v : Result (lib.PathBuf × Option Hash) Reason)
      (rest : Outcome (Result (List (lib.PathBuf × Option Hash)) Reason))
      (plans : List (lib.PathBuf × Option Hash))
      → add_plan lib v rest ≡ returns (ok plans)
      → (plan : lib.PathBuf × Option Hash) × (later : List (lib.PathBuf × Option Hash)) × (v
          ≡ ok plan)
        × (rest ≡ returns (ok later))
        × (plans ≡ plan ∷ later)
  unfolding add_plan
  add_plan_lem (err reason) rest plans h = cc
  add_plan_lem (ok plan) panics plans h = cc
  add_plan_lem (ok plan) (returns (err reason)) plans h = cc
  add_plan_lem (ok plan) (returns (ok later)) plans h = (plan, later, refl, refl, cc)

  -- The first of the plans.
  validate_lem :
      (i : ℕ) (entry : FileEntry) (entries : List FileEntry) (config : ReceiverConfig lib)
      (plans : List (lib.PathBuf × Option Hash))
      → config.expected_hashes ≡ []
      → validate lib i (entry ∷ entries) config ≡ returns (ok plans)
      → (plan : lib.PathBuf × Option Hash) × (later : List (lib.PathBuf × Option Hash)) × (in_band
            lib i entry.sha256
          ≡ ok plan.1)
        × (validate lib (i + 1) entries config ≡ returns (ok later))
        × (plans ≡ plan ∷ later)
  unfolding validate
  validate_lem i entry entries config plans e h = go (validate_entry lib i entry config) refl h
    where
      go :
          (v : Outcome (Result (lib.PathBuf × Option Hash) Reason))
          → validate_entry lib i entry config ≡ v
          → and_then v (λ plan. add_plan lib plan (validate lib (i + 1) entries config))
            ≡ returns (ok plans)
          → (plan : lib.PathBuf × Option Hash) × (later : List (lib.PathBuf × Option Hash))
            × (in_band lib i entry.sha256 ≡ ok plan.1)
            × (validate lib (i + 1) entries config ≡ returns (ok later))
            × (plans ≡ plan ∷ later)
      go panics q r = cc
      go (returns v) q r =
          let (plan, later, ev, rest, all) =
            add_plan_lem v (validate lib (i + 1) entries config) plans r in
          (plan, later, validate_entry_lem i entry config plan e (q ∙ ap returns ev), rest, all)

  fresh_slot : FileEntry → Option Hash → Slot lib (mem_sink sha256)
  fresh_slot entry expected = record {
    size = entry.size;
    acked = 0;
    complete = false;
    snk = [];
    expected = expected;
  }

  next_index :
      (b : ℕ) (ts : List (Track mem_source)) (ps : List (Slot lib (mem_sink sha256)))
      → FilesInv lib sha256 (b + 1) ts ps [] []
      → FilesInv lib sha256 (suc b) ts ps [] []
  next_index b ts ps h = let e : suc b ≡ b + 1 = omega arith in rw (e) h

  module _ {W : Type 0} where
    add_slot_lem :
        (i : ℕ) (slot : Slot lib (mem_sink sha256)) (rest : W × Opening lib (mem_sink sha256))
        (w' : W) (slots : List (Slot lib (mem_sink sha256))) (resume : List ResumePoint)
        → slot.acked ≡ 0
        → add_slot lib (mem_sink sha256) i slot rest ≡ (w', opened slots resume)
        → (ss : List (Slot lib (mem_sink sha256))) × (rest ≡ (w', opened ss resume))
          × (slots ≡ slot ∷ ss)
    unfolding add_slot
    add_slot_lem i slot (w, failed e) w' slots resume z h = cc
    add_slot_lem i slot (w, refused q) w' slots resume z h = cc
    add_slot_lem i slot (w, opened ss rs) w' slots resume z h =
        let e : (if ltb 0 slot.acked
              then record { file_index = i; offset = slot.acked } ∷ rs
              else rs)
            ≡ rs =
          rw (z) refl in
        (ss, ground (arith, h, e), cc)

    open_case_fresh :
        (i : ℕ) (entry : FileEntry) (expected : Option Hash) (made : W × Result (List ℕ) SinkError)
        (rest : W × Opening lib (mem_sink sha256)) (w' : W)
        (slots : List (Slot lib (mem_sink sha256))) (resume : List ResumePoint)
        → made.1 ≡ ok []
        → open_case lib (mem_sink sha256) i entry expected made rest ≡ (w', opened slots resume)
        → (ss : List (Slot lib (mem_sink sha256))) × (rest ≡ (w', opened ss resume))
          × (slots ≡ fresh_slot entry expected ∷ ss)
    unfolding open_case fresh_slot
    open_case_fresh i entry expected (w, err e) rest w' slots resume f h = cc
    open_case_fresh i entry expected (w, ok (b ∷ bs)) rest w' slots resume f h = cc
    open_case_fresh i entry expected (w, ok []) rest w' slots resume f h =
        let e : ltb entry.size 0 ≡ false = ground arith in
        add_slot_lem i (fresh_slot entry expected) rest w' slots resume refl (rw (e) at h)

  is_ok_digest_lem :
      (h : Option Hash) (bytes : List ℕ)
      → ((g : Hash) → h ≡ some g → sha256 bytes ≡ g)
      → is_ok_digest lib (mem_sink sha256) h (ok (sha256 bytes)) ≡ true
  is_ok_digest_lem none bytes f = refl
  is_ok_digest_lem (some g) bytes f = let e = f g refl in ground (arith, e)

  new_file :
      (b : ℕ) (f : Name × List ℕ × Option Hash) (expected : Option Hash)
      → IsSendable f
      → in_band lib b (hash_bytes mem_source f.2) ≡ ok expected
      → FileInv lib sha256 b
          (new_track mem_source f)
          (fresh_slot (entry_of (new_track mem_source f)) expected)
          []
          []
  unfolding new_track fresh_slot Flight Acks
  new_file b f expected h e =
      let same : f.2 ≡ expected =
        ok-inj (sym (in_band-hash_bytes b f.2 (λ g q. (h.own_hash g q).1)) ∙ e) in
      record {
        size = refl;
        same_size = refl;
        machine = h.machine;
        within = omega arith;
        held = refl;
        expected = rw (sym same) (is_ok_digest_lem f.2 f.1 (λ g q. (h.own_hash g q).0));
        flight = refl;
        acks = refl;
      }

  -- The bytes of all files.
  abbrev pub total : List (Name × List ℕ × Option Hash) → ℕ
  total [] = 0
  total (f ∷ fs) = length f.1 + total fs

  pub unsent_lem :
      (fs : List (Name × List ℕ × Option Hash))
      → unsent lib sha256 (map (new_track mem_source) fs) ≡ total fs
  unfolding new_track
  unsent_lem [] = refl
  unsent_lem (f ∷ fs) = omega (arith, unsent_lem fs)

  pub length-done_list : (f : Option FileDone) → length (done_list lib (mem_sink sha256) f) ≤ 1
  length-done_list none = omega arith
  length-done_list (some d) = omega arith

  pub sources_lem :
      (fs : List (Name × List ℕ × Option Hash))
      → map (λ (t : Track mem_source). t.src) (map (new_track mem_source) fs) ≡ map (λ f. f.1) fs
  unfolding new_track
  sources_lem [] = refl
  sources_lem (f ∷ fs) = ap (◌∷◌ f.1) (sources_lem fs)

  module _ {W : Type 0} (make_sink : W → ℕ → lib.PathBuf → W × Result (List ℕ) SinkError)
      (fresh : (w : W) (i : ℕ) (path : lib.PathBuf) → (make_sink w i path).1 ≡ ok [])
      (config : ReceiverConfig lib) (no_hashes : config.expected_hashes ≡ []) where
    opened_none :
        (b : ℕ) (files : List FileEntry) (w w' : W) (slots : List (Slot lib (mem_sink sha256)))
        (resume : List ResumePoint)
        → open_sinks lib (mem_sink sha256) make_sink b files [] w ≡ (w', opened slots resume)
        → ([] ≡ slots) × ([] ≡ resume)
    unfolding open_sinks
    opened_none b files w w' slots resume h = (cc, cc)

    pub open_fresh :
        (b : ℕ) (fs : List (Name × List ℕ × Option Hash)) (plans : List (lib.PathBuf × Option Hash))
        (w w' : W) (slots : List (Slot lib (mem_sink sha256))) (resume : List ResumePoint)
        → All IsSendable fs
        → validate lib b (map entry_of (map (new_track mem_source) fs)) config ≡ returns (ok plans)
        → open_sinks lib
            (mem_sink sha256)
            make_sink
            b
            (map entry_of (map (new_track mem_source) fs))
            plans
            w
          ≡ (w', opened slots resume)
        → FilesInv lib sha256 b (map (new_track mem_source) fs) slots [] []
          × All (IsHonest lib sha256) slots
          × (resume ≡ [])
    unfolding FilesInv open_sinks validate fresh_slot new_track
    open_fresh b [] [] w w' slots resume hs v h =
        let (e1, e2) = opened_none b [] w w' slots resume h in rw (sym e1, sym e2) (tt, tt, refl)
    open_fresh b [] (plan ∷ plans) w w' slots resume hs v h = cc
    open_fresh b (f ∷ fs) [] w w' slots resume (hf, hs) v h =
        let (plan, later, band, rest, all) = validate_lem b _ _ config [] no_hashes v in cc
    open_fresh b (f ∷ fs) (p ∷ ps) w w' slots resume (hf, hs) v h =
        let (plan, later, band, rest, all) =
          validate_lem b (entry_of (new_track mem_source f))
            (map entry_of (map (new_track mem_source) fs)) config (p ∷ ps) no_hashes v in
        let e1 : plan ≡ p = cc in
        let e2 : later ≡ ps = cc in
        let (ss, later_open, q) =
          open_case_fresh b (entry_of (new_track mem_source f)) p.1 (make_sink w b p.0) _ w' slots
            resume (fresh w b p.0) h in
        let (files, honest, nothing) =
          open_fresh (b + 1) fs ps (make_sink w b p.0).0 w' ss resume hs (rw (e2) at rest)
            later_open in
        let file = new_file b f p.1 hf (rw (e1) at band) in
        rw (q) ((file, next_index b _ ss files), ((λ e. cc), honest), nothing)
