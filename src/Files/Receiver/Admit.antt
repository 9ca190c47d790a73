-- ===== src/Files/Receiver/Admit.antt =====
-- What an offer that is accepted has gone through (crates/mouser-files/src/receiver.rs).
use mouser.Prelude.{
  ℕ, ◌≡◌, refl, sym, List, ◌∷◌, inl, inr, Bool-cases, Option, Option-cases, Result, ok, err, ◌==◌,
  length, arith,
}
use mouser.Files.Types.{Hash, FileOffer, FileAccept, SinkError, Reason}
use mouser.Files.Path.{Outcome, returns, panics, PathLib}
use mouser.Files.Sink.{FileSink}
use mouser.Files.Receiver.{
  Outbound, accept, ReceiverConfig, check_limits, validate, Slot, Receiver,
  finalize_completed_files, done_list,
}
use mouser.Files.Receiver.Open.{
  Opening, failed, refused, opened, open_sinks, rejected, new_receiver, opened_case, planned,
  accept_offer,
}

returns-inj {ℓ} : {A : Type ℓ} {x y : A} → returns x ≡ returns y → x ≡ y
returns-inj q = cc

module _ (lib : PathLib) (fs : FileSink) {W : Type 0}
    (make_sink : W → ℕ → lib.PathBuf → W × Result fs.Snk SinkError) where
  -- How an offer that is accepted came through.
  pub record Admitted (offer : FileOffer) (config : ReceiverConfig lib) (w w' : W)
      (r : Receiver lib fs) (a : FileAccept) (out : List Outbound) : Type 0 where
    pub plans : List (lib.PathBuf × Option Hash)
    pub slots : List (Slot lib fs)
    pub validated : validate lib 0 offer.files config ≡ returns (ok plans)
    pub loop : open_sinks lib fs make_sink 0 offer.files plans w ≡ (w', opened slots a.resume)
    pub transfer_id : a.transfer_id ≡ offer.transfer_id
    pub receiver :
        r
        ≡ (finalize_completed_files lib fs
            (new_receiver lib fs make_sink offer config.quarantine slots)).0
    pub rest :
        out
        ≡ done_list lib fs
            (finalize_completed_files lib fs
              (new_receiver lib fs make_sink offer config.quarantine slots)).1

  opened_case_lem :
      (offer : FileOffer) (config : ReceiverConfig lib) (w w' : W) (o : W × Opening lib fs)
      (r : Receiver lib fs) (a : FileAccept) (out : List Outbound)
      → opened_case lib fs make_sink offer config.quarantine o ≡ (w', ok (r, accept a ∷ out))
      → (slots : List (Slot lib fs)) × (o ≡ (w', opened slots a.resume))
        × (a.transfer_id ≡ offer.transfer_id)
        × (r
            ≡ (finalize_completed_files lib fs
                (new_receiver lib fs make_sink offer config.quarantine slots)).0)
        × (out
            ≡ done_list lib fs
                (finalize_completed_files lib fs
                  (new_receiver lib fs make_sink offer config.quarantine slots)).1)
  unfolding opened_case rejected
  opened_case_lem offer config w w' (v, failed e) r a out h = cc
  opened_case_lem offer config w w' (v, refused reason) r a out h = cc
  opened_case_lem offer config w w' (v, opened slots resume) r a out h = (slots, cc, cc, cc, cc)

  planned_lem :
      (offer : FileOffer) (config : ReceiverConfig lib) (w w' : W) (r : Receiver lib fs)
      (a : FileAccept) (out : List Outbound)
      (v : Outcome (Result (List (lib.PathBuf × Option Hash)) Reason))
      → v ≡ validate lib 0 offer.files config
      → planned lib fs make_sink offer config.quarantine w v ≡ returns (w', ok (r, accept a ∷ out))
      → Admitted offer config w w' r a out
  unfolding planned rejected
  planned_lem offer config w w' r a out panics e h = cc
  planned_lem offer config w w' r a out (returns (err reason)) e h = cc
  planned_lem offer config w w' r a out (returns (ok plans)) e h =
      let inner : opened_case lib fs make_sink offer config.quarantine
            (open_sinks lib fs make_sink 0 offer.files plans w)
          ≡ (w', ok (r, accept a ∷ out)) =
        returns-inj h in
      let (slots, loop, id, receiver, rest) = opened_case_lem offer config w w' _ r a out inner in
      record {
        plans = plans;
        slots = slots;
        validated = sym e;
        loop = loop;
        transfer_id = id;
        receiver = receiver;
        rest = rest;
      }

  pub accept_offer-accept :
      (offer : FileOffer) (config : ReceiverConfig lib) (w w' : W) (r : Receiver lib fs)
      (a : FileAccept) (out : List Outbound)
      → accept_offer lib fs make_sink offer config w ≡ returns (w', ok (r, accept a ∷ out))
      → Admitted offer config w w' r a out
  unfolding accept_offer rejected
  accept_offer-accept offer config w w' r a out h = elim (Bool-cases (length offer.files == 0)) [
    | inl e ↦ ground (arith, h, e)
    | inr e ↦ elim (Option-cases (check_limits lib offer config)) [
      | inr (reason, q) ↦ ground (arith, rw (e, q) at h)
      | inl q ↦
          planned_lem offer config w w' r a out (validate lib 0 offer.files config) refl
            (rw (e, q) at h)
    ]
  ]
