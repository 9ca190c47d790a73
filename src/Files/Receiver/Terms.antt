-- ===== src/Files/Receiver/Terms.antt =====
-- The digest that a receiver holds an offered file to, where the offer or its configuration gives one
-- (crates/mouser-files/src/receiver.rs).
use mouser.Prelude.{
  ℕ, ◌+◌, ◌≡◌, refl, sym, ap, ◌∙◌, List, [], ◌∷◌, Option, none, some, some-inj, Result, ok, err,
  get_elem?, arith,
}
use mouser.Core.DeviceId.{to_id}
use mouser.Files.Types.{Hash, FileEntry, PathError, Reason, malformed_hash}
use mouser.Files.Path.{Outcome, returns, panics, and_then, resolve_in_quarantine, PathLib}
use mouser.Files.Receiver.{
  ReceiverConfig, in_band, settle, flatten, with_hash, validate_entry, add_plan, validate,
}

module _ (lib : PathLib) (config : ReceiverConfig lib) where
  -- The digest to verify is the one of the offer, and the one of the configuration, where there is one.
  pub record IsExpected (i : ℕ) (entry : FileEntry) (expected : Option Hash) : Type 0 where
    pub offered :
        (bytes : List ℕ)
        → entry.sha256 ≡ some bytes
        → (h : Hash) × (to_id bytes ≡ some h) × (expected ≡ some h)
    pub configured :
        (h : Hash) → get_elem? config.expected_hashes i ≡ some (some h) → expected ≡ some h

  in_band_lem :
      (i : ℕ) (o : Option (List ℕ)) (found : Option Hash) (bytes : List ℕ)
      → in_band lib i o ≡ ok found
      → o ≡ some bytes
      → (h : Hash) × (to_id bytes ≡ some h) × (found ≡ some h)
  unfolding in_band
  in_band_lem i none found bytes h e = cc
  in_band_lem i (some b) found bytes h e = go (to_id b) refl h
    where
      go :
          (x : Option Hash)
          → to_id b ≡ x
          → ◌≡◌ {A = Result (Option Hash) Reason}
              (elim x [ none ↦ err (malformed_hash i) | some d ↦ ok (some d) ])
              (ok found)
          → (h : Hash) × (to_id bytes ≡ some h) × (found ≡ some h)
      go none q h = cc
      go (some d) q h = (d, ap to_id (sym (some-inj e)) ∙ q, cc)

  settle_lem :
      (i : ℕ) (a b expected : Option Hash)
      → settle lib i a b ≡ ok expected
      → ((h : Hash) → a ≡ some h → expected ≡ some h)
        × ((h : Hash) → b ≡ some h → expected ≡ some h)
  unfolding settle
  settle_lem i none b expected h = (λ d e. cc, λ d e. cc)
  settle_lem i (some a) none expected h = (λ d e. cc, λ d e. cc)
  settle_lem i (some a) (some b) expected h =
      (λ d e. ground (arith, h, e), λ d e. ground (arith, h, e))

  flatten-some : (o : Option (Option Hash)) (h : Hash) → o ≡ some (some h) → flatten lib o ≡ some h
  flatten-some o h e = rw (e) refl

  with_hash_lem :
      (i : ℕ) (entry : FileEntry) (r : Result lib.PathBuf PathError) (path : lib.PathBuf)
      (expected : Option Hash)
      → with_hash lib i entry config r ≡ ok (path, expected)
      → IsExpected i entry expected
  unfolding with_hash
  with_hash_lem i entry (err e) path expected h = cc
  with_hash_lem i entry (ok p) path expected h = go (in_band lib i entry.sha256) refl h
    where
      settled :
          (found : Option Hash) (y : Result (Option Hash) Reason)
          → in_band lib i entry.sha256 ≡ ok found
          → settle lib i (flatten lib (get_elem? config.expected_hashes i)) found ≡ y
          → ◌≡◌ {A = Result (lib.PathBuf × Option Hash) Reason}
              (elim y [ err e ↦ err e | ok d ↦ ok (p, d) ])
              (ok (path, expected))
          → IsExpected i entry expected
      settled found (err e) q s h = cc
      settled found (ok d) q s h =
          let same : d ≡ expected = cc in
          let (of_config, of_offer) = settle_lem i _ found d s in
          record {
            offered = λ bytes e.
                (let (k, value, is_found) = in_band_lem i entry.sha256 found bytes q e in
                  (k, value, sym same ∙ of_offer k is_found));
            configured = λ k e. sym same ∙ of_config k (flatten-some _ k e);
          }

      go :
          (x : Result (Option Hash) Reason)
          → in_band lib i entry.sha256 ≡ x
          → ◌≡◌ {A = Result (lib.PathBuf × Option Hash) Reason}
              (elim x [
                | err e ↦ err e
                | ok offered ↦
                    elim (settle lib i (flatten lib (get_elem? config.expected_hashes i)) offered) [
                      | err e ↦ err e
                      | ok d ↦ ok (p, d)
                    ]
              ])
              (ok (path, expected))
          → IsExpected i entry expected
      go (err e) q h = cc
      go (ok found) q h = settled found (settle lib i _ found) q refl h

  -- The plans of the files from index `i` on.
  unfoldable pub AllPlanned : ℕ → List FileEntry → List (lib.PathBuf × Option Hash) → Type 0
  AllPlanned i [] [] = Unit {0}
  AllPlanned i [] (plan ∷ plans) = ⊥
  AllPlanned i (entry ∷ files) [] = ⊥
  AllPlanned i (entry ∷ files) (plan ∷ plans) =
      IsExpected i entry plan.1 × AllPlanned (i + 1) files plans

  pub validate-AllPlanned :
      (i : ℕ) (files : List FileEntry) (plans : List (lib.PathBuf × Option Hash))
      → validate lib i files config ≡ returns (ok plans)
      → AllPlanned i files plans
  unfolding validate validate_entry AllPlanned
  validate-AllPlanned i [] plans h = let e : [] ≡ plans = cc in rw (sym e) tt
  validate-AllPlanned i (entry ∷ files) plans h =
      go (validate-AllPlanned (i + 1) files)
        (resolve_in_quarantine lib config.quarantine entry.name) h
    where
      added :
          ((more : List (lib.PathBuf × Option Hash))
            → validate lib (i + 1) files config ≡ returns (ok more)
            → AllPlanned (i + 1) files more)
          → (r : Result lib.PathBuf PathError) (x : Result (lib.PathBuf × Option Hash) Reason)
            (rest : Outcome (Result (List (lib.PathBuf × Option Hash)) Reason))
          → with_hash lib i entry config r ≡ x
          → rest ≡ validate lib (i + 1) files config
          → add_plan lib x rest ≡ returns (ok plans)
          → AllPlanned i (entry ∷ files) plans
      added ih r (err e) rest q k h = unfold add_plan in cc
      added ih r (ok plan) panics q k h = unfold add_plan in cc
      added ih r (ok plan) (returns (err e)) q k h = unfold add_plan in cc
      added ih r (ok plan) (returns (ok more)) q k h =
          unfold add_plan in
          (let e : plan ∷ more ≡ plans = cc in
            rw (sym e) (with_hash_lem i entry r plan.0 plan.1 q, ih more (sym k)))

      go :
          ((more : List (lib.PathBuf × Option Hash))
            → validate lib (i + 1) files config ≡ returns (ok more)
            → AllPlanned (i + 1) files more)
          → (v : Outcome (Result lib.PathBuf PathError))
          → and_then
              (and_then v (λ r. returns (with_hash lib i entry config r)))
              (λ plan. add_plan lib plan (validate lib (i + 1) files config))
            ≡ returns (ok plans)
          → AllPlanned i (entry ∷ files) plans
      go ih panics h = cc
      go ih (returns r) h = added ih r _ _ refl refl h
