-- ===== src/Files/Sender/Resume.antt =====
-- What the resume points of an answer do to the files of a sender, when they pass the check
-- (crates/mouser-files/src/sender.rs).
use mouser.Prelude.{
  ℕ, ◌≤◌, ◌≡◌, ◌≢◌, ◌++◌, refl, sym, ap, ◌∙◌, true, false, List, [], ◌∷◌, Option, none, some,
  some-inj, Result, ok, get_elem?, get_elem?-set, get_elem?-set_ne, set, All, arith, ℕ_discrete,
}
use mouser.Files.Types.{FileError, ResumePoint}
use mouser.Files.Sink.{FileSource}
use mouser.Files.Sender.{Track, check_point, resumes, check_resume, resume_at}

module _ (fs : FileSource) where
  -- The point is one of a file of the transfer, within its size.
  abbrev pub Fits : List (Track fs) → ResumePoint → Type 0
  Fits ts r = (t : Track fs) × (get_elem? ts r.file_index ≡ some t) × (r.offset ≤ t.size)

  check_point_lem :
      (earlier : List ResumePoint) (r : ResumePoint) (rest : Result (Unit {0}) FileError)
      (o : Option (Track fs))
      → check_point fs earlier r rest o ≡ ok tt
      → (t : Track fs) × (o ≡ some t)
        × (r.offset ≤ t.size)
        × (rest ≡ ok tt)
        × (resumes fs earlier r.file_index ≡ false)
  unfolding check_point
  check_point_lem earlier r rest none h = cc
  check_point_lem earlier r rest (some t) h =
      (t, refl, ground (arith, h), ground (arith, h), ground (arith, h))

  -- No point is one of the file `i`.
  abbrev pub NoneOf : ℕ → List ResumePoint → Type 0
  NoneOf i rs = All (λ r. r.file_index ≢ i) rs

  -- No two points are of one file.
  unfoldable pub Distinct : List ResumePoint → Type 0
  Distinct [] = Unit {0}
  Distinct (r ∷ rs) = NoneOf r.file_index rs × Distinct rs

  resumes-cons :
      (q : ResumePoint) (earlier : List ResumePoint) (i : ℕ)
      → resumes fs (q ∷ earlier) i ≡ false
      → (i ≢ q.file_index) × (resumes fs earlier i ≡ false)
  unfolding resumes
  resumes-cons q earlier i h = (λ e. ground (arith, h, e), ground (arith, h))

  -- The points that pass the check are of no file of an earlier one.
  check_resume-NoneOf :
      (ts : List (Track fs)) (q : ResumePoint) (earlier before rs : List ResumePoint)
      → check_resume fs ts (before ++ (q ∷ earlier)) rs ≡ ok tt
      → NoneOf q.file_index rs
  unfolding check_resume
  check_resume-NoneOf ts q earlier before [] h = tt
  check_resume-NoneOf ts q earlier before (r ∷ rs) h =
      let (t, found, le, rest, fresh) =
        check_point_lem (before ++ (q ∷ earlier)) r _ (get_elem? ts r.file_index) h in
      (
        resumes-NoneOf q earlier before r.file_index fresh,
        check_resume-NoneOf ts q earlier (r ∷ before) rs rest,
      )
    where
      resumes-NoneOf :
          (q : ResumePoint) (earlier before : List ResumePoint) (i : ℕ)
          → resumes fs (before ++ (q ∷ earlier)) i ≡ false
          → i ≢ q.file_index
      resumes-NoneOf q earlier [] i h = (resumes-cons q earlier i h).0
      resumes-NoneOf q earlier (b ∷ before) i h =
          resumes-NoneOf q earlier before i (resumes-cons b (before ++ (q ∷ earlier)) i h).1

  pub check_resume-Distinct :
      (ts : List (Track fs)) (earlier rs : List ResumePoint)
      → check_resume fs ts earlier rs ≡ ok tt
      → Distinct rs
  unfolding check_resume Distinct
  check_resume-Distinct ts earlier [] h = tt
  check_resume-Distinct ts earlier (r ∷ rs) h =
      let (t, found, le, rest, fresh) = check_point_lem earlier r _ (get_elem? ts r.file_index) h in
      (check_resume-NoneOf ts r earlier [] rs rest, check_resume-Distinct ts (r ∷ earlier) rs rest)

  pub check_resume-All :
      (ts : List (Track fs)) (earlier rs : List ResumePoint)
      → check_resume fs ts earlier rs ≡ ok tt
      → All (Fits ts) rs
  unfolding check_resume
  check_resume-All ts earlier [] h = tt
  check_resume-All ts earlier (r ∷ rs) h =
      let (t, found, le, rest, fresh) = check_point_lem earlier r _ (get_elem? ts r.file_index) h in
      ((t, found, le), check_resume-All ts (r ∷ earlier) rs rest)

  Fits-set :
      (ts : List (Track fs)) (r q : ResumePoint) (t : Track fs)
      → get_elem? ts q.file_index ≡ some t
      → Fits ts r
      → Fits (set ts q.file_index (resume_at fs t q.offset)) r
  Fits-set ts r q t e (u, found, le) = elim (ℕ_discrete q.file_index r.file_index) [
    | yes same ↦
        (let both : some u ≡ some t = sym found ∙ ap (get_elem? ts) (sym same) ∙ e in
          (
            resume_at fs t q.offset,
            ap (get_elem? (set ts q.file_index (resume_at fs t q.offset))) (sym same)
                ∙ get_elem?-set ts q.file_index _ t e,
            omega (arith, le, ap (λ (x : Track fs). x.size) (some-inj both)),
          ))
    | no other ↦ (u, get_elem?-set_ne ts _ other ∙ found, le)
  ]

  pub All-Fits-set :
      (ts : List (Track fs)) (rs : List ResumePoint) (q : ResumePoint) (t : Track fs)
      → get_elem? ts q.file_index ≡ some t
      → All (Fits ts) rs
      → All (Fits (set ts q.file_index (resume_at fs t q.offset))) rs
  All-Fits-set ts [] q t e h = tt
  All-Fits-set ts (r ∷ rs) q t e (h, hs) = (Fits-set ts r q t e h, All-Fits-set ts rs q t e hs)

  -- The point is applied: its file goes on at the offset, with all before it acknowledged.
  abbrev pub IsApplied : List (Track fs) → List (Track fs) → ResumePoint → Type 0
  IsApplied ts ts' r =
      (t : Track fs) × (get_elem? ts r.file_index ≡ some t)
      × (r.offset ≤ t.size)
      × (get_elem? ts' r.file_index
          ≡ some (record t { resumed = true; sent = r.offset; acked = r.offset }))

  -- How the tracks go on after the points: each point is applied, and the other files are as they were.
  pub record Resumed (ts : List (Track fs)) (rs : List ResumePoint) (ts' : List (Track fs))
      : Type 0 where
    pub applied : All (IsApplied ts ts') rs
    pub others : (i : ℕ) → NoneOf i rs → get_elem? ts' i ≡ get_elem? ts i

  IsApplied-set :
      (ts ts' : List (Track fs)) (i : ℕ) (u : Track fs) (rs : List ResumePoint)
      → NoneOf i rs
      → All (IsApplied (set ts i u) ts') rs
      → All (IsApplied ts ts') rs
  IsApplied-set ts ts' i u [] ne h = tt
  IsApplied-set ts ts' i u (r ∷ rs) (ne, nes) ((t, found, le, goes), h) = (
    (t, sym (get_elem?-set_ne ts u (λ e. ne (sym e))) ∙ found, le, goes),
    IsApplied-set ts ts' i u rs nes h,
  )

  pub Resumed-cons :
      (ts ts' : List (Track fs)) (r : ResumePoint) (rs : List ResumePoint) (t : Track fs)
      → get_elem? ts r.file_index ≡ some t
      → r.offset ≤ t.size
      → NoneOf r.file_index rs
      → Resumed (set ts r.file_index (resume_at fs t r.offset)) rs ts'
      → Resumed ts (r ∷ rs) ts'
  Resumed-cons ts ts' r rs t e le ne h = record {
    applied = (
      (t, e, le, h.others r.file_index ne ∙ get_elem?-set ts r.file_index _ t e),
      IsApplied-set ts ts' r.file_index (resume_at fs t r.offset) rs ne h.applied,
    );
    others = λ i nes. h.others i nes.1 ∙ get_elem?-set_ne ts _ nes.0;
  }
