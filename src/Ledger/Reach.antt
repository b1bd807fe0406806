-- ===== src/Ledger/Reach.antt =====
-- Ledgers that runs of the process reach. (service/agent/admission.ts)
use dreamux.Base.{
  ℕ, suc, ◌≡◌, refl, ap, ◌∙◌, String, Bool, some, arith, if◌then◌else◌, includes, Bool-cases,
  Option-cases, inl, inr,
}
use dreamux.Base.Dict.{lookup, remove, lookup-insert, lookup-remove}
use dreamux.Ledger.Admission.{
  Ledger, AdmissionStatus, empty, admit_key, commit, release, release_uncommitted, commits,
}
use dreamux.Ledger.Invariant.{
  admits, settles, rejects, IsSound, Step, commit_mirrored, commit-IsDistinct, commit_bounded,
  commit_absent, commit_pending,
}

-- The steps of a run from a ledger, with the number of keys that they commit.
pub data Run (l : Ledger) : ℕ → Ledger → Type 0 where
  start : Run l 0 l
  next :
      {n : ℕ} {before after : Ledger} {committing : Bool}
      → Run l n before
      → Step before committing after
      → Run l (if committing then suc n else n) after

empty-IsSound : IsSound empty
unfolding empty lookup
empty-IsSound = record {
  mirrored = refl;
  distinct = tt;
  bounded = omega arith;
  apart = λ key task h. ground arith;
}

admit-IsSound : (l : Ledger) (key : String) → IsSound l → IsSound (admit_key l key).0
unfolding admit_key
admit-IsSound l key v = elim (Bool-cases (includes key l.committed)) [
  | inl h ↦ rw (h) v
  | inr h ↦ elim (Option-cases (lookup key l.pending)) [
    | inl e ↦
        rw (h, e)
          record {
            mirrored = v.mirrored;
            distinct = v.distinct;
            bounded = v.bounded;
            apart = λ other task found.
                ground (arith, v.apart other task, lookup-insert key other l.next_task l.pending);
          }
    | inr (task, e) ↦ rw (h, e) v
  ]
]

-- With the key's own task the guard of the release passes.
pub release_uncommitted_lem :
    (l : Ledger) (key : String) (task : ℕ)
    → lookup key l.pending ≡ some task
    → release_uncommitted l key task ≡ record l { pending = remove key l.pending }
unfolding release_uncommitted
release_uncommitted_lem l key task e = ground arith

release_uncommitted-IsSound :
    (l : Ledger) (key : String) (task : ℕ)
    → lookup key l.pending ≡ some task
    → IsSound l
    → IsSound (release_uncommitted l key task)
release_uncommitted-IsSound l key task e v = rw (release_uncommitted_lem l key task e) record {
  mirrored = v.mirrored;
  distinct = v.distinct;
  bounded = v.bounded;
  apart = λ other t found. ground (arith, v.apart other t, lookup-remove key other l.pending);
}

-- A task that commits: the key joins the window and leaves the tasks in flight.
pub release_lem :
    (l : Ledger) (key : String) (task : ℕ) (status : AdmissionStatus)
    → lookup key l.pending ≡ some task
    → IsSound l
    → release l key task status ≡ (
        let committed = if commits status then commit l key else l in
        record committed { pending = remove key l.pending })
unfolding release
release_lem l key task status e v =
    let fresh = (v.apart key task e).0 in
    let same = commit_pending l key v fresh in
    elim (Bool-cases (commits status)) [
      | inl h ↦ rw (h) (
          release_uncommitted_lem (commit l key) key task (ap (lookup key) same.0 ∙ e)
          ∙ rw (same.0) refl)
      | inr h ↦ rw (h) (release_uncommitted_lem l key task e)
    ]

release-IsSound :
    (l : Ledger) (key : String) (task : ℕ) (status : AdmissionStatus)
    → lookup key l.pending ≡ some task
    → IsSound l
    → IsSound (release l key task status)
release-IsSound l key task status e v =
    let fresh = (v.apart key task e).0 in
    let same = commit_pending l key v fresh in
    elim (Bool-cases (commits status)) [
      | inl h ↦
          rw (release_lem l key task status e v, h)
            record {
              mirrored = commit_mirrored l key v fresh;
              distinct = commit-IsDistinct l key v fresh;
              bounded = commit_bounded l key v fresh;
              apart = λ other t found. ground (
                arith,
                v.apart other t,
                lookup-remove key other l.pending,
                commit_absent l key other v fresh,
                same,
              );
            }
      | inr h ↦
          rw (release_lem l key task status e v, h)
            record {
              mirrored = v.mirrored;
              distinct = v.distinct;
              bounded = v.bounded;
              apart = λ other t found.
                  ground (arith, v.apart other t, lookup-remove key other l.pending);
            }
    ]

pub step-IsSound :
    {l after : Ledger} {committing : Bool} → IsSound l → Step l committing after → IsSound after
step-IsSound {l} v (admits key) = admit-IsSound l key v
step-IsSound {l} v (settles key task status e) = release-IsSound l key task status e v
step-IsSound {l} v (rejects key task e) = release_uncommitted-IsSound l key task e v

-- Every ledger that a run reaches from the empty one is sound: the set and the order hold the same
-- keys, at most 1024 and none twice, and no key in flight is committed.
pub run-IsSound : (n : ℕ) (l : Ledger) → Run empty n l → IsSound l
run-IsSound n l start = empty-IsSound
run-IsSound n l (next {n = k} {before = b} r s) = step-IsSound (run-IsSound k b r) s
