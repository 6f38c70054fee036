-- ===== src/Tests/Queue.antt =====
-- Runs of the queue of crates/hom-brain/src/ipc/router.rs, on the jobs of that file's own tests.
use hom_local.Prelude.{ℕ, zero, suc, ◌<◌, ◌+◌, ◌≡◌, refl, List, [], ◌∷◌, ◌++◌, arith, length, All}
use hom_local.Queue.{Priority, hi, md, lo, full, WeightedQueue, items_for, total_len, new, push}
use hom_local.Queue.Run.{Op, put, take, of_class, run}
use hom_local.Queue.Fifo.{IsTagged, run_fifo}
use hom_local.Queue.Capacity.{IsWithinCaps, run-IsWithinCaps, run_conserves}
use hom_local.Queue.Fairness.{no_starvation}
use hom_local.Queue.Share.{share, take_times, saturated_shares}

abbrev Job : Type 0
Job = Priority × ℕ

abbrev job_class : Job → Priority
job_class j = j.0

abbrev jobs : Priority → ℕ → List Job
jobs p zero = []
jobs p (suc n) = (p, n) ∷ jobs p n

abbrev saturated : WeightedQueue Job
saturated = record {
  hi_items = jobs hi 32;
  md_items = jobs md 32;
  lo_items = jobs lo 32;
  caps = record { hi_cap = 64; md_cap = 64; lo_cap = 64 };
  cursor = 7;
}

jobs-tagged : (p : Priority) (n : ℕ) → All (λ j. job_class j ≡ p) (jobs p n)
jobs-tagged p zero = tt
jobs-tagged p (suc n) = (refl, jobs-tagged p n)

saturated-IsTagged : IsTagged job_class saturated
saturated-IsTagged = record {
  tagged = elim [ hi ↦ jobs-tagged hi 32 | md ↦ jobs-tagged md 32 | lo ↦ jobs-tagged lo 32 ];
}

rejects_when_class_capacity_is_full :
    (push hi 2 (push {A = ℕ} hi 1 (new (record { hi_cap = 1; md_cap = 1; lo_cap = 1 }))).0).1
    ≡ full (record { priority = hi; len = 1; cap = 1 })
unfolding push new
rejects_when_class_capacity_is_full = refl

abbrev mixed : List (Op Job)
mixed = put (md, 100) ∷ take ∷ put (hi, 101) ∷ take ∷ take ∷ []

run_fifo_example :
    let o = run job_class mixed saturated in
    jobs md 32 ++ of_class job_class md o.accepted
    ≡ of_class job_class md o.served ++ items_for md o.queue
run_fifo_example = run_fifo job_class mixed saturated md saturated-IsTagged

run-IsWithinCaps_example : IsWithinCaps (run job_class mixed saturated).queue
run-IsWithinCaps_example = run-IsWithinCaps job_class mixed saturated (omega arith)

run_conserves_example :
    let o = run job_class mixed saturated in
    total_len saturated + length o.accepted ≡ length o.served + total_len o.queue
run_conserves_example = run_conserves job_class mixed saturated

no_starvation_example :
    1 < length (of_class job_class lo (run job_class (take_times 42) saturated).served)
no_starvation_example =
    no_starvation job_class (take_times 42) saturated lo 1 saturated-IsTagged (omega arith)
      (omega arith) (omega arith)

saturated_shares_example :
    length (of_class job_class md (run job_class (take_times 21) saturated).served) ≡ share md
saturated_shares_example =
    saturated_shares job_class saturated saturated-IsTagged (omega arith)
      (elim [ hi ↦ omega arith | md ↦ omega arith | lo ↦ omega arith ]) md
