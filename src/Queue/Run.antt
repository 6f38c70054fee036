-- ===== src/Queue/Run.antt =====
-- Runs of the queue of crates/hom-brain/src/ipc/router.rs: a job is put into the class that its
-- request determines, as `BrainRuntime::route` does (crates/hom-brain/src/workers/mod.rs), and
-- jobs are taken one at a time, as `worker_loop` does.
use hom_local.Prelude.{ℕ, suc, Bool, true, false, List, [], ◌∷◌, Option, none, some, if◌then◌else◌}
use hom_local.Queue.{Priority, hi, md, lo, PushResult, pushed, full, WeightedQueue, push, pop}

pub data Op (A : Type 0) : Type 0 where
  put : A → Op A
  take : Op A

pub record Outcome (A : Type 0) : Type 0 where
  pub queue : WeightedQueue A
  pub accepted : List A
  pub served : List A

abbrev pub same_class : Priority → Priority → Bool
same_class hi hi = true
same_class md md = true
same_class lo lo = true
same_class _ _ = false

module _ {A : Type 0} where
  abbrev pub note_put : A → PushResult → List A → List A
  note_put x pushed l = x ∷ l
  note_put x (full f) l = l

  abbrev pub note_take : Option A → List A → List A
  note_take none l = l
  note_take (some x) l = x ∷ l

  abbrev pub takes : List (Op A) → ℕ
  takes [] = 0
  takes (put x ∷ ops) = takes ops
  takes (take ∷ ops) = suc (takes ops)

module _ {A : Type 0} (class_of : A → Priority) where
  -- The items of one class, in order.
  abbrev pub of_class : Priority → List A → List A
  of_class p [] = []
  of_class p (x ∷ l) = if same_class (class_of x) p then x ∷ of_class p l else of_class p l

  -- The queue after the calls, the jobs that were accepted and those that were served, in order.
  unfoldable pub run : List (Op A) → WeightedQueue A → Outcome A
  run [] q = record { queue = q; accepted = []; served = [] }
  run (put x ∷ ops) q =
      let (q', r) = push (class_of x) x q in
      let o = run ops q' in record o { accepted = note_put x r o.accepted }
  run (take ∷ ops) q =
      let (q', r) = pop q in let o = run ops q' in record o { served = note_take r o.served }
