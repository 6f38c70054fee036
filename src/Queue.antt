-- ===== src/Queue.antt =====
-- The weighted priority queue of one worker's mailbox (crates/hom-brain/src/ipc/router.rs,
-- `WeightedQueue`): three bounded FIFO classes, served by a fixed cyclic schedule of 21 slots.
pub mod Serve
pub mod Run
pub mod Fifo
pub mod Capacity
pub mod Fairness
pub mod Share
use hom_local.Prelude.{
  ℕ, zero, suc, ◌+◌, ◌%◌, Bool, List, [], ◌∷◌, ◌++◌, Option, none, some, ◌==◌, leb, length, get_or,
  if◌then◌else◌,
}

pub data Priority : Type 0 where
  hi md lo : Priority

pub Priority-discrete : Discrete Priority
Priority-discrete = hlevel

pub record QueueCaps : Type 0 where
  pub hi_cap : ℕ
  pub md_cap : ℕ
  pub lo_cap : ℕ

-- `QueueCaps::default`
abbrev pub default_caps : QueueCaps
default_caps = record { hi_cap = 256; md_cap = 1024; lo_cap = 4096 }

pub record QueueSnapshot : Type 0 where
  pub hi_len : ℕ
  pub md_len : ℕ
  pub lo_len : ℕ
  pub total : ℕ

-- The refusal of a full class, with its length and capacity.
pub record QueueFull : Type 0 where
  pub priority : Priority
  pub len : ℕ
  pub cap : ℕ

pub data PushResult : Type 0 where
  pushed : PushResult
  full : QueueFull → PushResult

-- `WeightedQueue::SCHEDULE`
abbrev pub schedule : List Priority
schedule =
    hi ∷ hi ∷ hi ∷ hi ∷ md ∷ hi ∷ hi ∷ hi ∷ hi ∷ md ∷ hi ∷ hi ∷ hi ∷ hi ∷ md ∷ hi ∷ hi ∷ hi ∷ hi
    ∷ md ∷ lo ∷ []

abbrev pub schedule_len : ℕ
schedule_len = 21

-- An index is always a remainder modulo 21, so that the default is never read.
unfoldable pub schedule_at : ℕ → Priority
schedule_at idx = get_or schedule idx lo

-- `VecDeque`s are lists, the front first.
pub record WeightedQueue (A : Type 0) : Type 0 where
  pub hi_items : List A
  pub md_items : List A
  pub lo_items : List A
  pub caps : QueueCaps
  pub cursor : ℕ

module _ {A : Type 0} where
  unfoldable pub new : QueueCaps → WeightedQueue A
  new caps = record { hi_items = []; md_items = []; lo_items = []; caps = caps; cursor = 0 }

  -- The class that `queue_for_mut` borrows, read and written.
  abbrev pub items_for : Priority → WeightedQueue A → List A
  items_for hi q = q.hi_items
  items_for md q = q.md_items
  items_for lo q = q.lo_items

  abbrev pub set_items : Priority → List A → WeightedQueue A → WeightedQueue A
  set_items hi l q = record q { hi_items = l }
  set_items md l q = record q { md_items = l }
  set_items lo l q = record q { lo_items = l }

  abbrev pub len_for : WeightedQueue A → Priority → ℕ
  len_for q p = length (items_for p q)

  abbrev pub cap_for : WeightedQueue A → Priority → ℕ
  cap_for q hi = q.caps.hi_cap
  cap_for q md = q.caps.md_cap
  cap_for q lo = q.caps.lo_cap

  abbrev pub total_len : WeightedQueue A → ℕ
  total_len q = length q.hi_items + length q.md_items + length q.lo_items

  abbrev pub is_full : WeightedQueue A → Priority → Bool
  is_full q p = leb (cap_for q p) (len_for q p)

  unfoldable pub snapshot : WeightedQueue A → QueueSnapshot
  snapshot q = record {
    hi_len = length q.hi_items;
    md_len = length q.md_items;
    lo_len = length q.lo_items;
    total = total_len q;
  }

  unfoldable pub push : Priority → A → WeightedQueue A → WeightedQueue A × PushResult
  push p item q =
      if is_full q p
      then (q, full (record { priority = p; len = len_for q p; cap = cap_for q p }))
      else (set_items p (items_for p q ++ item ∷ []) q, pushed)

  -- `pop_front` of one class
  pop_front : Priority → List A → WeightedQueue A → WeightedQueue A × Option A
  pop_front p [] q = (q, none)
  pop_front p (x ∷ l) q = (set_items p l q, some x)

  -- The loop of `pop` over the offsets that are left.
  pub scan : ℕ → ℕ → WeightedQueue A → WeightedQueue A × Option A
  unfolding pop_front
  scan zero offset q = (q, none)
  scan (suc rounds) offset q =
      let idx = (q.cursor + offset) % schedule_len in
      let p = schedule_at idx in
      let rest = scan rounds (offset + 1) q in
      if len_for q p == 0
      then rest
      else pop_front p (items_for p q) (record q { cursor = (idx + 1) % schedule_len })

  unfoldable pub pop : WeightedQueue A → WeightedQueue A × Option A
  pop q = if total_len q == 0 then (q, none) else scan schedule_len 0 q
