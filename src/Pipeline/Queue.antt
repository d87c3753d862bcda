-- ===== src/Pipeline/Queue.antt =====
-- agent/src/main.cpp: what the collector and the sender do to the queue with the mutex held.
use real_time_system_metrics.Base.{
  ℕ, ◌+◌, ◌≤◌, ◌<◌, Bool, true, false, not, ◌||◌, ◌&&◌, List, [], ◌∷◌, ◌++◌, ◌≡◌, length,
  length-append, leb, arith, if◌then◌else◌,
}

module _ {ℓ} {M : Type ℓ} where
  -- `pop_front`; the code calls it on a queue that is not empty, if the capacity is positive.
  abbrev pub pop_front : List M → List M
  pop_front [] = []
  pop_front (m ∷ queue) = queue

  -- The queue with the new snapshot, and `dropped_oldest`.
  unfoldable pub push : ℕ → M → List M → List M × Bool
  push queue_capacity m queue =
      if leb queue_capacity (length queue)
      then (pop_front queue ++ m ∷ [], true)
      else (queue ++ m ∷ [], false)

  abbrev pub is_empty : List M → Bool
  is_empty [] = true
  is_empty (m ∷ queue) = false

  pub push-le :
      (capacity : ℕ) (m : M) (queue : List M)
      → 0 < capacity
      → length queue ≤ capacity
      → length (push capacity m queue).0 ≤ capacity
  unfolding push
  push-le capacity m [] h k = ground arith
  push-le capacity m (x ∷ queue) h k =
      ground (arith, length-append {ℓ} queue (m ∷ []), length-append {ℓ} (x ∷ queue) (m ∷ []))

  pub push-le_suc :
      (capacity : ℕ) (m : M) (queue : List M) → length (push capacity m queue).0 ≤ length queue + 1
  unfolding push
  push-le_suc capacity m [] = ground arith
  push-le_suc capacity m (x ∷ queue) =
      ground (arith, length-append {ℓ} queue (m ∷ []), length-append {ℓ} (x ∷ queue) (m ∷ []))

  pub push_of_empty : (capacity : ℕ) (m : M) → (push capacity m []).0 ≡ m ∷ []
  unfolding push
  push_of_empty capacity m = ground arith

-- What the sender's code decides with the mutex held.
pub data Round {ℓ} (M : Type ℓ) : Type ℓ where
  would_block : Round M  -- the predicate of `wait` is false
  finished : Round M  -- `break`
  again : Round M  -- `continue`
  popped : M → List M → Round M

module _ {ℓ} {M : Type ℓ} where
  abbrev pub take_front : List M → Round M
  take_front [] = again
  take_front (m ∷ queue) = popped m queue

  unfoldable pub sender_round : Bool → List M → Round M
  sender_round should_exit queue =
      if should_exit || not (is_empty queue)
      then if is_empty queue && should_exit
        then finished
        else if is_empty queue
        then again
        else take_front queue
      else would_block
