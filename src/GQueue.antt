-- ===== src/GQueue.antt =====
-- `GQueue` of common/GQueue.h: a queue under one lock, the oldest element first. A call that holds
-- the lock is one step; `wait_and_pop` on an empty queue waits (`blocked`).
use files_event.Prelude.{
  ℕ, zero, suc, ◌+◌, ◌≡◌, ◌∙◌, refl, sym, ap, arith, List, [], ◌∷◌, ◌++◌, append_assoc, append-nil,
  length, Option, none, some, Bool, true, false, Run, returns, blocked,
}

module _ {ℓ} {A : Type ℓ} where
  -- The copy constructor: the same elements, under a lock of its own.
  unfoldable pub copy : List A → List A
  copy queue = queue

  unfoldable pub push : A → List A → List A
  push a queue = queue ++ (a ∷ [])

  unfoldable pub try_pop : List A → Option A × List A
  try_pop [] = (none, [])
  try_pop (a ∷ queue) = (some a, queue)

  unfoldable pub wait_and_pop : List A → Run (A × List A)
  wait_and_pop [] = blocked
  wait_and_pop (a ∷ queue) = returns (a, queue)

  unfoldable pub is_empty : List A → Bool
  is_empty [] = true
  is_empty (a ∷ queue) = false

  unfoldable pub get_size : List A → ℕ
  get_size queue = length queue

  -- The loop of `clearQueue`: `size` elements are taken, and counted.
  unfoldable pub clear_loop : ℕ → ℕ → List A → ℕ × List A
  unfolding try_pop
  clear_loop zero res queue = (res, queue)
  clear_loop (suc size) res queue = clear_loop size (suc res) (try_pop queue).1

  unfoldable pub clear_queue : List A → ℕ × List A
  unfolding get_size clear_loop
  clear_queue queue = clear_loop (get_size queue) 0 queue

  unfoldable pub push_all : List A → List A → List A
  unfolding push
  push_all [] queue = queue
  push_all (a ∷ as_pushed) queue = push_all as_pushed (push a queue)

  unfoldable pub pop_all : ℕ → List A → List A × List A
  unfolding try_pop
  pop_all zero queue = ([], queue)
  pop_all (suc n) [] = ([], [])
  pop_all (suc n) (a ∷ queue) = let (popped, queue') = pop_all n queue in (a ∷ popped, queue')

  push_all-append : (xs queue : List A) → push_all xs queue ≡ queue ++ xs
  unfolding push_all
  push_all-append [] queue = sym (append-nil queue)
  push_all-append (x ∷ xs) queue =
      push_all-append xs (queue ++ (x ∷ [])) ∙ append_assoc queue (x ∷ []) xs

  pop_all_lem : (xs queue : List A) → pop_all (length xs) (xs ++ queue) ≡ (xs, queue)
  unfolding pop_all
  pop_all_lem [] queue = refl
  pop_all_lem (x ∷ xs) queue = ap (λ (r : List A × List A). (x ∷ r.0, r.1)) (pop_all_lem xs queue)

  -- What is pushed behind a queue comes out behind it, in the order in which it was pushed, and then the
  -- queue is empty.
  pub pop_all-push_all :
      (queue xs : List A) → pop_all (length (queue ++ xs)) (push_all xs queue) ≡ (queue ++ xs, [])
  pop_all-push_all queue xs =
      ap (pop_all (length (queue ++ xs)))
        (push_all-append xs queue ∙ sym (append-nil (queue ++ xs)))
      ∙ pop_all_lem (queue ++ xs) []

  clear_loop_lem :
      (queue : List A) (res : ℕ) → clear_loop (length queue) res queue ≡ (res + length queue, [])
  unfolding clear_loop
  clear_loop_lem [] res = ap (λ n. (n, [])) {y = res + 0} (omega arith)
  clear_loop_lem (a ∷ queue) res =
      clear_loop_lem queue (suc res)
      ∙ ap (λ n. (n, [])) {y = res + suc (length queue)} (omega arith)

  -- `clearQueue` ends, takes every element out, and returns how many there were.
  pub clear_queue_lem : (queue : List A) → clear_queue queue ≡ (length queue, [])
  unfolding clear_queue
  clear_queue_lem queue =
      clear_loop_lem queue 0
      ∙ ap (λ (n : ℕ). (n, [])) {x = 0 + length queue} {y = length queue} (omega arith)
