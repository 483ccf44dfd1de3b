-- ===== src/Gateway/Drain.antt =====
-- `drain_tasks_until` of server/state.rs. What the runtime tells of a task is a parameter: whether it
-- was joined before the deadline, and whether it has finished when the others are collected.
use voicetext_gateway.Prelude.{
  ℕ, zero, suc, ◌+◌, ◌≡◌, Bool, true, false, not, List, [], ◌∷◌, ◌++◌, map, length, if◌then◌else◌,
}

abbrev one_if : Bool → ℕ
one_if true = 1
one_if false = 0

pub data Ending (H : Type 0) : Type 0 where
  aborts awaits : H → Ending H

module _ {H : Type 0} where
  init : H → List H → List H
  init x [] = []
  init x (y ∷ ys) = x ∷ init y ys

  last : H → List H → H
  last x [] = x
  last x (y ∷ ys) = last y ys

  unfoldable pub swap_remove_first : List H → List H
  unfolding init last
  swap_remove_first [] = []
  swap_remove_first (x ∷ []) = []
  swap_remove_first (x ∷ y ∷ ys) = last y ys ∷ init y ys

  -- `tasks.retain(|task| !task.is_finished())`
  unfoldable pub retain_unfinished : (H → Bool) → List H → List H
  retain_unfinished finished [] = []
  retain_unfinished finished (t ∷ ts) =
      let rest = retain_unfinished finished ts in if finished t then rest else t ∷ rest

  -- The loop that joins tasks until one outlives the deadline.
  unfoldable pub join_until : (H → Bool) → ℕ → List H → List H
  join_until joined zero ts = ts
  join_until joined (suc n) [] = []
  join_until joined (suc n) (t ∷ ts) =
      let rest = join_until joined n (swap_remove_first (t ∷ ts)) in
      if joined t then rest else t ∷ ts

  -- The tasks that are left to abort. The loop removes one task at a time, and ends.
  unfoldable pub outliving : (H → Bool) → (H → Bool) → List H → List H
  unfolding retain_unfinished join_until
  outliving joined finished ts = retain_unfinished finished (join_until joined (length ts) ts)

  -- The number of aborted tasks, with what is done to tasks after the joins: each that is left is
  -- aborted, and then each of them is awaited.
  unfoldable pub drain_tasks_until : (H → Bool) → (H → Bool) → List H → ℕ × List (Ending H)
  unfolding outliving
  drain_tasks_until joined finished ts =
      let tasks = outliving joined finished ts in
      (length tasks, map aborts tasks ++ map awaits tasks)

  -- The tasks of a list that have not finished.
  abbrev pub unfinished : (H → Bool) → List H → ℕ
  unfinished finished [] = 0
  unfinished finished (t ∷ ts) = one_if (not (finished t)) + unfinished finished ts

  -- The first task left, if there is one, outlived the deadline.
  abbrev pub Outlived : (H → Bool) → List H → Type 0
  Outlived joined [] = Unit {0}
  Outlived joined (t ∷ ts) = joined t ≡ false
