-- ===== src/Gateway/Tasks.antt =====
-- The tracked batch tasks of server/state.rs: `spawn_batch_task` against `shutdown_batch_tasks`. The
-- list is behind a mutex; the flag that closes the registration is not.
use mathlib.Core.Path.{subst}
use voicetext_gateway.Prelude.{
  ◌≡◌, refl, sym, ap, ◌∙◌, Bool, true, false, List, [], ◌∷◌, ◌++◌, Option, none, some, ◌⊎◌, inl,
  inr, Bool-cases, if◌then◌else◌,
}
use voicetext_gateway.Gateway.Drain.{retain_unfinished}

abbrev pub In : {H : Type 0} → H → List H → Type 0
In h [] = ⊥
In h (x ∷ xs) = (h ≡ x) ⊎ In h xs

-- `spawner` is the task of a call that holds the mutex and has seen the registration open; `spawned` are
-- all tasks that were started; `drained` are those that the shutdown took, once it has `taken` them.
pub record Tasks (H : Type 0) : Type 0 where
  pub batch_tasks : List H
  pub batch_task_registration_closed : Bool
  pub spawner : Option H
  pub finished : H → Bool
  pub spawned : List H
  pub taken : Bool
  pub drained : List H

module _ {H : Type 0} where
  abbrev pub no_tasks : (H → Bool) → Tasks H
  no_tasks finished = record {
    batch_tasks = [];
    batch_task_registration_closed = false;
    spawner = none;
    finished = finished;
    spawned = [];
    taken = false;
    drained = [];
  }

  unfoldable pub close_registration : Tasks H → Tasks H
  close_registration s = record s { batch_task_registration_closed = true }

  -- The caller keeps the mutex, if the registration is open, and the task runs.
  unfoldable pub begin_spawn : H → Tasks H → Tasks H
  begin_spawn h s =
      if s.batch_task_registration_closed
      then s
      else record s { spawner = some h; spawned = h ∷ s.spawned }

  -- `tasks.retain(|task| !task.is_finished()); tasks.push(handle);`, and the mutex is released.
  unfoldable pub push_task : H → Tasks H → Tasks H
  push_task h s = record s {
    batch_tasks = retain_unfinished s.finished s.batch_tasks ++ h ∷ [];
    spawner = none;
  }

  -- `std::mem::take(&mut *tracked)`
  unfoldable pub take_tasks : Tasks H → Tasks H
  take_tasks s = record s { batch_tasks = []; taken = true; drained = s.drained ++ s.batch_tasks }

  -- The shutdown closes the registration before it takes the tasks, and takes them under the mutex.
  pub data Step (s : Tasks H) : Tasks H → Type 0 where
    spawns : (h : H) → s.spawner ≡ none → Step s (begin_spawn h s)
    pushes : (h : H) → s.spawner ≡ some h → Step s (push_task h s)
    closes : Step s (close_registration s)
    takes : s.batch_task_registration_closed ≡ true → s.spawner ≡ none → Step s (take_tasks s)
    finishes :
        (f : H → Bool)
        → ((h : H) → s.finished h ≡ true → f h ≡ true)
        → Step s (record s { finished = f })

  pub data Reach (s : Tasks H) : Tasks H → Type 0 where
    here : Reach s s
    later : {t u : Tasks H} → Reach s t → Step t u → Reach s u

  -- Where a task is known to be.
  Known : Tasks H → H → Type 0
  Known s h = (s.finished h ≡ true) ⊎ (In h s.batch_tasks ⊎ (In h s.drained ⊎ (s.spawner ≡ some h)))

  record Tracked (s : Tasks H) : Type 0 where
    pub known : (h : H) → In h s.spawned → Known s h
    pub closed : s.taken ≡ true → s.batch_task_registration_closed ≡ true
    pub empty : s.taken ≡ true → s.batch_tasks ≡ []
    pub idle : s.taken ≡ true → s.spawner ≡ none

  In-left : (h : H) (xs ys : List H) → In h xs → In h (xs ++ ys)
  In-left h [] ys i = absurd i
  In-left h (x ∷ xs) ys (inl e) = inl e
  In-left h (x ∷ xs) ys (inr i) = inr (In-left h xs ys i)

  In-right : (h : H) (xs ys : List H) → In h ys → In h (xs ++ ys)
  In-right h [] ys i = i
  In-right h (x ∷ xs) ys i = inr (In-right h xs ys i)

  In-retain :
      (f : H → Bool) (h : H) (ts : List H) → In h ts → (f h ≡ true) ⊎ In h (retain_unfinished f ts)
  unfolding retain_unfinished
  In-retain f h [] i = absurd i
  In-retain f h (t ∷ ts) (inl k) = elim (Bool-cases (f t)) [
    | inl e ↦ inl (ap f k ∙ e)
    | inr e ↦ rw e (inr (inl k))
  ]
  In-retain f h (t ∷ ts) (inr j) = elim (In-retain f h ts j) [
    | inl e ↦ inl e
    | inr r ↦ elim (Bool-cases (f t)) [ inl e ↦ rw e (inr r) | inr e ↦ rw e (inr (inr r)) ]
  ]

  pushed-Known : (h x : H) (s : Tasks H) → Known s x → s.spawner ≡ some h → Known (push_task h s) x
  unfolding push_task Known
  pushed-Known h x s (inl f) e = inl f
  pushed-Known h x s (inr (inl b)) e = elim (In-retain s.finished x s.batch_tasks b) [
    | inl f ↦ inl f
    | inr r ↦ inr (inl (In-left x (retain_unfinished s.finished s.batch_tasks) (h ∷ []) r))
  ]
  pushed-Known h x s (inr (inr (inl d))) e = inr (inr (inl d))
  pushed-Known h x s (inr (inr (inr p))) e =
      let k : x ≡ h = cc in
      inr (inl (In-right x (retain_unfinished s.finished s.batch_tasks) (h ∷ []) (inl k)))

  spawned-Known :
      (h x : H) (s : Tasks H)
      → s.spawner ≡ none
      → Known s x
      → Known (record s { spawner = some h; spawned = h ∷ s.spawned }) x
  unfolding Known
  spawned-Known h x s n (inl f) = inl f
  spawned-Known h x s n (inr (inl b)) = inr (inl b)
  spawned-Known h x s n (inr (inr (inl d))) = inr (inr (inl d))
  spawned-Known h x s n (inr (inr (inr p))) = cc

  taken-Known : (x : H) (s : Tasks H) → s.spawner ≡ none → Known s x → Known (take_tasks s) x
  unfolding Known take_tasks
  taken-Known x s n (inl f) = inl f
  taken-Known x s n (inr (inl b)) = inr (inr (inl (In-right x s.drained s.batch_tasks b)))
  taken-Known x s n (inr (inr (inl d))) = inr (inr (inl (In-left x s.drained s.batch_tasks d)))
  taken-Known x s n (inr (inr (inr p))) = cc

  finished-Known :
      (x : H) (s : Tasks H) (f : H → Bool)
      → ((h : H) → s.finished h ≡ true → f h ≡ true)
      → Known s x
      → Known (record s { finished = f }) x
  unfolding Known
  finished-Known x s f m (inl e) = inl (m x e)
  finished-Known x s f m (inr r) = inr r

  Tracked-if :
      (b : Bool) (s t : Tasks H)
      → Tracked s
      → (b ≡ false → Tracked t)
      → Tracked (if b then s else t)
  Tracked-if true s t v w = v
  Tracked-if false s t v w = w refl

  Tracked-spawn : (h : H) (s : Tasks H) → Tracked s → s.spawner ≡ none → Tracked (begin_spawn h s)
  unfolding begin_spawn Known
  Tracked-spawn h s v n =
      Tracked-if s.batch_task_registration_closed s
        (record s { spawner = some h; spawned = h ∷ s.spawned }) v
        (λ e. record {
          known = λ x i. elim i [
            | inl k ↦ inr (inr (inr (ap some (sym k))))
            | inr j ↦ spawned-Known h x s n (v.known x j)
          ];
          closed = v.closed;
          empty = v.empty;
          idle = λ t. let c = v.closed t in cc;
        })

  Step-Tracked : (s t : Tasks H) → Tracked s → Step s t → Tracked t
  unfolding close_registration push_task take_tasks Known
  Step-Tracked s _ v (spawns h n) = Tracked-spawn h s v n
  Step-Tracked s _ v (pushes h e) = record {
    known = λ x i. pushed-Known h x s (v.known x i) e;
    closed = v.closed;
    empty = λ t. let n = v.idle t in cc;
    idle = λ t. refl;
  }
  Step-Tracked s _ v closes = record {
    known = v.known;
    closed = λ t. refl;
    empty = v.empty;
    idle = v.idle;
  }
  Step-Tracked s _ v (takes c n) = record {
    known = λ x i. taken-Known x s n (v.known x i);
    closed = λ t. c;
    empty = λ t. refl;
    idle = λ t. n;
  }
  Step-Tracked s _ v (finishes f m) = record {
    known = λ x i. finished-Known x s f m (v.known x i);
    closed = v.closed;
    empty = v.empty;
    idle = v.idle;
  }

  reach-Tracked : (s t : Tasks H) → Tracked s → Reach s t → Tracked t
  reach-Tracked s _ v here = v
  reach-Tracked s u v (later {t = t} r e) = Step-Tracked t u (reach-Tracked s t v r) e

  -- However spawning and shutdown are interleaved, once the shutdown has taken the tasks, each task that
  -- was ever started has finished or is among those that it drains.
  pub no_task_escapes :
      (f : H → Bool) (s : Tasks H) (h : H)
      → Reach (no_tasks f) s
      → s.taken ≡ true
      → In h s.spawned
      → (s.finished h ≡ true) ⊎ In h s.drained
  unfolding Known
  no_task_escapes f s h r t i =
      let start : Tracked (no_tasks f) = record {
        known = λ x j. absurd j;
        closed = λ e. cc;
        empty = λ e. refl;
        idle = λ e. refl;
      } in
      let v = reach-Tracked (no_tasks f) s start r in
      elim (v.known h i) [
        | inl e ↦ inl e
        | inr (inl b) ↦ absurd (subst (In h) (v.empty t) b)
        | inr (inr (inl d)) ↦ inr d
        | inr (inr (inr p)) ↦ let n = v.idle t in cc
      ]
