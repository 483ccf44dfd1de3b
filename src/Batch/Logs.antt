-- ===== src/Batch/Logs.antt =====
-- Rules for what a method of application/batch.rs leaves in the log of its port calls.
use voicetext_gateway.Prelude.{
  List, ◌∷◌, ◌≡◌, refl, Result, ok, err, Method, map_err, attempt, of_result, ◌>>=◌,
}
use voicetext_gateway.Batch.Ports.{Effect, Logged, logging}

-- From any world and the given log, the result and the log then satisfy the predicate.
abbrev pub Logs :
    {W E A : Type 0}
    → Method (Logged W) E A
    → List Effect
    → (Result E A → List Effect → Type 0)
    → Type 0
Logs {W} m log Q = (w : W) → Q (m (w, log)).0 (m (w, log)).1.1

module _ {W E F A B : Type 0} (Q : Result F B → List Effect → Type 0) (log : List Effect) where
  -- A port call whose failure is passed on.
  pub call_or :
      (g : E → F) (effect : Result E A → Effect) (m : Method W E A) (f : A → Method (Logged W) F B)
      → ((a : A) → Logs (f a) (effect (ok a) ∷ log) Q)
      → ((e : E) → Q (err (g e)) (effect (err e) ∷ log))
      → Logs (map_err g (logging effect m) >>= f) log Q
  call_or g effect m f good bad w = go (m w).0 (m w).1
    where
      go :
          (r : Result E A) (v : W)
          → let (x, t) = (map_err g (logging effect (λ (u : W). (r, v))) >>= f) (w, log) in Q x t.1
      go (ok a) v = good a v
      go (err e) v = bad e

  -- A port call whose result is matched on.
  pub call_then :
      (effect : Result E A → Effect) (m : Method W E A) (f : Result E A → Method (Logged W) F B)
      → ((r : Result E A) → Logs (f r) (effect r ∷ log) Q)
      → Logs (attempt (logging effect m) >>= f) log Q
  call_then effect m f each w = each (m w).0 (m w).1

  -- A computed result whose failure is passed on.
  pub result_or :
      (g : E → F) (r : Result E A) (f : A → Method (Logged W) F B)
      → ((a : A) → r ≡ ok a → Logs (f a) log Q)
      → ((e : E) → r ≡ err e → Q (err (g e)) log)
      → Logs (map_err g (of_result r) >>= f) log Q
  result_or g (ok a) f good bad w = good a refl w
  result_or g (err e) f good bad w = bad e refl

module _ {W F A B : Type 0} (Q : Result F B → List Effect → Type 0) (log : List Effect) where
  -- Two parts, with what holds between them.
  pub in_turn :
      (R : Result F A → List Effect → Type 0) (m : Method (Logged W) F A)
      (f : A → Method (Logged W) F B)
      → Logs m log R
      → ((a : A) (l : List Effect) → R (ok a) l → Logs (f a) l Q)
      → ((e : F) (l : List Effect) → R (err e) l → Q (err e) l)
      → Logs (m >>= f) log Q
  in_turn R m f first good bad w = go (m (w, log)).0 (m (w, log)).1 (first w)
    where
      go :
          (r : Result F A) (v : Logged W)
          → R r v.1
          → let (x, t) = ((λ (u : Logged W). (r, v)) >>= f) (w, log) in Q x t.1
      go (ok a) v h = good a v.1 h v.0
      go (err e) v h = bad e v.1 h
