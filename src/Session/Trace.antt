-- ===== src/Session/Trace.antt =====
-- What a whole history of calls of domain/live.rs accounts for, frame by frame.
use voicetext_gateway.Prelude.{
  ℕ, ◌+◌, ◌≤◌, ◌<◌, ◌≡◌, Bool, List, [], ◌∷◌, arith, Result, ok, err, ◌==◌, if◌then◌else◌, leb,
  length, contains, contains-insert, contains-remove, length-insert, length-remove,
}
use voicetext_gateway.Session.{
  LiveSession, LiveSessionError, Call, marks_ready, accepts, writes, acks, starts_finalize,
  observes_result, finishes, closes, fails, Reply, assigned, new, step, run,
}
use voicetext_gateway.Session.Invariant.{Inv, new-Inv, step-Inv, run-new-Inv, next_not_pending}

-- The weight of one call, if it succeeds.
abbrev pub counted : (Call → Reply → ℕ) → Call → Result LiveSessionError Reply → ℕ
counted w c (ok r) = w c r
counted w c (err e) = 0

-- The successful calls of a history, each with its weight.
pub weigh : (Call → Reply → ℕ) → LiveSession → List Call → ℕ
weigh w s [] = 0
weigh w s (c ∷ cs) = counted w c (step c s).0 + weigh w (step c s).1 cs

abbrev pub bit : Bool → ℕ
bit b = if b then 1 else 0

abbrev pub acks_of : ℕ → Call → Reply → ℕ
acks_of n (acks m) r = bit (n == m)
acks_of n _ r = 0

abbrev pub writes_of : ℕ → Call → Reply → ℕ
writes_of n (writes m) r = bit (n == m)
writes_of n _ r = 0

abbrev pub assigns_of : ℕ → Call → Reply → ℕ
assigns_of n c (assigned m) = bit (n == m)
assigns_of n c _ = 0

abbrev pub any_ack : Call → Reply → ℕ
any_ack (acks m) r = 1
any_ack _ r = 0

abbrev pub any_assign : Call → Reply → ℕ
any_assign c (assigned m) = 1
any_assign c _ = 0

abbrev pub any_result : Call → Reply → ℕ
any_result observes_result r = 1
any_result _ r = 0

-- What one call moves for the frame `n`.
record Moves (n : ℕ) (c : Call) (s : LiveSession) : Type 0 where
  acked :
      counted (acks_of n) c (step c s).0 + bit (contains n (step c s).1.provider_written_audio)
      ≡ counted (writes_of n) c (step c s).0 + bit (contains n s.provider_written_audio)
  written :
      counted (acks_of n) c (step c s).0 + bit (contains n (step c s).1.pending_audio)
      ≡ counted (assigns_of n) c (step c s).0 + bit (contains n s.pending_audio)
  issued :
      counted (assigns_of n) c (step c s).0 + bit (leb n s.last_sequence)
      ≡ bit (leb n (step c s).1.last_sequence)
  drained :
      counted any_ack c (step c s).0 + length (step c s).1.pending_audio + s.last_sequence
      ≡ length s.pending_audio + (step c s).1.last_sequence
  advanced : counted any_assign c (step c s).0 + s.last_sequence ≡ (step c s).1.last_sequence
  seen :
      leb 1 (counted any_result c (step c s).0 + bit s.finalize_result_observed)
      ≡ (step c s).1.finalize_result_observed

step-Moves : (n : ℕ) (c : Call) (s : LiveSession) → Inv s → Moves n c s
unfolding step
step-Moves n marks_ready s v = ground arith
step-Moves n accepts s v = ground (
  arith,
  contains-insert n (s.last_sequence + 1) s.pending_audio,
  next_not_pending s v,
  length-insert (s.last_sequence + 1) s.pending_audio,
  v.pending_assigned n,
)
step-Moves n (writes m) s v = ground (arith, contains-insert n m s.provider_written_audio)
step-Moves n (acks m) s v = ground (
  arith,
  contains-remove n m s.pending_audio,
  contains-remove n m s.provider_written_audio,
  length-remove 0 m s.pending_audio v.pending_above,
)
step-Moves n starts_finalize s v = ground arith
step-Moves n observes_result s v = ground arith
step-Moves n (finishes status) s v = ground arith
step-Moves n closes s v = ground arith
step-Moves n fails s v = ground arith

-- What a history moves for the frame `n`, from any session that satisfies the invariant.
record Accounts (n : ℕ) (s : LiveSession) (cs : List Call) : Type 0 where
  acked :
      weigh (acks_of n) s cs + bit (contains n (run s cs).provider_written_audio)
      ≡ weigh (writes_of n) s cs + bit (contains n s.provider_written_audio)
  written :
      weigh (acks_of n) s cs + bit (contains n (run s cs).pending_audio)
      ≡ weigh (assigns_of n) s cs + bit (contains n s.pending_audio)
  issued :
      weigh (assigns_of n) s cs + bit (leb n s.last_sequence) ≡ bit (leb n (run s cs).last_sequence)
  drained :
      weigh any_ack s cs + length (run s cs).pending_audio + s.last_sequence
      ≡ length s.pending_audio + (run s cs).last_sequence
  advanced : weigh any_assign s cs + s.last_sequence ≡ (run s cs).last_sequence
  seen :
      leb 1 (weigh any_result s cs + bit s.finalize_result_observed)
      ≡ (run s cs).finalize_result_observed

run-Accounts : (n : ℕ) (s : LiveSession) (cs : List Call) → Inv s → Accounts n s cs
unfolding run weigh
run-Accounts n s [] v = ground arith
run-Accounts n s (c ∷ cs) v =
    let one = step-Moves n c s v in
    let rest = run-Accounts n (step c s).1 cs (step-Inv c s v) in
    record {
      acked = omega (arith, one.acked, rest.acked);
      written = omega (arith, one.written, rest.written);
      issued = omega (arith, one.issued, rest.issued);
      drained = omega (arith, one.drained, rest.drained);
      advanced = omega (arith, one.advanced, rest.advanced);
      seen = ground (arith, one.seen, rest.seen);
    }

-- In any history of a new session, and for each sequence number from 1 on: it is assigned to at
-- most one frame, and that exactly if it is at most the last sequence; the successful ACKs of it are
-- at most its confirmed provider writes, and these at most its assignments, so that no frame is
-- acknowledged twice or before its provider write; and the frame awaits its ACK exactly if it was
-- assigned and not acknowledged.
pub ack_once :
    (n : ℕ) (cs : List Call)
    → 0 < n
    → (weigh (assigns_of n) new cs ≡ bit (leb n (run new cs).last_sequence))
      × (weigh (acks_of n) new cs ≤ weigh (writes_of n) new cs)
      × (weigh (writes_of n) new cs ≤ weigh (assigns_of n) new cs)
      × (weigh (acks_of n) new cs + bit (contains n (run new cs).pending_audio)
          ≡ weigh (assigns_of n) new cs)
unfolding new contains
ack_once n cs h =
    let a = run-Accounts n new cs new-Inv in
    let v = (run-new-Inv cs).written_pending n in
    (
      ground (arith, a.issued),
      ground (arith, a.acked),
      ground (arith, a.acked, a.written, v),
      ground (arith, a.written),
    )

-- In any history of a new session the successful ACKs and the frames that still await one add up to
-- the frames assigned, and this is the last sequence.
pub ack_balance :
    (cs : List Call)
    → (weigh any_ack new cs + length (run new cs).pending_audio ≡ weigh any_assign new cs)
      × (weigh any_assign new cs ≡ (run new cs).last_sequence)
unfolding new
ack_balance cs =
    let a = run-Accounts 0 new cs new-Inv in
    (ground (arith, a.drained, a.advanced), ground (arith, a.advanced))

-- In any history of a new session, a result is on record exactly if one was observed.
pub result_seen :
    (cs : List Call) → leb 1 (weigh any_result new cs) ≡ (run new cs).finalize_result_observed
unfolding new
result_seen cs = ground (arith, (run-Accounts 0 new cs new-Inv).seen)
