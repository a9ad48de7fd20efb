-- ===== src/Scheduler/Run/Drain.antt =====
-- How Run ends: the drain after the context is done.
use signal_flow.Base.{
  ℕ, zero, suc, ◌+◌, ◌*◌, ◌≤◌, ◌<◌, ◌≡◌, refl, ap, ◌⊎◌, inl, inr, Bool, true, false, List, [], ◌∷◌,
  M, length, arith, length-append,
}
use mathlib.Core.WellFounded.{Acc}
use signal_flow.Domain.{JobClaim}
use signal_flow.Notifier.Dispatch.{Sending}
use signal_flow.Scheduler.Run.{
  Scheduler, RunState, Phase, dispatching, draining, cancelled, notifying, returned, Step, stop,
  claim, claim_fails, enqueue, refuse_stopping, refuse_saturated, claim_cut_off, refuse_cut_off,
  take, finish, send_ends, close, cancel, drained, notified, Steps, worker_count, capacity, start,
}
use signal_flow.Scheduler.Run.Invariant.{
  Invariant, is_closed, is_drained, tally, start-Invariant, Step-Invariant, Steps-Invariant,
}

abbrev rank : Phase → ℕ
rank dispatching = 4
rank draining = 3
rank cancelled = 2
rank notifying = 1
rank returned = 0

-- What the drain has still to do: a claim in the channel is to be taken and to be run.
abbrev work_left : {S : Type 0} → RunState S → ℕ
work_left r = rank r.phase + 2 * length r.queue + length r.busy

after_drain : {phase : Phase} → (phase ≡ draining) ⊎ (phase ≡ cancelled) → 1 < rank phase
after_drain (inl e) = rw e (omega arith)
after_drain (inr e) = rw e (omega arith)

stays_closed : {phase : Phase} → phase ≡ dispatching → is_closed phase ≡ true → ⊥
stays_closed e h = cc

still_running : {b : Bool} → b ≡ false → b ≡ true → ⊥
still_running e f = cc

none_to_settle : {A : Type 0} {l xs : List A} {x : A} → l ≡ x ∷ xs → l ≡ [] → ⊥
none_to_settle e f = cc

module _ {S : Type 0} (c : Scheduler S) (deliver : Sending → M S (Unit {0})) where
  -- A step of the drain leaves less work, or as much work and fewer sends.
  Step-shrinks :
      (r t : RunState S)
      → Step c deliver r t
      → Invariant c deliver r
      → is_closed r.phase ≡ true
      → (is_closed t.phase ≡ true)
        × ((work_left t < work_left r)
            ⊎ ((work_left t ≡ work_left r) × (length t.sends < length r.sends)))
  Step-shrinks r t (stop running) i h = absurd (still_running running (i.stopped h))
  Step-shrinks r t (claim at _ _) i h = absurd (stays_closed at h)
  Step-shrinks r t (claim_fails at _ _) i h = absurd (stays_closed at h)
  Step-shrinks r t (enqueue was _) i h = absurd (none_to_settle was (i.no_tick_left h))
  Step-shrinks r t (refuse_stopping was _) i h = absurd (none_to_settle was (i.no_tick_left h))
  Step-shrinks r t (refuse_saturated was) i h = absurd (none_to_settle was (i.no_tick_left h))
  Step-shrinks r t (claim_cut_off at _ _) i h = absurd (stays_closed at h)
  Step-shrinks r t (refuse_cut_off was _) i h = absurd (none_to_settle was (i.no_tick_left h))
  Step-shrinks r t (take was _) i h = (h, inl (omega (arith, ap length was)))
  Step-shrinks r t (finish before x after was) i h = (
    h,
    inl (
        omega (arith, ap length was, length-append before (x ∷ after), length-append before after)),
  )
  Step-shrinks r t (send_ends before x after was) i h = (
    h,
    inr (
      refl,
      omega (arith, ap length was, length-append before (x ∷ after), length-append before after),
    ),
  )
  Step-shrinks r t (close at _ _) i h = absurd (stays_closed at h)
  Step-shrinks r t (cancel at) i h = (refl, inl (omega (arith, ap rank at)))
  Step-shrinks r t (drained at _ _) i h = (refl, inl (omega (arith, after_drain at)))
  Step-shrinks r t (notified at _) i h = (refl, inl (omega (arith, ap rank at)))

  -- The steps from a state, backwards.
  abbrev pub Next : RunState S → RunState S → Type 0
  Next t r = Step c deliver r t

  Acc-drain :
      (n m : ℕ) (r : RunState S)
      → Invariant c deliver r
      → is_closed r.phase ≡ true
      → work_left r < n
      → length r.sends < m
      → Acc Next r
  Acc-drain zero m r i h few sends = absurd (omega arith)
  Acc-drain (suc n) zero r i h few sends = absurd (omega arith)
  Acc-drain (suc n) (suc m) r i h few sends = Acc.intro r λ t step.
      let shrunk = Step-shrinks r t step i h in
      let kept = Step-Invariant c deliver r t step i in
      elim shrunk.1 [
        | inl less ↦
            Acc-drain n (suc (length t.sends)) t kept shrunk.0 (omega (arith, less, few))
              (omega arith)
        | inr (same, fewer) ↦
            Acc-drain (suc n) m t kept shrunk.0 (omega (arith, same, few))
              (omega (arith, fewer, sends))
      ]

  at_work :
      (r : RunState S) (busy queue : List JobClaim)
      → 0 < worker_count c deliver
      → (r.phase ≡ draining) ⊎ (r.phase ≡ cancelled)
      → r.busy ≡ busy
      → r.queue ≡ queue
      → (t : RunState S) × Step c deliver r t
  at_work r (x ∷ busy) queue some_worker at e f = (_, finish [] x busy e)
  at_work r [] (x ∷ queue) some_worker at e f =
      (_, take f (omega (arith, some_worker, ap length e)))
  at_work r [] [] some_worker at e f = (_, drained at f e)

  at_rest :
      (r : RunState S) (sends : List Sending)
      → r.phase ≡ notifying
      → r.sends ≡ sends
      → (t : RunState S) × Step c deliver r t
  at_rest r (x ∷ sends) at e = (_, send_ends [] x sends e)
  at_rest r [] at e = (_, notified at e)

  goes_on :
      (r : RunState S) (phase : Phase)
      → 0 < worker_count c deliver
      → r.phase ≡ phase
      → is_closed phase ≡ true
      → (r.phase ≡ returned) ⊎ ((t : RunState S) × Step c deliver r t)
  goes_on r dispatching some_worker at h = cc
  goes_on r draining some_worker at h =
      inr (at_work r r.busy r.queue some_worker (inl at) refl refl)
  goes_on r cancelled some_worker at h =
      inr (at_work r r.busy r.queue some_worker (inr at) refl refl)
  goes_on r notifying some_worker at h = inr (at_rest r r.sends at refl)
  goes_on r returned some_worker at h = inl at

  -- With at least one worker, from every state of a run in which the channel is closed, each sequence
  -- of steps is finite, and Run has returned or there is a next step: however the goroutines
  -- interleave, the drain comes to an end, and its end is that Run returns.
  pub drain_terminates :
      (s : S) (r : RunState S)
      → 0 < worker_count c deliver
      → Steps c deliver (start c deliver s) r
      → is_closed r.phase ≡ true
      → Acc Next r × ((r.phase ≡ returned) ⊎ ((t : RunState S) × Step c deliver r t))
  drain_terminates s r some_worker steps h = (
    Acc-drain (suc (work_left r)) (suc (length r.sends)) r
        (Steps-Invariant c deliver _ r steps (start-Invariant c deliver s)) h (omega arith)
        (omega arith),
    goes_on r r.phase some_worker refl h,
  )

  -- Whatever the interleaving of ticks, workers and sends, the channel never holds more claims than
  -- its capacity and no more claims run than there are workers; each claim, as often as it was
  -- claimed, is in one place: still to be offered, in the channel, with a worker, executed, or given
  -- to markFailed.
  pub claims_accounted :
      (s : S) (r : RunState S)
      → Steps c deliver (start c deliver s) r
      → (length r.queue ≤ capacity c deliver)
        × (length r.busy ≤ worker_count c deliver)
        × ((p : JobClaim → Bool)
            → tally p r.claimed
              ≡ tally p r.pending
                + tally p r.queue
                + tally p r.busy
                + tally p r.executed
                + tally p r.refused)
  claims_accounted s r steps =
      let i = Steps-Invariant c deliver _ r steps (start-Invariant c deliver s) in
      (i.queue_fits, i.workers_suffice, i.all_accounted)

  -- When Run has returned, each claim, as often as it was claimed, was executed or given to
  -- markFailed, and no send of a notification is on its way.
  pub returned_accounted :
      (s : S) (r : RunState S)
      → Steps c deliver (start c deliver s) r
      → r.phase ≡ returned
      → ((p : JobClaim → Bool) → tally p r.claimed ≡ tally p r.executed + tally p r.refused)
        × (r.sends ≡ [])
  returned_accounted s r steps at =
      let i = Steps-Invariant c deliver _ r steps (start-Invariant c deliver s) in
      let idle = i.no_work_left (ap is_drained at) in
      (
        λ p. omega (
          arith,
          i.all_accounted p,
          ap (tally p) (i.no_tick_left (ap is_closed at)),
          ap (tally p) idle.0,
          ap (tally p) idle.1,
        ),
        i.no_send_left at,
      )
