-- ===== src/Scheduler/Run/Invariant.antt =====
-- What holds whenever the scheduler runs: bounds of the channel and of the workers, and that no claim
-- is lost or doubled.
use signal_flow.Base.{
  ℕ, ◌+◌, ◌≤◌, ◌≡◌, ◌≢◌, refl, ap, ◌⊎◌, inl, inr, Bool, true, false, List, [], ◌∷◌, ◌++◌, M, length,
  arith, length-append,
}
use signal_flow.Domain.{JobClaim}
use signal_flow.Notifier.Dispatch.{Sending}
use signal_flow.Scheduler.Run.{
  Scheduler, RunState, Phase, dispatching, draining, cancelled, notifying, returned, Step, stop,
  claim, claim_fails, enqueue, refuse_stopping, refuse_saturated, claim_cut_off, refuse_cut_off,
  take, finish, send_ends, close, cancel, drained, notified, Steps, rest, then_step, worker_count,
  capacity, start,
}

abbrev pub one_if : Bool → ℕ
one_if true = 1
one_if false = 0

-- How many elements pass a test.
abbrev pub tally : (JobClaim → Bool) → List JobClaim → ℕ
tally p [] = 0
tally p (x ∷ xs) = one_if (p x) + tally p xs

tally-append :
    (p : JobClaim → Bool) (xs ys : List JobClaim) → tally p (xs ++ ys) ≡ tally p xs + tally p ys
tally-append p [] ys = omega arith
tally-append p (x ∷ xs) ys = omega (arith, tally-append p xs ys)

-- The loop is over.
abbrev pub is_closed : Phase → Bool
is_closed dispatching = false
is_closed _ = true

-- The workers are done.
abbrev pub is_drained : Phase → Bool
is_drained notifying = true
is_drained returned = true
is_drained _ = false

closed_of_drained : (phase : Phase) → is_drained phase ≡ true → is_closed phase ≡ true
closed_of_drained dispatching h = cc
closed_of_drained draining h = refl
closed_of_drained cancelled h = refl
closed_of_drained notifying h = refl
closed_of_drained returned h = refl

closed_at : {phase : Phase} → (phase ≡ draining) ⊎ (phase ≡ cancelled) → is_closed phase ≡ true
closed_at (inl e) = ap is_closed e
closed_at (inr e) = ap is_closed e

unsettled : {A : Type 0} {l xs : List A} {x : A} → l ≡ x ∷ xs → l ≢ []
unsettled e f = cc

pub some_busy :
    {A : Type 0} {l : List A} (before : List A) (x : A) (after : List A)
    → l ≡ before ++ x ∷ after
    → l ≢ []
some_busy [] x after e f = cc
some_busy (y ∷ before) x after e f = cc

still_open : {phase : Phase} → phase ≡ dispatching → is_closed phase ≢ true
still_open e h = cc

module _ {S : Type 0} (c : Scheduler S) (deliver : Sending → M S (Unit {0})) where
  pub record Invariant (r : RunState S) : Type 0 where
    pub queue_fits : length r.queue ≤ capacity c deliver
    pub workers_suffice : length r.busy ≤ worker_count c deliver
    -- Each claim is in one place.
    pub all_accounted :
        (p : JobClaim → Bool)
        → tally p r.claimed
          ≡ tally p r.pending
            + tally p r.queue
            + tally p r.busy
            + tally p r.executed
            + tally p r.refused
    pub no_tick_left : is_closed r.phase ≡ true → r.pending ≡ []
    pub no_work_left : is_drained r.phase ≡ true → (r.queue ≡ []) × (r.busy ≡ [])
    pub stopped : is_closed r.phase ≡ true → r.stopping ≡ true
    pub no_send_left : r.phase ≡ returned → r.sends ≡ []

  pub start-Invariant : (s : S) → Invariant (start c deliver s)
  start-Invariant s = record {
    queue_fits = omega arith;
    workers_suffice = omega arith;
    all_accounted = λ p. refl;
    no_tick_left = λ h. refl;
    no_work_left = λ h. (refl, refl);
    stopped = λ h. cc;
    no_send_left = λ h. refl;
  }

  refused-Invariant :
      (r : RunState S) (x : JobClaim) (xs : List JobClaim) (s : S)
      → r.pending ≡ x ∷ xs
      → Invariant r
      → Invariant (record r { pending = xs; refused = x ∷ r.refused; store = s })
  refused-Invariant r x xs s was i = record {
    queue_fits = i.queue_fits;
    workers_suffice = i.workers_suffice;
    all_accounted = λ p. omega (arith, i.all_accounted p, ap (tally p) was);
    no_tick_left = λ h. absurd (unsettled was (i.no_tick_left h));
    no_work_left = λ h. absurd (unsettled was (i.no_tick_left (closed_of_drained _ h)));
    stopped = i.stopped;
    no_send_left = i.no_send_left;
  }

  pub Step-Invariant : (r t : RunState S) → Step c deliver r t → Invariant r → Invariant t
  Step-Invariant r t (stop _) i = record {
    queue_fits = i.queue_fits;
    workers_suffice = i.workers_suffice;
    all_accounted = i.all_accounted;
    no_tick_left = i.no_tick_left;
    no_work_left = i.no_work_left;
    stopped = λ h. refl;
    no_send_left = i.no_send_left;
  }
  Step-Invariant r t (claim {claims = claims} at none_pending _) i = record {
    queue_fits = i.queue_fits;
    workers_suffice = i.workers_suffice;
    all_accounted = λ p.
        let before = i.all_accounted p in
        let empty : tally p r.pending ≡ 0 = ap (tally p) none_pending in
        omega (arith, before, empty, tally-append p claims r.claimed);
    no_tick_left = λ h. absurd (still_open at h);
    no_work_left = λ h. absurd (still_open at (closed_of_drained _ h));
    stopped = i.stopped;
    no_send_left = i.no_send_left;
  }
  Step-Invariant r t (claim_fails at none_pending _) i = record {
    queue_fits = i.queue_fits;
    workers_suffice = i.workers_suffice;
    all_accounted = i.all_accounted;
    no_tick_left = i.no_tick_left;
    no_work_left = i.no_work_left;
    stopped = i.stopped;
    no_send_left = i.no_send_left;
  }
  Step-Invariant r t (enqueue {x = x} {xs = xs} was room) i = record {
    queue_fits = omega (arith, room, length-append r.queue (x ∷ []));
    workers_suffice = i.workers_suffice;
    all_accounted =
        λ p. omega (arith, i.all_accounted p, ap (tally p) was, tally-append p r.queue (x ∷ []));
    no_tick_left = λ h. absurd (unsettled was (i.no_tick_left h));
    no_work_left = λ h. absurd (unsettled was (i.no_tick_left (closed_of_drained _ h)));
    stopped = i.stopped;
    no_send_left = i.no_send_left;
  }
  Step-Invariant r t (refuse_stopping {x = x} {xs = xs} was _) i = refused-Invariant r x xs _ was i
  Step-Invariant r t (refuse_saturated {x = x} {xs = xs} was) i = refused-Invariant r x xs _ was i
  Step-Invariant r t (claim_cut_off _ _ _) i = i
  Step-Invariant r t (refuse_cut_off {x = x} {xs = xs} was _) i = refused-Invariant r x xs _ was i
  Step-Invariant r t (take {x = x} {xs = xs} was idle) i = record {
    queue_fits = omega (arith, i.queue_fits, ap length was);
    workers_suffice = idle;
    all_accounted = λ p. omega (arith, i.all_accounted p, ap (tally p) was);
    no_tick_left = i.no_tick_left;
    no_work_left = λ h. absurd (unsettled was (i.no_work_left h).0);
    stopped = i.stopped;
    no_send_left = i.no_send_left;
  }
  Step-Invariant r t (finish before x after was) i = record {
    queue_fits = i.queue_fits;
    workers_suffice = omega (
      arith,
      i.workers_suffice,
      ap length was,
      length-append before (x ∷ after),
      length-append before after,
    );
    all_accounted = λ p. omega (
      arith,
      i.all_accounted p,
      ap (tally p) was,
      tally-append p before (x ∷ after),
      tally-append p before after,
    );
    no_tick_left = i.no_tick_left;
    no_work_left = λ h. absurd (some_busy before x after was (i.no_work_left h).1);
    stopped = i.stopped;
    no_send_left = λ h. absurd (some_busy before x after was (i.no_work_left (ap is_drained h)).1);
  }
  Step-Invariant r t (send_ends before x after was) i = record {
    queue_fits = i.queue_fits;
    workers_suffice = i.workers_suffice;
    all_accounted = i.all_accounted;
    no_tick_left = i.no_tick_left;
    no_work_left = i.no_work_left;
    stopped = i.stopped;
    no_send_left = λ h. absurd (some_busy before x after was (i.no_send_left h));
  }
  Step-Invariant r t (close at was_stopped none_pending) i = record {
    queue_fits = i.queue_fits;
    workers_suffice = i.workers_suffice;
    all_accounted = i.all_accounted;
    no_tick_left = λ h. none_pending;
    no_work_left = λ h. cc;
    stopped = λ h. was_stopped;
    no_send_left = λ h. cc;
  }
  Step-Invariant r t (cancel at) i = record {
    queue_fits = i.queue_fits;
    workers_suffice = i.workers_suffice;
    all_accounted = i.all_accounted;
    no_tick_left = λ h. i.no_tick_left (ap is_closed at);
    no_work_left = λ h. cc;
    stopped = λ h. i.stopped (ap is_closed at);
    no_send_left = λ h. cc;
  }
  Step-Invariant r t (drained at none_queued none_busy) i = record {
    queue_fits = i.queue_fits;
    workers_suffice = i.workers_suffice;
    all_accounted = i.all_accounted;
    no_tick_left = λ h. i.no_tick_left (closed_at at);
    no_work_left = λ h. (none_queued, none_busy);
    stopped = λ h. i.stopped (closed_at at);
    no_send_left = λ h. cc;
  }
  Step-Invariant r t (notified at none_sent) i = record {
    queue_fits = i.queue_fits;
    workers_suffice = i.workers_suffice;
    all_accounted = i.all_accounted;
    no_tick_left = λ h. i.no_tick_left (ap is_closed at);
    no_work_left = λ h. i.no_work_left (ap is_drained at);
    stopped = λ h. i.stopped (ap is_closed at);
    no_send_left = λ h. none_sent;
  }

  pub Steps-Invariant : (r t : RunState S) → Steps c deliver r t → Invariant r → Invariant t
  Steps-Invariant r t rest i = i
  Steps-Invariant r t (then_step step steps) i =
      Steps-Invariant _ t steps (Step-Invariant r _ step i)
