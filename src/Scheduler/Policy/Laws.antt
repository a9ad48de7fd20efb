-- ===== src/Scheduler/Policy/Laws.antt =====
-- When a run asks for notifications, against a description of the condition's three words.
use signal_flow.Base.{
  subst, sym, Bool-cases, String, true, false, ◌≡◌, ◌≢◌, refl, ◌⊎◌, ◌↔◌, inl, inr, Result, ok, err,
  arith, eq_iff, ◌==◌, if◌then◌else◌,
}
use signal_flow.Domain.{RawMessage, ExecStatus, running, success, failure, error, Job, Execution}
use signal_flow.Scheduler.Policy.{is_failure, is_empty_message, notify_on, should_notify, notify_if}

abbrev pub Failed : ExecStatus → Type 0
Failed st = (st ≡ failure) ⊎ (st ≡ error)

-- "always" and "success" mean what they say; "failure" and every other word mean a failed run.
abbrev pub Selects : String → ExecStatus → Type 0
Selects on st =
    (on ≡ "always")
    ⊎ ((on ≡ "success") × (st ≡ success))
    ⊎ ((on ≢ "always") × (on ≢ "success") × Failed st)

-- A missing condition asks for failed runs, and one that is no JSON for none.
abbrev pub Wanted : (RawMessage → Result String) → Job → ExecStatus → Type 0
Wanted unmarshal job st =
    ((is_empty_message job.condition ≡ true) × Failed st)
    ⊎ ((is_empty_message job.condition ≡ false)
        × ((on : String) × (unmarshal job.condition ≡ ok on) × Selects on st))

ok_injective : {a b : String} → ok a ≡ ok b → a ≡ b
ok_injective e = cc

failure_iff : (st : ExecStatus) → (is_failure st ≡ true) ↔ Failed st
unfolding is_failure
failure_iff running = (λ e. cc, λ f. ground arith)
failure_iff success = (λ e. cc, λ f. ground arith)
failure_iff failure = (λ _. inl refl, λ _. refl)
failure_iff error = (λ _. inr refl, λ _. refl)

-- The three words of the `switch`, at a text that is tested against each.
words :
    (on : String)
    → ((on == "failure") ≡ true → (on == "success") ≡ false)
      × ((on == "failure") ≡ true → (on == "always") ≡ false)
      × ((on == "success") ≡ true → (on == "always") ≡ false)
words on = (
  λ e. rw ((eq_iff on "failure").0 e),
  λ e. rw ((eq_iff on "failure").0 e),
  λ e. rw ((eq_iff on "success").0 e),
)

notify_on-Selects : (on : String) (st : ExecStatus) → notify_on on st ≡ true → Selects on st
unfolding notify_on is_failure
notify_on-Selects on st h =
    ground (arith, words on, eq_iff on "failure", eq_iff on "success", eq_iff on "always")

Selects-notify_on : (on : String) (st : ExecStatus) → Selects on st → notify_on on st ≡ true
unfolding notify_on is_failure
Selects-notify_on on st h =
    ground (arith, words on, eq_iff on "failure", eq_iff on "success", eq_iff on "always")

notify_if-Selects :
    (r : Result String) (st : ExecStatus)
    → (notify_if r st ≡ true) ↔ ((on : String) × (r ≡ ok on) × Selects on st)
notify_if-Selects (err e) st = (λ h. cc, λ h. cc (h.1))
notify_if-Selects (ok on) st = (
  λ h. (on, refl, notify_on-Selects on st h),
  λ (word, same, sel).
      Selects-notify_on on st (subst (λ w. Selects w st) (sym (ok_injective same)) sel),
)

-- A run asks for notifications exactly when the job's condition wants its outcome.
pub should_notify_iff :
    (unmarshal : RawMessage → Result String) (job : Job) (exec : Execution)
    → (should_notify unmarshal job exec ≡ true) ↔ Wanted unmarshal job exec.status
unfolding should_notify
should_notify_iff unmarshal job exec = elim (Bool-cases (is_empty_message job.condition)) [
  | inl e ↦
      rw (e, if◌then◌else◌)
        (
          λ h. inl (refl, (failure_iff exec.status).0 h),
          λ w. elim w [ inl (_, f) ↦ (failure_iff exec.status).1 f | inr (clash, _) ↦ cc ],
        )
  | inr e ↦
      rw (e, if◌then◌else◌)
        (
          λ h. inr (refl, (notify_if-Selects (unmarshal job.condition) exec.status).0 h),
          λ w. elim w [
            | inl (clash, _) ↦ cc
            | inr (_, sel) ↦ (notify_if-Selects (unmarshal job.condition) exec.status).1 sel
          ],
        )
]
