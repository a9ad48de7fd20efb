-- ===== src/Executor/Laws.antt =====
-- What running a job of either type answers: a final status, an output of bounded length, and
-- success exactly when the command or the server said so.
use signal_flow.Base.{
  Ensures, returns, fails, Result-cases, err, sym, subst, ◌⊎◌, length-take_of_le, bytes_of, ℤ, pos,
  negsuc, ◌≤◌, ◌<◌, ◌≡◌, ◌≢◌, refl, ◌↔◌, String, Bool, true, false, Option, none, some, ◌++◌,
  Result, ok, Error, run_next, M, arith, length, take, length-append, Bool-cases, inl, inr,
  if◌then◌else◌, ltb,
}
use signal_flow.Domain.{Bytes, RawMessage, running, success, failure}
use signal_flow.Executor.{ExecResult, Context}
use signal_flow.Executor.Command.{
  CommandConfig, max_output_bytes, truncation_mark, truncate, status_of, shell_of, execute_command,
}
use signal_flow.Executor.HttpCheck.{
  HttpCheckConfig, int_eq, expected_of, execute_check, checked, context_of,
}

mark_length : length truncation_mark ≡ 16
unfolding bytes_of
mark_length = refl

-- The output of a command within 10240 bytes is kept whole; of a longer one the first 10240 are
-- kept, and the rest gives way to a mark, which makes 10256.
pub truncate_keeps :
    (out : Bytes)
    → ((length out ≤ max_output_bytes) × (truncate out ≡ out))
      ⊎ ((max_output_bytes < length out)
          × (truncate out ≡ take max_output_bytes out ++ truncation_mark)
          × (length (truncate out) ≡ 10256))
unfolding truncate
truncate_keeps out = elim (Bool-cases (ltb max_output_bytes (length out))) [
  | inl long ↦ inr (
    ground arith,
    rw (long, if◌then◌else◌),
    rw (long, if◌then◌else◌)
        (omega (
          arith,
          length-append (take max_output_bytes out) truncation_mark,
          length-take_of_le max_output_bytes out (ground arith),
          mark_length,
        )),
  )
  | inr short ↦ inl (ground arith, rw (short, if◌then◌else◌))
]

pub status_of-final : (e : Option Error) → status_of e ≢ running
status_of-final none = λ h. cc
status_of-final (some e) = λ h. cc

status_of-success : (e : Option Error) → (status_of e ≡ success) ↔ (e ≡ none)
status_of-success none = (λ _. refl, λ _. refl)
status_of-success (some e) = (λ h. cc, λ h. cc)

module _ {S : Type 0} (unmarshal : RawMessage → Result CommandConfig)
    (run : Context → String → String → M S (Bytes × Option Error)) where
  -- A command whose configuration parses and whose process ended ends with a final status, which
  -- is success exactly if the process reported no error, and with the process's output, truncated.
  pub execute_command_lem :
      (ctx : Context) (config : RawMessage) (cfg : CommandConfig) (s t : S) (out : Bytes)
      (e : Option Error)
      → unmarshal config ≡ ok cfg
      → run ctx (shell_of cfg) cfg.command s ≡ (ok (out, e), t)
      → (r : ExecResult) × (execute_command unmarshal run ctx config s ≡ (ok r, t))
        × (r.status ≢ running)
        × ((r.status ≡ success) ↔ (e ≡ none))
        × (r.output ≡ truncate out)
  unfolding execute_command run_next
  execute_command_lem ctx config cfg s t out e parsed ran = (
    record { status = status_of e; output = truncate out },
    rw (parsed, execute_command) (rw ran),
    status_of-final e,
    status_of-success e,
    refl,
  )

int_eq_iff : (a b : ℤ) → (int_eq a b ≡ true) ↔ (a ≡ b)
int_eq_iff (pos a) (pos b) = ground arith
int_eq_iff (negsuc a) (negsuc b) = ground arith
int_eq_iff (pos a) (negsuc b) = (λ h. cc, λ h. cc)
int_eq_iff (negsuc a) (pos b) = (λ h. cc, λ h. cc)

pub verdict :
    (b : Bool)
    → ((if b then success else failure) ≢ running)
      × (((if b then success else failure) ≡ success) ↔ (b ≡ true))
verdict true = (λ h. cc, (λ _. refl, λ _. refl))
verdict false = (λ h. cc, (λ h. cc, λ h. cc))

module _ {S Request : Type 0} (show_int : ℤ → String)
    (unmarshal : RawMessage → Result HttpCheckConfig) (new_request : String → Result Request)
    (send : Context → Request → M S ℤ) where
  -- The code that the configuration asks for: its own, or 200 where it gives none.
  abbrev pub IsExpected : HttpCheckConfig → ℤ → Type 0
  IsExpected cfg code =
      ((cfg.expected_status ≡ pos 0) × (code ≡ pos 200))
      ⊎ ((cfg.expected_status ≢ pos 0) × (code ≡ cfg.expected_status))

  wanted_code_iff :
      (cfg : HttpCheckConfig) (code : ℤ)
      → (int_eq code (expected_of cfg) ≡ true) ↔ IsExpected cfg code
  wanted_code_iff cfg code =
      let zero_iff = int_eq_iff cfg.expected_status (pos 0) in
      elim (Bool-cases (int_eq cfg.expected_status (pos 0))) [
        | inl e ↦
            rw (e, if◌then◌else◌)
              (
                λ h. inl (zero_iff.0 e, (int_eq_iff code (pos 200)).0 h),
                λ h. elim h [
                  | inl (_, same) ↦ (int_eq_iff code (pos 200)).1 same
                  | inr (other, _) ↦ absurd (other (zero_iff.0 e))
                ],
              )
        | inr e ↦
            rw (e, if◌then◌else◌)
              (
                λ h. inr (
                  λ z. let clash = zero_iff.1 z in cc,
                  (int_eq_iff code cfg.expected_status).0 h,
                ),
                λ h. elim h [
                  | inl (z, _) ↦ (let clash = zero_iff.1 z in cc)
                  | inr (_, same) ↦ (int_eq_iff code cfg.expected_status).1 same
                ],
              )
      ]

  -- What a check answers for what its request gave: a final status, which is success exactly if the
  -- server answered with the code that is asked for.
  abbrev pub IsVerdict : HttpCheckConfig → Result ℤ → ExecResult → Type 0
  IsVerdict cfg answer r =
      (r.status ≢ running)
      × ((r.status ≡ success) ↔ ((code : ℤ) × (answer ≡ ok code) × IsExpected cfg code))

  checked-IsVerdict :
      (cfg : HttpCheckConfig) (answer : Result ℤ)
      → IsVerdict cfg answer (checked show_int unmarshal new_request send (expected_of cfg) answer)
  checked-IsVerdict cfg (err e) = (λ h. cc, (λ h. cc, λ h. let clash = h.1 in cc))
  checked-IsVerdict cfg (ok code) =
      let (final, won) = verdict (int_eq code (expected_of cfg)) in
      let asked = wanted_code_iff cfg code in
      (
        final,
        (
          λ h. (code, refl, asked.0 (won.0 h)),
          λ h.
              let same : code ≡ h.0 = code_of h.1 in
              won.1 (asked.1 (subst (IsExpected cfg) (sym same) h.2)),
        ),
      )
    where
      code_of : {a b : ℤ} → ok a ≡ ok b → a ≡ b
      code_of e = cc

  -- A check ends in an error exactly where its configuration does not parse or gives no request,
  -- and has then sent nothing; otherwise it sends the request of the configured address, with the
  -- configured limit of time, and its status is final, and success exactly if the server answered
  -- with the configured code, or with 200 where none is configured.
  pub execute_check_lem :
      (ctx : Context) (config : RawMessage) (s : S)
      → Ensures
          (λ r t.
            (cfg : HttpCheckConfig) × (unmarshal config ≡ ok cfg)
            × ((req : Request) × (new_request cfg.url ≡ ok req)
                × (t ≡ (send (context_of ctx cfg) req s).1)
                × IsVerdict cfg (send (context_of ctx cfg) req s).0 r))
          (λ e t.
            (t ≡ s)
            × (((x : Error) × (unmarshal config ≡ err x))
                ⊎ ((cfg : HttpCheckConfig) × (unmarshal config ≡ ok cfg)
                    × (new_request cfg.url ≡ err e))))
          (execute_check show_int unmarshal new_request send ctx config s)
  unfolding execute_check run_next
  execute_check_lem ctx config s = elim (Result-cases (unmarshal config)) [
    | inr (x, bad) ↦ rw (bad, execute_check) (fails (refl, inl (x, refl)))
    | inl (cfg, parsed) ↦ elim (Result-cases (new_request cfg.url)) [
      | inr (e, bad) ↦ rw (parsed, execute_check) (rw bad (fails (refl, inr (cfg, refl, bad))))
      | inl (req, made) ↦
          rw (parsed, execute_check)
            (rw made (
              returns (
                cfg,
                refl,
                (req, made, refl, checked-IsVerdict cfg (send (context_of ctx cfg) req s).0),
              )))
    ]
  ]
