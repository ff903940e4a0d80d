-- ===== src/SerialSession/Exclusive.antt =====
-- At most one operation of serialSessionOperations.ts uses the gateway, and none blocks the next.
use mathlib.Core.Path.{subst}
use aethor_studio_v.Prelude.{
  ℕ, ◌+◌, ◌==◌, true, false, Option, none, some, List, [], ◌∷◌, ◌++◌, Text, if◌then◌else◌, codes,
  Result, err, ok, ◌≡◌, refl, sym, ap, ◌∙◌, arith, Bool-cases, inl, inr, ◌⊎◌,
}
use aethor_studio_v.Contracts.{RobotSessionSnapshot}
use aethor_studio_v.Runtime.{
  GatewayRuntimeState, SerialSessionOperationStatus, begin_serial_session_operation,
  complete_serial_session_operation, fail_serial_session_operation,
}
use aethor_studio_v.SerialSession.{
  SerialSessionOperationKind, connect, disconnect, InFlightSerialSessionOperation, ErrorValue,
  Operations, status_of, identity_of, is_same_operation, is_promise, begin_operation, run_with,
  run_serial_session_operation, connect_serial_session, disconnect_serial_session, on_fulfilled,
  on_rejected, on_settled,
}
use aethor_studio_v.SerialSession.Calls.{
  Running, System, Event, connect_called, disconnect_called, answered, settled, running_at, without,
  is_settling, drop_settling, issued, start, answer, answer_at, step, steps,
}

-- The status does not show an operation.
abbrev pub IsResting : SerialSessionOperationStatus → Type 0
IsResting SerialSessionOperationStatus.idle = Unit
IsResting SerialSessionOperationStatus.error = Unit
IsResting _ = ⊥

-- The operation in flight is the only call of the gateway, which the status shows, or its answer
-- has come and its `finally` is still to run.
abbrev pub OneInFlight :
    InFlightSerialSessionOperation → List Running → List ℕ → SerialSessionOperationStatus → Type 0
OneInFlight f running settling status =
    ((id : Text) × (running ≡ record { promise = f.promise; kind = f.kind; operation_id = id } ∷ [])
      × (settling ≡ [])
      × (status ≡ status_of f.kind))
    ⊎ ((running ≡ []) × (settling ≡ f.promise ∷ []) × IsResting status)

abbrev pub Exclusive :
    Option InFlightSerialSessionOperation
    → List Running
    → List ℕ
    → SerialSessionOperationStatus
    → Type 0
Exclusive none running settling status = (running ≡ []) × (settling ≡ []) × IsResting status
Exclusive (some f) running settling status = OneInFlight f running settling status

same_promise : (n : ℕ) → (n == n) ≡ true
same_promise n = ground arith

none-some : (r : Running) → ◌≡◌ {A = Option Running} none (some r) → ⊥
none-some r e = cc

module _ {Cap F : Type 0} where
  abbrev pub IsExclusive : System Cap F → Type 0
  IsExclusive w =
      Exclusive w.operations.in_flight w.running w.settling
        w.operations.runtime.serial_session_operation_status

  call-Exclusive :
      (s : Operations Cap F) (f : Option InFlightSerialSessionOperation) (running : List Running)
      (settling : List ℕ) (kind : SerialSessionOperationKind) (identity id : Text)
      → s.in_flight ≡ f
      → Exclusive f running settling s.runtime.serial_session_operation_status
      → let after = (run_with s f kind identity id).0 in
        Exclusive after.in_flight
          (issued s.next_promise after.next_promise kind id running)
          settling
          after.runtime.serial_session_operation_status
  unfolding begin_operation begin_serial_session_operation
  call-Exclusive s none running settling kind identity id e (empty, unsettled, rests) =
      let fresh : (s.next_promise + 1 == s.next_promise) ≡ false = ground arith in
      inl (id, rw (fresh, empty) refl, unsettled, refl)
  call-Exclusive s (some f) running settling kind identity id e h =
      elim (Bool-cases (is_same_operation f kind identity)) [
        | inl joins ↦ rw (joins, same_promise s.next_promise) kept
        | inr conflicts ↦ rw (conflicts, same_promise s.next_promise) kept
      ]
    where
      kept : Exclusive s.in_flight running settling s.runtime.serial_session_operation_status
      kept =
          subst (λ o. Exclusive o running settling s.runtime.serial_session_operation_status)
            (sym e) h

  answer-in_flight :
      (s : Operations Cap F) (r : Running)
      (result : Result (Option ErrorValue) RobotSessionSnapshot) (duration : F)
      → (answer s r result duration).in_flight ≡ s.in_flight
  unfolding on_fulfilled on_rejected
  answer-in_flight s r (ok snapshot) duration = refl
  answer-in_flight s r (err cause) duration = refl

  answer-IsResting :
      (s : Operations Cap F) (r : Running)
      (result : Result (Option ErrorValue) RobotSessionSnapshot) (duration : F)
      → IsResting (answer s r result duration).runtime.serial_session_operation_status
  unfolding on_fulfilled on_rejected complete_serial_session_operation fail_serial_session_operation
  answer-IsResting s r (ok snapshot) duration = tt
  answer-IsResting s r (err cause) duration = tt

  answer_at-Exclusive :
      (w : System Cap F) (f : Option InFlightSerialSessionOperation) (promise : ℕ)
      (at : Option Running) (result : Result (Option ErrorValue) RobotSessionSnapshot)
      (duration : F)
      → w.operations.in_flight ≡ f
      → running_at promise w.running ≡ at
      → IsExclusive w
      → Exclusive f w.running w.settling w.operations.runtime.serial_session_operation_status
      → IsExclusive (answer_at w promise at result duration)
  answer_at-Exclusive w f promise none result duration e at same h = same
  answer_at-Exclusive w none promise (some r) result duration e at same (empty, unsettled, rests) =
      absurd (none-some r (sym (ap (running_at promise) empty) ∙ at))
  answer_at-Exclusive w (some f) promise (some r) result duration e at same
        (inr (empty, settling, rests)) =
      absurd (none-some r (sym (ap (running_at promise) empty) ∙ at))
  answer_at-Exclusive w (some f) promise (some r) result duration e at same
        (inl (id, alone, unsettled, shown)) =
      elim (Bool-cases (f.promise == promise)) [
        | inr other ↦ absurd (
            none-some r (
              ap
                (λ b.
                  if b
                  then some (record { promise = f.promise; kind = f.kind; operation_id = id })
                  else none)
                (sym other)
              ∙ sym (ap (running_at promise) alone)
              ∙ at))
        | inl own ↦
            subst
              (λ o.
                Exclusive o (without promise w.running) (w.settling ++ (promise ∷ []))
                  (answer w.operations r result duration).runtime.serial_session_operation_status)
              (sym (answer-in_flight w.operations r result duration ∙ e))
              (inr (
                ap (without promise) alone
                    ∙ ap
                        (λ b.
                          if b
                          then []
                          else (record { promise = f.promise; kind = f.kind; operation_id = id }
                              ∷ []))
                        own,
                ap (λ l. l ++ (promise ∷ [])) unsettled ∙ ap (λ p. p ∷ []) (ground (arith, own)),
                answer-IsResting w.operations r result duration,
              ))
      ]

  settled-Exclusive :
      (w : System Cap F) (f : Option InFlightSerialSessionOperation) (promise : ℕ)
      → w.operations.in_flight ≡ f
      → is_settling promise w.settling ≡ true
      → Exclusive f w.running w.settling w.operations.runtime.serial_session_operation_status
      → Exclusive
          (on_settled w.operations promise).in_flight
          w.running
          (drop_settling promise w.settling)
          (on_settled w.operations promise).runtime.serial_session_operation_status
  unfolding on_settled
  settled-Exclusive w none promise e now (empty, unsettled, rests) =
      absurd (let d = sym (ap (is_settling promise) unsettled) ∙ now in cc)
  settled-Exclusive w (some f) promise e now (inl (id, alone, unsettled, shown)) =
      absurd (let d = sym (ap (is_settling promise) unsettled) ∙ now in cc)
  settled-Exclusive w (some f) promise e now (inr (empty, settling, rests)) =
      elim (Bool-cases (f.promise == promise)) [
        | inr other ↦ absurd (
            let d =
              ap (λ b. if b then true else false) (sym other)
              ∙ sym (ap (is_settling promise) settling)
              ∙ now in
            cc)
        | inl own ↦ rw (ap (λ o. is_promise o promise) e ∙ own) (
          empty,
          ap (drop_settling promise) settling ∙ ap (λ b. if b then [] else (f.promise ∷ [])) own,
          rests,
        )
      ]

  -- The answer has come, and `finally` has still to run.
  abbrev Answered : InFlightSerialSessionOperation → System Cap F → Type 0
  Answered f w =
      (w.operations.in_flight ≡ some f) × (w.running ≡ []) × (w.settling ≡ f.promise ∷ [])

  answer_at-Answered :
      (w : System Cap F) (f : InFlightSerialSessionOperation) (at : Option Running)
      (result : Result (Option ErrorValue) RobotSessionSnapshot) (duration : F)
      → w.operations.in_flight ≡ some f
      → running_at f.promise w.running ≡ at
      → OneInFlight f w.running w.settling w.operations.runtime.serial_session_operation_status
      → Answered f (answer_at w f.promise at result duration)
  answer_at-Answered w f none result duration e at (inl (id, alone, unsettled, shown)) = absurd (
      none-some (record { promise = f.promise; kind = f.kind; operation_id = id })
        (sym at
          ∙ ap (running_at f.promise) alone
          ∙ ap
              (λ b.
                if b
                then some (record { promise = f.promise; kind = f.kind; operation_id = id })
                else none)
              (same_promise f.promise)))
  answer_at-Answered w f (some r) result duration e at (inl (id, alone, unsettled, shown)) = (
    answer-in_flight w.operations r result duration ∙ e,
    ap (without f.promise) alone
        ∙ ap
            (λ b.
              if b
              then []
              else (record { promise = f.promise; kind = f.kind; operation_id = id } ∷ []))
            (same_promise f.promise),
    ap (λ l. l ++ (f.promise ∷ [])) unsettled,
  )
  answer_at-Answered w f none result duration e at (inr (empty, settling, rests)) =
      (e, empty, settling)
  answer_at-Answered w f (some r) result duration e at (inr (empty, settling, rests)) =
      absurd (none-some r (sym (ap (running_at f.promise) empty) ∙ at))

module _ {Cap F : Type 0} (upper : Text → Text) where
  step-Exclusive : (w : System Cap F) (e : Event F) → IsExclusive w → IsExclusive (step upper w e)
  unfolding step connect_serial_session disconnect_serial_session run_serial_session_operation
  step-Exclusive w (connect_called request id) h =
      call-Exclusive w.operations w.operations.in_flight w.running w.settling connect
        (identity_of upper request) id refl h
  step-Exclusive w (disconnect_called id) h =
      call-Exclusive w.operations w.operations.in_flight w.running w.settling disconnect
        (codes "disconnect") id refl h
  step-Exclusive w (answered promise result duration) h =
      answer_at-Exclusive w w.operations.in_flight promise (running_at promise w.running) result
        duration refl refl h h
  step-Exclusive w (settled promise) h = elim (Bool-cases (is_settling promise w.settling)) [
    | inl now ↦ rw now (settled-Exclusive w w.operations.in_flight promise refl now h)
    | inr other ↦ rw other h
  ]

  steps-Exclusive :
      (w : System Cap F) (l : List (Event F)) → IsExclusive w → IsExclusive (steps upper w l)
  unfolding steps
  steps-Exclusive w [] h = h
  steps-Exclusive w (e ∷ l) h = steps-Exclusive (step upper w e) l (step-Exclusive w e h)

  -- From a store that shows no operation, after any requests, answers and callbacks in any order: at
  -- most one call of the gateway is unanswered, it is that of the operation in flight, and the
  -- status shows `connecting` or `disconnecting` exactly while it is.
  pub steps-IsExclusive :
      (runtime : GatewayRuntimeState Cap F) (l : List (Event F))
      → IsResting runtime.serial_session_operation_status
      → IsExclusive (steps upper (start runtime) l)
  steps-IsExclusive runtime l rests = steps-Exclusive (start runtime) l (refl, refl, rests)

  settled-released :
      (w : System Cap F) (f : InFlightSerialSessionOperation)
      → Answered f w
      → let end = step upper w (settled f.promise) in
        (end.operations.in_flight ≡ none) × (end.running ≡ []) × (end.settling ≡ [])
  unfolding step on_settled
  settled-released w f (e, empty, settling) =
      rw
        (
          ap (is_settling f.promise) settling
              ∙ ap (λ b. if b then true else false) (same_promise f.promise),
          ap (λ o. is_promise o f.promise) e ∙ same_promise f.promise,
        )
        (
          refl,
          empty,
          ap (drop_settling f.promise) settling
              ∙ ap (λ b. if b then [] else (f.promise ∷ [])) (same_promise f.promise),
        )

  -- An operation is in flight in a reachable state: once its promise has been answered, in whatever
  -- way, and its `finally` has run, none is, so that the next request calls the gateway.
  pub steps-released :
      (runtime : GatewayRuntimeState Cap F) (l : List (Event F))
      (f : InFlightSerialSessionOperation)
      (result : Result (Option ErrorValue) RobotSessionSnapshot) (duration : F)
      → IsResting runtime.serial_session_operation_status
      → let w = steps upper (start runtime) l in
        w.operations.in_flight ≡ some f
        → let end =
            step upper (step upper w (answered f.promise result duration)) (settled f.promise) in
          (end.operations.in_flight ≡ none) × (end.running ≡ []) × (end.settling ≡ [])
  unfolding step
  steps-released runtime l f result duration rests e =
      let w = steps upper (start runtime) l in
      let h : OneInFlight f w.running w.settling
          w.operations.runtime.serial_session_operation_status =
        subst
          (λ o.
            Exclusive o w.running w.settling w.operations.runtime.serial_session_operation_status)
          e (steps-IsExclusive runtime l rests) in
      settled-released (step upper w (answered f.promise result duration)) f
        (answer_at-Answered w f (running_at f.promise w.running) result duration e refl h)
