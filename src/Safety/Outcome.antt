-- ===== src/Safety/Outcome.antt =====
-- What a client can rely on of the safety latch.
use mathlib.Core.Path.{subst}
use aethor_studio_v.Prelude.{
  ℤ, true, false, Option, none, some, List, [], ◌∷◌, Text, if◌then◌else◌, text_eq, text_eq_refl,
  eq_of_text_eq, ◌≡◌, refl, ap, sym, ◌∙◌, arith, Bool-cases, inl, inr, ◌⊎◌,
}
use aethor_studio_v.Contracts.{CommandResult, CommandAuditRecord}
use aethor_studio_v.Safety.{
  CommandSafetyState, is_completed_stop, is_latched, parse_timestamp, reduce_command_safety_state,
  reduce_history, reconcile_command_safety_state, own_state,
}
use aethor_studio_v.Safety.Latch.{history-Tracks}
use aethor_studio_v.Safety.Times.{
  after, is_dated, stop_time, latch_time, Tracks, empty, latest, is_alarm, results_of, Dated,
}

-- A state of one session: a latch that is set holds a result of it.
abbrev pub Own : Text → CommandSafetyState → Type 0
Own session_id s = (r : CommandResult) → s.latched_result ≡ some r → r.session_id ≡ session_id

pub some-injective :
    (a b : CommandResult) → ◌≡◌ {A = Option CommandResult} (some a) (some b) → a ≡ b
some-injective a b h = cc

own_state-Own :
    (session_id : Text) (s : CommandSafetyState) (latched : Option CommandResult)
    → s.latched_result ≡ latched
    → Own session_id (own_state session_id s latched)
own_state-Own session_id s none e = λ r h. absurd (let d = sym e ∙ h in cc)
own_state-Own session_id s (some q) e = elim (Bool-cases (text_eq q.session_id session_id)) [
  | inl own ↦ rw own (λ r h.
      subst {A = CommandResult} (λ x. x.session_id ≡ session_id) (some-injective q r (sym e ∙ h))
        (eq_of_text_eq q.session_id session_id own))
  | inr foreign ↦ rw foreign (λ r h. cc)
]

own_state-latched :
    (session_id : Text) (s : CommandSafetyState) (latched : Option CommandResult)
    (r : CommandResult)
    → s.latched_result ≡ some r
    → latched ≡ some r
    → r.session_id ≡ session_id
    → is_latched (own_state session_id s latched).latched_result ≡ true
own_state-latched session_id s none r e h same = cc
own_state-latched session_id s (some q) r e h same =
    rw
      (ap (λ x. text_eq (CommandResult.session_id x) session_id) (some-injective q r h)
        ∙ ap (λ x. text_eq x session_id) same
        ∙ text_eq_refl session_id)
      (ap is_latched e)

-- A result of the session in the history that is a completed stop.
abbrev pub HasStop : {F : Type 0} → Text → List (CommandAuditRecord F) → Type 0
HasStop session_id [] = ⊥
HasStop session_id (a ∷ l) =
    ((a.result.session_id ≡ session_id) × (is_completed_stop a.result ≡ true))
    ⊎ HasStop session_id l

module _ (date_parse : Text → Option ℤ) where
  pub reduce-Own :
      (session_id : Text) (s : CommandSafetyState) (r : CommandResult)
      → r.session_id ≡ session_id
      → Own session_id s
      → Own session_id (reduce_command_safety_state date_parse s r)
  unfolding reduce_command_safety_state
  reduce-Own session_id s r same h = ground arith

  -- A result other than a completed stop leaves a latch set.
  reduce-clears :
      (s : CommandSafetyState) (r : CommandResult)
      → is_latched s.latched_result ≡ true
      → is_completed_stop r ≡ false
      → is_latched (reduce_command_safety_state date_parse s r).latched_result ≡ true
  unfolding reduce_command_safety_state
  reduce-clears s r set other = rw other (ground arith)

module _ (date_parse : Text → Option ℤ) {F : Type 0} where
  -- A reconciliation from the empty state, where every result has a valid timestamp: the confirmed
  -- stop is at the latest time of the completed stops of the session, and the latch is at the
  -- latest time of its uncertain results if that is after the confirmed stop; else it is not set.
  pub reconcile-latest :
      (history : List (CommandAuditRecord F)) (session_id : Text)
      → Dated date_parse history
      → let s = reconcile_command_safety_state date_parse history session_id empty in
        let own = results_of session_id history in
        let stop = latest date_parse is_completed_stop none own in
        let alarm = latest date_parse is_alarm none own in
        (stop_time date_parse s ≡ stop)
        × (latch_time date_parse s ≡ after stop alarm)
        × (is_latched s.latched_result ≡ is_dated (after stop alarm))
  unfolding reconcile_command_safety_state stop_time latch_time parse_timestamp
  reconcile-latest history session_id dated =
      (all.stop_at, all.latch_at, all.dated ∙ ap is_dated all.latch_at)
    where
      start : Tracks date_parse empty none none
      start = record { stop_at = refl; latch_at = refl; dated = refl }

      all :
          Tracks date_parse
            (reconcile_command_safety_state date_parse history session_id empty)
            (latest date_parse is_completed_stop none (results_of session_id history))
            (latest date_parse is_alarm none (results_of session_id history))
      all = history-Tracks date_parse session_id empty history none none dated start

  history-own :
      (s : CommandSafetyState) (a : CommandAuditRecord F) (l : List (CommandAuditRecord F))
      (session_id : Text)
      → text_eq a.result.session_id session_id ≡ true
      → reduce_history date_parse s (a ∷ l) session_id
        ≡ reduce_history date_parse (reduce_command_safety_state date_parse s a.result) l session_id
  unfolding reduce_history
  history-own s a l session_id own =
      ap
        (λ b.
          reduce_history date_parse
            (if b then reduce_command_safety_state date_parse s a.result else s) l session_id)
        own

  history-foreign :
      (s : CommandSafetyState) (a : CommandAuditRecord F) (l : List (CommandAuditRecord F))
      (session_id : Text)
      → text_eq a.result.session_id session_id ≡ false
      → reduce_history date_parse s (a ∷ l) session_id ≡ reduce_history date_parse s l session_id
  unfolding reduce_history
  history-foreign s a l session_id foreign =
      ap
        (λ b.
          reduce_history date_parse
            (if b then reduce_command_safety_state date_parse s a.result else s) l session_id)
        foreign

  history-cleared :
      (s : CommandSafetyState) (l : List (CommandAuditRecord F)) (session_id : Text)
      → is_latched s.latched_result ≡ true
      → is_latched (reduce_history date_parse s l session_id).latched_result ≡ false
      → HasStop session_id l
  unfolding reduce_history
  history-cleared s [] session_id set clear = absurd (let e = sym set ∙ clear in cc)
  history-cleared s (a ∷ l) session_id set clear =
      elim (Bool-cases (text_eq a.result.session_id session_id)) [
        | inr foreign ↦ inr (
            history-cleared s l session_id set (
              ap (λ x. is_latched x.latched_result) (sym (history-foreign s a l session_id foreign))
              ∙ clear))
        | inl own ↦ elim (Bool-cases (is_completed_stop a.result)) [
          | inl stop ↦ inl (eq_of_text_eq a.result.session_id session_id own, stop)
          | inr other ↦ inr (
              history-cleared (reduce_command_safety_state date_parse s a.result) l session_id
                (reduce-clears date_parse s a.result set other)
                (ap (λ x. is_latched x.latched_result) (sym (history-own s a l session_id own))
                  ∙ clear))
        ]
      ]

  history-Own :
      (s : CommandSafetyState) (l : List (CommandAuditRecord F)) (session_id : Text)
      → Own session_id s
      → Own session_id (reduce_history date_parse s l session_id)
  history-Own s [] session_id h = unfold reduce_history in h
  history-Own s (a ∷ l) session_id h = elim (Bool-cases (text_eq a.result.session_id session_id)) [
    | inr foreign ↦
        subst (Own session_id) (sym (history-foreign s a l session_id foreign))
          (history-Own s l session_id h)
    | inl own ↦ subst (Own session_id) (sym (history-own s a l session_id own)) (
        history-Own (reduce_command_safety_state date_parse s a.result) l session_id (
          reduce-Own date_parse session_id s a.result
            (eq_of_text_eq a.result.session_id session_id own) h))
  ]

  -- The latch that a reconciliation leaves is of the given session.
  pub reconcile-own :
      (history : List (CommandAuditRecord F)) (session_id : Text) (current : CommandSafetyState)
      (r : CommandResult)
      → (reconcile_command_safety_state date_parse history session_id current).latched_result
        ≡ some r
      → r.session_id ≡ session_id
  unfolding reconcile_command_safety_state
  reconcile-own history session_id current r left =
      history-Own (own_state session_id current current.latched_result) history session_id
        (own_state-Own session_id current current.latched_result refl) r left

  -- If a reconciliation clears a latch of the given session, the history has a completed
  -- `stopAndDisable` of that session. Timestamps may be invalid.
  pub reconcile-cleared :
      (history : List (CommandAuditRecord F)) (session_id : Text) (current : CommandSafetyState)
      (r : CommandResult)
      → current.latched_result ≡ some r
      → r.session_id ≡ session_id
      → is_latched
          (reconcile_command_safety_state date_parse history session_id current).latched_result
        ≡ false
      → HasStop session_id history
  unfolding reconcile_command_safety_state
  reconcile-cleared history session_id current r set own clear =
      history-cleared (own_state session_id current current.latched_result) history session_id
        (own_state-latched session_id current current.latched_result r set set own) clear
