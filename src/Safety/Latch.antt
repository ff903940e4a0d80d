-- ===== src/Safety/Latch.antt =====
-- When the safety latch is set and what clears it, in the times of the results.
use aethor_studio_v.Prelude.{
  ℤ, true, false, ◌&&◌, Option, none, some, List, [], ◌∷◌, Text, if◌then◌else◌, text_eq, ◌≡◌, refl,
  ap, sym, ◌∙◌, Bool-cases, inl, inr,
}
use aethor_studio_v.Contracts.{CommandResult, CommandAuditRecord}
use aethor_studio_v.Safety.{
  CommandSafetyState, is_completed_stop, is_safety_latched_result, exceeds, not_after, is_latched,
  parse_timestamp, reduce_command_safety_state, reduce_history,
}
use aethor_studio_v.Safety.Times.{
  is_dated, later, later_by, after, after-later_stop, after-later_alarm, later-older, later-newer,
  exceeds-dated, and_false, is_alarm, results_of, time, stop_time, latch_time, Tracks, latest,
  Dated,
}

module _ (date_parse : Text → Option ℤ) where
  -- What a completed stop at a known time leaves, and what an uncertain result leaves.
  stopped : CommandSafetyState → CommandResult → ℤ → CommandSafetyState
  stopped s r t = if exceeds (stop_time date_parse s) t then s else record {
    latched_result = if exceeds (latch_time date_parse s) t then s.latched_result else none;
    confirmed_stop_timestamp_utc = some r.timestamp_utc;
  }

  alarmed : CommandSafetyState → CommandResult → ℤ → CommandSafetyState
  alarmed s r t =
      if not_after (some t) (stop_time date_parse s)
      then s
      else if is_latched s.latched_result && exceeds (latch_time date_parse s) t
      then s
      else record s { latched_result = some r }

  reduce-stopped :
      (s : CommandSafetyState) (r : CommandResult) (t : ℤ)
      → time date_parse r ≡ some t
      → is_completed_stop r ≡ true
      → reduce_command_safety_state date_parse s r ≡ stopped s r t
  unfolding reduce_command_safety_state stop_time latch_time parse_timestamp stopped
  reduce-stopped s r t at is = rw (is, reduce_command_safety_state, at) refl

  reduce-alarmed :
      (s : CommandSafetyState) (r : CommandResult) (t : ℤ)
      → time date_parse r ≡ some t
      → is_completed_stop r ≡ false
      → is_safety_latched_result r ≡ true
      → reduce_command_safety_state date_parse s r ≡ alarmed s r t
  unfolding reduce_command_safety_state stop_time latch_time parse_timestamp alarmed
  reduce-alarmed s r t at is odd = rw (is, reduce_command_safety_state, odd, at) refl

  reduce-other :
      (s : CommandSafetyState) (r : CommandResult)
      → is_completed_stop r ≡ false
      → is_safety_latched_result r ≡ false
      → reduce_command_safety_state date_parse s r ≡ s
  unfolding reduce_command_safety_state
  reduce-other s r is odd = rw (is, reduce_command_safety_state, odd) refl

  stopped-Tracks :
      (s : CommandSafetyState) (r : CommandResult) (stop alarm : Option ℤ) (t : ℤ)
      → Tracks date_parse s stop alarm
      → time date_parse r ≡ some t
      → Tracks date_parse (stopped s r t) (later stop t) alarm
  unfolding stopped stop_time parse_timestamp latch_time
  stopped-Tracks s r stop alarm t h at = elim (Bool-cases (exceeds (stop_time date_parse s) t)) [
    | inl older ↦ rw older (record {
      stop_at = h.stop_at ∙ sym (later-older stop t (rw (← h.stop_at) older));
      latch_at =
          h.latch_at ∙ ap (λ x. after x alarm) (sym (later-older stop t (rw (← h.stop_at) older)));
      dated = h.dated;
    })
    | inr newer ↦ elim (Bool-cases (exceeds (latch_time date_parse s) t)) [
      | inl keeps ↦
          rw (newer, keeps)
            (record {
              stop_at = at ∙ sym (later-newer stop t (rw (← h.stop_at) newer));
              latch_at =
                  h.latch_at
                  ∙ sym (
                      rw
                        (
                          after-later_stop stop alarm t,
                          ap (λ x. exceeds x t) (sym h.stop_at) ∙ newer,
                          ap (λ x. exceeds x t) (sym h.latch_at) ∙ keeps,
                        )
                        refl);
              dated = h.dated;
            })
      | inr drops ↦
          rw (newer, drops)
            (record {
              stop_at = at ∙ sym (later-newer stop t (rw (← h.stop_at) newer));
              latch_at = sym (
                  rw
                    (
                      after-later_stop stop alarm t,
                      ap (λ x. exceeds x t) (sym h.stop_at) ∙ newer,
                      ap (λ x. exceeds x t) (sym h.latch_at) ∙ drops,
                    )
                    refl);
              dated = refl;
            })
    ]
  ]

  alarmed-Tracks :
      (s : CommandSafetyState) (r : CommandResult) (stop alarm : Option ℤ) (t : ℤ)
      → Tracks date_parse s stop alarm
      → time date_parse r ≡ some t
      → Tracks date_parse (alarmed s r t) stop (later alarm t)
  unfolding alarmed stop_time parse_timestamp latch_time
  alarmed-Tracks s r stop alarm t h at =
      elim (Bool-cases (not_after (some t) (stop_time date_parse s))) [
        | inl early ↦ rw early (record {
          stop_at = h.stop_at;
          latch_at =
              h.latch_at
              ∙ sym (
                  rw
                    (
                      after-later_alarm stop alarm t,
                      ap (λ x. not_after (some t) x) (sym h.stop_at) ∙ early,
                    )
                    refl);
          dated = h.dated;
        })
        | inr due ↦ elim (Bool-cases (exceeds (latch_time date_parse s) t)) [
          | inl keeps ↦
              rw (due, h.dated ∙ exceeds-dated (latch_time date_parse s) t keeps, keeps)
                (record {
                  stop_at = h.stop_at;
                  latch_at =
                      h.latch_at
                      ∙ sym (
                          rw
                            (
                              after-later_alarm stop alarm t,
                              ap (λ x. not_after (some t) x) (sym h.stop_at) ∙ due,
                              ap (λ x. exceeds x t) (sym h.latch_at) ∙ keeps,
                            )
                            refl);
                  dated = h.dated;
                })
          | inr replaces ↦
              rw (due, replaces, and_false (is_latched s.latched_result))
                (record {
                  stop_at = h.stop_at;
                  latch_at =
                      at
                      ∙ sym (
                          rw
                            (
                              after-later_alarm stop alarm t,
                              ap (λ x. not_after (some t) x) (sym h.stop_at) ∙ due,
                              ap (λ x. exceeds x t) (sym h.latch_at) ∙ replaces,
                            )
                            refl);
                  dated = sym (ap is_dated at);
                })
        ]
      ]

  abbrev stop_or : Option ℤ → CommandResult → Option ℤ
  stop_or stop r = if is_completed_stop r then later_by stop (time date_parse r) else stop

  abbrev alarm_or : Option ℤ → CommandResult → Option ℤ
  alarm_or alarm r = if is_alarm r then later_by alarm (time date_parse r) else alarm

  reduce-Tracks :
      (s : CommandSafetyState) (r : CommandResult) (stop alarm : Option ℤ) (t : ℤ)
      → Tracks date_parse s stop alarm
      → time date_parse r ≡ some t
      → Tracks date_parse
          (reduce_command_safety_state date_parse s r)
          (stop_or stop r)
          (alarm_or alarm r)
  unfolding is_alarm
  reduce-Tracks s r stop alarm t h at = elim (Bool-cases (is_completed_stop r)) [
    | inl is ↦ rw (reduce-stopped s r t at is, is, at) (stopped-Tracks s r stop alarm t h at)
    | inr is ↦ elim (Bool-cases (is_safety_latched_result r)) [
      | inl odd ↦
          rw (reduce-alarmed s r t at is odd, is, odd, at) (alarmed-Tracks s r stop alarm t h at)
      | inr fine ↦ rw (reduce-other s r is fine, is, fine) h
    ]
  ]

  module _ {F : Type 0} (session_id : Text) where
    pub history-Tracks :
        (s : CommandSafetyState) (l : List (CommandAuditRecord F)) (stop alarm : Option ℤ)
        → Dated date_parse l
        → Tracks date_parse s stop alarm
        → Tracks date_parse
            (reduce_history date_parse s l session_id)
            (latest date_parse is_completed_stop stop (results_of session_id l))
            (latest date_parse is_alarm alarm (results_of session_id l))
    unfolding reduce_history latest results_of
    history-Tracks s [] stop alarm d h = h
    history-Tracks s (a ∷ l) stop alarm ((t, at), d) h =
        elim (Bool-cases (text_eq a.result.session_id session_id)) [
          | inl own ↦ rw own (
              history-Tracks (reduce_command_safety_state date_parse s a.result) l
                (stop_or stop a.result) (alarm_or alarm a.result) d
                (reduce-Tracks s a.result stop alarm t h at))
          | inr foreign ↦ rw foreign (history-Tracks s l stop alarm d h)
        ]
