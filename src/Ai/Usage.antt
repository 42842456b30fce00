-- ===== src/Ai/Usage.antt =====
-- On the calls of `AIService` (app/modules/ai/service.py) and the usage that they count.
use ops_pilot_be.Prelude.{
  ℕ, ◌+◌, ◌≤◌, ◌≡◌, ◌⊎◌, refl, Option, none, some, List, [], ◌∷◌, String, Result, ok, err, arith,
  All, nat_eq, ◌==◌, ◌&&◌, nat_beq_iff, Bool-cases, Option-cases, result-cases, inl, inr,
}
use ops_pilot_be.Exceptions.{Error}
use ops_pilot_be.Repository.{Uuid, get_one_by, has_id}
use ops_pilot_be.Metering.{
  MeterTables, check_usage_limit, increment_usage, tier_limit, get_business_tier,
}
use ops_pilot_be.Metering.Cycle.{DateTime, IsTime}
use ops_pilot_be.Metering.Usage.{IsValid, increment_usage-IsValid}
use ops_pilot_be.Metering.Limit.{
  Within, increment_usage-Within_room, increment_usage-Within_other, check_usage_limit-room,
}
use ops_pilot_be.Store.{Customer, Order, customer_model}
use ops_pilot_be.Ai.{
  AiState, Texts, Gemini, metric, answer, recommend, call_gemini, chat_with_assistant,
  generate_business_summary, generate_recommendations, generate_customer_insights, concat_chunks,
  estimated_tokens, insight_texts, finish_stream, user_message, stream_chat_with_assistant,
}

-- A call of one of the operations.
pub data AiCall (R : Type 0) : Type 0 where
  chat : Texts → String → AiCall R
  summary : Texts → AiCall R
  recommendations : R → (String → Option (String × R)) → Texts → AiCall R
  insights : (Customer → ℕ → ℕ → ℕ → String → Texts) → Uuid → List Customer → List Order → AiCall R
  stream : String → String → AiCall R

pub record Request (R : Type 0) : Type 0 where
  pub business_id : Uuid
  pub now : DateTime
  pub call : AiCall R

-- An error is answered, and leaves the state.
abbrev pub state_after : {A : Type 0} → AiState → Result Error (A × AiState) → AiState
state_after s (err e) = s
state_after s (ok (a, s')) = s'

unfoldable pub run_call : {R : Type 0} → Gemini → Request R → AiState → AiState
run_call g r s = elim r.call [
  | chat texts message ↦ state_after s (chat_with_assistant g r.business_id r.now texts message s)
  | summary texts ↦ state_after s (generate_business_summary g r.business_id r.now texts s)
  | recommendations mock parse texts ↦
      state_after s (generate_recommendations g r.business_id r.now mock parse texts s)
  | insights texts i customers orders ↦
      state_after s (generate_customer_insights g r.business_id r.now texts i customers orders s)
  | stream instruction message ↦
      state_after s (stream_chat_with_assistant g r.business_id r.now instruction message s)
]

unfoldable pub run_calls : {R : Type 0} → Gemini → List (Request R) → AiState → AiState
unfolding run_call
run_calls g [] s = s
run_calls g (r ∷ rs) s = run_calls g rs (run_call g r s)

-- No answer of the model, and no streamed one, counts more than `most`.
pub record AnswersWithin (g : Gemini) (most : ℕ) : Type 0 where
  pub generated :
      (prompt instruction model reply : String) (tokens : ℕ)
      → g.generate prompt instruction model ≡ some (reply, tokens)
      → tokens ≤ most
  pub streamed :
      (b : Uuid) (now : DateTime) (prompt instruction : String)
      → estimated_tokens g b now prompt
          (concat_chunks g b now (g.generate_stream prompt instruction).chunks)
        ≤ most

module _ (g : Gemini) (most : ℕ) (bounded : AnswersWithin g most) where
  -- What a call does to the meters: nothing, or a count of at most `most` after a check that passed.
  abbrev Spends : Uuid → DateTime → MeterTables → MeterTables → Type 0
  Spends b now db db' =
      (db' ≡ db)
      ⊎ ((amount : ℕ) × (tokens : ℕ) × (check_usage_limit b metric amount now db ≡ ok tt)
          × (tokens ≤ most)
          × (db' ≡ increment_usage b metric tokens now db))

  call_gemini-within :
      (prompt instruction model reply : String) (tokens : ℕ)
      → call_gemini g prompt instruction model ≡ some (reply, tokens)
      → tokens ≤ most
  unfolding call_gemini
  call_gemini-within prompt instruction model reply tokens e = elim (Bool-cases g.is_keyed) [
    | inl h ↦ bounded.generated prompt instruction model reply tokens (rw h at e)
    | inr h ↦ cc (rw h at e)
  ]

  answer-Spends :
      (event : String) (b : Uuid) (now : DateTime) (amount : ℕ) (texts : Texts)
      (asked : Option (String × ℕ)) (s : AiState)
      → check_usage_limit b metric amount now s.metering ≡ ok tt
      → ((reply : String) (tokens : ℕ) → asked ≡ some (reply, tokens) → tokens ≤ most)
      → Spends b now s.metering (answer event b now texts asked s).1.metering
  answer-Spends event b now amount texts none s checked few = inl refl
  answer-Spends event b now amount texts (some (reply, tokens)) s checked few =
      inr (amount, tokens, checked, few reply tokens refl, refl)

  recommend-Spends :
      {R : Type 0} (b : Uuid) (now : DateTime) (mock : R) (texts : Texts)
      (parse : String → Option (String × R)) (asked : Option (String × ℕ)) (s : AiState)
      → check_usage_limit b metric 300 now s.metering ≡ ok tt
      → ((reply : String) (tokens : ℕ) → asked ≡ some (reply, tokens) → tokens ≤ most)
      → Spends b now s.metering (recommend g b now mock texts parse asked s).1.metering
  recommend-Spends b now mock texts parse none s checked few = inl refl
  recommend-Spends b now mock texts parse (some (reply, tokens)) s checked few =
      elim (Option-cases (parse reply)) [
        | inl h ↦ rw h (inl refl)
        | inr ((clean, recs), h) ↦ rw h (inr (300, tokens, checked, few reply tokens refl, refl))
      ]

  finish_stream-Spends :
      (b : Uuid) (now : DateTime) (prompt instruction message : String) (s : AiState)
      → check_usage_limit b metric 100 now s.metering ≡ ok tt
      → Spends b now s.metering
          (finish_stream g b now prompt message (g.generate_stream prompt instruction) s).1.metering
  finish_stream-Spends b now prompt instruction message s checked =
      elim (Bool-cases (g.generate_stream prompt instruction).is_broken) [
        | inl h ↦ rw h (inl refl)
        | inr h ↦ elim (Bool-cases (g.memory_fails message)) [
          | inl h' ↦ rw (h, h') (inl refl)
          | inr h' ↦
              rw (h, h') (inr (100, _, checked, bounded.streamed b now prompt instruction, refl))
        ]
      ]

  run_call-Spends :
      {R : Type 0} (b : Uuid) (now : DateTime) (call : AiCall R) (s : AiState)
      → Spends b now s.metering
          (run_call g (record { business_id = b; now = now; call = call }) s).metering
  unfolding run_call chat_with_assistant generate_business_summary generate_recommendations
      generate_customer_insights stream_chat_with_assistant
  run_call-Spends b now (chat texts message) s =
      elim (result-cases (check_usage_limit b metric 100 now s.metering)) [
        | inl (x, h) ↦ rw h (inl refl)
        | inr (tt, h) ↦ rw h (
            answer-Spends "chat" b now 100 (record texts { prompt = user_message g b now message })
              _ s h (λ reply tokens e. call_gemini-within _ _ _ reply tokens e))
      ]
  run_call-Spends b now (summary texts) s =
      elim (result-cases (check_usage_limit b metric 500 now s.metering)) [
        | inl (x, h) ↦ rw h (inl refl)
        | inr (tt, h) ↦ rw h (
            answer-Spends "summary" b now 500 texts _ s h
              (λ reply tokens e. call_gemini-within _ _ _ reply tokens e))
      ]
  run_call-Spends b now (recommendations mock parse texts) s =
      elim (result-cases (check_usage_limit b metric 300 now s.metering)) [
        | inl (x, h) ↦ rw h (inl refl)
        | inr (tt, h) ↦ rw h (
            recommend-Spends b now mock texts parse _ s h
              (λ reply tokens e. call_gemini-within _ _ _ reply tokens e))
      ]
  run_call-Spends b now (insights texts i customers orders) s =
      elim (result-cases (check_usage_limit b metric 300 now s.metering)) [
        | inl (x, h) ↦ rw h (inl refl)
        | inr (tt, h) ↦
            elim (result-cases
              (get_one_by (λ (c : Customer). has_id i c && c.business_id == b) customers)) [
                | inl (x, k) ↦ rw (h, k) (inl refl)
                | inr (none, k) ↦ rw (h, k) (inl refl)
                | inr (some c, k) ↦
                    rw (h, k)
                      (answer-Spends "customer_insights" b now 300
                        (insight_texts g b now texts i c orders) _ s h
                        (λ reply tokens e. call_gemini-within _ _ _ reply tokens e))
              ]
      ]
  run_call-Spends b now (stream instruction message) s =
      elim (result-cases (check_usage_limit b metric 100 now s.metering)) [
        | inl (x, h) ↦ rw h (inl refl)
        | inr (tt, h) ↦ elim (Bool-cases g.is_keyed) [
          | inl k ↦
              rw (h, k)
                (finish_stream-Spends b now (user_message g b now message) instruction message s h)
          | inr k ↦ rw (h, k) (inl refl)
        ]
      ]

  -- The meters are valid, and no month's tokens of the business exceed the tier's limit by more than
  -- one answer.
  pub record Metered (b : Uuid) (limit : ℕ) (db : MeterTables) : Type 0 where
    pub is_valid : IsValid db.meters
    pub tier : tier_limit (get_business_tier b db.subscriptions) metric ≡ some limit
    pub within : Within b metric (limit + most) db.meters

  Spends-Metered :
      (b b' : Uuid) (limit : ℕ) (now : DateTime) (db db' : MeterTables)
      → IsTime now
      → Spends b' now db db'
      → Metered b limit db
      → Metered b limit db'
  Spends-Metered b b' limit now db db' time (inl same) m = rw same m
  Spends-Metered b b' limit now db db' time (inr (amount, tokens, checked, few, counted)) m =
      rw counted (record {
        is_valid = increment_usage-IsValid b' metric tokens now db m.is_valid;
        tier = unfold increment_usage in m.tier;
        within = elim (Bool-cases (b' == b)) [
          | inr apart ↦
              increment_usage-Within_other b b' metric (limit + most) tokens now db apart m.within
          | inl e ↦
              let same : b' ≡ b = (nat_beq_iff b' b).0 e in
              let (u, now_u, room) =
                check_usage_limit-room b metric limit amount now db m.tier (rw same at checked) in
              rw same (
                increment_usage-Within_room b metric (limit + most) tokens u now db m.is_valid time
                  now_u (omega arith) m.within)
        ];
      })

  -- If the meters are valid, no answer of the model counts more than `most` tokens, and no month's
  -- tokens of a business exceed its tier's limit by more than `most`, then the same holds after any
  -- sequence of calls of the assistant, of any businesses and kinds, one after the other.
  pub run_calls-Metered :
      {R : Type 0} (b : Uuid) (limit : ℕ) (rs : List (Request R)) (s : AiState)
      → All (λ r. IsTime r.now) rs
      → Metered b limit s.metering
      → Metered b limit (run_calls g rs s).metering
  unfolding run_calls
  run_calls-Metered b limit [] s times m = m
  run_calls-Metered b limit (r ∷ rs) s (time, times) m =
      run_calls-Metered b limit rs (run_call g r s) times (
        Spends-Metered b r.business_id limit r.now s.metering (run_call g r s).metering time
          (run_call-Spends r.business_id r.now r.call s) m)
