-- ===== src/Ai.antt =====
-- `AIService` of app/modules/ai/service.py: the check of the usage, the call of the model, the log
-- and the count. Gemini, the vector store, JSON and the metrics that the texts are formatted from
-- are parameters.
pub mod Usage
use Prim.Native.String
use ops_pilot_be.Prelude.{
  ℕ, ◌+◌, ◌*◌, ◌/◌, Bool, Option, none, some, List, [], ◌∷◌, ◌++◌, String, Result, ok, err, ◌>>=◌,
  ◌>>◌, or_raise, if◌then◌else◌, ltb, length, filter, map, ◌==◌, ◌&&◌, string_eq, nat_eq,
}
use ops_pilot_be.Exceptions.{Error, value_error}
use ops_pilot_be.Repository.{Uuid, get_one_by, has_id}
use ops_pilot_be.Metering.{MeterTables, check_usage_limit, increment_usage}
use ops_pilot_be.Metering.Cycle.{DateTime}
use ops_pilot_be.Store.{Customer, Order, OrderStatus, customer_model, order_status_eq}

pub record AiLog : Type 0 where
  pub event_type : String
  pub prompt : String
  pub response : String
  pub tokens_used : ℕ
  pub business_id : Uuid

pub record AiState : Type 0 where
  pub metering : MeterTables
  pub logs : List AiLog

-- What the source formats from the metrics of the business: the instruction of the model, the prompt
-- and the answer of the fallback.
pub record Texts : Type 0 where
  pub system_instruction : String
  pub prompt : String
  pub mock : String

-- The chunks that a streamed answer has, and whether it raises after them.
pub record Stream : Type 0 where
  pub chunks : List String
  pub is_broken : Bool

pub record Gemini : Type 0 where
  -- the setting GEMINI_API_KEY is present
  pub is_keyed : Bool
  -- the answer and the tokens it used, of a prompt, an instruction and a model; `none`: it raises
  pub generate : String → String → String → Option (String × ℕ)
  pub generate_stream : String → String → Stream
  -- `len(text.split())`
  pub words : String → ℕ
  -- a line of the stream protocol, `0:` and the JSON of the text
  pub frame : String → String
  -- whether `store_memory` raises
  pub memory_fails : String → Bool

abbrev pub metric : String
metric = "ai_tokens"

abbrev pub create_log : Uuid → String → String → String → ℕ → AiState → AiState
create_log b event prompt response tokens s = record s {
  logs =
      s.logs
      ++ record {
        event_type = event;
        prompt = prompt;
        response = response;
        tokens_used = tokens;
        business_id = b;
      }
        ∷ [];
}

abbrev pub count_usage : Uuid → DateTime → ℕ → AiState → AiState
count_usage b now tokens s = record s { metering = increment_usage b metric tokens now s.metering }

-- `_call_gemini`, under its guard by the key; an exception is caught by the caller.
unfoldable pub call_gemini : Gemini → String → String → String → Option (String × ℕ)
call_gemini g prompt system_instruction model =
    if g.is_keyed then g.generate prompt system_instruction model else none

-- The log and the count of an answer, or the log of the fallback.
abbrev pub answer :
    String → Uuid → DateTime → Texts → Option (String × ℕ) → AiState → String × AiState
answer event b now texts none s = (texts.mock, create_log b event texts.prompt texts.mock 0 s)
answer event b now texts (some (reply, tokens)) s =
    (reply, count_usage b now tokens (create_log b event texts.prompt reply tokens s))

module _ (g : Gemini) (b : Uuid) (now : DateTime) where
  abbrev pub user_message : String → String
  user_message message = String.◌++◌ "User Message: " message

  unfoldable pub chat_with_assistant : Texts → String → AiState → Result Error (String × AiState)
  unfolding call_gemini
  chat_with_assistant texts message s = do
    check_usage_limit b metric 100 now s.metering
    let asked = record texts { prompt = user_message message }
    ok (
        answer "chat" b now asked
          (call_gemini g asked.prompt asked.system_instruction "gemini-1.5-flash") s)

  unfoldable pub generate_business_summary : Texts → AiState → Result Error (String × AiState)
  unfolding call_gemini
  generate_business_summary texts s = do
    check_usage_limit b metric 500 now s.metering
    ok (
        answer "summary" b now texts
          (call_gemini g texts.prompt texts.system_instruction "gemini-1.5-pro") s)

  -- An answer counts where it reads as a JSON list once the markdown is stripped: `parse` gives the
  -- text so stripped and the list. `mock` is the list of the fallback, and `texts.mock` its JSON.
  abbrev pub keep_list : {R : Type 0} → R → Texts → ℕ → Option (String × R) → AiState → R × AiState
  keep_list mock texts tokens none s =
      (mock, create_log b "recommendations" texts.prompt texts.mock 0 s)
  keep_list mock texts tokens (some (clean_reply, recs)) s = (
    recs,
    count_usage b now tokens (create_log b "recommendations" texts.prompt clean_reply tokens s),
  )

  abbrev pub recommend :
      {R : Type 0}
      → R
      → Texts
      → (String → Option (String × R))
      → Option (String × ℕ)
      → AiState
      → R × AiState
  recommend mock texts parse none s = keep_list mock texts 0 none s
  recommend mock texts parse (some (reply, tokens)) s = keep_list mock texts tokens (parse reply) s

  unfoldable pub generate_recommendations :
      {R : Type 0}
      → R
      → (String → Option (String × R))
      → Texts
      → AiState
      → Result Error (R × AiState)
  unfolding call_gemini
  generate_recommendations mock parse texts s = do
    check_usage_limit b metric 300 now s.metering
    ok (
        recommend mock texts parse
          (call_gemini g texts.prompt texts.system_instruction "gemini-1.5-flash") s)

  abbrev pub total_spent : List Order → ℕ
  total_spent [] = 0
  total_spent (o ∷ os) = o.total_amount + total_spent os

  abbrev pub completed_count : List Order → ℕ
  completed_count orders = length (filter (λ (o : Order). o.status == OrderStatus.completed) orders)

  -- Amounts are in cents.
  abbrev pub segment : List Order → String
  segment [] = "Cold Prospect"
  segment (o ∷ os) =
      if ltb 5000000 (total_spent (o ∷ os)) then "Active High-Value" else "Standard Active"

  -- `texts` formats the customer, the total spent, the number of orders, of those completed, and the
  -- segment.
  abbrev pub insight_texts :
      (Customer → ℕ → ℕ → ℕ → String → Texts) → Uuid → Customer → List Order → Texts
  insight_texts texts customer_id customer orders =
      let own = filter (λ (o : Order). o.customer_id == customer_id && o.business_id == b) orders in
      texts customer (total_spent own) (length own) (completed_count own) (segment own)

  unfoldable pub generate_customer_insights :
      (Customer → ℕ → ℕ → ℕ → String → Texts)
      → Uuid
      → List Customer
      → List Order
      → AiState
      → Result Error (String × AiState)
  unfolding call_gemini
  generate_customer_insights texts customer_id customers orders s = do
    check_usage_limit b metric 300 now s.metering
    found ← get_one_by (λ (c : Customer). has_id customer_id c && c.business_id == b) customers
    customer ← or_raise found (value_error "Customer not found or access is unauthorized.")
    let asked = insight_texts texts customer_id customer orders
    ok (
        answer "customer_insights" b now asked
          (call_gemini g asked.prompt asked.system_instruction "gemini-1.5-pro") s)

  abbrev pub mock_stream : String
  mock_stream = "Hello! I am your OpsPilot assistant. This is a mock fallback response."

  abbrev pub concat_chunks : List String → String
  concat_chunks [] = ""
  concat_chunks (c ∷ cs) = String.◌++◌ c (concat_chunks cs)

  -- `int(len(prompt.split()) + len(full_text.split()) * 1.5)`
  abbrev pub estimated_tokens : String → String → ℕ
  estimated_tokens prompt full_text = g.words prompt + g.words full_text * 3 / 2

  -- The fallback, after the lines that were sent already.
  abbrev pub fall_back : List String → String → AiState → List String × AiState
  fall_back sent prompt s =
      (sent ++ g.frame mock_stream ∷ [], create_log b "chat_stream" prompt mock_stream 0 s)

  abbrev pub finish_stream : String → String → Stream → AiState → List String × AiState
  finish_stream prompt message stream s =
      let sent = map g.frame stream.chunks in
      let full_text = concat_chunks stream.chunks in
      let logged = create_log b "chat_stream" prompt full_text 0 s in
      if stream.is_broken
      then fall_back sent prompt s
      else if g.memory_fails message
      then fall_back sent prompt logged
      else (sent, count_usage b now (estimated_tokens prompt full_text) logged)

  unfoldable pub stream_chat_with_assistant :
      String → String → AiState → Result Error (List String × AiState)
  stream_chat_with_assistant system_instruction message s = do
    check_usage_limit b metric 100 now s.metering
    let prompt = user_message message
    ok (
        if g.is_keyed
        then finish_stream prompt message (g.generate_stream prompt system_instruction) s
        else fall_back [] prompt s)
