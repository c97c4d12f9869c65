-- ===== src/Provider/Chat.antt =====
-- `Chat`, `ParseTokenUsage` and `EstimateTokens` of the three providers (internal/provider/openai.go,
-- anthropic.go and cohere.go). JSON and the HTTP client are a parameter, `Wire`.
pub mod Conversations
pub mod Usage
use kortex.Common.{
  ℕ, ◌+◌, ◌*◌, ◌/◌, String, ◌==◌, string_eq, Option, none, some, List, [], ◌∷◌, ◌++◌, length,
  nat_beq, if◌then◌else◌, Result, ok, err,
}
use kortex.Common.Int.{ℤ, pos, ◌+ℤ◌, beq_ℤ, wrap64}
use kortex.Common.Text.{◌<>◌, is_empty, decimal}
use kortex.Common.Utf8.{bytes, field_count}
use kortex.Http.{Header}
use kortex.Provider.{
  TokenUsage, no_usage, ChatMessage, ChatRequest, ChatResponse, CohereMessage, CohereRequest,
  AnthropicRequest, OpenAiResponse, AnthropicContent, AnthropicResponse, CohereResponse, Provider,
  openai, anthropic, cohere, Account, get_auth_header,
}

-- What is used of encoding/json and net/http: the texts of the requests, the error of a request
-- that cannot be made, the status and the body of an answer (whose reading may fail), and the
-- structs of the responses. An OpenAI request has the fields of `ChatRequest`.
pub record Wire : Type 1 where
  pub Float : Type 0
  pub marshal_openai : ChatRequest Float → Result String String
  pub marshal_anthropic : AnthropicRequest → Result String String
  pub marshal_cohere : CohereRequest Float → Result String String
  pub request_error : (url body : String) → Option String
  pub send : (url : String) → Header → (body : String) → Result String (ℕ × Result String String)
  pub unmarshal_openai : String → Result String OpenAiResponse
  pub unmarshal_anthropic : String → Result String AnthropicResponse
  pub unmarshal_cohere : String → Result String CohereResponse

read_body : ℕ × Result String String → Result String String
read_body (status, err e) = err ("failed to read response: " <> e)
read_body (status, ok body) =
    if nat_beq status 200
    then ok body
    else err ("API error (status " <> decimal status <> "): " <> body)

read_answer : Result String (ℕ × Result String String) → Result String String
unfolding read_body
read_answer (err e) = err ("request failed: " <> e)
read_answer (ok answer) = read_body answer

requested : Option String → Result String (ℕ × Result String String) → Result String String
unfolding read_answer
requested (some e) answer = err ("failed to create request: " <> e)
requested none answer = read_answer answer

module _ (w : Wire) where
  -- From the text of a request to that of the answer.
  unfoldable pub exchange : (url : String) → Header → Result String String → Result String String
  unfolding requested
  exchange url header (err e) = err ("failed to marshal request: " <> e)
  exchange url header (ok body) = requested (w.request_error url body) (w.send url header body)

decode : {R : Type 0} → (R → ChatResponse) → Result String R → Result String ChatResponse
decode respond (err e) = err ("failed to unmarshal response: " <> e)
decode respond (ok r) = ok (respond r)

unfoldable pub decoded :
    {R : Type 0}
    → (String → Result String R)
    → (String → R → ChatResponse)
    → Result String String
    → Result String ChatResponse
unfolding decode
decoded unmarshal respond (err e) = err e
decoded unmarshal respond (ok body) = decode (respond body) (unmarshal body)

usage_or_none : {R : Type 0} → (R → TokenUsage) → Result String R → TokenUsage
usage_or_none usage (err e) = no_usage
usage_or_none usage (ok r) = usage r

first_choice : List ChatMessage → ChatMessage
first_choice [] = record { role = ""; content = "" }
first_choice (m ∷ ms) = m

openai_usage : OpenAiResponse → TokenUsage
openai_usage r = record {
  input_tokens = r.prompt_tokens;
  output_tokens = r.completion_tokens;
  total_tokens = r.total_tokens;
}

unfoldable pub openai_response : String → OpenAiResponse → ChatResponse
unfolding first_choice openai_usage
openai_response body r = record {
  id = r.id;
  model = r.model;
  message = first_choice r.choices;
  usage = openai_usage r;
  raw = body;
}

-- The system message and the other messages, behind the loop over the messages.
pub record AnthropicSplit : Type 0 where
  pub system : String
  pub messages : List ChatMessage

anthropic_step : ChatMessage → AnthropicSplit → AnthropicSplit
anthropic_step m split =
    if m.role == "system"
    then record split { system = m.content }
    else record split { messages = split.messages ++ m ∷ [] }

unfoldable pub anthropic_split : List ChatMessage → AnthropicSplit → AnthropicSplit
unfolding anthropic_step
anthropic_split [] split = split
anthropic_split (m ∷ ms) split = anthropic_split ms (anthropic_step m split)

anthropic_usage : AnthropicResponse → TokenUsage
anthropic_usage r = record {
  input_tokens = r.input_tokens;
  output_tokens = r.output_tokens;
  total_tokens = wrap64 (r.input_tokens +ℤ r.output_tokens);
}

text_of : List AnthropicContent → String
text_of [] = ""
text_of (c ∷ cs) = let rest = text_of cs in if c.kind == "text" then c.text <> rest else rest

unfoldable pub anthropic_response : String → AnthropicResponse → ChatResponse
unfolding text_of anthropic_usage
anthropic_response body r = record {
  id = r.id;
  model = r.model;
  message = record { role = "assistant"; content = text_of r.content };
  usage = anthropic_usage r;
  raw = body;
}

-- What the loop over the messages has made of them: the history, the preamble and the message of
-- the user that was seen last.
pub record CohereSplit : Type 0 where
  pub history : List CohereMessage
  pub preamble : String
  pub last_user : String

keep_user : String → List CohereMessage → List CohereMessage
keep_user last_user history =
    if is_empty last_user
    then history
    else history ++ record { role = "USER"; message = last_user } ∷ []

unfoldable pub cohere_step : ChatMessage → CohereSplit → CohereSplit
unfolding keep_user
cohere_step m split =
    if m.role == "system"
    then record split { preamble = m.content }
    else if m.role == "user"
    then record split { history = keep_user split.last_user split.history; last_user = m.content }
    else if m.role == "assistant"
    then record split {
      history = split.history ++ record { role = "CHATBOT"; message = m.content } ∷ [];
    }
    else split

unfoldable pub cohere_split : List ChatMessage → CohereSplit → CohereSplit
cohere_split [] split = split
cohere_split (m ∷ ms) split = cohere_split ms (cohere_step m split)

abbrev pub no_split : CohereSplit
no_split = record { history = []; preamble = ""; last_user = "" }

or_else : ℤ → ℤ → ℤ
or_else a b = if beq_ℤ a (pos 0) then b else a

cohere_usage : CohereResponse → TokenUsage
unfolding or_else
cohere_usage r =
    let input = or_else r.billed_input_tokens r.input_tokens in
    let output = or_else r.billed_output_tokens r.output_tokens in
    record { input_tokens = input; output_tokens = output; total_tokens = wrap64 (input +ℤ output) }

unfoldable pub cohere_response : (model : String) → String → CohereResponse → ChatResponse
unfolding cohere_usage
cohere_response model body r = record {
  id = r.response_id;
  model = model;
  message = record { role = "assistant"; content = r.text };
  usage = cohere_usage r;
  raw = body;
}

module _ (w : Wire) where
  open w use {
    Float, marshal_openai, marshal_anthropic, marshal_cohere, unmarshal_openai, unmarshal_anthropic,
    unmarshal_cohere,
  }

  unfoldable pub openai_chat : Account → ChatRequest Float → Result String ChatResponse
  openai_chat a req = decoded unmarshal_openai openai_response (
      exchange w (a.base_url <> "/chat/completions") (get_auth_header (openai a) a.api_key)
        (marshal_openai req))

  unfoldable pub anthropic_request : ChatRequest Float → AnthropicRequest
  anthropic_request req =
      let split = anthropic_split req.messages (record { system = ""; messages = [] }) in
      record {
        model = req.model;
        max_tokens = if beq_ℤ req.max_tokens (pos 0) then pos 4096 else req.max_tokens;
        messages = split.messages;
        system = split.system;
        stream = req.stream;
      }

  unfoldable pub anthropic_chat : Account → ChatRequest Float → Result String ChatResponse
  anthropic_chat a req = decoded unmarshal_anthropic anthropic_response (
      exchange w (a.base_url <> "/v1/messages") (get_auth_header (anthropic a) a.api_key)
        (marshal_anthropic (anthropic_request req)))

  unfoldable pub cohere_request : ChatRequest Float → CohereRequest Float
  cohere_request req =
      let split = cohere_split req.messages no_split in
      record {
        model = req.model;
        message = split.last_user;
        chat_history = split.history;
        preamble = split.preamble;
        max_tokens = req.max_tokens;
        temperature = req.temperature;
        stream = req.stream;
      }

  unfoldable pub cohere_chat : Account → ChatRequest Float → Result String ChatResponse
  cohere_chat a req = decoded unmarshal_cohere (cohere_response req.model) (
      exchange w (a.base_url <> "/chat") (get_auth_header (cohere a) a.api_key)
        (marshal_cohere (cohere_request req)))

  -- `Chat`
  unfoldable pub chat : Provider → ChatRequest Float → Result String ChatResponse
  chat (openai a) req = openai_chat a req
  chat (anthropic a) req = anthropic_chat a req
  chat (cohere a) req = cohere_chat a req

  -- `ParseTokenUsage`
  unfoldable pub provider_usage : Provider → String → TokenUsage
  unfolding usage_or_none openai_usage anthropic_usage cohere_usage
  provider_usage (openai a) body = usage_or_none openai_usage (unmarshal_openai body)
  provider_usage (anthropic a) body = usage_or_none anthropic_usage (unmarshal_anthropic body)
  provider_usage (cohere a) body = usage_or_none cohere_usage (unmarshal_cohere body)

words_and_chars : String → ℕ
words_and_chars text = (field_count text * 13 / 10 + length (bytes text) / 4) / 2

-- `EstimateTokens`
unfoldable pub estimate_tokens : Provider → String → ℕ
unfolding words_and_chars
estimate_tokens (openai a) text = words_and_chars text
estimate_tokens (anthropic a) text = words_and_chars text
estimate_tokens (cohere a) text = words_and_chars text
