-- ===== src/Provider/Chat/Usage.antt =====
-- The usage that a chat reports, the estimate of tokens and the headers, against the rest of the program
-- (internal/provider/openai.go, anthropic.go, cohere.go; internal/proxy/smartrouter.go, backend.go).
use kortex.Common.{◌≡◌, refl, sym, ap, ◌∙◌, String, false, [], Result, ok, err}
use kortex.Common.Text.{is_empty, fold_eq}
use kortex.Common.Utf8.{bytes, field_count}
use kortex.Http.{header_get, header_set, header_del}
use kortex.Backend.Target.{set_api_key}
use kortex.SmartRouter.{estimate_tokens_from_text}
use kortex.Provider.{
  TokenUsage, ChatRequest, ChatResponse, Provider, openai, anthropic, cohere, get_auth_header,
  provider_name,
}
use kortex.Provider.Chat.{
  Wire, decode, decoded, usage_or_none, openai_usage, anthropic_usage, cohere_usage,
  openai_response, anthropic_response, cohere_response, openai_chat, anthropic_chat, cohere_chat,
  chat, provider_usage, words_and_chars, estimate_tokens,
}

-- A response, where there is one, reports the usage that is found in its raw body.
abbrev pub Reported : (String → TokenUsage) → Result String ChatResponse → Type 0
Reported usage (err e) = Unit
Reported usage (ok r) = r.usage ≡ usage r.raw

decode-Reported :
    {R : Type 0} (unmarshal : String → Result String R) (respond : String → R → ChatResponse)
    (usage : R → TokenUsage) (body : String) (found : Result String R)
    → found ≡ unmarshal body
    → ((b : String) (r : R) → ((respond b r).usage ≡ usage r) × ((respond b r).raw ≡ b))
    → Reported (λ b. usage_or_none usage (unmarshal b)) (decode (respond body) found)
unfolding decode usage_or_none
decode-Reported unmarshal respond usage body (err e) is_found faithful = tt
decode-Reported unmarshal respond usage body (ok r) is_found faithful =
    (faithful body r).0
    ∙ ap (usage_or_none usage) is_found
    ∙ ap (λ b. usage_or_none usage (unmarshal b)) (sym (faithful body r).1)

decoded-Reported :
    {R : Type 0} (unmarshal : String → Result String R) (respond : String → R → ChatResponse)
    (usage : R → TokenUsage) (answer : Result String String)
    → ((body : String) (r : R) → ((respond body r).usage ≡ usage r) × ((respond body r).raw ≡ body))
    → Reported (λ body. usage_or_none usage (unmarshal body)) (decoded unmarshal respond answer)
unfolding decoded
decoded-Reported unmarshal respond usage (err e) faithful = tt
decoded-Reported unmarshal respond usage (ok body) faithful =
    decode-Reported unmarshal respond usage body (unmarshal body) refl faithful

module _ (w : Wire) where
  -- The usage that a chat reports is the one that `ParseTokenUsage` finds in the raw response, for every
  -- provider and whatever the client and the decoder do.
  pub chat-Reported :
      (p : Provider) (req : ChatRequest w.Float) → Reported (provider_usage w p) (chat w p req)
  unfolding chat provider_usage openai_chat anthropic_chat cohere_chat openai_response
      anthropic_response cohere_response
  chat-Reported (openai a) req =
      decoded-Reported w.unmarshal_openai openai_response openai_usage _ (λ body r. (refl, refl))
  chat-Reported (anthropic a) req =
      decoded-Reported w.unmarshal_anthropic anthropic_response anthropic_usage _
        (λ body r. (refl, refl))
  chat-Reported (cohere a) req =
      decoded-Reported w.unmarshal_cohere (cohere_response req.model) cohere_usage _
        (λ body r. (refl, refl))

-- Every provider estimates the tokens of a text as the smart router does.
pub estimate_tokens-smart_router :
    (p : Provider) (text : String) → estimate_tokens p text ≡ estimate_tokens_from_text text
unfolding estimate_tokens words_and_chars estimate_tokens_from_text is_empty bytes field_count
estimate_tokens-smart_router (openai a) String.[] = refl
estimate_tokens-smart_router (openai a) (String.◌∷◌ c s) = refl
estimate_tokens-smart_router (anthropic a) String.[] = refl
estimate_tokens-smart_router (anthropic a) (String.◌∷◌ c s) = refl
estimate_tokens-smart_router (cohere a) String.[] = refl
estimate_tokens-smart_router (cohere a) (String.◌∷◌ c s) = refl

-- Except for the content type, the headers of a provider are those that the proxy adds to the
-- requests of a backend of that provider.
pub get_auth_header-set_api_key :
    (p : Provider) (key name : String)
    → fold_eq "Content-Type" name ≡ false
    → header_get name (get_auth_header p key)
      ≡ header_get name (set_api_key (provider_name p) key [])
unfolding get_auth_header set_api_key provider_name header_get header_set header_del is_empty
    fold_eq
get_auth_header-set_api_key (openai a) key name other = rw other refl
get_auth_header-set_api_key (anthropic a) key name other = rw other refl
get_auth_header-set_api_key (cohere a) key name other = rw other refl
