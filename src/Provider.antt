-- ===== src/Provider.antt =====
-- The provider abstraction (internal/provider): requests and responses of chats, the three providers
-- with their JSON structs, and the registry (provider.go). Their methods stand in `Chat`. No other
-- package of the program calls them.
pub mod Chat
pub mod Registering
mod Tests
use kortex.Common.{
  ℕ, String, Bool, Option, none, some, List, [], ◌∷◌, Result, string_eq, ◌==◌, if◌then◌else◌,
}
use kortex.Common.Int.{ℤ, pos}
use kortex.Common.Dict.{lookup, insert}
use kortex.Common.Text.{◌<>◌, is_empty}
use kortex.Http.{Header, header_set}

pub record TokenUsage : Type 0 where
  pub input_tokens : ℤ
  pub output_tokens : ℤ
  pub total_tokens : ℤ

abbrev pub no_usage : TokenUsage
no_usage = record { input_tokens = pos 0; output_tokens = pos 0; total_tokens = pos 0 }

pub record ChatMessage : Type 0 where
  pub role : String
  pub content : String

pub record ChatResponse : Type 0 where
  pub id : String
  pub model : String
  pub message : ChatMessage
  pub usage : TokenUsage
  pub raw : String

-- The role is USER or CHATBOT.
pub record CohereMessage : Type 0 where
  pub role : String
  pub message : String

module _ (Float : Type 0) where
  pub record ChatRequest : Type 0 where
    pub model : String
    pub messages : List ChatMessage
    pub max_tokens : ℤ
    pub temperature : Float
    pub top_p : Float
    pub stream : Bool

  pub record CohereRequest : Type 0 where
    pub model : String
    pub message : String
    pub chat_history : List CohereMessage
    pub preamble : String
    pub max_tokens : ℤ
    pub temperature : Float
    pub stream : Bool

pub record AnthropicRequest : Type 0 where
  pub model : String
  pub max_tokens : ℤ
  pub messages : List ChatMessage
  pub system : String
  pub stream : Bool

-- The fields of the responses that the code reads.
pub record OpenAiResponse : Type 0 where
  pub id : String
  pub model : String
  pub choices : List ChatMessage
  pub prompt_tokens : ℤ
  pub completion_tokens : ℤ
  pub total_tokens : ℤ

-- `kind` is the type of a part of the content.
pub record AnthropicContent : Type 0 where
  pub kind : String
  pub text : String

pub record AnthropicResponse : Type 0 where
  pub id : String
  pub model : String
  pub content : List AnthropicContent
  pub input_tokens : ℤ
  pub output_tokens : ℤ

pub record CohereResponse : Type 0 where
  pub response_id : String
  pub text : String
  pub billed_input_tokens : ℤ
  pub billed_output_tokens : ℤ
  pub input_tokens : ℤ
  pub output_tokens : ℤ

pub record ProviderConfig : Type 0 where
  pub api_key : String
  pub base_url : String
  pub timeout : ℤ
  pub max_retries : ℤ

abbrev pub default_provider_config : ProviderConfig
default_provider_config = record {
  api_key = "";
  base_url = "";
  timeout = pos 120;
  max_retries = pos 3;
}

-- What the structs of the three providers hold.
pub record Account : Type 0 where
  pub api_key : String
  pub base_url : String

-- The implementations of the interface.
pub data Provider : Type 0 where
  openai anthropic cohere : Account → Provider

account_of : String → ProviderConfig → Account
account_of own config = record {
  api_key = config.api_key;
  base_url = if is_empty config.base_url then own else config.base_url;
}

unfoldable pub new_openai : ProviderConfig → Provider
unfolding account_of
new_openai config = openai (account_of "https://api.openai.com/v1" config)

unfoldable pub new_anthropic : ProviderConfig → Provider
unfolding account_of
new_anthropic config = anthropic (account_of "https://api.anthropic.com" config)

unfoldable pub new_cohere : ProviderConfig → Provider
unfolding account_of
new_cohere config = cohere (account_of "https://api.cohere.ai/v1" config)

-- `Name`
unfoldable pub provider_name : Provider → String
provider_name (openai a) = "openai"
provider_name (anthropic a) = "anthropic"
provider_name (cohere a) = "cohere"

unfoldable pub set_account_key : String → Provider → Provider
set_account_key key (openai a) = openai (record a { api_key = key })
set_account_key key (anthropic a) = anthropic (record a { api_key = key })
set_account_key key (cohere a) = cohere (record a { api_key = key })

unfoldable pub get_base_url : Provider → String
get_base_url (openai a) = a.base_url
get_base_url (anthropic a) = a.base_url
get_base_url (cohere a) = a.base_url

bearer_header : String → Header
bearer_header key =
    header_set "Content-Type" "application/json" (header_set "Authorization" ("Bearer " <> key) [])

unfoldable pub get_auth_header : Provider → String → Header
unfolding bearer_header
get_auth_header (openai a) key = bearer_header key
get_auth_header (cohere a) key = bearer_header key
get_auth_header (anthropic a) key =
    header_set "Content-Type" "application/json"
      (header_set "anthropic-version" "2023-06-01" (header_set "x-api-key" key []))

-- `Registry`, from names to providers.
abbrev pub Registry : Type 0
Registry = List (String × Provider)

unfoldable pub new_registry : Registry
new_registry = []

unfoldable pub register : Provider → Registry → Registry
register p r = insert (provider_name p) p r

unfoldable pub get_provider : String → Registry → Option Provider
get_provider name r = lookup name r

unfoldable pub list_providers : Registry → List String
list_providers [] = []
list_providers ((name, p) ∷ r) = name ∷ list_providers r
