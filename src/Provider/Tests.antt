-- ===== src/Provider/Tests.antt =====
-- The theorems on the providers at concrete chats (internal/provider).
use kortex.Common.{
  ◌≡◌, ◌↔◌, refl, ℕ, String, false, Option, none, some, List, [], ◌∷◌, In, Result, ok, err,
}
use kortex.Common.Int.{ℤ, pos, beq_ℤ}
use kortex.Provider.{
  ChatRequest, default_provider_config, new_openai, new_cohere, new_registry, get_provider,
  list_providers,
}
use kortex.Provider.Chat.{Wire, provider_usage, estimate_tokens, cohere_request}
use kortex.Provider.Chat.Conversations.{
  conversation, swapped, Round, cohere_says, cohere_request-swapped,
}
use kortex.Provider.Registering.{register_all, last_named, IsRegistered, get_provider-register_all}

-- Every answer is found, with three tokens in and four out.
abbrev wire : Wire
wire = record {
  Float = ℕ;
  marshal_openai = λ r. ok "";
  marshal_anthropic = λ r. ok "";
  marshal_cohere = λ r. ok "";
  request_error = λ url body. none;
  send = λ url header body. ok (200, ok "{}");
  unmarshal_openai = λ body. ok (record {
    id = "1";
    model = "gpt";
    choices = [];
    prompt_tokens = pos 3;
    completion_tokens = pos 4;
    total_tokens = pos 7;
  });
  unmarshal_anthropic = λ body. ok (record {
    id = "1";
    model = "claude";
    content = [];
    input_tokens = pos 3;
    output_tokens = pos 4;
  });
  unmarshal_cohere = λ body. ok (record {
    response_id = "1";
    text = "";
    billed_input_tokens = pos 0;
    billed_output_tokens = pos 4;
    input_tokens = pos 3;
    output_tokens = pos 9;
  });
}

abbrev chat_rounds : List Round
chat_rounds = ("one?", "one!") ∷ ("two?", "two!") ∷ []

abbrev request : ChatRequest ℕ
request = record {
  model = "command";
  messages = conversation chat_rounds "three?";
  max_tokens = pos 0;
  temperature = 0;
  top_p = 1;
  stream = false;
}

-- Billed tokens that are zero give way to the other_messages.
cohere_usage_test :
    provider_usage wire (new_cohere default_provider_config) "{}"
    ≡ record { input_tokens = pos 3; output_tokens = pos 4; total_tokens = pos 7 }
unfolding provider_usage new_cohere kortex.Common.Int.◌+ℤ◌
cohere_usage_test = refl

cohere_request-swapped_example :
    ((cohere_request wire request).message ≡ "three?")
    × ((cohere_request wire request).chat_history ≡ swapped chat_rounds)
unfolding kortex.Common.Text.is_empty
cohere_request-swapped_example =
    cohere_request-swapped wire request chat_rounds "three?" refl (refl, (refl, tt))

swapped_test :
    swapped chat_rounds
    ≡ cohere_says "CHATBOT" "one!"
      ∷ cohere_says "USER" "one?"
      ∷ cohere_says "CHATBOT" "two!"
      ∷ cohere_says "USER" "two?"
      ∷ []
unfolding swapped
swapped_test = refl

get_provider-register_all_example :
    (get_provider "cohere" (register_all (new_cohere default_provider_config ∷ []) new_registry)
      ≡ last_named "cohere" (new_cohere default_provider_config ∷ []) none)
    × (In "cohere"
          (list_providers (register_all (new_cohere default_provider_config ∷ []) new_registry))
        ↔ IsRegistered "cohere"
            (register_all (new_cohere default_provider_config ∷ []) new_registry))
get_provider-register_all_example =
    get_provider-register_all "cohere" (new_cohere default_provider_config ∷ [])

estimate_test : estimate_tokens (new_openai default_provider_config) "to be or not" ≡ 4
unfolding estimate_tokens new_openai kortex.Common.Utf8.field_count kortex.Common.Utf8.bytes
estimate_test = refl
