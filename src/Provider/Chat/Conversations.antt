-- ===== src/Provider/Chat/Conversations.antt =====
-- How the messages of a chat are handed to Anthropic and to Cohere (internal/provider/anthropic.go and
-- cohere.go).
use kortex.Common.{
  ◌≡◌, refl, ap, ◌∙◌, String, ◌==◌, string_eq, false, List, [], ◌∷◌, ◌++◌, All, if◌then◌else◌,
  Bool-cases, inl, inr,
}
use kortex.Common.Int.{ℤ, pos, beq_ℤ}
use kortex.Common.Text.{is_empty}
use kortex.Provider.{ChatMessage, ChatRequest, CohereMessage}
use kortex.Provider.Chat.{
  Wire, AnthropicSplit, anthropic_step, anthropic_split, anthropic_request, CohereSplit,
  cohere_step, cohere_split, keep_user, no_split, cohere_request,
}

-- The messages that are not of the system, in their order.
unfoldable pub other_messages : List ChatMessage → List ChatMessage
other_messages [] = []
other_messages (m ∷ ms) = if m.role == "system" then other_messages ms else m ∷ other_messages ms

-- The content of the last system message, or what there was before.
unfoldable pub last_system : String → List ChatMessage → String
last_system before [] = before
last_system before (m ∷ ms) = last_system (if m.role == "system" then m.content else before) ms

limit_lem : (limit : ℤ) → beq_ℤ (if beq_ℤ limit (pos 0) then pos 4096 else limit) (pos 0) ≡ false
limit_lem limit = elim (Bool-cases (beq_ℤ limit (pos 0))) [
  | inl unset ↦ rw unset refl
  | inr set ↦ rw set set
]

append_nil : {A : Type 0} (xs : List A) → xs ≡ xs ++ []
append_nil [] = refl
append_nil (x ∷ xs) = ap (λ ys. x ∷ ys) (append_nil xs)

append_assoc : {A : Type 0} (xs ys zs : List A) → (xs ++ ys) ++ zs ≡ xs ++ (ys ++ zs)
append_assoc [] ys zs = refl
append_assoc (x ∷ xs) ys zs = ap (λ l. x ∷ l) (append_assoc xs ys zs)

anthropic_step_lem :
    (m : ChatMessage) (split : AnthropicSplit) (ms : List ChatMessage)
    → ((anthropic_step m split).system ≡ (if m.role == "system" then m.content else split.system))
      × ((anthropic_step m split).messages ++ other_messages ms
          ≡ split.messages ++ other_messages (m ∷ ms))
unfolding anthropic_step other_messages
anthropic_step_lem m split ms = elim (Bool-cases (m.role == "system")) [
  | inl system ↦ rw system (refl, refl)
  | inr other ↦ rw other (refl, append_assoc split.messages (m ∷ []) (other_messages ms))
]

anthropic_split_lem :
    (ms : List ChatMessage) (split : AnthropicSplit)
    → ((anthropic_split ms split).system ≡ last_system split.system ms)
      × ((anthropic_split ms split).messages ≡ split.messages ++ other_messages ms)
unfolding anthropic_split last_system other_messages
anthropic_split_lem [] split = (refl, append_nil split.messages)
anthropic_split_lem (m ∷ ms) split =
    let (system, messages) = anthropic_step_lem m split ms in
    let later = anthropic_split_lem ms (anthropic_step m split) in
    (later.0 ∙ ap (λ s. last_system s ms) system, later.1 ∙ messages)

-- Anthropic is sent the messages that are not of the system, in their order, the last system message
-- apart, and a limit on the tokens that is not zero.
pub anthropic_request_lem :
    (w : Wire) (req : ChatRequest w.Float)
    → ((anthropic_request w req).messages ≡ other_messages req.messages)
      × ((anthropic_request w req).system ≡ last_system "" req.messages)
      × (beq_ℤ (anthropic_request w req).max_tokens (pos 0) ≡ false)
unfolding anthropic_request
anthropic_request_lem w req =
    let (system, messages) =
      anthropic_split_lem req.messages (record { system = ""; messages = [] }) in
    (messages, system, limit_lem req.max_tokens)

-- One round of a conversation: what the user said and what the assistant answered.
abbrev pub Round : Type 0
Round = String × String

abbrev pub says : (role content : String) → ChatMessage
says role content = record { role = role; content = content }

-- The messages of some rounds and of a last question.
unfoldable pub conversation : List Round → (question : String) → List ChatMessage
conversation [] question = says "user" question ∷ []
conversation ((user, assistant) ∷ rounds) question =
    says "user" user ∷ says "assistant" assistant ∷ conversation rounds question

abbrev pub cohere_says : (role message : String) → CohereMessage
cohere_says role message = record { role = role; message = message }

-- The history with every answer before its question.
unfoldable pub swapped : List Round → List CohereMessage
swapped [] = []
swapped ((user, assistant) ∷ rounds) =
    cohere_says "CHATBOT" assistant ∷ cohere_says "USER" user ∷ swapped rounds

-- What is added to the history behind a question that is still out.
late : (pending : String) → List Round → List CohereMessage
late pending [] = cohere_says "USER" pending ∷ []
late pending ((user, assistant) ∷ rounds) =
    cohere_says "USER" pending ∷ cohere_says "CHATBOT" assistant ∷ late user rounds

-- Nothing that a user said is empty.
abbrev pub IsSaid : Round → Type 0
IsSaid round = is_empty round.0 ≡ false

late-swapped :
    (rounds : List Round) (user assistant : String)
    → cohere_says "CHATBOT" assistant ∷ late user rounds ≡ swapped ((user, assistant) ∷ rounds)
unfolding late swapped
late-swapped [] user assistant = refl
late-swapped ((u, a) ∷ rounds) user assistant =
    ap (λ rest. cohere_says "CHATBOT" assistant ∷ cohere_says "USER" user ∷ rest)
      (late-swapped rounds u a)

cohere_step-pending :
    (user : String) (split : CohereSplit)
    → is_empty split.last_user ≡ false
    → cohere_step (says "user" user) split ≡ record split {
      history = split.history ++ cohere_says "USER" split.last_user ∷ [];
      last_user = user;
    }
unfolding cohere_step keep_user
cohere_step-pending user split pending = rw pending refl

cohere_split-late :
    (rounds : List Round) (question : String) (split : CohereSplit)
    → All IsSaid rounds
    → is_empty split.last_user ≡ false
    → cohere_split (conversation rounds question) split ≡ record split {
      history = split.history ++ late split.last_user rounds;
      last_user = question;
    }
unfolding cohere_split conversation late cohere_step
cohere_split-late [] question split said pending = cohere_step-pending question split pending
cohere_split-late ((u, a) ∷ rounds) question split said pending =
    let h = split.history ++ cohere_says "USER" split.last_user ∷ [] in
    let h' = h ++ cohere_says "CHATBOT" a ∷ [] in
    ap (λ s. cohere_split (conversation rounds question) (cohere_step (says "assistant" a) s))
      (cohere_step-pending u split pending)
    ∙ cohere_split-late rounds question (record split { history = h'; last_user = u }) said.1 said.0
    ∙ ap (λ l. record split { history = l; last_user = question })
        (append_assoc h (cohere_says "CHATBOT" a ∷ []) (late u rounds)
          ∙ append_assoc split.history (cohere_says "USER" split.last_user ∷ [])
              (cohere_says "CHATBOT" a ∷ late u rounds))

cohere_split-swapped :
    (rounds : List Round) (question : String)
    → All IsSaid rounds
    → cohere_split (conversation rounds question) no_split
      ≡ record { history = swapped rounds; preamble = ""; last_user = question }
unfolding cohere_split conversation cohere_step keep_user is_empty swapped
cohere_split-swapped [] question said = refl
cohere_split-swapped ((u, a) ∷ rounds) question said =
    let first = cohere_says "CHATBOT" a ∷ [] in
    cohere_split-late rounds question (record no_split { history = first; last_user = u }) said.1
      said.0
    ∙ ap (λ l. record { history = l; preamble = ""; last_user = question })
        (late-swapped rounds u a)

-- Of a conversation in rounds of a question and an answer, where no question is empty, Cohere is sent
-- the last question as the message, and as the history every answer before the question that it
-- answers.
pub cohere_request-swapped :
    (w : Wire) (req : ChatRequest w.Float) (rounds : List Round) (question : String)
    → req.messages ≡ conversation rounds question
    → All IsSaid rounds
    → ((cohere_request w req).message ≡ question)
      × ((cohere_request w req).chat_history ≡ swapped rounds)
unfolding cohere_request
cohere_request-swapped w req rounds question is_conversation said =
    let split =
      ap (λ ms. cohere_split ms no_split) is_conversation
      ∙ cohere_split-swapped rounds question said in
    (ap (λ s. s.last_user) split, ap (λ s. s.history) split)
