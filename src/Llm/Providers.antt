-- ===== src/Llm/Providers.antt =====
-- internal/llm: the constructors of the three providers and the embedder. The libraries make a
-- client of a key and a URL, where an empty URL stands for their default.
use kubeminds.Prelude.{[], ◌∷◌, ◌++◌, List, if◌then◌else◌}
use kubeminds.Prelude.Bytes.{Str, lit, is_empty}
use kubeminds.Prelude.Errors.{Fallible, ok, err}
use kubeminds.Agent.Types.{LlmProvider}
use kubeminds.Llm.OpenAi.{Client, chat}
use kubeminds.Llm.Anthropic.{Anthropic, anthropic_chat}
use kubeminds.Llm.Router.{Builders}

-- The clients of the two libraries, and `%q`.
pub record Clients (J W : Type 0) : Type 0 where
  pub openai_client : Str → Str → Client W
  pub anthropic_client : Str → Str → Anthropic J W
  pub quote : Str → Str

-- `geminiCompatBaseURL`
abbrev pub gemini_compat_base_url : Str
gemini_compat_base_url = lit "https://generativelanguage.googleapis.com/v1beta/openai/"

module _ {J W : Type 0} (clients : Clients J W) where
  -- `NewOpenAIProvider`
  unfoldable pub new_openai_provider : Str → Str → Str → LlmProvider W
  new_openai_provider api_key model base_url = chat (clients.openai_client api_key base_url) model

  -- `NewGeminiProvider`
  unfoldable pub new_gemini_provider : Str → Str → Str → LlmProvider W
  new_gemini_provider api_key model base_url =
      new_openai_provider api_key model
        (if is_empty base_url then gemini_compat_base_url else base_url)

  -- `NewAnthropicProvider`
  unfoldable pub new_anthropic_provider : Str → Str → Str → LlmProvider W
  new_anthropic_provider api_key model base_url =
      anthropic_chat (clients.anthropic_client api_key base_url) model

  -- The providers that the factory builds.
  unfoldable pub shipped_builders : Builders W
  shipped_builders = record {
    openai = λ cfg. new_openai_provider cfg.api_key cfg.model cfg.base_url;
    gemini = λ cfg. new_gemini_provider cfg.api_key cfg.model cfg.base_url;
    anthropic = λ cfg. new_anthropic_provider cfg.api_key cfg.model cfg.base_url;
    quote = clients.quote;
  }

-- `Embed`, on the request for the embeddings of a text; `V` is the type of a vector.
abbrev pub first_embedding : {V : Type 0} → Fallible (List V) → Fallible V
first_embedding (err e) = err (lit "embedding: openai api error: " ++ e)
first_embedding (ok []) = err (lit "embedding: no embeddings returned by api")
first_embedding (ok (v ∷ vs)) = ok v

unfoldable pub embed : {V W : Type 0} → (Str → W → Fallible (List V) × W) → Str → W → Fallible V × W
embed create_embeddings text w =
    if is_empty text
    then (err (lit "embedding: input text must not be empty"), w)
    else (let (reply, w') = create_embeddings text w in (first_embedding reply, w'))
