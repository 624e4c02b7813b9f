-- ===== src/Llm/Replies.antt =====
-- internal/llm/anthropic.go: where a reply of Chat comes from, and what is in it.
use mathlib.Core.List.{append-nil, append_assoc}
use kubeminds.Prelude.{◌≡◌, refl, sym, subst, ap, ◌∙◌, List, [], ◌∷◌, ◌++◌, map, inl, inr}
use kubeminds.Prelude.Bytes.{Str, lit, join}
use kubeminds.Prelude.Errors.{Fallible, ok, err, Fallible-cases, err_ne_ok, ok-injective}
use kubeminds.Agent.Types.{assistant, Message, ToolCall, Tool}
use kubeminds.Llm.Backoff.{attempts}
use kubeminds.Llm.Attempts.{attempts-FromServer}
use kubeminds.Llm.Turns.{read_param, turns, system_texts, split_messages-turns}
use kubeminds.Llm.Anthropic.{
  NewParams, ToolParam, ResponseBlock, text, tool_use, other, Anthropic, add_text, read_blocks,
  convert_response, as_it_is, call_with_retry, params_of, reply_of, send_params, anthropic_chat,
  convert_tools,
}

module _ {J : Type 0} where
  -- The texts of a response, and its calls.
  abbrev pub texts_of : List (ResponseBlock J) → List Str
  texts_of [] = []
  texts_of (text t ∷ bs) = t ∷ texts_of bs
  texts_of (tool_use _ _ _ ∷ bs) = texts_of bs
  texts_of (other ∷ bs) = texts_of bs

  abbrev pub calls_of : List (ResponseBlock J) → List (Str × Str × J)
  calls_of [] = []
  calls_of (text _ ∷ bs) = calls_of bs
  calls_of (tool_use id name input ∷ bs) = (id, name, input) ∷ calls_of bs
  calls_of (other ∷ bs) = calls_of bs

-- Without the empty texts at the start.
abbrev pub skip_empty : List Str → List Str
skip_empty [] = []
skip_empty ([] ∷ ts) = skip_empty ts
skip_empty ((b ∷ bs) ∷ ts) = (b ∷ bs) ∷ ts

module _ {J W : Type 0} (c : Anthropic J W) where
  -- The calls of a message are those of the blocks, with their inputs as JSON.
  abbrev pub Marshalled : List (Str × Str × J) → List ToolCall → Type 0
  Marshalled [] [] = Unit
  Marshalled [] (tc ∷ tcs) = ⊥
  Marshalled (u ∷ us) [] = ⊥
  Marshalled (u ∷ us) (tc ∷ tcs) =
      (tc.id ≡ u.0)
      × (tc.function.name ≡ u.1)
      × (c.marshal u.2 ≡ ok tc.function.arguments)
      × Marshalled us tcs

  -- One text more, behind the content so far.
  join-add_text :
      (content t : Str) (ts : List Str)
      → join (lit "\n") (skip_empty (add_text c content t ∷ ts))
        ≡ join (lit "\n") (skip_empty (content ∷ t ∷ ts))
  unfolding join
  join-add_text [] t ts = refl
  join-add_text (b ∷ bs) t [] = refl
  join-add_text (b ∷ bs) t (u ∷ ts) =
      ap (λ s. b ∷ s)
        (append_assoc bs (lit "\n" ++ t) _ ∙ ap (λ s. bs ++ s) (append_assoc (lit "\n") t _))

  -- What the loop makes of the blocks.
  record Read (content : Str) (calls : List ToolCall) (blocks : List (ResponseBlock J))
      (m : Message) : Type 0 where
    new : List ToolCall
    type : m.type ≡ assistant
    texts : m.content ≡ join (lit "\n") (skip_empty (content ∷ texts_of blocks))
    all_calls : m.tool_calls ≡ calls ++ new
    marshalled : Marshalled (calls_of blocks) new

  read_blocks-Read :
      (content : Str) (calls : List ToolCall) (blocks : List (ResponseBlock J)) (m : Message)
      → read_blocks c content calls blocks ≡ ok m
      → Read content calls blocks m
  unfolding read_blocks join
  read_blocks-Read content calls [] m e =
      let q = ok-injective e in
      record {
        new = [];
        type = sym (ap (λ n. n.type) q);
        texts = sym (ap (λ n. n.content) q) ∙ only content;
        all_calls = sym (ap (λ n. n.tool_calls) q) ∙ sym (append-nil calls);
        marshalled = tt;
      }
    where
      only : (content : Str) → content ≡ join (lit "\n") (skip_empty (content ∷ []))
      only [] = refl
      only (b ∷ bs) = refl
  read_blocks-Read content calls (text t ∷ bs) m e =
      let r = read_blocks-Read (add_text c content t) calls bs m e in
      record {
        new = r.new;
        type = r.type;
        texts = r.texts ∙ join-add_text content t (texts_of bs);
        all_calls = r.all_calls;
        marshalled = r.marshalled;
      }
  read_blocks-Read content calls (other ∷ bs) m e =
      let r = read_blocks-Read content calls bs m e in
      record {
        new = r.new;
        type = r.type;
        texts = r.texts;
        all_calls = r.all_calls;
        marshalled = r.marshalled;
      }
  read_blocks-Read content calls (tool_use id name input ∷ bs) m e =
      elim (Fallible-cases (c.marshal input)) [
        | inr (x, f) ↦ absurd (err_ne_ok (rw (f, read_blocks) at e))
        | inl (arguments, f) ↦
            let call : ToolCall = record {
              id = id;
              function = record { name = name; arguments = arguments };
            } in
            let r = read_blocks-Read content (calls ++ call ∷ []) bs m (rw (f, read_blocks) at e) in
            record {
              new = call ∷ r.new;
              type = r.type;
              texts = r.texts;
              all_calls = r.all_calls ∙ append_assoc calls (call ∷ []) r.new;
              marshalled = (refl, refl, f, r.marshalled);
            }
      ]

  -- The tools of a request are those on offer, in order, each with the parts of its schema.
  unfoldable pub Offers : List (Tool W) → List (ToolParam J) → Type 0
  Offers [] [] = Unit
  Offers [] (p ∷ ps) = ⊥
  Offers (t ∷ ts) [] = ⊥
  Offers (t ∷ ts) (p ∷ ps) =
      (p.name ≡ t.name)
      × (p.description ≡ t.description)
      × (c.unmarshal_schema t.schema ≡ ok (p.properties, p.required))
      × Offers ts ps

  convert_tools-Offers :
      (ts : List (Tool W)) (ps : List (ToolParam J)) → convert_tools c ts ≡ ok ps → Offers ts ps
  unfolding Offers convert_tools
  convert_tools-Offers [] [] e = tt
  convert_tools-Offers [] (p ∷ ps) e = cc
  convert_tools-Offers (t ∷ ts) ps e = elim (Fallible-cases (c.unmarshal_schema t.schema)) [
    | inr (x, f) ↦ absurd (err_ne_ok (rw (f, convert_tools) at e))
    | inl (schema, f) ↦ elim (Fallible-cases (convert_tools c ts)) [
      | inr (x, g) ↦ absurd (err_ne_ok (rw (f, g, convert_tools) at e))
      | inl (rest, g) ↦
          subst (Offers (t ∷ ts)) (ok-injective (rw (f, g, convert_tools) at e))
            (refl, refl, f, convert_tools-Offers ts rest g)
    ]
  ]

  -- Where a reply comes from.
  pub record IsReply (model : Str) (messages : List Message) (tools : List (Tool W))
      (reply : Message) : Type 0 where
    pub params : NewParams J
    pub asked : (params.model ≡ model) × (params.max_tokens ≡ 4096)
    pub says : map read_param params.messages ≡ turns c messages
    pub instructs : params.system ≡ system_texts c messages
    pub offers : Offers tools params.tools
    pub world : W
    pub blocks : List (ResponseBlock J)
    pub answered : (c.new_message params world).0 ≡ ok blocks
    pub by_assistant : reply.type ≡ assistant
    pub texts : reply.content ≡ join (lit "\n") (skip_empty (texts_of blocks))
    pub calls : Marshalled (calls_of blocks) reply.tool_calls

  reply_of-blocks :
      (r : Fallible (List (ResponseBlock J))) (reply : Message)
      → reply_of c r ≡ ok reply
      → (blocks : List (ResponseBlock J)) × (r ≡ ok blocks) × Read [] [] blocks reply
  unfolding convert_response
  reply_of-blocks (err x) reply e = absurd (err_ne_ok e)
  reply_of-blocks (ok blocks) reply e = (blocks, refl, read_blocks-Read [] [] blocks reply e)

  send_params-IsReply :
      (model : Str) (messages : List Message) (tools : List (Tool W))
      (r : Fallible (List (ToolParam J))) (w : W) (reply : Message)
      → convert_tools c tools ≡ r
      → (send_params c model messages r w).0 ≡ ok reply
      → IsReply model messages tools reply
  unfolding send_params call_with_retry
  send_params-IsReply model messages tools (err x) w reply o e = absurd (err_ne_ok e)
  send_params-IsReply model messages tools (ok params) w reply o e =
      let request = c.new_message (params_of c model messages params) in
      let (blocks, f, read) =
        reply_of-blocks (attempts request c.wait (as_it_is c) 2 0 w).0 reply e in
      let (world, answered) = attempts-FromServer request c.wait (as_it_is c) 2 0 w blocks f in
      record {
        params = params_of c model messages params;
        asked = (refl, refl);
        says = (split_messages-turns c messages).0;
        instructs = (split_messages-turns c messages).1;
        offers = convert_tools-Offers tools params o;
        world = world;
        blocks = blocks;
        answered = answered;
        by_assistant = read.type;
        texts = read.texts;
        calls = subst (Marshalled (calls_of blocks)) (sym read.all_calls) read.marshalled;
      }

-- A reply of Anthropic is the content of an answer to a request with the configured model and a limit
-- of 4096 tokens, from whose parameters the whole conversation can be read back, turn by turn, whose
-- system texts are those of the conversation, and which offers each tool with its description and its
-- decoded schema: its text is that of the text blocks, joined by line
-- ends but for empty ones at the start, and its tool calls are the tool-use blocks in order, with
-- their identifiers and names and with their inputs as JSON.
pub anthropic_chat-IsReply :
    {J W : Type 0} (c : Anthropic J W) (model : Str) (messages : List Message)
    (tools : List (Tool W)) (w : W) (reply : Message)
    → (anthropic_chat c model messages tools w).0 ≡ ok reply
    → IsReply c model messages tools reply
unfolding anthropic_chat
anthropic_chat-IsReply c model messages tools w reply e =
    send_params-IsReply c model messages tools (convert_tools c tools) w reply refl e
