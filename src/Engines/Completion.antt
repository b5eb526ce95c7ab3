-- ===== src/Engines/Completion.antt =====
-- engines/openai_adapter.py and chat_protocol.py: the accounting of a completion and the loop of
-- `OpenAICompletionEngine.stream` over the events. The JSON decoders, the length in UTF-8, the
-- output constraint and the deadline are parameters.
use fin_serve.Prelude.{
  ℕ, suc, ◌+◌, Bool, true, false, not, ◌&&◌, ◌||◌, Option, none, some, List, [], ◌∷◌, ◌++◌, ltb,
  nat_beq, is_some, if◌then◌else◌,
}
use fin_serve.Prelude.Result.{Result, ok, err, ◌>>=◌, ◌>>◌, raise_if}
use fin_serve.Engines.Events.{Text, EngineError, Yields, emit, raising}

-- "stop" and "length"
pub data FinishReason : Type 0 where
  stop max_length : FinishReason

pub record CompletionChoice : Type 0 where
  pub text : Text
  pub finish_reason : Option FinishReason

-- At most one choice; the usage is its token count.
pub record CompletionFrame : Type 0 where
  pub choice : Option CompletionChoice
  pub usage : Option ℕ

pub record ChatChoice : Type 0 where
  pub content : Option Text
  pub finish_reason : Option FinishReason

pub record ChatFrame : Type 0 where
  pub choice : Option ChatChoice
  pub usage : Option ℕ

pub record CompletionState : Type 0 where
  pub maximum_tokens : ℕ
  pub finish_reason : Option FinishReason
  pub completion_tokens : Option ℕ
  pub visible_text : Bool

abbrev pub fresh : ℕ → CompletionState
fresh maximum_tokens = record {
  maximum_tokens = maximum_tokens;
  finish_reason = none;
  completion_tokens = none;
  visible_text = false;
}

pub record EngineToken : Type 0 where
  pub text : Text
  pub generated_tokens : ℕ
  pub finish_reason : Option FinishReason

-- `bool(text)`
abbrev pub is_visible : Text → Bool
is_visible [] = false
is_visible (c ∷ cs) = true

abbrev pub take_choice :
    Option CompletionChoice → CompletionState → Result EngineError (Text × CompletionState)
take_choice none s = ok ([], s)
take_choice (some choice) s =
    if is_some s.finish_reason
    then err EngineError.protocol
    else ok (
      choice.text,
      record s {
        visible_text = s.visible_text || is_visible choice.text;
        finish_reason = choice.finish_reason;
      },
    )

abbrev pub take_usage : Option ℕ → CompletionState → Result EngineError CompletionState
take_usage none s = ok s
take_usage (some count) s =
    if not (is_some s.finish_reason)
      || ltb s.maximum_tokens count
      || (s.visible_text && nat_beq count 0)
    then err EngineError.protocol
    else ok (record s { completion_tokens = some count })

unfoldable pub consume_frame :
    CompletionFrame → CompletionState → Result EngineError (Text × CompletionState)
consume_frame frame s = do
  raise_if (is_some s.completion_tokens) EngineError.protocol
  (text, s1) ← take_choice frame.choice s
  s2 ← take_usage frame.usage s1
  ok (text, s2)

-- `content or ""`
abbrev pub or_empty : Option Text → Text
or_empty none = []
or_empty (some text) = text

abbrev pub translated_choice : Option ChatChoice → Option CompletionChoice
translated_choice none = none
translated_choice (some c) =
    some (record { text = or_empty c.content; finish_reason = c.finish_reason })

-- The frame that `ChatState.consume` hands on; that its JSON decodes to itself is left out.
unfoldable pub translated : ChatFrame → CompletionFrame
translated frame = record { choice = translated_choice frame.choice; usage = frame.usage }

-- The decoder of a prompt's events or of a chat's; `none` is a failed validation.
pub data Protocol : Type 0 where
  prompt : (Text → Option CompletionFrame) → Protocol
  chat : (Text → Option ChatFrame) → Protocol

abbrev pub consume_or_invalid :
    Option CompletionFrame → CompletionState → Result EngineError (Text × CompletionState)
consume_or_invalid none s = err EngineError.protocol
consume_or_invalid (some frame) s = consume_frame frame s

abbrev pub translated_or_none : Option ChatFrame → Option CompletionFrame
translated_or_none none = none
translated_or_none (some frame) = some (translated frame)

unfoldable pub consume :
    Protocol → Text → CompletionState → Result EngineError (Text × CompletionState)
consume (Protocol.prompt decode) event s = consume_or_invalid (decode event) s
consume (Protocol.chat decode) event s = consume_or_invalid (translated_or_none (decode event)) s

abbrev pub token_of : Option FinishReason → Option ℕ → Result EngineError EngineToken
token_of (some reason) (some count) =
    ok (record { text = []; generated_tokens = count; finish_reason = some reason })
token_of _ _ = err EngineError.protocol

unfoldable pub final_token : CompletionState → Result EngineError EngineToken
final_token s = token_of s.finish_reason s.completion_tokens

abbrev pub maximum_constrained_bytes : ℕ
maximum_constrained_bytes = 131072

-- What the request's output constraint accepts, and the length of a text in UTF-8.
pub record Constraint : Type 0 where
  pub accepts : Text → Bool
  pub utf8_length : Text → ℕ

-- `constrained_text`, joined, and `constrained_bytes`
pub record Held : Type 0 where
  pub text : Text
  pub bytes : ℕ

abbrev pub hold : Option Constraint → Text → Held → Result EngineError Held
hold none text h = ok h
hold (some c) text h =
    if ltb maximum_constrained_bytes (h.bytes + c.utf8_length text)
    then err EngineError.protocol
    else ok (record { text = h.text ++ text; bytes = h.bytes + c.utf8_length text })

abbrev pub is_accepted : Option Constraint → Held → Bool
is_accepted none h = true
is_accepted (some c) h = c.accepts h.text

abbrev pub text_beq : Text → Text → Bool
text_beq [] [] = true
text_beq (a ∷ as_) (b ∷ bs) = nat_beq a b && text_beq as_ bs
text_beq _ _ = false

-- The text of the last event.
abbrev pub done : Text
done = b'[' ∷ b'D' ∷ b'O' ∷ b'N' ∷ b'E' ∷ b']' ∷ []

abbrev pub visible_token : Text → EngineToken
visible_token text = record { text = text; generated_tokens = 0; finish_reason = none }

abbrev pub last_token : Result EngineError EngineToken → Yields EngineToken
last_token (ok token) = record { items = token ∷ []; end = ok tt }
last_token (err e) = raising e

-- At the end of the events: they raised, or did not send DONE.
abbrev pub ended : Result EngineError (Unit {0}) → Yields EngineToken
ended (ok u) = raising EngineError.protocol
ended (err e) = raising e

abbrev pub on_held :
    Result EngineError Held → Text → (Held → Yields EngineToken) → Yields EngineToken
on_held (err e) text next = raising e
on_held (ok h) text next = emit (visible_token text) (next h)

abbrev pub on_text :
    Bool → Option Constraint → Text → Held → (Held → Yields EngineToken) → Yields EngineToken
on_text false c text h next = next h
on_text true c text h next = on_held (hold c text h) text next

abbrev pub on_consumed :
    Result EngineError (Text × CompletionState)
    → Option Constraint
    → Held
    → (CompletionState → Held → Yields EngineToken)
    → Yields EngineToken
on_consumed (err e) c h next = raising e
on_consumed (ok (text, s)) c h next = on_text (is_visible text) c text h (next s)

abbrev pub on_done : Bool → Result EngineError EngineToken → Yields EngineToken
on_done true token = last_token token
on_done false token = raising EngineError.protocol

-- One turn of the loop, with the rest of it `next`.
abbrev pub on_event :
    Bool
    → Bool
    → Option Constraint
    → CompletionState
    → Held
    → Result EngineError (Text × CompletionState)
    → (CompletionState → Held → Yields EngineToken)
    → Yields EngineToken
on_event true is_done c s h consumed next = raising EngineError.timeout
on_event false true c s h consumed next = on_done (is_accepted c h) (final_token s)
on_event false false c s h consumed next = on_consumed consumed c h next

-- The loop of `stream`: `late k` says that the deadline passes before the event after `k` others.
unfoldable pub stream_events :
    Protocol
    → Option Constraint
    → (ℕ → Bool)
    → ℕ
    → CompletionState
    → Held
    → List Text
    → Result EngineError (Unit {0})
    → Yields EngineToken
stream_events p c late k s h [] end = if late k then raising EngineError.timeout else ended end
stream_events p c late k s h (event ∷ events) end =
    on_event (late k) (text_beq event done) c s h (consume p event s)
      (λ s' h'. stream_events p c late (suc k) s' h' events end)

-- `stream`, from the events of a response whose status and media type were accepted.
unfoldable pub stream :
    Protocol → Option Constraint → (ℕ → Bool) → ℕ → Yields Text → Yields EngineToken
stream p c late max_tokens events =
    stream_events p c late 0 (fresh max_tokens) (record { text = []; bytes = 0 }) events.items
      events.end
