-- ===== src/Engines/Accounting.antt =====
-- What a stream that ends with DONE has yielded, and the bytes that were read for it.
use mathlib.Core.Path.{subst, subst₂}
use fin_serve.Prelude.{
  ℕ, suc, ◌+◌, ◌≡◌, ◌≤◌, ◌<◌, refl, sym, ap, ◌∙◌, Bool, true, false, ◌||◌, Option, none, some, List,
  [], ◌∷◌, length, arith, if◌then◌else◌, is_some,
}
use fin_serve.Prelude.Result.{Result, ok, err, raise_if, ok_of_bind, if_ok}
use fin_serve.Engines.Events.{Text, EngineError, Yields, raising, bounded}
use fin_serve.Engines.Completion.{
  FinishReason, CompletionChoice, CompletionFrame, CompletionState, EngineToken, fresh, is_visible,
  take_choice, take_usage, consume_frame, consume_or_invalid, translated_or_none, Protocol, consume,
  token_of, final_token, Constraint, Held, hold, is_accepted, text_beq, done, visible_token,
  last_token, ended, stream_events, stream, on_held, on_text, on_consumed, on_done, on_event,
}

-- The chunks passed on, together.
abbrev pub total : List (List ℕ) → ℕ
total [] = 0
total (c ∷ cs) = length c + total cs

-- The bytes that `BoundedByteStream` passes on, added to those received before, never exceed the
-- maximum if those did not, whatever the source sends and however it ends.
pub bounded_total :
    (maximum received : ℕ) (chunks : List (List ℕ)) (end : Result EngineError (Unit {0}))
    → received ≤ maximum
    → received + total (bounded maximum received chunks end).items ≤ maximum
unfolding bounded
bounded_total maximum received [] end h = omega arith
bounded_total maximum received (c ∷ cs) end h =
    ground (arith, bounded_total maximum (received + length c) cs end)

-- The text tokens carry no count; the last token carries the engine's, which is at most the
-- request's and positive if any text was seen.
unfoldable pub Accounted : ℕ → Bool → List EngineToken → Type 0
Accounted maximum seen [] = ⊥
Accounted maximum seen (t ∷ []) =
    (t.text ≡ [])
    × (t.generated_tokens ≤ maximum)
    × (seen ≡ true → 0 < t.generated_tokens)
    × (is_some t.finish_reason ≡ true)
Accounted maximum seen (t ∷ u ∷ rest) =
    (is_visible t.text ≡ true)
    × (t.generated_tokens ≡ 0)
    × (t.finish_reason ≡ none)
    × Accounted maximum true (u ∷ rest)

-- A count that was taken is within the bounds.
abbrev InBounds : ℕ → Bool → Option ℕ → Type 0
InBounds maximum seen none = Unit
InBounds maximum seen (some n) = (n ≤ maximum) × (seen ≡ true → 0 < n)

take_choice_lem :
    (c : Option CompletionChoice) (s s1 : CompletionState) (text : Text)
    → take_choice c s ≡ ok (text, s1)
    → (s1.maximum_tokens ≡ s.maximum_tokens)
      × (s1.visible_text ≡ (s.visible_text || is_visible text))
      × (s1.completion_tokens ≡ s.completion_tokens)
take_choice_lem none s s1 text h = ground arith
take_choice_lem (some c) s s1 text h = ground arith

take_usage_lem :
    (u : Option ℕ) (s s1 : CompletionState)
    → s.completion_tokens ≡ none
    → take_usage u s ≡ ok s1
    → (s1.maximum_tokens ≡ s.maximum_tokens)
      × (s1.visible_text ≡ s.visible_text)
      × InBounds s.maximum_tokens s.visible_text s1.completion_tokens
take_usage_lem none s s1 unset h =
    let same : s ≡ s1 = ground arith in
    (
      ap (λ x. x.maximum_tokens) (sym same),
      ap (λ x. x.visible_text) (sym same),
      subst (InBounds s.maximum_tokens s.visible_text)
          (sym unset ∙ ap (λ x. x.completion_tokens) same) tt,
    )
take_usage_lem (some count) s s1 unset h =
    let (fits, same) = if_ok _ EngineError.protocol _ s1 h in
    (
      ap (λ x. x.maximum_tokens) (sym same),
      ap (λ x. x.visible_text) (sym same),
      subst (InBounds s.maximum_tokens s.visible_text) (ap (λ x. x.completion_tokens) same)
          (ground arith, λ seen. ground arith),
    )

consume_frame_lem :
    (frame : CompletionFrame) (s s' : CompletionState) (text : Text)
    → consume_frame frame s ≡ ok (text, s')
    → (s'.maximum_tokens ≡ s.maximum_tokens)
      × (s'.visible_text ≡ (s.visible_text || is_visible text))
      × InBounds s'.maximum_tokens s'.visible_text s'.completion_tokens
unfolding consume_frame
consume_frame_lem frame s s' text h =
    let (u, open_, h1) =
      ok_of_bind (raise_if (is_some s.completion_tokens) EngineError.protocol) _ (text, s') h in
    let ((shown, s1), chosen, h2) = ok_of_bind (take_choice frame.choice s) _ (text, s') h1 in
    let (s2, counted, h3) = ok_of_bind (take_usage frame.usage s1) _ (text, s') h2 in
    let same_text : shown ≡ text = ground arith in
    let same : s2 ≡ s' = ground arith in
    let c = take_choice_lem frame.choice s s1 shown chosen in
    let unset : s.completion_tokens ≡ none = ground arith in
    let d = take_usage_lem frame.usage s1 s2 (c.2 ∙ unset) counted in
    (
      ap (λ x. x.maximum_tokens) (sym same) ∙ d.0 ∙ c.0,
      ap (λ x. x.visible_text) (sym same)
          ∙ d.1
          ∙ c.1
          ∙ ap (λ x. s.visible_text || is_visible x) same_text,
      subst (λ x. InBounds x.maximum_tokens x.visible_text x.completion_tokens) same
          (subst₂ (λ m v. InBounds m v s2.completion_tokens) (sym d.0) (sym d.1) d.2),
    )

consume_or_invalid_lem :
    (frame : Option CompletionFrame) (s s' : CompletionState) (text : Text)
    → consume_or_invalid frame s ≡ ok (text, s')
    → (s'.maximum_tokens ≡ s.maximum_tokens)
      × (s'.visible_text ≡ (s.visible_text || is_visible text))
      × InBounds s'.maximum_tokens s'.visible_text s'.completion_tokens
consume_or_invalid_lem none s s' text h = absurd (cc)
consume_or_invalid_lem (some frame) s s' text h = consume_frame_lem frame s s' text h

consume_lem :
    (p : Protocol) (event : Text) (s s' : CompletionState) (text : Text)
    → consume p event s ≡ ok (text, s')
    → (s'.maximum_tokens ≡ s.maximum_tokens)
      × (s'.visible_text ≡ (s.visible_text || is_visible text))
      × InBounds s'.maximum_tokens s'.visible_text s'.completion_tokens
unfolding consume
consume_lem (Protocol.prompt decode) event s s' text h =
    consume_or_invalid_lem (decode event) s s' text h
consume_lem (Protocol.chat decode) event s s' text h =
    consume_or_invalid_lem (translated_or_none (decode event)) s s' text h

Accounted-emit :
    (maximum : ℕ) (seen : Bool) (text : Text) (rest : List EngineToken)
    → is_visible text ≡ true
    → Accounted maximum true rest
    → Accounted maximum seen (visible_token text ∷ rest)
unfolding Accounted
Accounted-emit maximum seen text [] visible h = absurd h
Accounted-emit maximum seen text (t ∷ rest) visible h = (visible, refl, refl, h)

final_lem :
    (f : Option FinishReason) (c : Option ℕ) (maximum : ℕ) (seen : Bool)
    → InBounds maximum seen c
    → (last_token (token_of f c)).end ≡ ok tt
    → Accounted maximum seen (last_token (token_of f c)).items
unfolding Accounted
final_lem (some reason) (some n) maximum seen b h = (refl, b.0, b.1, refl)
final_lem (some reason) none maximum seen b h = absurd (cc)
final_lem none (some n) maximum seen b h = absurd (cc)
final_lem none none maximum seen b h = absurd (cc)

-- The rest of the loop accounts for what it yields, if it ends.
abbrev Continues : (CompletionState → Held → Yields EngineToken) → Type 0
Continues next =
    (s : CompletionState) (h : Held)
    → InBounds s.maximum_tokens s.visible_text s.completion_tokens
    → (next s h).end ≡ ok tt
    → Accounted s.maximum_tokens s.visible_text (next s h).items

or_false : (b : Bool) → (b || false) ≡ b
or_false b = ground arith

or_true : (b : Bool) → (b || true) ≡ true
or_true b = ground arith

held_lem :
    (r : Result EngineError Held) (text : Text) (maximum : ℕ) (seen : Bool)
    (next : Held → Yields EngineToken)
    → is_visible text ≡ true
    → ((h : Held) → (next h).end ≡ ok tt → Accounted maximum true (next h).items)
    → (on_held r text next).end ≡ ok tt
    → Accounted maximum seen (on_held r text next).items
held_lem (err e) text maximum seen next visible ih ended = absurd (cc)
held_lem (ok h) text maximum seen next visible ih ended =
    Accounted-emit maximum seen text (next h).items visible (ih h ended)

done_lem :
    (accepted : Bool) (s : CompletionState)
    → InBounds s.maximum_tokens s.visible_text s.completion_tokens
    → (on_done accepted (token_of s.finish_reason s.completion_tokens)).end ≡ ok tt
    → Accounted s.maximum_tokens s.visible_text
        (on_done accepted (token_of s.finish_reason s.completion_tokens)).items
done_lem true s b ended =
    final_lem s.finish_reason s.completion_tokens s.maximum_tokens s.visible_text b ended
done_lem false s b ended = absurd (cc)

not_ended :
    (late : Bool) (end : Result EngineError (Unit {0}))
    → (if late then raising EngineError.timeout else ended end).end ≡ ok tt
    → ⊥
not_ended true end h = cc
not_ended false (ok u) h = cc
not_ended false (err e) h = cc

text_lem :
    (visible : Bool) (c : Option Constraint) (text : Text) (h : Held) (maximum : ℕ) (seen : Bool)
    (next : Held → Yields EngineToken)
    → is_visible text ≡ visible
    → ((h' : Held) → (next h').end ≡ ok tt → Accounted maximum (seen || visible) (next h').items)
    → (on_text visible c text h next).end ≡ ok tt
    → Accounted maximum seen (on_text visible c text h next).items
text_lem false c text h maximum seen next e ih ended =
    subst (λ b. Accounted maximum b (next h).items) (or_false seen) (ih h ended)
text_lem true c text h maximum seen next e ih ended =
    held_lem (hold c text h) text maximum seen next e
      (λ h' f. subst (λ b. Accounted maximum b (next h').items) (or_true seen) (ih h' f)) ended

consumed_lem :
    (p : Protocol) (event : Text) (r : Result EngineError (Text × CompletionState))
    (c : Option Constraint) (s : CompletionState) (h : Held)
    (next : CompletionState → Held → Yields EngineToken)
    → consume p event s ≡ r
    → Continues next
    → (on_consumed r c h next).end ≡ ok tt
    → Accounted s.maximum_tokens s.visible_text (on_consumed r c h next).items
consumed_lem p event (err e) c s h next consumed ih ended = absurd (cc)
consumed_lem p event (ok (text, s')) c s h next consumed ih ended =
    let facts = consume_lem p event s s' text consumed in
    text_lem (is_visible text) c text h s.maximum_tokens s.visible_text (next s') refl
      (λ h' f.
        subst₂ (λ m v. Accounted m v (next s' h').items) facts.0 facts.1 (ih s' h' facts.2 f))
      ended

event_lem :
    (late is_done : Bool) (p : Protocol) (event : Text) (c : Option Constraint)
    (s : CompletionState) (h : Held) (next : CompletionState → Held → Yields EngineToken)
    → InBounds s.maximum_tokens s.visible_text s.completion_tokens
    → Continues next
    → (on_event late is_done c s h (consume p event s) next).end ≡ ok tt
    → Accounted s.maximum_tokens s.visible_text
        (on_event late is_done c s h (consume p event s) next).items
unfolding final_token
event_lem true is_done p event c s h next b ih ended = absurd (cc)
event_lem false true p event c s h next b ih ended = done_lem (is_accepted c h) s b ended
event_lem false false p event c s h next b ih ended =
    consumed_lem p event (consume p event s) c s h next refl ih ended

stream_events-Accounted :
    (p : Protocol) (c : Option Constraint) (late : ℕ → Bool) (k : ℕ) (events : List Text)
    (end : Result EngineError (Unit {0}))
    → Continues (λ s h. stream_events p c late k s h events end)
unfolding stream_events
stream_events-Accounted p c late k [] end s h b ended = absurd (not_ended (late k) end ended)
stream_events-Accounted p c late k (event ∷ events) end s h b ended =
    event_lem (late k) (text_beq event done) p event c s h
      (λ s' h'. stream_events p c late (suc k) s' h' events end) b
      (stream_events-Accounted p c late (suc k) events end) ended

-- A stream that ends without an exception has yielded visible texts, each without a count, and
-- then one last token with a finish reason, whose count is at most the maximum of the request and
-- is positive if there was a visible text.
pub stream-Accounted :
    (p : Protocol) (c : Option Constraint) (late : ℕ → Bool) (max_tokens : ℕ) (events : Yields Text)
    → (stream p c late max_tokens events).end ≡ ok tt
    → Accounted max_tokens false (stream p c late max_tokens events).items
unfolding stream
stream-Accounted p c late max_tokens events ended =
    stream_events-Accounted p c late 0 events.items events.end (fresh max_tokens)
      (record { text = []; bytes = 0 }) tt ended
