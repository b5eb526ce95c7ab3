-- ===== src/Engines/Events.antt =====
-- engines/openai_adapter.py: the byte limit of a response and the decoding of its SSE events. A text
-- is the list of its code points. The line decoder of httpx is the parameter `Decoder`.
use fin_serve.Prelude.{
  ℕ, suc, ◌+◌, Bool, true, false, Option, none, some, List, [], ◌∷◌, ◌++◌, length, ltb, nat_beq,
  if◌then◌else◌,
}
use fin_serve.Prelude.Result.{Result, ok, err}

abbrev pub Text : Type 0
Text = List ℕ

pub data EngineError : Type 0 where
  -- EngineProtocolError, TimeoutError
  protocol timeout : EngineError

-- What an asynchronous generator yields before it ends or raises.
pub record Yields (A : Type 0) : Type 0 where
  pub items : List A
  pub end : Result EngineError (Unit {0})

abbrev pub emit : {A : Type 0} → A → Yields A → Yields A
emit a y = record y { items = a ∷ y.items }

abbrev pub raising : {A : Type 0} → EngineError → Yields A
raising e = record { items = []; end = err e }

-- `BoundedByteStream`, after `received` bytes; `end` is how the source ends.
unfoldable pub bounded : ℕ → ℕ → List (List ℕ) → Result EngineError (Unit {0}) → Yields (List ℕ)
bounded maximum received [] end = record { items = []; end = end }
bounded maximum received (chunk ∷ chunks) end = elim (ltb maximum (received + length chunk)) [
  | true ↦ raising EngineError.protocol
  | false ↦ emit chunk (bounded maximum (received + length chunk) chunks end)
]

-- httpx's line decoder: the lines that a chunk completes, and the last one at the end.
pub record Decoder : Type 1 where
  pub State : Type 0
  pub start : State
  pub feed : State → List ℕ → List Text × State
  pub flush : State → List Text

-- `aiter_lines`
unfoldable pub decode_lines :
    (d : Decoder) → d.State → List (List ℕ) → Result EngineError (Unit {0}) → List Text
decode_lines d s [] (ok u) = d.flush s
decode_lines d s [] (err e) = []
decode_lines d s (chunk ∷ chunks) end =
    (d.feed s chunk).0 ++ decode_lines d (d.feed s chunk).1 chunks end

abbrev pub maximum_event : ℕ
maximum_event = 65536

-- The rest of a text behind a prefix.
abbrev pub drop_prefix : Text → Text → Option Text
drop_prefix [] text = some text
drop_prefix (p ∷ ps) [] = none
drop_prefix (p ∷ ps) (c ∷ cs) = let rest = drop_prefix ps cs in if nat_beq p c then rest else none

-- `removeprefix(" ")`
abbrev pub drop_space : Text → Text
drop_space [] = []
drop_space (c ∷ cs) = if nat_beq c b' ' then cs else c ∷ cs

abbrev data_prefix : Text
data_prefix = b'd' ∷ b'a' ∷ b't' ∷ b'a' ∷ b':' ∷ []

pub data Field : Type 0 where
  blank other : Field
  value : Text → Field

abbrev pub field_of : Option Text → Field
field_of none = Field.other
field_of (some text) = Field.value (drop_space text)

unfoldable pub classify : Text → Field
classify [] = Field.blank
classify (c ∷ cs) = field_of (drop_prefix data_prefix (c ∷ cs))

-- `"\n".join(data)`
abbrev pub join : List Text → Text
join [] = []
join (x ∷ []) = x
join (x ∷ y ∷ r) = x ++ (b'\n' ∷ join (y ∷ r))

abbrev pub emit_data : List Text → Yields Text → Yields Text
emit_data [] y = y
emit_data (v ∷ vs) y = emit (join (v ∷ vs)) y

-- The end of the lines, which may not stand inside an event.
abbrev pub close : List Text → Result EngineError (Unit {0}) → Yields Text
close vs (err e) = raising e
close [] (ok u) = record { items = []; end = ok tt }
close (v ∷ vs) (ok u) = raising EngineError.protocol

-- What a line does, with the rest of the loop `next`: a value that is too long raises.
abbrev pub on_value : Bool → Text → List Text → ℕ → (List Text → ℕ → Yields Text) → Yields Text
on_value true v held size next = raising EngineError.protocol
on_value false v held size next = next (held ++ v ∷ []) (size + suc (length v))

abbrev pub on_field : Field → List Text → ℕ → (List Text → ℕ → Yields Text) → Yields Text
on_field Field.blank held size next = emit_data held (next [] 0)
on_field (Field.value v) held size next =
    on_value (ltb maximum_event (size + suc (length v))) v held size next
on_field Field.other held size next = next held size

-- The loop of `sse_events` over the lines; `end` is how they end.
unfoldable pub sse_lines : List Text → ℕ → List Text → Result EngineError (Unit {0}) → Yields Text
sse_lines held size [] end = close held end
sse_lines held size (line ∷ lines) end =
    on_field (classify line) held size (λ h n. sse_lines h n lines end)

unfoldable pub sse_events :
    Decoder → ℕ → List (List ℕ) → Result EngineError (Unit {0}) → Yields Text
sse_events d maximum_bytes chunks end =
    let source = bounded maximum_bytes 0 chunks end in
    sse_lines [] 0 (decode_lines d d.start source.items source.end) source.end
