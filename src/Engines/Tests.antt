-- ===== src/Engines/Tests.antt =====
-- A streamed completion of one text, and the theorems at it.
use fin_serve.Prelude.{
  ◌≡◌, ◌≤◌, ◌+◌, refl, false, none, some, List, [], ◌∷◌, arith, nat_beq, if◌then◌else◌,
}
use fin_serve.Prelude.Result.{ok}
use fin_serve.Engines.Events.{Text, Yields, bounded, classify, sse_lines}
use fin_serve.Engines.Blocks.{blocks, events_of, sse_lines-events_of}
use fin_serve.Engines.Completion.{
  FinishReason, CompletionFrame, EngineToken, Protocol, consume, consume_frame, final_token, done,
  stream, stream_events,
}
use fin_serve.Engines.Accounting.{total, bounded_total, Accounted, stream-Accounted}

-- The event "a" is the text "x" with the end of the completion, and the event "u" its usage.
abbrev decode : Text → CompletionFrame
decode (b ∷ []) =
    if nat_beq b b'a'
    then record {
      choice = some (record { text = b'x' ∷ []; finish_reason = some FinishReason.stop });
      usage = none;
    }
    else record { choice = none; usage = some 1 }
decode _ = record { choice = none; usage = none }

abbrev lines : List Text
lines =
    (b'd' ∷ b'a' ∷ b't' ∷ b'a' ∷ b':' ∷ b' ' ∷ b'a' ∷ [])
    ∷ []
    ∷ (b'i' ∷ b'd' ∷ [])
    ∷ (b'd' ∷ b'a' ∷ b't' ∷ b'a' ∷ b':' ∷ b'u' ∷ [])
    ∷ []
    ∷ []

abbrev events : Yields Text
events = record { items = (b'a' ∷ []) ∷ (b'u' ∷ []) ∷ done ∷ []; end = ok tt }

two_events : (sse_lines [] 0 lines (ok tt)).items ≡ (b'a' ∷ []) ∷ (b'u' ∷ []) ∷ []
unfolding sse_lines classify
two_events = refl

abbrev tokens : Yields EngineToken
tokens = stream (Protocol.prompt (λ e. some (decode e))) none (λ k. false) 8 events

completes : tokens.end ≡ ok tt
unfolding stream stream_events consume consume_frame final_token
completes = refl

sse_lines-events_of_example :
    sse_lines [] 0 lines (ok tt) ≡ events_of (blocks lines).ended (blocks lines).rest (ok tt)
sse_lines-events_of_example = sse_lines-events_of lines (ok tt)

bounded_total_example : 0 + total (bounded 3 0 ((1 ∷ 2 ∷ []) ∷ (3 ∷ 4 ∷ []) ∷ []) (ok tt)).items ≤ 3
bounded_total_example = bounded_total 3 0 ((1 ∷ 2 ∷ []) ∷ (3 ∷ 4 ∷ []) ∷ []) (ok tt) (omega arith)

stream-Accounted_example : Accounted 8 false tokens.items
stream-Accounted_example =
    stream-Accounted (Protocol.prompt (λ e. some (decode e))) none (λ k. false) 8 events completes
