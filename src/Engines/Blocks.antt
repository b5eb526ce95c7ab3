-- ===== src/Engines/Blocks.antt =====
-- The events of a stream as the format defines them: blocks of lines between blank ones.
use fin_serve.Prelude.{
  ℕ, suc, ◌+◌, ◌≡◌, refl, sym, ap, ◌∙◌, Bool, true, false, List, [], ◌∷◌, ◌++◌, length, ltb, arith,
  if◌then◌else◌, append-nil, append_assoc,
}
use fin_serve.Prelude.Result.{Result}
use fin_serve.Engines.Events.{
  Text, EngineError, Yields, raising, maximum_event, Field, classify, emit_data, close, on_value,
  on_field, sse_lines,
}

-- The data values of the blocks that a blank line ends, and those behind the last blank line.
pub record Blocks : Type 0 where
  pub ended : List (List Text)
  pub rest : List Text

-- A value in front.
abbrev pub add_value : Text → List (List Text) → List Text → Blocks
add_value v [] rest = record { ended = []; rest = v ∷ rest }
add_value v (vs ∷ more) rest = record { ended = (v ∷ vs) ∷ more; rest = rest }

abbrev pub add_field : Field → Blocks → Blocks
add_field Field.blank b = record { ended = [] ∷ b.ended; rest = b.rest }
add_field (Field.value v) b = add_value v b.ended b.rest
add_field Field.other b = b

unfoldable pub blocks : List Text → Blocks
blocks [] = record { ended = []; rest = [] }
blocks (line ∷ lines) = add_field (classify line) (blocks lines)

-- What a block's values count toward the limit.
abbrev pub weight : List Text → ℕ
weight [] = 0
weight (v ∷ vs) = suc (length v) + weight vs

-- A block that is too heavy raises; another yields its values, joined, if it has any.
unfoldable pub events_of :
    List (List Text) → List Text → Result EngineError (Unit {0}) → Yields Text
events_of [] rest end =
    if ltb maximum_event (weight rest) then raising EngineError.protocol else close rest end
events_of (vs ∷ more) rest end =
    if ltb maximum_event (weight vs)
    then raising EngineError.protocol
    else emit_data vs (events_of more rest end)

weight-append : (xs ys : List Text) → weight (xs ++ ys) ≡ weight xs + weight ys
weight-append [] ys = omega arith
weight-append (x ∷ xs) ys = omega (arith, weight-append xs ys)

heavy :
    (n m k w : ℕ)
    → w ≡ n + (suc m + k)
    → ltb maximum_event (n + suc m) ≡ true
    → ltb maximum_event w ≡ true
heavy n m k w e h = ground arith

-- Values held already are the first block's.
abbrev held_first :
    List Text → List (List Text) → List Text → Result EngineError (Unit {0}) → Yields Text
held_first held [] rest end = events_of [] (held ++ rest) end
held_first held (vs ∷ more) rest end = events_of ((held ++ vs) ∷ more) rest end

abbrev held_of : List Text → Blocks → Result EngineError (Unit {0}) → Yields Text
held_of held b end = held_first held b.ended b.rest end

held_first-nil :
    (more : List (List Text)) (rest : List Text) (end : Result EngineError (Unit {0}))
    → held_first [] more rest end ≡ events_of more rest end
held_first-nil [] rest end = refl
held_first-nil (vs ∷ more) rest end = refl

held_first-add :
    (held : List Text) (v : Text) (more : List (List Text)) (rest : List Text)
    (end : Result EngineError (Unit {0}))
    → held_first (held ++ v ∷ []) more rest end ≡ held_of held (add_value v more rest) end
held_first-add held v [] rest end = ap (λ x. events_of [] x end) (append_assoc held (v ∷ []) rest)
held_first-add held v (vs ∷ more) rest end =
    ap (λ x. events_of (x ∷ more) rest end) (append_assoc held (v ∷ []) vs)

-- One value too many makes the block too heavy, whatever follows.
held_first-heavy :
    (held : List Text) (v : Text) (more : List (List Text)) (rest : List Text)
    (end : Result EngineError (Unit {0}))
    → ltb maximum_event (weight held + suc (length v)) ≡ true
    → held_of held (add_value v more rest) end ≡ raising EngineError.protocol
unfolding events_of
held_first-heavy held v [] rest end h =
    rw (heavy (weight held) (length v) (weight rest) _ (weight-append held (v ∷ rest)) h)
held_first-heavy held v (vs ∷ more) rest end h =
    rw (heavy (weight held) (length v) (weight vs) _ (weight-append held (v ∷ vs)) h)

abbrev IsLight : List Text → Type 0
IsLight held = ltb maximum_event (weight held) ≡ false

value_step :
    (too_long : Bool) (v : Text) (held : List Text) (next : List Text → ℕ → Yields Text)
    (b : Blocks) (end : Result EngineError (Unit {0}))
    → ltb maximum_event (weight held + suc (length v)) ≡ too_long
    → ((h : List Text) → IsLight h → next h (weight h) ≡ held_of h b end)
    → on_value too_long v held (weight held) next ≡ held_of held (add_value v b.ended b.rest) end
value_step true v held next b end h ih = sym (held_first-heavy held v b.ended b.rest end h)
value_step false v held next b end h ih =
    let total : weight (held ++ v ∷ []) ≡ weight held + suc (length v) =
      omega (arith, weight-append held (v ∷ [])) in
    ap (next (held ++ v ∷ [])) (sym total)
    ∙ ih (held ++ v ∷ []) (ap (ltb maximum_event) total ∙ h)
    ∙ held_first-add held v b.ended b.rest end

field_step :
    (f : Field) (held : List Text) (next : List Text → ℕ → Yields Text) (b : Blocks)
    (end : Result EngineError (Unit {0}))
    → IsLight held
    → ((h : List Text) → IsLight h → next h (weight h) ≡ held_of h b end)
    → on_field f held (weight held) next ≡ held_of held (add_field f b) end
unfolding events_of
field_step Field.blank held next b end light ih =
    rw (append-nil held, light)
      (ap (emit_data held) (ih [] refl ∙ held_first-nil b.ended b.rest end))
field_step (Field.value v) held next b end light ih =
    value_step (ltb maximum_event (weight held + suc (length v))) v held next b end refl ih
field_step Field.other held next b end light ih = ih held light

sse_lines-held :
    (held lines : List Text) (end : Result EngineError (Unit {0}))
    → IsLight held
    → sse_lines held (weight held) lines end ≡ held_of held (blocks lines) end
unfolding sse_lines blocks events_of
sse_lines-held held [] end light = rw (append-nil held, light)
sse_lines-held held (line ∷ lines) end light =
    field_step (classify line) held (λ h n. sse_lines h n lines end) (blocks lines) end light
      (λ h l. sse_lines-held h lines end l)

-- The loop of `sse_events` over any lines, however they end, yields and raises exactly what the
-- blocks of lines between blank ones define: each block gives its data values joined by newlines
-- if it has any, the first block beyond the limit raises, and so does data behind the last blank
-- line.
pub sse_lines-events_of :
    (lines : List Text) (end : Result EngineError (Unit {0}))
    → sse_lines [] 0 lines end ≡ events_of (blocks lines).ended (blocks lines).rest end
sse_lines-events_of lines end =
    sse_lines-held [] lines end refl ∙ held_first-nil (blocks lines).ended (blocks lines).rest end
