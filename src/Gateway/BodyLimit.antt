-- ===== src/Gateway/BodyLimit.antt =====
-- gateway/body_limit.py: `BodyLimit.__call__` on a request whose body is read. The messages that
-- `receive` gives are a list, oldest first.
use fin_serve.Prelude.{
  ℕ, ◌+◌, ◌≡◌, refl, sym, ap, ◌∙◌, String, Bool, true, false, not, ◌||◌, List, [], ◌∷◌, ◌++◌,
  length, any, ltb, arith, ◌==◌, string_eq, append-nil, append_assoc, length-append, if◌then◌else◌,
}

pub data Message : Type 0 where
  disconnect : Message
  -- "http.request" with its "body" and "more_body"
  request : List ℕ → Bool → Message

-- What becomes of a call.
pub data Answer : Type 0 where
  -- no answer: the client is gone
  dropped : Answer
  -- 413 BODY_TOO_LARGE
  too_large : Answer
  -- the application, with the body replayed once and the messages that `receive` gives after it
  served : List ℕ → List Message → Answer
  -- still waiting for a message
  waiting : Answer

-- The body is left to the application.
unfoldable pub passes_on : String → String → String → List String → Bool
passes_on kind method path delegated_paths =
    not (kind == "http")
    || not (method == "POST" || method == "PUT" || method == "PATCH")
    || any (λ p. path == p) delegated_paths

-- What a message with a chunk does: refuse, read on, or serve.
abbrev pub on_chunk : Bool → Bool → List ℕ → List Message → (List ℕ → Answer) → Answer
on_chunk true more body messages next = too_large
on_chunk false true body messages next = next body
on_chunk false false body messages next = served body messages

-- The loop over the messages after `body`.
unfoldable pub read_body : ℕ → List ℕ → List Message → Answer
read_body max_bytes body [] = waiting
read_body max_bytes body (disconnect ∷ messages) = dropped
read_body max_bytes body (request chunk more ∷ messages) =
    on_chunk (ltb max_bytes (length body + length chunk)) more (body ++ chunk) messages
      (λ b. read_body max_bytes b messages)

-- What `replay` returns: the body once, then the real messages.
unfoldable pub replay : Answer → List Message
replay (served body messages) = request body false ∷ messages
replay _ = []

-- The bytes of the messages that belong together: all but the last say that more follows.
abbrev pub whole : List Message → List ℕ
whole [] = []
whole (disconnect ∷ ms) = whole ms
whole (request chunk more ∷ ms) = chunk ++ whole ms

-- A whole request body, of chunks of which the last alone ends it.
unfoldable pub IsWhole : List Message → Type 0
IsWhole [] = ⊥
IsWhole (disconnect ∷ ms) = ⊥
IsWhole (request chunk true ∷ ms) = IsWhole ms
IsWhole (request chunk false ∷ []) = Unit
IsWhole (request chunk false ∷ m ∷ ms) = ⊥

abbrev limited : ℕ → List ℕ → List Message → Answer
limited max_bytes body later = if ltb max_bytes (length body) then too_large else served body later

more_at :
    (over : Bool) (max_bytes : ℕ) (body chunk rest : List ℕ) (later coming : List Message)
    (next : List ℕ → Answer)
    → ltb max_bytes (length body + length chunk) ≡ over
    → next (body ++ chunk) ≡ limited max_bytes (body ++ (chunk ++ rest)) later
    → on_chunk over true (body ++ chunk) coming next
      ≡ limited max_bytes (body ++ (chunk ++ rest)) later
more_at true max_bytes body chunk rest later coming next h ih =
    ground (arith, length-append body (chunk ++ rest), length-append chunk rest)
more_at false max_bytes body chunk rest later coming next h ih = ih

last_at :
    (over : Bool) (max_bytes : ℕ) (body chunk : List ℕ) (later : List Message)
    (next : List ℕ → Answer)
    → ltb max_bytes (length (body ++ chunk)) ≡ over
    → on_chunk over false (body ++ chunk) later next ≡ limited max_bytes (body ++ chunk) later
last_at true max_bytes body chunk later next h = rw h
last_at false max_bytes body chunk later next h = rw h

more_step :
    (max_bytes : ℕ) (body chunk rest : List ℕ) (later coming : List Message)
    (next : List ℕ → Answer)
    → next (body ++ chunk) ≡ limited max_bytes ((body ++ chunk) ++ rest) later
    → on_chunk (ltb max_bytes (length body + length chunk)) true (body ++ chunk) coming next
      ≡ limited max_bytes (body ++ (chunk ++ rest)) later
more_step max_bytes body chunk rest later coming next ih =
    more_at (ltb max_bytes (length body + length chunk)) max_bytes body chunk rest later coming next
      refl (ih ∙ ap (λ b. limited max_bytes b later) (append_assoc body chunk rest))

last_step :
    (max_bytes : ℕ) (body chunk : List ℕ) (later : List Message) (next : List ℕ → Answer)
    → on_chunk (ltb max_bytes (length body + length chunk)) false (body ++ chunk) later next
      ≡ limited max_bytes (body ++ (chunk ++ [])) later
last_step max_bytes body chunk later next =
    last_at (ltb max_bytes (length body + length chunk)) max_bytes body chunk later next
      (ap (ltb max_bytes) (length-append body chunk))
    ∙ ap (λ b. limited max_bytes (body ++ b) later) (sym (append-nil chunk))

read_body-limited :
    (max_bytes : ℕ) (body : List ℕ) (sent later : List Message)
    → IsWhole sent
    → read_body max_bytes body (sent ++ later) ≡ limited max_bytes (body ++ whole sent) later
unfolding read_body IsWhole
read_body-limited max_bytes body [] later w = absurd w
read_body-limited max_bytes body (disconnect ∷ ms) later w = absurd w
read_body-limited max_bytes body (request chunk true ∷ ms) later w =
    more_step max_bytes body chunk (whole ms) later (ms ++ later)
      (λ b. read_body max_bytes b (ms ++ later))
      (read_body-limited max_bytes (body ++ chunk) ms later w)
read_body-limited max_bytes body (request chunk false ∷ []) later w =
    last_step max_bytes body chunk later (λ b. read_body max_bytes b later)
read_body-limited max_bytes body (request chunk false ∷ m ∷ ms) later w = absurd w

-- A request body that is sent whole, in any chunks, is refused if it is longer than the limit, and
-- else the application gets all its bytes at once and after them the messages that come later.
pub read_body-eq_whole :
    (max_bytes : ℕ) (sent later : List Message)
    → IsWhole sent
    → read_body max_bytes [] (sent ++ later)
      ≡ (if ltb max_bytes (length (whole sent)) then too_large else served (whole sent) later)
read_body-eq_whole max_bytes sent later w = read_body-limited max_bytes [] sent later w
