-- ===== src/Gateway/Tests.antt =====
-- The limiter at a concrete run.
use fin_serve.Prelude.{◌≡◌, List, true, false, ◌++◌, ltb, length, if◌then◌else◌}
use fin_serve.Gateway.BodyLimit.{
  Message, disconnect, request, too_large, served, whole, IsWhole, read_body, read_body-eq_whole,
}
use fin_serve.Prelude.{[], ◌∷◌}
use fin_serve.Gateway.Admission.{Admission}

abbrev limiter : Admission
limiter = record { limit = 2; active = 0 }

-- A body in two chunks, and a later disconnect.
abbrev chunks : List Message
chunks = request (1 ∷ 2 ∷ []) true ∷ request (3 ∷ []) false ∷ []

chunks-IsWhole : IsWhole chunks
unfolding IsWhole
chunks-IsWhole = tt

read_body-eq_whole_example :
    read_body 4 [] (chunks ++ (disconnect ∷ []))
    ≡ (if ltb 4 (length (whole chunks)) then too_large else served (whole chunks) (disconnect ∷ []))
read_body-eq_whole_example = read_body-eq_whole 4 chunks (disconnect ∷ []) chunks-IsWhole
