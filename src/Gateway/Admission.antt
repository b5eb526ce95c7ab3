-- ===== src/Gateway/Admission.antt =====
-- gateway/admission.py: `Admission`, one limiter of an event loop.
use fin_serve.Prelude.{
  ℕ, suc, ◌+◌, ◌-◌, ◌≡◌, ◌≤◌, Bool, true, false, List, [], ◌∷◌, ltb, leb, if◌then◌else◌,
}
use fin_serve.Prelude.Result.{Result, ok, err}

pub data AdmissionError : Type 0 where
  -- ValueError
  invalid_limit : AdmissionError
  -- RuntimeError
  released_twice : AdmissionError

pub record Admission : Type 0 where
  pub limit : ℕ
  pub active : ℕ

-- `Admission(limit, active)`, with `__post_init__`
unfoldable pub init : ℕ → ℕ → Result AdmissionError Admission
init limit active =
    if ltb limit 1
    then err AdmissionError.invalid_limit
    else ok (record { limit = limit; active = active })

unfoldable pub acquire : Admission → Bool × Admission
acquire a = if leb a.limit a.active then (false, a) else (true, record a { active = suc a.active })

unfoldable pub release : Admission → Result AdmissionError (Unit {0}) × Admission
release a =
    if ltb a.active 1
    then (err AdmissionError.released_twice, a)
    else (ok tt, record a { active = a.active - 1 })

pub data Call : Type 0 where
  acquires releases : Call

-- The limiter after the calls, and how many of them were admitted and released.
pub record Account : Type 0 where
  pub admission : Admission
  pub admitted : ℕ
  pub released : ℕ

unfoldable pub step : Account → Call → Account
unfolding acquire release
step t Call.acquires = record {
  admission = (acquire t.admission).1;
  admitted = if (acquire t.admission).0 then suc t.admitted else t.admitted;
  released = t.released;
}
step t Call.releases = record {
  admission = (release t.admission).1;
  admitted = t.admitted;
  released = if ltb t.admission.active 1 then t.released else suc t.released;
}

unfoldable pub run : Account → List Call → Account
unfolding step
run t [] = t
run t (c ∷ cs) = run (step t c) cs

-- The active requests are those admitted and not released, and never more than the limit.
pub record IsBalanced (limit : ℕ) (t : Account) : Type 0 where
  pub bound : t.admission.active ≤ t.admission.limit
  pub same_limit : t.admission.limit ≡ limit
  pub balance : t.admitted ≡ t.released + t.admission.active
