-- ===== src/Base/Outcome.antt =====
-- How a modelled call ends. `fault` is undefined behaviour: an access outside of a buffer. `stuck`
-- is no end of the program: a bound of the model, on rounds or on nested calls, ran out.
pub data Result {ℓ} (A : Type ℓ) : Type ℓ where
  ok : A → Result A
  fault : Result A
  stuck : Result A
