-- ===== src/Model.antt =====
-- agent/model/model_interface.h: what the agent sees of a language model. The backends behind it
-- are outside the model of this library. Sampling temperatures are floats and are left out.
use isky.Prelude.{ℕ, Option, ℤ, Text}

pub record Request : Type 0 where
  pub prompt : Text
  pub max_tokens : ℤ

-- The result of `generate`: a text when it returns 0, else the error message.
pub data Generation : Type 0 where
  generated : Text → Generation
  model_error : Text → Generation

-- `W` is the state of all that lies outside the program.
pub record Backend (W : Type 0) : Type 0 where
  pub generate : Request → W → Generation × W
  pub count_tokens : Option (Text → ℕ)
  pub context_window : ℤ
