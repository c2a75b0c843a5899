-- ===== src/Log/Message.antt =====
-- What the kernel passes to the log macros of olive/include/olive.h: a format and its arguments.
use Prim.Native.String.{String}
use fwp_athix.Prelude.{ℕ, ℤ, List}
use fwp_athix.Log.{text, Level}
use fwp_athix.Log.Series.{LogCall}

pub data Argument : Type 0 where
  number : ℕ → Argument
  integer : ℤ → Argument
  word : String → Argument

-- A format and its arguments.
pub record Message : Type 0 where
  pub format : String
  pub arguments : List Argument

abbrev pub call : Level → String → List Argument → LogCall Message
call level format arguments = record {
  level = level;
  line = text (record { format = format; arguments = arguments });
}
