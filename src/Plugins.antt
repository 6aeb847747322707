-- ===== src/Plugins.antt =====
-- The example plugins of the repository, under examples/.
pub mod Crud
pub mod Calc
pub mod Quote
pub mod Http
use ts_plugins.Common.{Option, none, some, Text}

-- The answer of an `init` that succeeds.
pub record InitSuccess : Type 0 where
  pub plugin_name : Text
  pub plugin_version : Text

-- `text ?? otherwise`
abbrev pub or_else : Text → Option Text → Text
or_else otherwise none = otherwise
or_else otherwise (some text) = text
