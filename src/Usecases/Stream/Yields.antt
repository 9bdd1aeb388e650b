-- ===== src/Usecases/Stream/Yields.antt =====
-- An asynchronous generator as its consumer sees it, from app/usecases/stream.py: what it yields, and
-- how it ends.
use dop_api.Base.{List, nat_eq, string_eq}
use dop_api.Platform.Errors.{Error}

-- By itself, or by an exception.
pub data Ending : Type 0 where
  finished : Ending
  broken : Error → Ending

abbrev pub Source : Type 0 → Type 0
Source A = List A × Ending
