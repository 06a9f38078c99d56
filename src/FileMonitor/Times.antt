-- ===== src/FileMonitor/Times.antt =====
-- Equality of the times of files, which may be missing.
use mathlib.Core.Option
use mathlib.Core.Option.{Option}
use subscription_manager.Base.{ℕ, ℕ_discrete, Eq}

unfoldable pub Times-discrete : Discrete (Option ℕ)
Times-discrete = Option.discrete ℕ_discrete

instance abbrev pub time_eq : Eq (Option ℕ)
time_eq = record { dec = Times-discrete }
