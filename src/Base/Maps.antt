-- ===== src/Base/Maps.antt =====
-- A Go map with string keys, as the function from keys to what they hold. No model iterates over
-- one, except to drop entries by a test.
use mathlib.Core.Bool.{Bool}
use mathlib.Core.Option.{Option, none, some}
use aleart_hub.Base.Tests.{if◌then◌else◌, ◌==◌}
use aleart_hub.Base.Bytes.{Text, text_eq}

abbrev pub Map : Type 0 → Type 0
Map V = Text → Option V

module _ {V : Type 0} where
  abbrev pub no_keys : Map V
  no_keys k = none

  abbrev pub put : Map V → Text → V → Map V
  put m k v j = if j == k then some v else m j

  abbrev pub delete : Map V → Text → Map V
  delete m k j = if j == k then none else m j

  -- Drops the entries that pass the test.
  abbrev pub prune : (V → Bool) → Map V → Map V
  prune gone m j = elim (m j) [ none ↦ none | some v ↦ if gone v then none else some v ]
