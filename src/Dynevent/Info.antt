-- ===== src/Dynevent/Info.antt =====
-- What a dynamic event says of itself: `dynevent_info2py`, `PyDynevent_system`, `PyDynevent_event`,
-- `PyDynevent_address` and `PyDynevent_probe` of src/ftracepy-utils.c.
use trace_cruncher.Base.{Option, none, some}
use trace_cruncher.Text.{Str}

-- The texts that `tracefs_dynevent_info` gives.
pub record DyneventInfo : Type 0 where
  pub system : Str
  pub event : Str
  pub address : Str
  pub probe : Str

-- `info` is `tracefs_dynevent_info`: `none` where the type of the event is unknown.
module _ {P W : Type 0} (info : P → W → Option DyneventInfo) where
  -- One text, or an error.
  unfoldable pub dynevent_info2py : (DyneventInfo → Str) → P → W → Option Str
  dynevent_info2py field ptr w = elim (info ptr w) [ none ↦ none | some i ↦ some (field i) ]

  unfoldable pub dynevent_system : P → W → Option Str
  dynevent_system = dynevent_info2py (λ i. i.system)

  unfoldable pub dynevent_event : P → W → Option Str
  dynevent_event = dynevent_info2py (λ i. i.event)

  unfoldable pub dynevent_address : P → W → Option Str
  dynevent_address = dynevent_info2py (λ i. i.address)

  unfoldable pub dynevent_probe : P → W → Option Str
  dynevent_probe = dynevent_info2py (λ i. i.probe)
