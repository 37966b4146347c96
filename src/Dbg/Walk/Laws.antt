-- ===== src/Dbg/Walk/Laws.antt =====
-- The order of the walk, and where it stops.
use trace_cruncher.Base.{Bool, List, [], ◌∷◌, ◌++◌, if◌then◌else◌}
use trace_cruncher.Dbg.{TraceSymbol, DebugSymbol}
use trace_cruncher.Dbg.Context.{DebugFile, Context}

-- The callback that notes each symbol that it is called on, and returns what `stops` says.
abbrev pub note : (TraceSymbol → Bool) → TraceSymbol → List TraceSymbol → Bool × List TraceSymbol
note stops s seen = (stops s, seen ++ s ∷ [])

-- The symbols of a list up to the first one at which the callback returns non-zero, that one
-- included.
abbrev pub up_to : (TraceSymbol → Bool) → List DebugSymbol → List TraceSymbol
up_to stops [] = []
up_to stops (s ∷ ss) =
    let rest = up_to stops ss in if stops s.symbol then s.symbol ∷ [] else s.symbol ∷ rest

-- That, for each file in turn.
abbrev pub up_to_each : (TraceSymbol → Bool) → List DebugFile → List TraceSymbol
up_to_each stops [] = []
up_to_each stops (f ∷ fs) = up_to stops f.sym ++ up_to_each stops fs
