-- ===== src/Base/Text.antt =====
-- Texts as their bytes. Every literal of the sources is ASCII.
use triptorrent.Base.Bytes.{Bytes}
use Prim.Native.Char.{code}
use Prim.Native.String.{String}
use mathlib.Core.List.{[], ◌∷◌}

abbrev pub ascii : String → Bytes
ascii String.[] = []
ascii (String.◌∷◌ c s) = code c ∷ ascii s
