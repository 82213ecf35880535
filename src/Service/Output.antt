-- ===== src/Service/Output.antt =====
-- go/internal/service/execbounds.go and daemon.go: how much of a command's output is kept. A text is
-- its bytes here. The counts are below 2 ^ 63, since no process writes that much, so int64 is ℕ.
pub mod Laws
use Prim.Native.Char.{code}
use fado.Base.{
  ℕ, zero, suc, ◌+◌, ◌-◌, ◌/◌, ◌%◌, Bool, true, List, [], ◌∷◌, ◌++◌, String, ℤ, pos, negsuc, length,
  take, ltb, leb, if◌then◌else◌, ◌==◌, nat_eq, Option, some, none,
}

-- "%d": the digits, the last of which is the remainder; `room` digits are enough below 10 ^ room.
decimal_onto : ℕ → ℕ → List ℕ → List ℕ
decimal_onto zero n acc = acc
decimal_onto (suc room) n acc =
    let rest = decimal_onto room (n / 10) ((48 + n % 10) ∷ acc) in
    if ltb n 10 then (48 + n % 10) ∷ acc else rest

ascii : String → List ℕ
ascii String.[] = []
ascii (String.◌∷◌ c s) = code c ∷ ascii s

-- TruncationMarkerFmt, with the two counts; the first bytes are a line break and an ellipsis.
unfoldable pub truncation_marker : ℕ → ℕ → List ℕ
unfolding decimal_onto ascii
truncation_marker dropped max =
    (10 ∷ 0xe2 ∷ 0x80 ∷ 0xa6 ∷ ascii "[truncated ")
    ++ decimal_onto 20 dropped []
    ++ ascii " bytes, ceiling "
    ++ decimal_onto 20 max []
    ++ ascii " bytes]"

abbrev pub default_max_output_bytes : ℕ
default_max_output_bytes = 262144

abbrev pub default_exec_timeout : ℕ
default_exec_timeout = 120

unfoldable pub cap_bytes : ℤ → ℕ
cap_bytes (pos zero) = default_max_output_bytes
cap_bytes (pos (suc n)) = suc n
cap_bytes (negsuc n) = default_max_output_bytes

-- In seconds; `none` where the timeout is disabled.
unfoldable pub exec_timeout : ℤ → Option ℕ
exec_timeout (negsuc n) = none
exec_timeout (pos zero) = some default_exec_timeout
exec_timeout (pos (suc n)) = some (suc n)

pub record CappedWriter : Type 0 where
  pub buf : List ℕ
  pub max : ℕ
  pub dropped : ℕ

unfoldable pub new_capped_writer : ℕ → CappedWriter
new_capped_writer max = record { buf = []; max = max; dropped = 0 }

unfoldable pub write : List ℕ → CappedWriter → CappedWriter
write p w =
    let room = w.max - length w.buf in
    if room == 0
    then record w { dropped = w.dropped + length p }
    else if ltb room (length p)
    then record w { buf = w.buf ++ take room p; dropped = w.dropped + (length p - room) }
    else record w { buf = w.buf ++ p }

unfoldable pub captured : CappedWriter → List ℕ
captured w = if ltb 0 w.dropped then w.buf ++ truncation_marker w.dropped w.max else w.buf

unfoldable pub bound_output : List ℕ → ℕ → List ℕ
bound_output s max =
    if leb max 0
    then s
    else if leb (length s) max
    then s
    else take max s ++ truncation_marker (length s - max) max

-- What a command writes, piece by piece.
unfoldable pub write_all : List (List ℕ) → CappedWriter → CappedWriter
write_all [] w = w
write_all (p ∷ ps) w = write_all ps (write p w)
