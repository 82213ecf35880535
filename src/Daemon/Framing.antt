-- ===== src/Daemon/Framing.antt =====
-- go/internal/daemon/daemon.go: readRequestLine over the bytes that a peer sends, the bound of the
-- output in an answer, and the waits of the accept loop.
pub mod Lines
use fado.Base.{
  ℕ, suc, ◌+◌, ◌-◌, ◌*◌, Bool, true, false, not, ◌||◌, ◌&&◌, Option, none, some, List, [], ◌∷◌,
  ◌++◌, String, ltb, leb, min, if◌then◌else◌, ◌==◌, nat_eq, length, take,
}
use fado.Text.{append_text, take_bytes, len, decimal}

-- What a read meets behind the last byte: nothing more is sent before the deadline, or the connection
-- ends or fails.
pub data Ending : Type 0 where
  stalls : Ending
  ends : Ending

-- The bytes that a peer sends, what follows them, and whether a read deadline can be set.
pub record Conn : Type 0 where
  pub bytes : List ℕ
  pub ending : Ending
  pub deadline : Bool

-- A line with its newline, or one of the two errors that have an answer of their own, or any other.
pub data Framed : Type 0 where
  line : List ℕ → Framed
  too_large timed_out malformed : Framed

abbrev pub max_request_bytes : ℕ
max_request_bytes = 1048576

-- ReadBytes('\n'): what is read, up to the newline where there is one, and whether there is.
unfoldable pub read_bytes : List ℕ → List ℕ × Bool
read_bytes [] = ([], false)
read_bytes (b ∷ bs) =
    let (rest, found) = read_bytes bs in if b == 10 then (b ∷ [], true) else (b ∷ rest, found)

unfoldable pub timed : Ending → Bool
timed stalls = true
timed ends = false

-- The limited reader ends before the connection does where the peer sends more than its limit.
unfoldable pub read_request_line : ℕ → Conn → Framed
unfolding read_bytes timed
read_request_line limit c =
    let (got, found) = read_bytes (take (limit + 2) c.bytes) in
    if not c.deadline
    then malformed
    else if not found
    then if ltb (length c.bytes) (limit + 2) && timed c.ending
      then timed_out
      else if ltb limit (length got)
      then too_large
      else malformed
    else if ltb (limit + 1) (length got)
    then too_large
    else if leb (length got) 1
    then malformed
    else line got

abbrev pub max_response_output_bytes : ℕ
max_response_output_bytes = 262144

unfoldable pub bound_run_output : ℕ → String → String
bound_run_output limit s =
    if leb (len s) limit
    then s
    else append_text (take_bytes limit s) (
        append_text "\n…[truncated " (
          append_text (decimal (len s - limit))
            (append_text " bytes, ceiling " (append_text (decimal limit) " bytes]"))))

-- Accept's results: a connection, an error while the listener is open, the error that it is closed.
pub data Accepted : Type 0 where
  connected : Conn → Accepted
  failed : Accepted
  closed : Accepted

-- What the loop does, with times in milliseconds.
pub data Step : Type 0 where
  handles : Conn → Step
  sleeps : ℕ → Step
  returns : Step

unfoldable pub serve_loop : List Accepted → ℕ → List Step
serve_loop [] backoff = []
serve_loop (closed ∷ rest) backoff = returns ∷ []
serve_loop (failed ∷ rest) backoff = sleeps backoff ∷ serve_loop rest (min (backoff * 2) 1000)
serve_loop (connected c ∷ rest) backoff = handles c ∷ serve_loop rest 10
