-- ===== src/Transport/Terminal.antt =====
-- AYLink.Web/src/features/deviceTransport/terminal.ts. The calls of the handlers are counted or logged in the
-- state; a text is the list of its UTF-16 units, and what the text decoder makes of a chunk is given.
use aylink_extra.Prelude.{
  ℕ, zero, suc, ◌+◌, ◌*◌, List, [], ◌∷◌, ◌++◌, Bool, true, false, Option, none, some, if◌then◌else◌,
  ltb, ◌==◌, length, take, drop,
}

abbrev pub newline : ℕ
newline = 10

abbrev pub message_limit : ℕ
message_limit = 1024 * 1024

-- What `send` writes to: nothing yet, the WebSocket, or the stream of the request's body.
pub data Input : Type 0 where
  no_input socket_input stream_input : Input

pub record Terminal : Type 0 where
  pub ready_state : ℕ
  pub input : Input
  pub is_aborted : Bool
  pub sent : List (List ℕ)
  pub messages : List (List ℕ)
  pub pending : List ℕ
  pub opens : ℕ
  pub errors : ℕ
  pub closes : ℕ

unfoldable pub create_terminal_connection : Terminal
create_terminal_connection = record {
  ready_state = 0;
  input = no_input;
  is_aborted = false;
  sent = [];
  messages = [];
  pending = [];
  opens = 0;
  errors = 0;
  closes = 0;
}

unfoldable pub close : Terminal → Terminal
close t =
    if t.ready_state == 3
    then t
    else record t { ready_state = 3; is_aborted = true; closes = t.closes + 1 }

-- `transport.onerror?.(); close()`
abbrev pub fail : Terminal → Terminal
fail t = close (record t { errors = t.errors + 1 })

-- `desired_size` is what the stream of the body still takes.
abbrev pub send_to : Input → (desired_size : ℕ) → List ℕ → Terminal → Terminal
send_to no_input desired_size encoded t = t
send_to socket_input desired_size encoded t = record t { sent = t.sent ++ encoded ∷ [] }
send_to stream_input desired_size encoded t =
    if ltb desired_size (length encoded + 1)
    then fail t
    else record t { sent = t.sent ++ (encoded ++ newline ∷ []) ∷ [] }

unfoldable pub send : (desired_size : ℕ) → List ℕ → Terminal → Terminal
send desired_size encoded t =
    if t.ready_state == 1 then send_to t.input desired_size encoded t else t

-- The socket has opened, or the request has answered with a body.
unfoldable pub on_open : Input → Terminal → Terminal
on_open input t =
    if t.ready_state == 3
    then t
    else record t { ready_state = 1; input = input; opens = t.opens + 1 }

unfoldable pub on_socket_message : List ℕ → Terminal → Terminal
on_socket_message data_of t = record t { messages = t.messages ++ data_of ∷ [] }

unfoldable pub on_socket_error : Terminal → Terminal
on_socket_error t = record t { errors = t.errors + 1 }

unfoldable pub on_failure : Terminal → Terminal
on_failure t = if t.ready_state == 3 then t else fail t

-- `pending.indexOf('\n')`
abbrev pub index_of_newline : List ℕ → Option ℕ
index_of_newline [] = none
index_of_newline (x ∷ xs) =
    if x == newline
    then some 0
    else elim (index_of_newline xs) [ none ↦ none | some i ↦ some (suc i) ]

-- The loop that takes the lines off `pending`, each turn of which shortens it.
unfoldable pub take_lines : ℕ → Terminal → Terminal
take_lines zero t = t
take_lines (suc fuel) t = elim (index_of_newline t.pending) [
  | none ↦ t
  | some i ↦ take_lines fuel (record t {
    messages = t.messages ++ take i t.pending ∷ [];
    pending = drop (suc i) t.pending;
  })
]

abbrev pub check_limit : Terminal → Terminal
check_limit t = if ltb message_limit (length t.pending) then on_failure t else t

-- A turn of the loop over the response's body.
unfoldable pub on_value : List ℕ → Terminal → Terminal
on_value decoded t =
    if t.is_aborted
    then t
    else let pending = t.pending ++ decoded in
      check_limit (take_lines (length pending) (record t { pending = pending }))
