-- ===== src/Transport.antt =====
-- packages/protocol/src/transport.ts, `ndjsonConnection`: newline-delimited JSON over a socket, whose
-- data arrives in chunks of any size. A text is the list of its code units. `JSON.parse` and
-- `JSON.stringify` are a parameter; `socket.on("data")` after `socket.destroy` does not happen.
pub mod Bytes
pub mod Delivery
mod Tests
use wosm.Base.{
  ℕ, zero, suc, ◌+◌, String, Bool, true, false, ◌&&◌, ◌||◌, List, [], ◌∷◌, ◌++◌, Option, none, some,
  length, leb, nat_beq, if◌then◌else◌, ◌≡◌,
}

-- `parse` gives `none` where `JSON.parse` throws.
pub record Json (M : Type 0) : Type 0 where
  pub parse : List ℕ → Option M
  pub stringify : M → List ℕ

pub data StreamError : Type 0 where
  invalid_frame : List ℕ → StreamError
  socket_error : String → StreamError

pub record Connection (M : Type 0) : Type 0 where
  pub buffer : List ℕ
  pub messages : List M
  pub waiters : ℕ
  pub done : Bool
  pub stream_error : Option StreamError
  pub destroyed : Bool

abbrev pub newline : ℕ
newline = 10

abbrev between : ℕ → ℕ → ℕ → Bool
between lo hi c = leb lo c && leb c hi

-- What `trim` takes off: white space and line ends.
unfoldable pub is_space : ℕ → Bool
is_space c =
    between 9 13 c
    || (nat_beq c 32
        || (nat_beq c 0xa0
            || (nat_beq c 0x1680
                || (between 0x2000 0x200a c
                    || (between 0x2028 0x2029 c
                        || (nat_beq c 0x202f
                            || (nat_beq c 0x205f || (nat_beq c 0x3000 || nat_beq c 0xfeff))))))))

-- `line.trim().length === 0`.
unfoldable pub is_blank : List ℕ → Bool
is_blank [] = true
is_blank (c ∷ line) = is_space c && is_blank line

abbrev longer : ℕ → Option (List ℕ × List ℕ) → Option (List ℕ × List ℕ)
longer c none = none
longer c (some (line, rest)) = some (c ∷ line, rest)

-- `buffer.indexOf("\n")` with the two slices around it.
unfoldable pub split_line : List ℕ → Option (List ℕ × List ℕ)
split_line [] = none
split_line (c ∷ buffer) =
    if nat_beq c newline then some ([], buffer) else longer c (split_line buffer)

module _ {M : Type 0} where
  abbrev pub open_connection : Connection M
  open_connection = record {
    buffer = [];
    messages = [];
    waiters = 0;
    done = false;
    stream_error = none;
    destroyed = false;
  }

  unfoldable pub wake : Connection M → Connection M
  wake c = record c { waiters = 0 }

  -- A line of the loop's body. A malformed frame poisons the stream, and the loop goes on.
  unfoldable pub handle_line : Json M → Connection M → List ℕ → Connection M
  handle_line json c line = if is_blank line then c else elim (json.parse line) [
    | some message ↦ record c { messages = c.messages ++ message ∷ [] }
    | none ↦ record c { stream_error = some (invalid_frame line); destroyed = true }
  ]

  -- `for (;;)` over the buffer, on fuel.
  unfoldable pub drain_buffer : ℕ → Json M → Connection M → Connection M
  drain_buffer zero json c = c
  drain_buffer (suc fuel) json c = elim (split_line c.buffer) [
    | none ↦ c
    | some (line, rest) ↦
        drain_buffer fuel json (handle_line json (record c { buffer = rest }) line)
  ]

  -- A round takes one code unit off the buffer at least, so its length is fuel enough.
  unfoldable pub on_data : Json M → Connection M → List ℕ → Connection M
  unfolding wake
  on_data json c chunk =
      let buffer = c.buffer ++ chunk in
      wake (drain_buffer (suc (length buffer)) json (record c { buffer = buffer }))

  -- A destroyed socket emits no more data.
  unfoldable pub deliver : Json M → Connection M → List ℕ → Connection M
  deliver json c chunk = if c.destroyed then c else on_data json c chunk

  unfoldable pub deliver_all : Json M → Connection M → List (List ℕ) → Connection M
  deliver_all json c [] = c
  deliver_all json c (chunk ∷ chunks) = deliver_all json (deliver json c chunk) chunks

  unfoldable pub on_error : Connection M → String → Connection M
  unfolding wake
  on_error c message = wake (record c { stream_error = some (socket_error message); done = true })

  unfoldable pub on_close : Connection M → Connection M
  unfolding wake
  on_close c = wake (record c { done = true })

  -- `send`: what is written to the socket.
  unfoldable pub send : Json M → M → List ℕ
  send json value = json.stringify value ++ newline ∷ []

  unfoldable pub send_all : Json M → List M → List ℕ
  unfolding send
  send_all json [] = []
  send_all json (value ∷ values) = send json value ++ send_all json values

-- What `next()` of the generator comes to.
pub data Pull (M : Type 0) : Type 0 where
  yielded : M → Pull M
  thrown : StreamError → Pull M
  returned : Pull M
  blocked : Pull M

module _ {M : Type 0} where
  pull_idle : Connection M → Pull M × Connection M
  pull_idle c = elim (c.stream_error) [
    | some error ↦ (thrown error, c)
    | none ↦ if c.done then (returned, c) else (blocked, record c { waiters = c.waiters + 1 })
  ]

  pull_queued : List M → Connection M → Pull M × Connection M
  unfolding pull_idle
  pull_queued [] c = pull_idle c
  pull_queued (message ∷ messages) c = (yielded message, record c { messages = messages })

  unfoldable pub pull : Connection M → Pull M × Connection M
  unfolding pull_queued
  pull c = pull_queued c.messages c

  -- The results of so many calls of `next()` in turn.
  unfoldable pub pull_times : ℕ → Connection M → List (Pull M)
  pull_times zero c = []
  pull_times (suc n) c = (pull c).0 ∷ pull_times n (pull c).1
