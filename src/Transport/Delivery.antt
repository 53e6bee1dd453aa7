-- ===== src/Transport/Delivery.antt =====
-- transport.ts: what a reader gets of data that the socket cuts.
use mathlib.Core.Bool.{false≢true}
use wosm.Base.{
  ℕ, suc, ◌≡◌, refl, sym, ap, ◌∙◌, true, false, List, [], ◌∷◌, ◌++◌, map, none, some, arith, length,
  flatten, nat_beq, if◌then◌else◌, append-nil, append_assoc, Bool-cases, inl, inr, contains, nat_eq,
}
use wosm.Transport.{
  Json, Connection, newline, wake, handle_line, on_data, is_blank, deliver, deliver_all,
  open_connection, send, send_all, invalid_frame, Pull, yielded, thrown, returned, blocked, pull,
  pull_times,
}
use wosm.Transport.Bytes.{
  read_unit, read_unit-more, read_units, read_units-append, IsPartial, IsPartial-nil,
  on_data-read_units,
}

-- What `JSON.stringify` and `JSON.parse` do together: the text of a value is one line, is not blank,
-- and parses back to the value.
pub record IsJson {M : Type 0} (json : Json M) : Type 0 where
  pub parse-stringify : (v : M) → json.parse (json.stringify v) ≡ some v
  pub one_line : (v : M) → contains (json.stringify v) newline ≡ false
  pub not_blank : (v : M) → is_blank (json.stringify v) ≡ false

module _ {M : Type 0} (json : Json M) where
  read_unit-wake :
      (c : Connection M) (unit : ℕ) → read_unit json (wake c) unit ≡ wake (read_unit json c unit)
  unfolding read_unit wake handle_line
  read_unit-wake c unit = ground arith

  read_units-wake :
      (c : Connection M) (units : List ℕ)
      → read_units json (wake c) units ≡ wake (read_units json c units)
  unfolding read_units
  read_units-wake c [] = refl
  read_units-wake c (unit ∷ units) =
      ap (λ d. read_units json d units) (read_unit-wake c unit)
      ∙ read_units-wake (read_unit json c unit) units

  read_unit-destroyed :
      (c : Connection M) (unit : ℕ) → c.destroyed ≡ true → (read_unit json c unit).destroyed ≡ true
  unfolding read_unit handle_line
  read_unit-destroyed c unit h = ground arith

  read_units-destroyed :
      (c : Connection M) (units : List ℕ)
      → c.destroyed ≡ true
      → (read_units json c units).destroyed ≡ true
  unfolding read_units
  read_units-destroyed c [] h = h
  read_units-destroyed c (unit ∷ units) h =
      read_units-destroyed (read_unit json c unit) units (read_unit-destroyed c unit h)

  wake_twice : (c : Connection M) → wake (wake c) ≡ wake c
  unfolding wake
  wake_twice c = refl

  wake-fields :
      (c : Connection M) → ((wake c).destroyed ≡ c.destroyed) × ((wake c).buffer ≡ c.buffer)
  unfolding wake
  wake-fields c = (refl, refl)

  still_open :
      (c : Connection M) (units : List ℕ)
      → (read_units json c units).destroyed ≡ false
      → c.destroyed ≡ false
  still_open c units h = elim (Bool-cases c.destroyed) [
    | inl gone ↦ absurd (false≢true (sym h ∙ read_units-destroyed c units gone))
    | inr alive ↦ alive
  ]

  delivered :
      (c : Connection M) (chunk : List ℕ)
      → c.destroyed ≡ false
      → deliver json c chunk ≡ on_data json c chunk
  unfolding deliver
  delivered c chunk h = rw h

  read_units-on_data :
      (c : Connection M) (chunk rest : List ℕ)
      → IsPartial c.buffer
      → read_units json (on_data json c chunk) rest ≡ wake (read_units json c (chunk ++ rest))
  read_units-on_data c chunk rest p =
      ap (λ d. read_units json d rest) (on_data-read_units json c chunk p).0
      ∙ read_units-wake (read_units json c chunk) rest
      ∙ ap wake (sym (read_units-append json c chunk rest))

  -- As long as every frame parses, the chunks do not matter: what arrives is what the whole text, read
  -- one code unit at a time, comes to.
  pub deliver_all-flatten :
      (c : Connection M) (chunks : List (List ℕ))
      → IsPartial c.buffer
      → (read_units json c (flatten chunks)).destroyed ≡ false
      → wake (deliver_all json c chunks) ≡ wake (read_units json c (flatten chunks))
  unfolding deliver_all
  deliver_all-flatten c [] p h = unfold read_units in refl
  deliver_all-flatten c (chunk ∷ chunks) p h =
      let e = delivered c chunk (still_open c (chunk ++ flatten chunks) h) in
      let f = on_data-read_units json c chunk p in
      let g = read_units-on_data c chunk (flatten chunks) p in
      ap (λ d. wake (deliver_all json d chunks)) e
      ∙ deliver_all-flatten (on_data json c chunk) chunks f.1
          (ap (λ (d : Connection M). d.destroyed) g ∙ (wake-fields _).0 ∙ h)
      ∙ ap wake g
      ∙ wake_twice _

  read_line :
      (c : Connection M) (line rest : List ℕ)
      → contains line newline ≡ false
      → read_units json c (line ++ newline ∷ rest)
        ≡ read_units json (handle_line json (record c { buffer = [] }) (c.buffer ++ line)) rest
  unfolding read_units read_unit
  read_line c [] rest h =
      ap (λ line. read_units json (handle_line json (record c { buffer = [] }) line) rest)
        (sym (append-nil c.buffer))
  read_line c (unit ∷ line) rest h =
      let more : nat_beq unit newline ≡ false = ground arith in
      ap (λ d. read_units json d (line ++ newline ∷ rest)) (read_unit-more json c unit more)
      ∙ read_line (record c { buffer = c.buffer ++ unit ∷ [] }) line rest (ground arith)
      ∙ ap (λ line. read_units json (handle_line json (record c { buffer = [] }) line) rest)
          (append_assoc c.buffer (unit ∷ []) line)

  handle_sent :
      (c : Connection M) (v : M)
      → IsJson json
      → handle_line json c (json.stringify v) ≡ record c { messages = c.messages ++ v ∷ [] }
  unfolding handle_line
  handle_sent c v j = rw (j.not_blank v, j.parse-stringify v)

  read_sent :
      (c : Connection M) (vs : List M)
      → IsJson json
      → c.buffer ≡ []
      → read_units json c (send_all json vs) ≡ record c { messages = c.messages ++ vs }
  unfolding send_all send
  read_sent c [] j b = unfold read_units in ground (arith, append-nil c.messages)
  read_sent c (v ∷ vs) j b =
      let d = record c { buffer = []; messages = c.messages ++ v ∷ [] } in
      ap (read_units json c) (append_assoc (json.stringify v) (newline ∷ []) (send_all json vs))
      ∙ read_line c (json.stringify v) (send_all json vs) (j.one_line v)
      ∙ ap
          (λ line.
            read_units json (handle_line json (record c { buffer = [] }) (line ++ json.stringify v))
              (send_all json vs))
          b
      ∙ ap (λ e. read_units json e (send_all json vs)) (handle_sent (record c { buffer = [] }) v j)
      ∙ read_sent d vs j refl
      ∙ ground (arith, append_assoc c.messages (v ∷ []) vs, b)

  -- Whatever values the peer sends, and however the socket cuts the text, a fresh connection receives
  -- exactly those values, in their order, with no error and nothing left in the buffer.
  pub sent_received :
      (vs : List M) (chunks : List (List ℕ))
      → IsJson json
      → flatten chunks ≡ send_all json vs
      → let c = deliver_all json open_connection chunks in
        (c.messages ≡ vs) × (c.buffer ≡ []) × (c.stream_error ≡ none) × (c.destroyed ≡ false)
  unfolding wake
  sent_received vs chunks j cut =
      let r = ap (read_units json open_connection) cut ∙ read_sent open_connection vs j refl in
      let e =
        deliver_all-flatten open_connection chunks IsPartial-nil
          (ap (λ (c : Connection M). c.destroyed) r)
        ∙ ap wake r in
      (
        ap (λ (c : Connection M). c.messages) e,
        ap (λ (c : Connection M). c.buffer) e,
        ap (λ (c : Connection M). c.stream_error) e,
        ap (λ (c : Connection M). c.destroyed) e,
      )

  closed_to :
      (d : Connection M) (later : List (List ℕ)) → d.destroyed ≡ true → deliver_all json d later ≡ d
  unfolding deliver_all deliver
  closed_to d [] gone = refl
  closed_to d (chunk ∷ later) gone = ground (arith, gone, closed_to d later gone)

  abbrev poisoned : Connection M → List M → List ℕ → Connection M
  poisoned c vs line = record c {
    messages = c.messages ++ vs;
    stream_error = some (invalid_frame line);
    destroyed = true;
  }

  handle_malformed :
      (c : Connection M) (line : List ℕ)
      → is_blank line ≡ false
      → json.parse line ≡ none
      → handle_line json c line
        ≡ record c { stream_error = some (invalid_frame line); destroyed = true }
  unfolding handle_line
  handle_malformed c line solid bad = rw (handle_line, solid, bad) refl

  read_malformed :
      (c : Connection M) (vs ws : List M) (line : List ℕ)
      → IsJson json
      → c.buffer ≡ []
      → contains line newline ≡ false
      → is_blank line ≡ false
      → json.parse line ≡ none
      → read_units json c (send_all json vs ++ (line ++ newline ∷ send_all json ws))
        ≡ record (poisoned c vs line) { messages = c.messages ++ vs ++ ws }
  read_malformed c vs ws line j empty one_line solid bad =
      let d = record c { messages = c.messages ++ vs } in
      read_units-append json c (send_all json vs) (line ++ newline ∷ send_all json ws)
      ∙ ap (λ e. read_units json e (line ++ newline ∷ send_all json ws)) (read_sent c vs j empty)
      ∙ read_line d line (send_all json ws) one_line
      ∙ ap
          (λ b.
            read_units json (handle_line json (record d { buffer = [] }) (b ++ line))
              (send_all json ws))
          empty
      ∙ ap (λ e. read_units json e (send_all json ws))
          (handle_malformed (record d { buffer = [] }) line solid bad
            ∙ ap (λ b. record (poisoned c vs line) { buffer = b }) (sym empty))
      ∙ read_sent (poisoned c vs line) ws j empty

  -- A chunk of frames of which one does not parse, on a stream between two frames: the values of the
  -- frames before it and of those behind it in the chunk arrive, the stream has the frame's error, and
  -- no later chunk changes anything.
  pub malformed_poisons :
      (c : Connection M) (vs ws : List M) (line : List ℕ) (later : List (List ℕ))
      → IsJson json
      → c.destroyed ≡ false
      → c.buffer ≡ []
      → contains line newline ≡ false
      → is_blank line ≡ false
      → json.parse line ≡ none
      → let d = deliver json c (send_all json vs ++ (line ++ newline ∷ send_all json ws)) in
        (d.messages ≡ c.messages ++ vs ++ ws)
        × (d.stream_error ≡ some (invalid_frame line))
        × (deliver_all json d later ≡ d)
  unfolding wake
  malformed_poisons c vs ws line later j alive empty one_line solid bad =
      let chunk = send_all json vs ++ (line ++ newline ∷ send_all json ws) in
      let p : IsPartial c.buffer = rw empty IsPartial-nil in
      let e =
        delivered c chunk alive
        ∙ (on_data-read_units json c chunk p).0
        ∙ ap wake (read_malformed c vs ws line j empty one_line solid bad) in
      (
        ap (λ (d : Connection M). d.messages) e,
        ap (λ (d : Connection M). d.stream_error) e,
        closed_to (deliver json c chunk) later (ap (λ (d : Connection M). d.destroyed) e),
      )

module _ {M : Type 0} where
  -- After the queued messages: the error, or the end, or a wait.
  abbrev pub last_pull : Connection M → Pull M
  last_pull c = elim (c.stream_error) [
    | some error ↦ thrown error
    | none ↦ if c.done then returned else blocked
  ]

  -- A reader is given every message that arrived, in its order, before it learns of an error or of the
  -- end of the stream.
  pub pulls_in_order :
      (c : Connection M) (messages : List M)
      → c.messages ≡ messages
      → pull_times (suc (length messages)) c ≡ map yielded messages ++ last_pull c ∷ []
  unfolding pull_times pull
  pulls_in_order c [] h = ground arith
  pulls_in_order c (message ∷ messages) h =
      ground (arith, pulls_in_order (record c { messages = messages }) messages refl)
