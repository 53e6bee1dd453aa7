-- ===== src/Transport/Bytes.antt =====
-- transport.ts: the loop over the buffer, against a machine that reads one code unit at a time.
use wosm.Base.{
  ℕ, zero, suc, ◌<◌, ◌≡◌, refl, sym, ap, ◌∙◌, true, false, List, [], ◌∷◌, ◌++◌, none, some, arith,
  length, length-append, nat_beq, if◌then◌else◌, append-nil, append_assoc, Bool-cases, inl, inr,
}
use wosm.Transport.{Json, Connection, newline, split_line, wake, handle_line, drain_buffer, on_data}

module _ {M : Type 0} where
  -- A newline hands the line on, any other unit joins it.
  unfoldable pub read_unit : Json M → Connection M → ℕ → Connection M
  read_unit json c unit =
      if nat_beq unit newline
      then handle_line json (record c { buffer = [] }) c.buffer
      else record c { buffer = c.buffer ++ unit ∷ [] }

  unfoldable pub read_units : Json M → Connection M → List ℕ → Connection M
  read_units json c [] = c
  read_units json c (unit ∷ units) = read_units json (read_unit json c unit) units

  pub read_units-append :
      (json : Json M) (c : Connection M) (xs ys : List ℕ)
      → read_units json c (xs ++ ys) ≡ read_units json (read_units json c xs) ys
  unfolding read_units
  read_units-append json c [] ys = refl
  read_units-append json c (x ∷ xs) ys = read_units-append json (read_unit json c x) xs ys

-- The buffer holds no complete line.
abbrev pub IsPartial : List ℕ → Type 0
IsPartial line = split_line line ≡ none

pub IsPartial-nil : IsPartial []
unfolding split_line
IsPartial-nil = refl

split_line-at :
    (line rest : List ℕ) → IsPartial line → split_line (line ++ newline ∷ rest) ≡ some (line, rest)
unfolding split_line
split_line-at [] rest h = refl
split_line-at (c ∷ line) rest h = ground (arith, split_line-at line rest)

snoc-IsPartial :
    (line : List ℕ) (c : ℕ)
    → nat_beq c newline ≡ false
    → IsPartial line
    → IsPartial (line ++ c ∷ [])
unfolding split_line
snoc-IsPartial [] c n h = ground arith
snoc-IsPartial (d ∷ line) c n h = ground (arith, snoc-IsPartial line c)

module _ {M : Type 0} (json : Json M) where
  -- A line's handling leaves the buffer alone.
  handle_line-buffer :
      (c : Connection M) (line rest : List ℕ)
      → handle_line json (record c { buffer = rest }) line
        ≡ record (handle_line json (record c { buffer = [] }) line) { buffer = rest }
  unfolding handle_line
  handle_line-buffer c line rest = ground arith

  handle_line-empty :
      (c : Connection M) (line : List ℕ)
      → (handle_line json (record c { buffer = [] }) line).buffer ≡ []
  unfolding handle_line
  handle_line-empty c line = ground arith

  -- One round on a buffer with a complete line, from any state that the rest is read in.
  drain_buffer-line :
      (fuel : ℕ) (c d : Connection M) (unit : ℕ) (chunk : List ℕ)
      → IsPartial c.buffer
      → nat_beq unit newline ≡ true
      → d ≡ handle_line json (record c { buffer = [] }) c.buffer
      → drain_buffer (suc fuel) json (record c { buffer = c.buffer ++ unit ∷ chunk })
        ≡ drain_buffer fuel json (record d { buffer = d.buffer ++ chunk })
  unfolding drain_buffer
  drain_buffer-line fuel c d unit chunk p end e =
      let nl : unit ≡ newline = ground arith in
      rw (nl, split_line-at c.buffer chunk p, drain_buffer, handle_line-buffer c c.buffer chunk)
        (rw (e, handle_line-empty c c.buffer) refl)

  read_unit-end :
      (c : Connection M) (unit : ℕ)
      → nat_beq unit newline ≡ true
      → read_unit json c unit ≡ handle_line json (record c { buffer = [] }) c.buffer
  unfolding read_unit
  read_unit-end c unit h = rw h

  pub read_unit-more :
      (c : Connection M) (unit : ℕ)
      → nat_beq unit newline ≡ false
      → read_unit json c unit ≡ record c { buffer = c.buffer ++ unit ∷ [] }
  unfolding read_unit
  read_unit-more c unit h = rw h

  drain_buffer-read_units :
      (fuel : ℕ) (c : Connection M) (chunk : List ℕ)
      → IsPartial c.buffer
      → length chunk < fuel
      → drain_buffer fuel json (record c { buffer = c.buffer ++ chunk }) ≡ read_units json c chunk
  unfolding read_units
  drain_buffer-read_units zero c chunk p h = elim h [ ]
  drain_buffer-read_units (suc fuel) c [] p h =
      unfold drain_buffer in ground (arith, append-nil c.buffer)
  drain_buffer-read_units (suc fuel) c (unit ∷ chunk) p h =
      elim (Bool-cases (nat_beq unit newline)) [
        | inl end ↦
            let d = handle_line json (record c { buffer = [] }) c.buffer in
            drain_buffer-line fuel c d unit chunk p end refl
            ∙ drain_buffer-read_units fuel d chunk (rw (handle_line-empty c c.buffer) IsPartial-nil)
                (omega arith)
            ∙ ap (λ e. read_units json e chunk) (sym (read_unit-end c unit end))
        | inr more ↦
            let d = record c { buffer = c.buffer ++ unit ∷ [] } in
            ap (λ b. drain_buffer (suc fuel) json (record c { buffer = b }))
              (sym (append_assoc c.buffer (unit ∷ []) chunk))
            ∙ drain_buffer-read_units (suc fuel) d chunk (snoc-IsPartial c.buffer unit more p)
                (omega arith)
            ∙ ap (λ e. read_units json e chunk) (sym (read_unit-more c unit more))
      ]

  -- One unit at a time, the buffer stays without a complete line.
  pub read_units-IsPartial :
      (c : Connection M) (chunk : List ℕ)
      → IsPartial c.buffer
      → IsPartial (read_units json c chunk).buffer
  unfolding read_units
  read_units-IsPartial c [] p = p
  read_units-IsPartial c (unit ∷ chunk) p = elim (Bool-cases (nat_beq unit newline)) [
    | inl end ↦
        read_units-IsPartial (read_unit json c unit) chunk
          (rw (read_unit-end c unit end, handle_line-empty c c.buffer) IsPartial-nil)
    | inr more ↦
        read_units-IsPartial (read_unit json c unit) chunk
          (rw (read_unit-more c unit more) (snoc-IsPartial c.buffer unit more p))
  ]

  -- The loop over the buffer has fuel enough, and does what reading one code unit at a time does; the
  -- buffer is left without a complete line.
  pub on_data-read_units :
      (c : Connection M) (chunk : List ℕ)
      → IsPartial c.buffer
      → (on_data json c chunk ≡ wake (read_units json c chunk))
        × IsPartial (on_data json c chunk).buffer
  unfolding on_data wake
  on_data-read_units c chunk p =
      let e =
        drain_buffer-read_units (suc (length (c.buffer ++ chunk))) c chunk p
          (omega (arith, length-append c.buffer chunk)) in
      (ap wake e, rw e (read_units-IsPartial c chunk p))
