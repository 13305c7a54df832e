-- ===== src/Gguf/Bytes.antt =====
-- What `struct.unpack` with little-endian formats and `bytes.decode("utf-8")` give. A byte is a
-- number below 256; a text is the list of its code points.
use jaull.Base.{
  ℕ, zero, suc, ◌+◌, ◌-◌, ◌*◌, ◌^◌, Bool, true, false, ◌&&◌, Option, none, some, List, [], ◌∷◌,
  length, ltb, leb, ◌==◌, if◌then◌else◌,
}
use jaull.Base.Int.{ℤ}

unfoldable pub little : List ℕ → ℕ
little [] = 0
little (b ∷ bs) = b + 256 * little bs

-- Two's complement over all the bytes.
unfoldable pub signed : List ℕ → ℤ
unfolding little
signed raw =
    if ltb (little raw) (2 ^ (8 * length raw - 1))
    then ℤ.pos (little raw)
    else ℤ.negsuc (2 ^ (8 * length raw) - little raw - 1)

-- The state of a UTF-8 decoder: how many continuation bytes are still to come, the bounds of the
-- next one, and the bits so far.
pub record Pending : Type 0 where
  pub missing : ℕ
  pub low : ℕ
  pub high : ℕ
  pub bits : ℕ

abbrev pub between : ℕ → ℕ → ℕ → Bool
between low high b = leb low b && leb b high

abbrev pub idle : Pending
idle = record { missing = 0; low = 0x80; high = 0xbf; bits = 0 }

-- The bounds of the second byte leave out overlong forms, surrogates and what is past U+10FFFF.
unfoldable pub start_sequence : ℕ → Option Pending
start_sequence b =
    if between 0xc2 0xdf b
    then some (record { missing = 1; low = 0x80; high = 0xbf; bits = b - 0xc0 })
    else if b == 0xe0
    then some (record { missing = 2; low = 0xa0; high = 0xbf; bits = 0 })
    else if b == 0xed
    then some (record { missing = 2; low = 0x80; high = 0x9f; bits = 0xd })
    else if between 0xe1 0xef b
    then some (record { missing = 2; low = 0x80; high = 0xbf; bits = b - 0xe0 })
    else if b == 0xf0
    then some (record { missing = 3; low = 0x90; high = 0xbf; bits = 0 })
    else if between 0xf1 0xf3 b
    then some (record { missing = 3; low = 0x80; high = 0xbf; bits = b - 0xf0 })
    else if b == 0xf4
    then some (record { missing = 3; low = 0x80; high = 0x8f; bits = 4 })
    else none

abbrev pub cons_code : ℕ → Option (List ℕ) → Option (List ℕ)
cons_code c none = none
cons_code c (some cs) = some (c ∷ cs)

-- None is the `UnicodeDecodeError`.
unfoldable pub decode_from : Pending → List ℕ → Option (List ℕ)
unfolding start_sequence
decode_from p [] = if p.missing == 0 then some [] else none
decode_from p (b ∷ bs) = elim (p.missing) [
  | zero ↦ elim (leb b 0x7f) [
    | true ↦ cons_code b (decode_from idle bs)
    | false ↦ elim (start_sequence b) [ none ↦ none | some q ↦ decode_from q bs ]
  ]
  | suc more ↦
      let code = p.bits * 64 + (b - 0x80) in
      elim (between p.low p.high b) [
        | false ↦ none
        | true ↦ elim (more == 0) [
          | true ↦ cons_code code (decode_from idle bs)
          | false ↦ decode_from (record { missing = more; low = 0x80; high = 0xbf; bits = code }) bs
        ]
      ]
]

unfoldable pub decode_utf8 : List ℕ → Option (List ℕ)
unfolding decode_from
decode_utf8 raw = decode_from idle raw
