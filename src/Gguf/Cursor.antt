-- ===== src/Gguf/Cursor.antt =====
-- `_Cursor`: reading from the bytes of a range, or from a local file within the read budget.
use jaull.Base.{
  ℕ, ◌+◌, ◌*◌, Bool, true, false, ◌&&◌, Option, none, some, List, length, take, drop, ltb,
  if◌then◌else◌,
}
use jaull.Gguf.Bytes.{little, decode_utf8}

-- `MAX_HEADER_DOWNLOAD_BYTES`
abbrev pub max_header_download_bytes : ℕ
max_header_download_bytes = 8 * 1048576

-- What is left to read, and how much was read. A stream is a local file.
pub record Cursor : Type 0 where
  pub rest : List ℕ
  pub offset : ℕ
  pub is_stream : Bool

-- `incomplete` is GgufHeaderIncompleteError, `invalid` is GgufHeaderInvalidError.
pub data Outcome (A : Type 0) : Type 0 where
  ok : A → Cursor → Outcome A
  incomplete invalid : Outcome A

abbrev pub Reader : Type 0 → Type 0
Reader A = Cursor → Outcome A

abbrev pub after : {A B : Type 0} → Outcome A → (A → Reader B) → Outcome B
after (Outcome.ok a c) f = f a c
after Outcome.incomplete f = Outcome.incomplete
after Outcome.invalid f = Outcome.invalid

infixl 5 ◌>>=◌
abbrev pub ◌>>=◌ : {A B : Type 0} → Reader A → (A → Reader B) → Reader B
◌>>=◌ p f c = after (p c) f

abbrev pub pure : {A : Type 0} → A → Reader A
pure a c = Outcome.ok a c

abbrev pub refuse : {A : Type 0} → Reader A
refuse c = Outcome.invalid

abbrev pub taken : ℕ → Cursor → Cursor
taken n c = record c { rest = drop n c.rest; offset = c.offset + n }

unfoldable pub read : ℕ → Reader (List ℕ)
read n c =
    if c.is_stream && ltb max_header_download_bytes (c.offset + n)
    then Outcome.invalid
    else if ltb (length c.rest) n
    then Outcome.incomplete
    else Outcome.ok (take n c.rest) (taken n c)

unfoldable pub read_u32 : Reader ℕ
unfolding read
read_u32 = read 4 >>= λ raw. pure (little raw)

unfoldable pub read_u64 : Reader ℕ
unfolding read
read_u64 = read 8 >>= λ raw. pure (little raw)

abbrev pub decoded : Option (List ℕ) → Reader (List ℕ)
decoded none = refuse
decoded (some text) = pure text

abbrev pub guard : {A : Type 0} → Bool → Reader A → Reader A
guard true p = p
guard false p = refuse

unfoldable pub read_string : Reader (List ℕ)
unfolding read_u64 read
read_string = do
  size ← read_u64
  raw ← (if ltb 1000000 size then refuse else read size)
  decoded (decode_utf8 raw)
