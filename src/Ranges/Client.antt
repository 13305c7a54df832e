-- ===== src/Ranges/Client.antt =====
-- `HttpxRangeClient`: one request, of which no more than the requested bytes are kept. What the server
-- sends is an input; header texts are Latin-1, on code points.
use jaull.Base.{
  ℕ, ◌+◌, ◌-◌, ◌*◌, Bool, true, false, ◌&&◌, ◌||◌, Option, none, some, List, [], ◌∷◌, ◌++◌, length,
  take, codes, leb, ◌==◌, if◌then◌else◌,
}

pub record RangeResponse : Type 0 where
  pub body : List ℕ
  pub honored_range : Bool
  pub status_code : ℕ

-- What `fetch_range` does: TimeoutError, OSError, or a response.
pub data Fetched : Type 0 where
  timed_out failed : Fetched
  responded : RangeResponse → Fetched

-- What the server does to one request: an `httpx` exception, or a status, the Content-Range header
-- (empty if there is none) and the chunks of the body.
pub data Reply : Type 0 where
  timeout transport_error : Reply
  answer : ℕ → List ℕ → List (List ℕ) → Reply

unfoldable pub is_space : ℕ → Bool
is_space c = (leb 9 c && leb c 13) || (leb 28 c && leb c 32) || (c == 0x85) || (c == 0xa0)

unfoldable pub is_digit : ℕ → Bool
is_digit c = leb b'0' c && leb c b'9'

-- `\s*` and `\d*` read as far as they can; what follows them in the pattern cannot begin with what
-- they read, so there is nothing to take back.
unfoldable pub skip_spaces : List ℕ → List ℕ
unfolding is_space
skip_spaces [] = []
skip_spaces (c ∷ cs) = elim (is_space c) [ true ↦ skip_spaces cs | false ↦ c ∷ cs ]

abbrev pub digits_from : ℕ → List ℕ → ℕ × List ℕ
unfolding is_digit
digits_from n [] = (n, [])
digits_from n (c ∷ cs) = elim (is_digit c) [
  | true ↦ digits_from (10 * n + (c - b'0')) cs
  | false ↦ (n, c ∷ cs)
]

-- `\s+`
unfoldable pub spaces : List ℕ → Option (List ℕ)
unfolding is_space skip_spaces
spaces [] = none
spaces (c ∷ cs) = if is_space c then some (skip_spaces cs) else none

-- `\d+`
unfoldable pub digits : List ℕ → Option (ℕ × List ℕ)
unfolding is_digit digits_from
digits [] = none
digits (c ∷ cs) = if is_digit c then some (digits_from 0 (c ∷ cs)) else none

unfoldable pub expect : List ℕ → List ℕ → Option (List ℕ)
expect [] text = some text
expect (a ∷ needle) [] = none
expect (a ∷ needle) (c ∷ text) = if a == c then expect needle text else none

infixl 5 ◌>>=◌
abbrev ◌>>=◌ : {A B : Type 0} → Option A → (A → Option B) → Option B
none >>= f = none
some a >>= f = f a

unfoldable pub total_size : List ℕ → Option (List ℕ)
unfolding digits
total_size [] = none
total_size (c ∷ cs) = if c == b'*' then some cs else (digits (c ∷ cs) >>= λ (n, rest). some rest)

abbrev only_spaces : List ℕ → Option (List ℕ)
unfolding skip_spaces
only_spaces text = elim (skip_spaces text) [ [] ↦ some [] | c ∷ cs ↦ none ]

-- `_CONTENT_RANGE_RE.match`, and the integer of its first group.
unfoldable pub content_range_start : List ℕ → Option ℕ
unfolding skip_spaces spaces expect digits total_size only_spaces
content_range_start text = do
  after_unit ← expect (codes "bytes") (skip_spaces text)
  first ← spaces after_unit
  (start, after_start) ← digits first
  second ← expect (b'-' ∷ []) after_start
  (last, after_last) ← digits second
  third ← expect (b'/' ∷ []) after_last
  rest ← total_size third
  end ← only_spaces rest
  some start

abbrev pub is_start : Option ℕ → ℕ → Bool
is_start none start = false
is_start (some n) start = n == start

unfoldable pub range_was_honored : ℕ → List ℕ → ℕ → Bool
unfolding content_range_start
range_was_honored status content_range start =
    is_start (content_range_start content_range) start
    || ((status == 206) && (length content_range == 0))

-- The loop over the chunks of the body, with the buffer so far.
unfoldable pub buffer_chunks : List (List ℕ) → ℕ → List ℕ → List ℕ
buffer_chunks [] limit buffer = buffer
buffer_chunks (chunk ∷ chunks) limit buffer =
    if length chunk == 0
    then buffer_chunks chunks limit buffer
    else if leb limit (length buffer)
    then buffer
    else (let longer = buffer ++ take (limit - length buffer) chunk in
        let more = buffer_chunks chunks limit longer in
        if leb limit (length longer) then longer else more)

unfoldable pub read_capped : List (List ℕ) → ℕ → List ℕ
unfolding buffer_chunks
read_capped chunks limit = if limit == 0 then [] else buffer_chunks chunks limit []

-- The range starts at 0 in every call of the program.
unfoldable pub on_reply : Reply → ℕ → Fetched
unfolding read_capped range_was_honored
on_reply Reply.timeout requested_size = Fetched.timed_out
on_reply Reply.transport_error requested_size = Fetched.failed
on_reply (Reply.answer status content_range chunks) requested_size =
    if status == 416
    then Fetched.responded (record { body = []; honored_range = false; status_code = 416 })
    else if leb 400 status
    then Fetched.failed
    else Fetched.responded (record {
      body = read_capped chunks requested_size;
      honored_range = range_was_honored status content_range 0;
      status_code = status;
    })

unfoldable pub fetch_range : (ℕ → Reply) → ℕ → Fetched
unfolding on_reply
fetch_range server requested_size = on_reply (server requested_size) requested_size
