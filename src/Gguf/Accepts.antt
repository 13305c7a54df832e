-- ===== src/Gguf/Accepts.antt =====
-- The reader takes every value of the format.
use jaull.Base.{
  ℕ, ◌≤◌, ◌≡◌, ◌≢◌, true, false, none, some, List, [], ◌++◌, length, take, drop, take-length,
  drop-length, length-append, ltb, leb, le→leb, ◌==◌, if◌then◌else◌, Bool-cases, arith, refl, sym,
  ap, ◌∙◌, inl, inr,
}
use mathlib.Core.List.{append_assoc}
use jaull.Gguf.Bytes.{little, decode_utf8}
use jaull.Gguf.Cursor.{
  Cursor, Outcome, Reader, ◌>>=◌, pure, refuse, decoded, taken, read, read_u32, read_u64,
  read_string,
}
use jaull.Gguf.Values.{
  Value, Values, Format, fixed_format, unpack, read_fixed, read_elements, read_element, read_array,
  read_value, type_string, type_array,
}
use jaull.Gguf.Grammar.{IsNumber, IsString, IsElement, IsArray, IsElements, IsValue}

-- On bytes that start with `bytes`, the reader gives `a` and leaves what follows.
abbrev pub Accepts : {A : Type 0} → Reader A → A → List ℕ → Type 0
Accepts p a bytes =
    (c : Cursor) (rest : List ℕ)
    → c.is_stream ≡ false
    → c.rest ≡ bytes ++ rest
    → (c' : Cursor) × (p c ≡ Outcome.ok a c') × (c'.is_stream ≡ false) × (c'.rest ≡ rest)

pub pure-Accepts : {A : Type 0} (a : A) → Accepts (pure a) a []
pure-Accepts a c rest s e = (c, refl, s, e)

-- One reader after another.
pub >>=-Accepts :
    {A B : Type 0} (p : Reader A) (f : A → Reader B) (a : A) (b : B) (first second : List ℕ)
    → Accepts p a first
    → Accepts (f a) b second
    → Accepts (p >>= f) b (first ++ second)
>>=-Accepts p f a b first second hp hf c rest s e =
    let (c', e1, s', r') = hp c (second ++ rest) s (e ∙ append_assoc first second rest) in
    let (c'', e2, s'', r'') = hf c' rest s' r' in (c'', rw (e1) e2, s'', r'')

read-Accepts : (n : ℕ) (raw : List ℕ) → length raw ≡ n → Accepts (read n) raw raw
unfolding read
read-Accepts n raw h c rest s e =
    let enough : ltb (length c.rest) n ≡ false =
      ground (arith, ap (λ (xs : List ℕ). length xs) e, length-append raw rest) in
    let front : take n c.rest ≡ raw =
      ap (λ k. take k c.rest) (sym h) ∙ ap (λ xs. take (length raw) xs) e ∙ take-length raw rest in
    let back : drop n c.rest ≡ rest =
      ap (λ k. drop k c.rest) (sym h) ∙ ap (λ xs. drop (length raw) xs) e ∙ drop-length raw rest in
    (taken n c, rw (s, enough, front) refl, s, back)

-- A reader followed by a computation.
map-Accepts :
    {A B : Type 0} (p : Reader A) (g : A → B) (a : A) (bytes : List ℕ)
    → Accepts p a bytes
    → Accepts (p >>= λ x. pure (g x)) (g a) bytes
map-Accepts p g a bytes hp c rest s e =
    let (c', e1, s', r') = hp c rest s e in (c', rw (e1) refl, s', r')

-- The result that is asked for may be written otherwise.
same-Accepts :
    {A : Type 0} (p : Reader A) (a b : A) (bytes : List ℕ)
    → a ≡ b
    → Accepts p a bytes
    → Accepts p b bytes
same-Accepts p a b bytes e h = rw (← e) h

pub read_u32-Accepts : (n : ℕ) (raw : List ℕ) → IsNumber 4 n raw → Accepts read_u32 n raw
unfolding read_u32
read_u32-Accepts n raw (size, value) =
    same-Accepts _ (little raw) n raw value
      (map-Accepts (read 4) little raw raw (read-Accepts 4 raw size))

pub read_u64-Accepts : (n : ℕ) (raw : List ℕ) → IsNumber 8 n raw → Accepts read_u64 n raw
unfolding read_u64
read_u64-Accepts n raw (size, value) =
    same-Accepts _ (little raw) n raw value
      (map-Accepts (read 8) little raw raw (read-Accepts 8 raw size))

-- The rest of `read_string`, once the length is known.
string_body-Accepts :
    (raw text : List ℕ)
    → length raw ≤ 1000000
    → decode_utf8 raw ≡ some text
    → Accepts
        ((if ltb 1000000 (length raw) then refuse else read (length raw)) >>= λ r.
          decoded (decode_utf8 r))
        text
        raw
string_body-Accepts raw text fits e c rest s h =
    let small : ltb 1000000 (length raw) ≡ false = ground arith in
    let (c', e1, s', r') = read-Accepts (length raw) raw refl c rest s h in
    (c', rw (small, e1, e) refl, s', r')

pub read_string-Accepts :
    (text bytes : List ℕ) → IsString text bytes → Accepts read_string text bytes
unfolding read_string
read_string-Accepts text bytes (size, raw, split, number, fits, e) = rw (split) (
    >>=-Accepts read_u64 _ (length raw) text size raw (read_u64-Accepts (length raw) size number)
      (string_body-Accepts raw text fits e))

read_fixed-Accepts :
    (type_id : ℕ) (format : Format) (raw : List ℕ)
    → fixed_format type_id ≡ some (format, length raw)
    → Accepts (read_fixed (fixed_format type_id)) (unpack format raw) raw
unfolding read_fixed
read_fixed-Accepts type_id format raw e =
    rw (e)
      (map-Accepts (read (length raw)) (unpack format) raw raw (read-Accepts (length raw) raw refl))

no_format : {f : Format × ℕ} → none ≢ some f
no_format e = cc

-- A string or an array is no fixed format, so the branch is the one of the type.
not_type :
    (type_id other : ℕ) {format : Format} {size : ℕ}
    → fixed_format other ≡ none
    → fixed_format type_id ≡ some (format, size)
    → (type_id == other) ≡ false
not_type type_id other formatless e = elim (Bool-cases (type_id == other)) [
  | inr apart ↦ apart
  | inl same ↦
      let is : type_id ≡ other = ground arith in
      absurd (no_format (sym formatless ∙ ap fixed_format (sym is) ∙ e))
]

string_has_no_format : fixed_format type_string ≡ none
unfolding fixed_format
string_has_no_format = refl

array_has_no_format : fixed_format type_array ≡ none
unfolding fixed_format
array_has_no_format = refl

mutual
  unfolding read_element read_array read_elements

  read_element-Accepts :
      (left inner_type : ℕ) (v : Value) (bytes : List ℕ)
      → IsElement left inner_type v bytes
      → Accepts (read_element inner_type (read_array left)) v bytes
  read_element-Accepts left inner_type v bytes (IsElement.fixed_value _ _ _ _ format e is) =
      rw
        (
          not_type inner_type type_string string_has_no_format e,
          not_type inner_type type_array array_has_no_format e,
          is,
        )
        (read_fixed-Accepts inner_type format bytes e)
  read_element-Accepts left inner_type v bytes (IsElement.string_value _ _ _ _ text type is s) =
      rw (type, is)
        (map-Accepts read_string Value.text text bytes (read_string-Accepts text bytes s))
  read_element-Accepts left inner_type v bytes (IsElement.array_value _ _ _ _ vs type is a) =
      rw (type, is)
        (map-Accepts (read_array left) Value.array vs bytes (read_array-Accepts left vs bytes a))

  read_array-Accepts :
      (left : ℕ) (vs : Values) (bytes : List ℕ)
      → IsArray left vs bytes
      → Accepts (read_array left) vs bytes
  read_array-Accepts _ vs bytes
        (IsArray.array_of left _ _ inner_type count type_bytes count_bytes body split type number
          fits elements) =
      let plausible : leb count 10000000 ≡ true = le→leb _ _ fits in
      rw (split) (
        >>=-Accepts read_u32 _ inner_type vs type_bytes (count_bytes ++ body)
          (read_u32-Accepts inner_type type_bytes type)
          (>>=-Accepts read_u64 _ count vs count_bytes body
            (read_u64-Accepts count count_bytes number)
            (rw (plausible) (read_elements-Accepts left inner_type count vs body elements))))

  read_elements-Accepts :
      (left inner_type count : ℕ) (vs : Values) (bytes : List ℕ)
      → IsElements left inner_type count vs bytes
      → Accepts (read_elements count (read_element inner_type (read_array left))) vs bytes
  read_elements-Accepts _ _ _ _ _ (IsElements.no_elements left inner_type) =
      pure-Accepts Values.no_values
  read_elements-Accepts _ _ _ _ _
        (IsElements.next_element left inner_type count v vs bytes first rest split one more) =
      rw (split) (
        >>=-Accepts (read_element inner_type (read_array left)) _ v (Values.value v vs) first rest
          (read_element-Accepts left inner_type v first one)
          (map-Accepts (read_elements count (read_element inner_type (read_array left)))
            (Values.value v) vs rest (read_elements-Accepts left inner_type count vs rest more)))

pub read_value-Accepts : (v : Value) (bytes : List ℕ) → IsValue v bytes → Accepts read_value v bytes
unfolding read_value
read_value-Accepts v bytes (type_id, type_bytes, body, split, type, element) = rw (split) (
    >>=-Accepts read_u32 _ type_id v type_bytes body (read_u32-Accepts type_id type_bytes type)
      (read_element-Accepts 33 type_id v body element))
