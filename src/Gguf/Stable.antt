-- ===== src/Gguf/Stable.antt =====
-- More bytes at the end do not change what was read: a reader that succeeds on a prefix, or refuses
-- it, does the same on the longer input.
use jaull.Base.{
  ℕ, zero, suc, ◌+◌, ◌≡◌, Bool, true, false, Option, none, some, List, ◌++◌, length, take-append,
  drop-append, length-append, ltb, leb, ◌==◌, if◌then◌else◌, Bool-cases, arith, refl, inl, inr,
  ◌&&◌,
}
use jaull.Gguf.Bytes.{little, decode_utf8}
use jaull.Gguf.Cursor.{
  Cursor, Outcome, Reader, after, ◌>>=◌, pure, refuse, decoded, guard, read, read_u32, read_u64,
  read_string, max_header_download_bytes,
}
use jaull.Gguf.Values.{
  Value, Values, Format, fixed_format, unpack, read_fixed, read_elements, read_element, read_array,
  read_value, type_string, type_array,
}

abbrev pub extend : Cursor → List ℕ → Cursor
extend c more = record c { rest = c.rest ++ more }

abbrev pub Extends : {A : Type 0} → List ℕ → Outcome A → Outcome A → Type 0
Extends more (Outcome.ok a c) longer = longer ≡ Outcome.ok a (extend c more)
Extends more Outcome.invalid longer = longer ≡ Outcome.invalid
Extends more Outcome.incomplete longer = Unit {0}

abbrev pub IsStable : {A : Type 0} → Reader A → Type 0
IsStable p = (c : Cursor) (more : List ℕ) → Extends more (p c) (p (extend c more))

pub pure-IsStable : {A : Type 0} (a : A) → IsStable (pure a)
pure-IsStable a c more = refl

pub refuse-IsStable : {A : Type 0} → IsStable (refuse {A = A})
refuse-IsStable c more = refl

after-Extends :
    {A B : Type 0} (more : List ℕ) (short long : Outcome A) (f : A → Reader B)
    → Extends more short long
    → ((a : A) → IsStable (f a))
    → Extends more (after short f) (after long f)
after-Extends more (Outcome.ok a c) long f e h = rw (e) (h a c more)
after-Extends more Outcome.invalid long f e h = rw (e) refl
after-Extends more Outcome.incomplete long f e h = tt

pub >>=-IsStable :
    {A B : Type 0} (p : Reader A) (f : A → Reader B)
    → IsStable p
    → ((a : A) → IsStable (f a))
    → IsStable (p >>= f)
>>=-IsStable p f hp hf c more = after-Extends more (p c) (p (extend c more)) f (hp c more) hf

pub if-IsStable :
    {A : Type 0} (b : Bool) (p q : Reader A)
    → IsStable p
    → IsStable q
    → IsStable (if b then p else q)
if-IsStable true p q hp hq = hp
if-IsStable false p q hp hq = hq

pub guard-IsStable : {A : Type 0} (b : Bool) (p : Reader A) → IsStable p → IsStable (guard b p)
guard-IsStable true p hp = hp
guard-IsStable false p hp = refuse-IsStable

read-IsStable : (n : ℕ) → IsStable (read n)
unfolding read
read-IsStable n c more =
    elim (Bool-cases (c.is_stream && ltb max_header_download_bytes (c.offset + n))) [
      | inl over ↦ rw (over) refl
      | inr within ↦ elim (Bool-cases (ltb (length c.rest) n)) [
        | inl short ↦ rw (within, short) tt
        | inr enough ↦
            let longer : ltb (length (c.rest ++ more)) n ≡ false =
              ground (arith, length-append c.rest more) in
            rw (within, enough, longer)
              (ground (
                arith,
                take-append n c.rest more (ground arith),
                drop-append n c.rest more (ground arith),
              ))
      ]
    ]

pub read_u32-IsStable : IsStable read_u32
unfolding read_u32
read_u32-IsStable = >>=-IsStable (read 4) _ (read-IsStable 4) (λ raw. pure-IsStable (little raw))

pub read_u64-IsStable : IsStable read_u64
unfolding read_u64
read_u64-IsStable = >>=-IsStable (read 8) _ (read-IsStable 8) (λ raw. pure-IsStable (little raw))

decoded-IsStable : (text : Option (List ℕ)) → IsStable (decoded text)
decoded-IsStable none = refuse-IsStable
decoded-IsStable (some text) = pure-IsStable text

pub read_string-IsStable : IsStable read_string
unfolding read_string
read_string-IsStable = >>=-IsStable read_u64 _ read_u64-IsStable (λ size.
    >>=-IsStable (if ltb 1000000 size then refuse else read size) _
      (if-IsStable (ltb 1000000 size) refuse (read size) refuse-IsStable (read-IsStable size))
      (λ raw. decoded-IsStable (decode_utf8 raw)))

read_fixed-IsStable : (format : Option (Format × ℕ)) → IsStable (read_fixed format)
unfolding read_fixed
read_fixed-IsStable none = refuse-IsStable
read_fixed-IsStable (some (format, size)) =
    >>=-IsStable (read size) _ (read-IsStable size) (λ raw. pure-IsStable (unpack format raw))

read_elements-IsStable :
    (count : ℕ) (element : Reader Value) → IsStable element → IsStable (read_elements count element)
unfolding read_elements
read_elements-IsStable zero element h = pure-IsStable Values.no_values
read_elements-IsStable (suc count) element h = >>=-IsStable element _ h (λ v.
    >>=-IsStable (read_elements count element) _ (read_elements-IsStable count element h)
      (λ vs. pure-IsStable (Values.value v vs)))

read_element-IsStable :
    (inner_type : ℕ) (nested : Reader Values)
    → IsStable nested
    → IsStable (read_element inner_type nested)
unfolding read_element
read_element-IsStable inner_type nested h =
    if-IsStable (inner_type == type_string) _ _
      (>>=-IsStable read_string _ read_string-IsStable (λ s. pure-IsStable (Value.text s)))
      (if-IsStable (inner_type == type_array) _ _
        (>>=-IsStable nested _ h (λ vs. pure-IsStable (Value.array vs)))
        (read_fixed-IsStable (fixed_format inner_type)))

read_array-IsStable : (left : ℕ) → IsStable (read_array left)
unfolding read_array
read_array-IsStable zero = refuse-IsStable
read_array-IsStable (suc left) = >>=-IsStable read_u32 _ read_u32-IsStable (λ inner_type.
    >>=-IsStable read_u64 _ read_u64-IsStable (λ count. guard-IsStable (leb count 10000000) _ (
      read_elements-IsStable count _
        (read_element-IsStable inner_type _ (read_array-IsStable left)))))

pub read_value-IsStable : IsStable read_value
unfolding read_value
read_value-IsStable =
    >>=-IsStable read_u32 _ read_u32-IsStable
      (λ type_id. read_element-IsStable type_id _ (read_array-IsStable 33))
