-- ===== src/Ranges/Capped.antt =====
-- What is kept of a response, and how much.
use jaull.Base.{
  ℕ, zero, suc, ◌+◌, ◌-◌, ◌≤◌, ◌≡◌, true, List, [], ◌∷◌, ◌++◌, length, take, length-append,
  length-take_exact, length-take, leb→le, take-append, leb, ◌==◌, Bool-cases, arith, refl, sym, ap,
  inl, inr,
}
use mathlib.Core.List.{append_assoc, append-nil}
use jaull.Ranges.Client.{buffer_chunks, read_capped}

-- The whole body, as far as the server would send it.
abbrev pub body_of : List (List ℕ) → List ℕ
body_of [] = []
body_of (chunk ∷ chunks) = chunk ++ body_of chunks

take_over : (n m : ℕ) (xs ys : List ℕ) → m ≡ length xs + n → take m (xs ++ ys) ≡ xs ++ take n ys
take_over n m [] ys h = rw (h) (ap (λ k. take k ys) (omega arith))
take_over n zero (x ∷ xs) ys h = absurd (omega arith)
take_over n (suc m) (x ∷ xs) ys h = ap (λ zs. x ∷ zs) (take_over n m xs ys (omega arith))

take_all : (n : ℕ) (xs : List ℕ) → length xs ≤ n → take n xs ≡ xs
take_all zero [] h = refl
take_all (suc n) [] h = refl
take_all zero (x ∷ xs) h = absurd (omega arith)
take_all (suc n) (x ∷ xs) h = ap (λ zs. x ∷ zs) (take_all n xs (omega arith))

empty_chunk : (chunk : List ℕ) → (length chunk == 0) ≡ true → chunk ≡ []
empty_chunk [] h = refl
empty_chunk (x ∷ chunk) h = absurd (ground arith)

-- With `room` bytes left below the limit, the loop adds the first `room` bytes of the rest.
buffer_chunks-take :
    (chunks : List (List ℕ)) (limit room : ℕ) (buffer : List ℕ)
    → limit ≡ length buffer + room
    → buffer_chunks chunks limit buffer ≡ buffer ++ take room (body_of chunks)
unfolding buffer_chunks
buffer_chunks-take [] limit zero buffer h = sym (append-nil buffer)
buffer_chunks-take [] limit (suc room) buffer h = sym (append-nil buffer)
buffer_chunks-take (chunk ∷ chunks) limit room buffer h = elim (Bool-cases (length chunk == 0)) [
  | inl empty ↦ rw (empty, empty_chunk chunk empty) (buffer_chunks-take chunks limit room buffer h)
  | inr nonempty ↦ elim (Bool-cases (leb limit (length buffer))) [
    | inl full ↦
        let nothing : room ≡ 0 = ground arith in
        rw (nonempty, full, nothing) (sym (append-nil buffer))
    | inr open_end ↦
        let left : limit - length buffer ≡ room = omega arith in
        elim (Bool-cases (leb (length chunk) room)) [
          | inl whole ↦
              let fits : length chunk ≤ room = leb→le _ _ whole in
              let taken : take room chunk ≡ chunk = take_all room chunk fits in
              let over : take room (chunk ++ body_of chunks)
                  ≡ chunk ++ take (room - length chunk) (body_of chunks) =
                take_over (room - length chunk) room chunk (body_of chunks) (omega arith) in
              rw
                (
                  nonempty,
                  open_end,
                  left,
                  taken,
                  over,
                  ← append_assoc buffer chunk (take (room - length chunk) (body_of chunks)),
                )
                (elim (Bool-cases (leb limit (length (buffer ++ chunk)))) [
                  | inl full ↦
                      let nothing : room - length chunk ≡ 0 =
                        ground (arith, length-append buffer chunk) in
                      rw (full, nothing) (sym (append-nil (buffer ++ chunk)))
                  | inr more ↦ rw (more) (
                      buffer_chunks-take chunks limit (room - length chunk) (buffer ++ chunk)
                        (omega (arith, length-append buffer chunk)))
                ])
          | inr cut ↦
              let long : room ≤ length chunk = ground arith in
              let short : take room (chunk ++ body_of chunks) ≡ take room chunk =
                take-append room chunk (body_of chunks) long in
              let full : leb limit (length (buffer ++ take room chunk)) ≡ true = ground (
                arith,
                length-append buffer (take room chunk),
                length-take_exact room chunk long,
              ) in
              rw (nonempty, open_end, left, short, full) refl
        ]
  ]
]

-- Whatever chunks the server sends, what is kept is the first `limit` bytes of the body.
pub read_capped-take :
    (chunks : List (List ℕ)) (limit : ℕ) → read_capped chunks limit ≡ take limit (body_of chunks)
unfolding read_capped
read_capped-take chunks limit = elim (Bool-cases (limit == 0)) [
  | inl nothing ↦ let z : limit ≡ 0 = ground arith in rw (nothing, z) refl
  | inr some_bytes ↦ rw (some_bytes) (buffer_chunks-take chunks limit limit [] (omega arith))
]

pub length-read_capped :
    (chunks : List (List ℕ)) (limit : ℕ) → length (read_capped chunks limit) ≤ limit
length-read_capped chunks limit =
    rw (read_capped-take chunks limit) (omega (arith, length-take limit (body_of chunks)))
