-- ===== src/Ranges/Found.antt =====
-- A header that fits in the download budget is found.
use jaull.Base.{
  ℕ, zero, suc, ◌*◌, ◌≤◌, ◌≡◌, ◌≢◌, Bool, true, false, ◌||◌, some, List, [], ◌∷◌, ◌++◌, length,
  take, leb, le→leb, ◌==◌, if◌then◌else◌, arith, refl, sym, ap, ◌∙◌, inl, inr, ◌⊎◌,
}
use jaull.Gguf.Cursor.{max_header_download_bytes}
use jaull.Gguf.Header.{GgufHeaderMetadata, Parsed, parse_header}
use jaull.Gguf.Prefix.{is_final, parse_header_prefix}
use jaull.Gguf.Partial.{SameEstimate}
use jaull.Gguf.Agreement.{repeats_no_key, parse_header-SameEstimate}
use jaull.Ranges.Client.{Reply, fetch_range, on_reply, read_capped, range_was_honored}
use jaull.Ranges.Fetch.{
  FetchWarning, HeaderFetchResult, after_parse, after_response, fetch_round, fetch_loop,
  fetch_gguf_header, initial_header_range_bytes, range_growth_factor,
}
use jaull.Ranges.Capped.{body_of, read_capped-take}
use jaull.Ranges.Bounded.{grown}

abbrev pub is_success : ℕ → Bool
is_success status = (status == 200) || (status == 206)

-- The server answers each range with the bytes of the file, and shows that it honours the range.
abbrev pub Serves : List ℕ → (ℕ → Reply) → Type 0
Serves file server =
    (size : ℕ)
    → (status : ℕ) × (content_range : List ℕ) × (chunks : List (List ℕ)) × (server size
        ≡ Reply.answer status content_range chunks)
      × (is_success status ≡ true)
      × (range_was_honored status content_range 0 ≡ true)
      × (take size (body_of chunks) ≡ take size file)

take_more : (n m : ℕ) (xs : List ℕ) → n ≤ m → (ys : List ℕ) × (take m xs ≡ take n xs ++ ys)
take_more zero m xs h = (take m xs, refl)
take_more (suc n) zero xs h = absurd (omega arith)
take_more (suc n) (suc m) [] h = ([], refl)
take_more (suc n) (suc m) (x ∷ xs) h =
    let (ys, e) = take_more n m xs (omega arith) in (ys, ap (λ zs. x ∷ zs) e)

answered_round :
    (status : ℕ) (content_range : List ℕ) (chunks : List (List ℕ)) (size downloaded : ℕ)
    (warnings : List FetchWarning)
    → is_success status ≡ true
    → range_was_honored status content_range 0 ≡ true
    → fetch_round (on_reply (Reply.answer status content_range chunks) size) downloaded warnings
      ≡ after_parse
          (parse_header (read_capped chunks size))
          true
          (length (read_capped chunks size))
          warnings
unfolding fetch_round on_reply after_response
answered_round status content_range chunks size downloaded warnings good honored =
    let satisfiable : (status == 416) ≡ false = ground arith in
    let fine : leb 400 status ≡ false = ground arith in
    rw (satisfiable, fine, honored, good, satisfiable) refl

-- A round with such a server is a parse of the file's prefix.
served_round :
    (file : List ℕ) (server : ℕ → Reply) (size downloaded : ℕ) (warnings : List FetchWarning)
    → Serves file server
    → (downloaded' : ℕ) × (fetch_round (fetch_range server size) downloaded warnings
        ≡ after_parse (parse_header (take size file)) true downloaded' warnings)
unfolding fetch_range
served_round file server size downloaded warnings serves =
    let (status, content_range, chunks, e, good, honored, same) = serves size in
    let body : read_capped chunks size ≡ take size file = read_capped-take chunks size ∙ same in
    (
      length (take size file),
      ap (λ reply. fetch_round (on_reply reply size) downloaded warnings) e
          ∙ answered_round status content_range chunks size downloaded warnings good honored
          ∙ ap (λ body. after_parse (parse_header body) true (length body) warnings) body,
    )

le_grown : (rounds requested : ℕ) → requested ≤ grown rounds requested
le_grown zero requested = omega arith
le_grown (suc rounds) requested = omega (arith, le_grown rounds (requested * range_growth_factor))

not_gguf-ne-header : {h : GgufHeaderMetadata} → Parsed.not_gguf ≢ Parsed.header h
not_gguf-ne-header e = cc

invalid-ne-header : {h : GgufHeaderMetadata} → Parsed.invalid ≢ Parsed.header h
invalid-ne-header e = cc

incomplete-ne-header : {h : GgufHeaderMetadata} → Parsed.incomplete ≢ Parsed.header h
incomplete-ne-header e = cc

Parsed-cases :
    (p : Parsed)
    → ((h : GgufHeaderMetadata) × (p ≡ Parsed.header h))
      ⊎ (p ≡ Parsed.incomplete)
      ⊎ (is_final p ≡ true) × ((h : GgufHeaderMetadata) → p ≢ Parsed.header h)
unfolding is_final
Parsed-cases (Parsed.header h) = inl (h, refl)
Parsed-cases Parsed.incomplete = inr (inl refl)
Parsed-cases Parsed.not_gguf = inr (inr (refl, λ h e. not_gguf-ne-header e))
Parsed-cases Parsed.invalid = inr (inr (refl, λ h e. invalid-ne-header e))

module _ (file : List ℕ) (server : ℕ → Reply) (serves : Serves file server) {h : GgufHeaderMetadata}
    (fits : parse_header (take max_header_download_bytes file) ≡ Parsed.header h)
    (fresh : repeats_no_key (take max_header_download_bytes file) ≡ true) where
  -- A range within the budget gives a header, or is a proper part of the budget and too small.
  prefix_cases :
      (size : ℕ)
      → size ≤ max_header_download_bytes
      → ((h' : GgufHeaderMetadata) × (parse_header (take size file) ≡ Parsed.header h')
          × SameEstimate h' h)
        ⊎ (parse_header (take size file) ≡ Parsed.incomplete) × (size ≢ max_header_download_bytes)
  prefix_cases size within =
      let (more, split) = take_more size max_header_download_bytes file within in
      let whole : parse_header (take size file ++ more) ≡ Parsed.header h =
        sym (ap parse_header split) ∙ fits in
      elim (Parsed-cases (parse_header (take size file))) [
        | inl (h', e) ↦ inl (
          h',
          e,
          parse_header-SameEstimate (take size file) more e whole
              (sym (ap repeats_no_key split) ∙ fresh),
        )
        | inr (inl e) ↦ inr (
          e,
          λ all. incomplete-ne-header (sym e ∙ ap (λ n. parse_header (take n file)) all ∙ fits),
        )
        | inr (inr (final, other)) ↦
            absurd (other h (sym (parse_header_prefix (take size file) more final) ∙ whole))
      ]

  abbrev found_with : GgufHeaderMetadata → ℕ → List FetchWarning → HeaderFetchResult
  found_with h' downloaded warnings = record {
    header = some h';
    bytes_downloaded = downloaded;
    warnings = if h'.is_complete then warnings else warnings ++ FetchWarning.partial_header ∷ [];
  }

  -- The loop, whose range is the whole budget after `rounds` more rounds, with fuel for one more.
  fetch_loop_finds :
      (rounds requested downloaded : ℕ) (warnings : List FetchWarning)
      → grown rounds requested ≡ max_header_download_bytes
      → (r : HeaderFetchResult) × (h' : GgufHeaderMetadata) × (fetch_loop
            (suc (suc rounds))
            (fetch_range server)
            requested
            downloaded
            warnings
          ≡ some r)
        × (r.header ≡ some h')
        × SameEstimate h' h
  unfolding fetch_loop after_parse
  fetch_loop_finds zero requested downloaded warnings g =
      let (d, round) = served_round file server requested downloaded warnings serves in
      let within : leb requested max_header_download_bytes ≡ true = le→leb _ _ (omega arith) in
      elim (prefix_cases requested (omega arith)) [
        | inr (e, proper) ↦ absurd (proper g)
        | inl (h', e, same) ↦
            (found_with h' d warnings, h', rw (within, round, e, fetch_loop) refl, refl, same)
      ]
  fetch_loop_finds (suc rounds) requested downloaded warnings g =
      let (d, round) = served_round file server requested downloaded warnings serves in
      let fit : requested ≤ max_header_download_bytes =
        omega (arith, le_grown (suc rounds) requested, g) in
      let within : leb requested max_header_download_bytes ≡ true = le→leb _ _ fit in
      elim (prefix_cases requested fit) [
        | inl (h', e, same) ↦
            (found_with h' d warnings, h', rw (within, round, e, fetch_loop) refl, refl, same)
        | inr (e, proper) ↦
            let (r, h', found, has, same) =
              fetch_loop_finds rounds (requested * range_growth_factor) d warnings g in
            (r, h', rw (within, round, e, fetch_loop) found, has, same)
      ]

-- If a server answers each range with the bytes of the file and honours it, the first 8 MiB of the
-- file parse to a header, and no key is repeated in it, then the fetch returns a header, which has the
-- same architecture, context length, embedding length, block count and head counts.
pub fetch_gguf_header_finds :
    (file : List ℕ) (server : ℕ → Reply) {h : GgufHeaderMetadata}
    → Serves file server
    → parse_header (take max_header_download_bytes file) ≡ Parsed.header h
    → repeats_no_key (take max_header_download_bytes file) ≡ true
    → (r : HeaderFetchResult) × (h' : GgufHeaderMetadata) × (fetch_gguf_header (fetch_range server)
        ≡ some r)
      × (r.header ≡ some h')
      × SameEstimate h' h
unfolding fetch_gguf_header
fetch_gguf_header_finds file server serves fits fresh =
    fetch_loop_finds file server serves fits fresh 5 initial_header_range_bytes 0 [] refl
