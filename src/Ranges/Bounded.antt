-- ===== src/Ranges/Bounded.antt =====
-- The loop ends for every server, within the download budget.
use jaull.Base.{
  ℕ, zero, suc, ◌*◌, ◌≤◌, ◌<◌, ◌≡◌, ◌≢◌, Bool, true, false, ◌||◌, none, some, List, [], ◌∷◌, ◌++◌,
  length, take, leb, leb→le, ◌==◌, if◌then◌else◌, Bool-cases, arith, refl, sym, ap, ◌∙◌, inl, inr,
  ◌⊎◌,
}
use jaull.Gguf.Cursor.{max_header_download_bytes}
use jaull.Gguf.Header.{GgufHeaderMetadata, Parsed, parse_header}
use jaull.Ranges.Client.{
  RangeResponse, Reply, fetch_range, on_reply, read_capped, range_was_honored,
}
use jaull.Ranges.Fetch.{
  FetchWarning, HeaderFetchResult, Round, after_parse, after_response, fetch_round, fetch_loop,
  fetch_gguf_header, initial_header_range_bytes, range_growth_factor,
}
use jaull.Ranges.Capped.{body_of, read_capped-take, length-read_capped}

-- The size that is requested after some rounds.
abbrev pub grown : ℕ → ℕ → ℕ
grown zero requested = requested
grown (suc rounds) requested = grown rounds (requested * range_growth_factor)

-- A header was parsed from the first bytes that the server sent for one of the ranges.
abbrev pub IsServed : (ℕ → Reply) → GgufHeaderMetadata → Type 0
IsServed server h =
    (size : ℕ) × (status : ℕ) × (content_range : List ℕ) × (chunks : List (List ℕ)) × (size
      ≤ max_header_download_bytes)
    × (server size ≡ Reply.answer status content_range chunks)
    × (parse_header (take size (body_of chunks)) ≡ Parsed.header h)

pub record IsWithin (server : ℕ → Reply) (r : HeaderFetchResult) : Type 0 where
  pub bounded : r.bytes_downloaded ≤ max_header_download_bytes
  pub served : (h : GgufHeaderMetadata) → r.header ≡ some h → IsServed server h

-- What one round keeps.
RoundWithin : (ℕ → Reply) → Round → Type 0
RoundWithin server (Round.grow downloaded warnings) = downloaded ≤ max_header_download_bytes
RoundWithin server (Round.stop r) = IsWithin server r

none-ne-some : {h : GgufHeaderMetadata} → none ≢ some h
none-ne-some e = cc

some-eq : {h h' : GgufHeaderMetadata} → some h ≡ some h' → h ≡ h'
some-eq e = cc

degraded-IsWithin :
    (server : ℕ → Reply) (downloaded : ℕ) (warnings : List FetchWarning)
    → downloaded ≤ max_header_download_bytes
    → IsWithin server (record { header = none; bytes_downloaded = downloaded; warnings = warnings })
degraded-IsWithin server downloaded warnings h = record {
  bounded = h;
  served = λ h e. absurd (none-ne-some e);
}

after_parse-Within :
    (server : ℕ → Reply) (parsed : Parsed) (honored : Bool) (downloaded : ℕ)
    (warnings : List FetchWarning)
    → downloaded ≤ max_header_download_bytes
    → ((h : GgufHeaderMetadata) → parsed ≡ Parsed.header h → IsServed server h)
    → RoundWithin server (after_parse parsed honored downloaded warnings)
unfolding after_parse RoundWithin
after_parse-Within server Parsed.incomplete true downloaded warnings b served = b
after_parse-Within server Parsed.incomplete false downloaded warnings b served =
    degraded-IsWithin server downloaded _ b
after_parse-Within server Parsed.invalid honored downloaded warnings b served =
    degraded-IsWithin server downloaded _ b
after_parse-Within server Parsed.not_gguf honored downloaded warnings b served =
    degraded-IsWithin server downloaded _ b
after_parse-Within server (Parsed.header h) honored downloaded warnings b served = record {
  bounded = b;
  served = λ h' e. served h' (ap Parsed.header (some-eq e));
}

RoundWithin-if :
    (server : ℕ → Reply) (b : Bool) (x y : Round)
    → RoundWithin server x
    → RoundWithin server y
    → RoundWithin server (if b then x else y)
RoundWithin-if server true x y hx hy = hx
RoundWithin-if server false x y hx hy = hy

after_response-Within :
    (server : ℕ → Reply) (response : RangeResponse) (warnings : List FetchWarning)
    → length response.body ≤ max_header_download_bytes
    → ((h : GgufHeaderMetadata) → parse_header response.body ≡ Parsed.header h → IsServed server h)
    → RoundWithin server (after_response response warnings)
unfolding after_response RoundWithin
after_response-Within server response warnings b served =
    RoundWithin-if server (response.status_code == 416) _ _ (degraded-IsWithin server _ _ b) (
      RoundWithin-if server ((response.status_code == 200) || (response.status_code == 206)) _ _
        (after_parse-Within server (parse_header response.body) response.honored_range _ _ b served)
        (degraded-IsWithin server _ _ b))

on_reply-Within :
    (server : ℕ → Reply) (reply : Reply) (size downloaded : ℕ) (warnings : List FetchWarning)
    → server size ≡ reply
    → size ≤ max_header_download_bytes
    → downloaded ≤ max_header_download_bytes
    → RoundWithin server (fetch_round (on_reply reply size) downloaded warnings)
unfolding fetch_round RoundWithin on_reply
on_reply-Within server Reply.timeout size downloaded warnings e within b =
    degraded-IsWithin server downloaded _ b
on_reply-Within server Reply.transport_error size downloaded warnings e within b =
    degraded-IsWithin server downloaded _ b
on_reply-Within server (Reply.answer status content_range chunks) size downloaded warnings e within
      b =
    elim (Bool-cases (status == 416)) [
      | inl unsatisfiable ↦ rw (unsatisfiable) (degraded-IsWithin server 0 _ (omega arith))
      | inr satisfiable ↦ elim (Bool-cases (leb 400 status)) [
        | inl error ↦ rw (satisfiable, error) (degraded-IsWithin server downloaded _ b)
        | inr fine ↦
            let fits : length (read_capped chunks size) ≤ max_header_download_bytes =
              omega (arith, length-read_capped chunks size) in
            let response : RangeResponse = record {
              body = read_capped chunks size;
              honored_range = range_was_honored status content_range 0;
              status_code = status;
            } in
            rw (satisfiable, fine)
              (after_response-Within server response warnings fits (λ h parsed. (
                size,
                status,
                content_range,
                chunks,
                within,
                e,
                sym (ap parse_header (read_capped-take chunks size)) ∙ parsed,
              )))
      ]
    ]

fetch_round-Within :
    (server : ℕ → Reply) (size downloaded : ℕ) (warnings : List FetchWarning)
    → size ≤ max_header_download_bytes
    → downloaded ≤ max_header_download_bytes
    → RoundWithin server (fetch_round (fetch_range server size) downloaded warnings)
unfolding fetch_range
fetch_round-Within server size downloaded warnings within b =
    on_reply-Within server (server size) size downloaded warnings refl within b

pub Round-cases :
    (round : Round)
    → ((r : HeaderFetchResult) × (round ≡ Round.stop r))
      ⊎ ((downloaded : ℕ) × (warnings : List FetchWarning) × (round
            ≡ Round.grow downloaded warnings))
Round-cases (Round.stop r) = inl (r, refl)
Round-cases (Round.grow downloaded warnings) = inr (downloaded, warnings, refl)

abbrev gave_up : ℕ → List FetchWarning → HeaderFetchResult
gave_up downloaded warnings = record {
  header = none;
  bytes_downloaded = downloaded;
  warnings = warnings ++ FetchWarning.over_budget ∷ [];
}

-- The loop, whose range passes the budget after `rounds` more rounds.
fetch_loop-Within :
    (rounds : ℕ) (server : ℕ → Reply) (requested downloaded : ℕ) (warnings : List FetchWarning)
    → max_header_download_bytes < grown rounds requested
    → downloaded ≤ max_header_download_bytes
    → (r : HeaderFetchResult) × (fetch_loop
          (suc rounds)
          (fetch_range server)
          requested
          downloaded
          warnings
        ≡ some r)
      × IsWithin server r
unfolding fetch_loop RoundWithin
fetch_loop-Within zero server requested downloaded warnings over b =
    let past : leb requested max_header_download_bytes ≡ false = ground arith in
    (
      gave_up downloaded warnings,
      rw (past, fetch_loop) refl,
      degraded-IsWithin server downloaded _ b,
    )
fetch_loop-Within (suc rounds) server requested downloaded warnings over b =
    elim (Bool-cases (leb requested max_header_download_bytes)) [
      | inr past ↦ (
        gave_up downloaded warnings,
        rw (past, fetch_loop) refl,
        degraded-IsWithin server downloaded _ b,
      )
      | inl fits ↦
          let within =
            fetch_round-Within server requested downloaded warnings (leb→le _ _ fits) b in
          elim (Round-cases (fetch_round (fetch_range server requested) downloaded warnings)) [
            | inl (r, e) ↦ (r, rw (fits, e, fetch_loop) refl, rw (e) at within)
            | inr (downloaded', warnings', e) ↦
                let (r, found, ok) =
                  fetch_loop-Within rounds server (requested * range_growth_factor) downloaded'
                    warnings' over (rw (e) at within) in
                (r, rw (fits, e, fetch_loop) found, ok)
          ]
    ]

-- Whatever the server answers to each range, the fetch returns a result, the last response that was
-- kept is within the download budget, and a header that is returned was parsed from the first bytes
-- that the server sent for one of the ranges.
pub fetch_gguf_header-IsWithin :
    (server : ℕ → Reply)
    → (r : HeaderFetchResult) × (fetch_gguf_header (fetch_range server) ≡ some r)
      × IsWithin server r
unfolding fetch_gguf_header
fetch_gguf_header-IsWithin server =
    fetch_loop-Within 6 server initial_header_range_bytes 0 [] (omega arith) (omega arith)
