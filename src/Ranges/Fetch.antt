-- ===== src/Ranges/Fetch.antt =====
-- `fetch_gguf_header`: the loop that doubles the range until the header parses.
use jaull.Base.{
  ℕ, zero, suc, ◌*◌, Bool, true, false, ◌||◌, Option, none, some, List, [], ◌∷◌, ◌++◌, length, leb,
  ◌==◌, if◌then◌else◌,
}
use jaull.Gguf.Cursor.{max_header_download_bytes}
use jaull.Gguf.Header.{GgufHeaderMetadata, Parsed, parse_header}
use jaull.Ranges.Client.{RangeResponse, Fetched}

abbrev pub initial_header_range_bytes : ℕ
initial_header_range_bytes = 256 * 1024

abbrev pub range_growth_factor : ℕ
range_growth_factor = 2

pub data FetchWarning : Type 0 where
  timed_out network_error not_satisfiable unexpected_status range_ignored too_small invalid_header
        not_gguf partial_header over_budget :
      FetchWarning

pub record HeaderFetchResult : Type 0 where
  pub header : Option GgufHeaderMetadata
  pub bytes_downloaded : ℕ
  pub warnings : List FetchWarning

-- Another range is to be requested, or the result.
pub data Round : Type 0 where
  grow : ℕ → List FetchWarning → Round
  stop : HeaderFetchResult → Round

abbrev pub degraded : ℕ → List FetchWarning → FetchWarning → Round
degraded downloaded warnings warning =
    Round.stop
      (record { header = none; bytes_downloaded = downloaded; warnings = warnings ++ warning ∷ [] })

unfoldable pub after_parse : Parsed → Bool → ℕ → List FetchWarning → Round
after_parse Parsed.incomplete honored downloaded warnings =
    if honored
    then Round.grow downloaded warnings
    else degraded downloaded warnings FetchWarning.too_small
after_parse Parsed.invalid honored downloaded warnings =
    degraded downloaded warnings FetchWarning.invalid_header
after_parse Parsed.not_gguf honored downloaded warnings =
    degraded downloaded warnings FetchWarning.not_gguf
after_parse (Parsed.header h) honored downloaded warnings = Round.stop (record {
  header = some h;
  bytes_downloaded = downloaded;
  warnings = if h.is_complete then warnings else warnings ++ FetchWarning.partial_header ∷ [];
})

unfoldable pub after_response : RangeResponse → List FetchWarning → Round
unfolding after_parse parse_header
after_response response warnings =
    let downloaded = length response.body in
    if response.status_code == 416
    then degraded downloaded warnings FetchWarning.not_satisfiable
    else if (response.status_code == 200) || (response.status_code == 206)
    then after_parse (parse_header response.body) response.honored_range downloaded
        (if response.honored_range then warnings else warnings ++ FetchWarning.range_ignored ∷ [])
    else degraded downloaded warnings FetchWarning.unexpected_status

-- One request; a failed one keeps the byte count of the last response.
unfoldable pub fetch_round : Fetched → ℕ → List FetchWarning → Round
unfolding after_response
fetch_round Fetched.timed_out downloaded warnings =
    degraded downloaded warnings FetchWarning.timed_out
fetch_round Fetched.failed downloaded warnings =
    degraded downloaded warnings FetchWarning.network_error
fetch_round (Fetched.responded response) downloaded warnings = after_response response warnings

-- None is fuel that ran out. A client answers by the requested size: no size is requested twice.
unfoldable pub fetch_loop : ℕ → (ℕ → Fetched) → ℕ → ℕ → List FetchWarning → Option HeaderFetchResult
unfolding fetch_round
fetch_loop zero client requested downloaded warnings = none
fetch_loop (suc fuel) client requested downloaded warnings =
    elim (leb requested max_header_download_bytes) [
      | false ↦ some (record {
        header = none;
        bytes_downloaded = downloaded;
        warnings = warnings ++ FetchWarning.over_budget ∷ [];
      })
      | true ↦ elim (fetch_round (client requested) downloaded warnings) [
        | Round.stop result ↦ some result
        | Round.grow downloaded' warnings' ↦
            fetch_loop fuel client (requested * range_growth_factor) downloaded' warnings'
      ]
    ]

-- Six ranges fit in the budget, and a seventh round ends the loop.
unfoldable pub fetch_gguf_header : (ℕ → Fetched) → Option HeaderFetchResult
unfolding fetch_loop
fetch_gguf_header client = fetch_loop 7 client initial_header_range_bytes 0 []
