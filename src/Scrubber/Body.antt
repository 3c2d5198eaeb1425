-- ===== src/Scrubber/Body.antt =====
-- `bodyPlan` of internal/provider/scrubber.go: what follows a request's headers.
use http_broker.Base.{
  ℕ, suc, ◌≡◌, refl, Bool, true, false, ◌||◌, Option, none, some, [], ◌∷◌, ◌++◌, Bytes, codes, ◌==◌,
  if◌then◌else◌, take, drop,
}
use http_broker.Scrubber.Text.{
  lf, index, index_byte, equal_fold, to_lower, contains, trim_right_cr, trim_space, atoi_nonneg,
}

pub data BodyMode : Type 0 where
  body_none body_length body_pass_through : BodyMode

-- The variables of the loop; `none` for a `contentLength` of -1.
pub record Accounting : Type 0 where
  pub content_length : Option ℕ
  pub chunked : Bool
  pub conn_close : Bool

unfoldable pub note_header : Bytes → Bytes → Accounting → Accounting
unfolding equal_fold to_lower contains atoi_nonneg
note_header name value a =
    if equal_fold name (codes "content-length")
    then elim (atoi_nonneg value) [ none ↦ a | some n ↦ record a { content_length = some n } ]
    else if equal_fold name (codes "transfer-encoding")
    then record a { chunked = true }
    else if equal_fold name (codes "connection")
    then record a { conn_close = contains (to_lower value) (codes "close") }
    else a

-- The body of the loop for one line.
unfoldable pub note_line : Bytes → Accounting → Accounting
note_line line a = elim (index_byte line b':') [
  | none ↦ a
  | some ci ↦ if ci == 0 then a else note_header (take ci line) (trim_space (drop (suc ci) line)) a
]

-- The loop; `line` holds the bytes since the last line feed. What no line feed ends is not read.
unfoldable pub note_lines : Bytes → Bytes → Accounting → Accounting
note_lines [] line a = a
note_lines (c ∷ rest) line a = elim (c == lf) [
  | true ↦ note_lines rest [] (note_line (trim_right_cr line) a)
  | false ↦ note_lines rest (line ++ c ∷ []) a
]

unfoldable pub body_plan : Bytes → ℕ × BodyMode
body_plan header =
    let a =
      note_lines header []
        (record { content_length = none; chunked = false; conn_close = false }) in
    if a.conn_close || a.chunked
    then (0, body_pass_through)
    else elim a.content_length [ none ↦ (0, body_none) | some n ↦ (n, body_length) ]

counts_body :
    body_plan (codes "POST / HTTP/1.1\r\nContent-Length:  12 \r\n\r\n") ≡ (12, body_length)
unfolding body_plan note_lines note_line trim_right_cr index_byte trim_space note_header
counts_body = refl

closes : body_plan (codes "GET / HTTP/1.1\r\nConnection: Close\r\n\r\n") ≡ (0, body_pass_through)
unfolding body_plan note_lines note_line trim_right_cr index_byte trim_space note_header index
closes = refl
