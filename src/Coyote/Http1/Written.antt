-- ===== src/Coyote/Http1/Written.antt =====
-- The bytes of a response: a client that splits them as this server splits those of a request finds
-- the headers that were meant.
use michael.Prelude.{◌+◌, ◌≤◌, true, false, ◌++◌, ◌≡◌, length, all, is_empty}
use michael.Prelude.Text.{Bytes, codes, contains}
use michael.Prelude.Text.Trim.{trim}
use michael.Security.AccessControl.{RequestLimits}
use michael.Coyote.Http1.{Status, is_token_char}
use michael.Coyote.Http1.Decimal.{decimal_text}
use michael.Coyote.Http1.Serving.{reason_phrase}

-- A header that survives its line: a name of token characters, and a value without a CR and without
-- whitespace at its ends, in a line within the limit.
pub record IsWritable (limits : RequestLimits) (field : Bytes × Bytes) : Type 0 where
  pub named : is_empty field.0 ≡ false
  pub token : all is_token_char field.0 ≡ true
  pub one_line : contains field.1 b'\r' ≡ false
  pub trimmed : trim field.1 ≡ field.1
  pub fits : length field.0 + length field.1 + 2 ≤ limits.max_header_size

abbrev header_line : Bytes × Bytes → Bytes
header_line (name, value) = (name ++ codes ": ") ++ value

-- The first line of a response.
abbrev pub status_line : Status → Bytes
status_line status =
    ((codes "HTTP/1.1 " ++ decimal_text status) ++ codes " ") ++ reason_phrase status
