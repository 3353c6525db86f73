-- ===== src/Security/AccessControl/Limits.antt =====
-- The request limits, all at once.
use michael.Prelude.{ℕ, ◌≤◌, Option, none, some, ok, ◌≡◌, ◌↔◌, arith}
use michael.Security.AccessControl.{RequestLimits, enforce_limits}

-- The declared length of a body, if there is one, is within the limit.
abbrev pub BodyFits : Option ℕ → ℕ → Type 0
BodyFits none limit = Unit {0}
BodyFits (some len) limit = len ≤ limit

-- A request is let through exactly when each of its four measures is within its limit.
pub enforce_limits_iff :
    (limits : RequestLimits) (header_count header_bytes uri_len : ℕ) (content_length : Option ℕ)
    → (enforce_limits limits header_count header_bytes uri_len content_length ≡ ok tt) ↔ (
        (header_count ≤ limits.max_header_count)
        × (header_bytes ≤ limits.max_header_size)
        × (uri_len ≤ limits.max_uri_len)
        × BodyFits content_length limits.max_post_size)
unfolding enforce_limits
enforce_limits_iff limits c b u none = ground arith
enforce_limits_iff limits c b u (some len) = ground arith
