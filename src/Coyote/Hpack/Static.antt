-- ===== src/Coyote/Hpack/Static.antt =====
-- crates/tomcatrs-coyote/src/hpack.rs: the static table of RFC 7541, Appendix A.
use michael.Prelude.{List, [], ◌∷◌}
use michael.Prelude.Text.{Bytes, codes}

abbrev pub static_table : List (Bytes × Bytes)
static_table =
    (codes ":authority", [])
    ∷ (codes ":method", codes "GET")
    ∷ (codes ":method", codes "POST")
    ∷ (codes ":path", codes "/")
    ∷ (codes ":path", codes "/index.html")
    ∷ (codes ":scheme", codes "http")
    ∷ (codes ":scheme", codes "https")
    ∷ (codes ":status", codes "200")
    ∷ (codes ":status", codes "204")
    ∷ (codes ":status", codes "206")
    ∷ (codes ":status", codes "304")
    ∷ (codes ":status", codes "400")
    ∷ (codes ":status", codes "404")
    ∷ (codes ":status", codes "500")
    ∷ (codes "accept-charset", [])
    ∷ (codes "accept-encoding", codes "gzip, deflate")
    ∷ (codes "accept-language", [])
    ∷ (codes "accept-ranges", [])
    ∷ (codes "accept", [])
    ∷ (codes "access-control-allow-origin", [])
    ∷ (codes "age", [])
    ∷ (codes "allow", [])
    ∷ (codes "authorization", [])
    ∷ (codes "cache-control", [])
    ∷ (codes "content-disposition", [])
    ∷ (codes "content-encoding", [])
    ∷ (codes "content-language", [])
    ∷ (codes "content-length", [])
    ∷ (codes "content-location", [])
    ∷ (codes "content-range", [])
    ∷ (codes "content-type", [])
    ∷ (codes "cookie", [])
    ∷ (codes "date", [])
    ∷ (codes "etag", [])
    ∷ (codes "expect", [])
    ∷ (codes "expires", [])
    ∷ (codes "from", [])
    ∷ (codes "host", [])
    ∷ (codes "if-match", [])
    ∷ (codes "if-modified-since", [])
    ∷ (codes "if-none-match", [])
    ∷ (codes "if-range", [])
    ∷ (codes "if-unmodified-since", [])
    ∷ (codes "last-modified", [])
    ∷ (codes "link", [])
    ∷ (codes "location", [])
    ∷ (codes "max-forwards", [])
    ∷ (codes "proxy-authenticate", [])
    ∷ (codes "proxy-authorization", [])
    ∷ (codes "range", [])
    ∷ (codes "referer", [])
    ∷ (codes "refresh", [])
    ∷ (codes "retry-after", [])
    ∷ (codes "server", [])
    ∷ (codes "set-cookie", [])
    ∷ (codes "strict-transport-security", [])
    ∷ (codes "transfer-encoding", [])
    ∷ (codes "user-agent", [])
    ∷ (codes "vary", [])
    ∷ (codes "via", [])
    ∷ (codes "www-authenticate", [])
    ∷ []
