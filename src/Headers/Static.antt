-- ===== src/Headers/Static.antt =====
-- The static table of src/dependencies/hpack/header.cpp (RFC 7541, Appendix A), and its strings as
-- octets.
use Prim.Native.String.{String}
use Prim.Native.Char.{code}
use shitty.Prelude.{ℕ, List, [], ◌∷◌}

-- The octets of an ASCII literal.
unfoldable pub octets : String → List ℕ
octets String.[] = []
octets (String.◌∷◌ c s) = code c ∷ octets s

pub record StaticTableEntry : Type 0 where
  pub name : List ℕ
  pub value : List ℕ

abbrev entry : String → String → StaticTableEntry
entry name value = record { name = octets name; value = octets value }

-- The entry at 0 is no valid index.
unfoldable pub static_table : List StaticTableEntry
unfolding octets
static_table =
    entry "" ""
    ∷ entry ":authority" ""
    ∷ entry ":method" "GET"
    ∷ entry ":method" "POST"
    ∷ entry ":path" "/"
    ∷ entry ":path" "/index.html"
    ∷ entry ":scheme" "http"
    ∷ entry ":scheme" "https"
    ∷ entry ":status" "200"
    ∷ entry ":status" "204"
    ∷ entry ":status" "206"
    ∷ entry ":status" "304"
    ∷ entry ":status" "400"
    ∷ entry ":status" "404"
    ∷ entry ":status" "500"
    ∷ entry "accept-charset" ""
    ∷ entry "accept-encoding" "gzip, deflate"
    ∷ entry "accept-language" ""
    ∷ entry "accept-ranges" ""
    ∷ entry "accept" ""
    ∷ entry "access-control-allow-origin" ""
    ∷ entry "age" ""
    ∷ entry "allow" ""
    ∷ entry "authorization" ""
    ∷ entry "cache-control" ""
    ∷ entry "content-disposition" ""
    ∷ entry "content-encoding" ""
    ∷ entry "content-language" ""
    ∷ entry "content-length" ""
    ∷ entry "content-location" ""
    ∷ entry "content-range" ""
    ∷ entry "content-type" ""
    ∷ entry "cookie" ""
    ∷ entry "date" ""
    ∷ entry "etag" ""
    ∷ entry "expect" ""
    ∷ entry "expires" ""
    ∷ entry "from" ""
    ∷ entry "host" ""
    ∷ entry "if-match" ""
    ∷ entry "if-modified-since" ""
    ∷ entry "if-none-match" ""
    ∷ entry "if-range" ""
    ∷ entry "if-unmodified-since" ""
    ∷ entry "last-modified" ""
    ∷ entry "link" ""
    ∷ entry "location" ""
    ∷ entry "max-forwards" ""
    ∷ entry "proxy-authenticate" ""
    ∷ entry "proxy-authorization" ""
    ∷ entry "range" ""
    ∷ entry "referer" ""
    ∷ entry "refresh" ""
    ∷ entry "retry-after" ""
    ∷ entry "server" ""
    ∷ entry "set-cookie" ""
    ∷ entry "strict-transport-security" ""
    ∷ entry "transfer-encoding" ""
    ∷ entry "user-agent" ""
    ∷ entry "vary" ""
    ∷ entry "via" ""
    ∷ entry "www-authenticate" ""
    ∷ []
