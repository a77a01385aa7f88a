-- ===== src/Db/Fingerprint.antt =====
-- The fingerprint of a record's content in crates/mh-db/src/lib.rs.
use Prim.Native.Nat.{bit_xor}
use magazine_core.Base.{
  ℕ, zero, suc, ◌+◌, ◌*◌, ◌/◌, ◌%◌, ◌^◌, List, [], ◌∷◌, ◌++◌, Option, none, some, ltb,
  if◌then◌else◌,
}
use magazine_core.Text.{Text, codes}
use magazine_core.Text.Utf8.{as_bytes}
use magazine_core.Json.{Value, Items, null, string, array, object, nil, cons, end}
use magazine_core.Protocol.Message.{member}
use magazine_core.Protocol.Canonical.{canonical_json}
use magazine_core.Domain.Record.{SourceRecord, ExternalLink}

-- The loop of `fnv1a64`: the multiplication wraps around.
unfoldable pub fnv_from : ℕ → List ℕ → ℕ
fnv_from hash [] = hash
fnv_from hash (byte ∷ bytes) = fnv_from (bit_xor hash byte * 0x100000001b3 % 2 ^ 64) bytes

unfoldable pub fnv1a64 : List ℕ → ℕ
fnv1a64 = fnv_from 0xcbf29ce484222325

unfoldable pub hex_digit : ℕ → ℕ
hex_digit n = if ltb n 10 then n + b'0' else n + 87

-- Hexadecimal digits, as many as asked for, in front of others.
unfoldable pub hex_digits : ℕ → ℕ → Text → Text
hex_digits zero n behind = behind
hex_digits (suc count) n behind = hex_digits count (n / 16) (hex_digit (n % 16) ∷ behind)

unfoldable pub texts_value : List Text → Items
texts_value [] = nil
texts_value (text ∷ texts) = cons (string text) (texts_value texts)

unfoldable pub optional_value : Option Text → Value
optional_value none = null
optional_value (some text) = string text

unfoldable pub link_value : ExternalLink → Value
link_value link = object (
    member "url" (string link.url) (
      member "provider" (optional_value link.provider) (
        member "label" (optional_value link.label) (
          member "kind" (optional_value link.kind) (
            member "external_id" (optional_value link.external_id)
              (member "metadata" (object link.metadata) end))))))

unfoldable pub links_value : List ExternalLink → Items
links_value [] = nil
links_value (link ∷ links) = cons (link_value link) (links_value links)

unfoldable pub content_value : SourceRecord → Option Text → Value
content_value r effective_release_date = object (
    member "source_name" (string r.source_name) (
      member "source_url" (string r.source_url) (
        member "title" (string r.title) (
          member "brand_raw" (string r.brand_raw) (
            member "performers_raw" (array (texts_value r.performers_raw)) (
              member "cover_urls" (array (texts_value r.cover_urls)) (
                member "page_urls" (array (texts_value r.page_urls)) (
                  member "external_links" (array (links_value r.external_links)) (
                    member "issue_no" (optional_value r.issue_no) (
                      member "release_date" (optional_value effective_release_date) (
                        member "post_date" (optional_value r.post_date) (
                          member "brand_normalized" (optional_value r.brand_normalized) (
                            member "normalizer_id" (optional_value r.normalizer_id) (
                              member "normalizer_version" (optional_value r.normalizer_version)
                                (member "extra" (object r.extra) end)))))))))))))))

-- `content_fingerprint`; its `canonical_json` sorts members as that of the frames does.
unfoldable pub content_fingerprint : (Value → Text) → SourceRecord → Option Text → Text
content_fingerprint to_string record_in effective_release_date =
    let canonical = canonical_json to_string (content_value record_in effective_release_date) in
    codes "fnv1a64:" ++ hex_digits 16 (fnv1a64 (as_bytes canonical)) []
