-- ===== src/Version.antt =====
-- Versions of podio (src/podioVersion.in.h): three 16-bit numbers, their order, and their encoding in
-- 64 bits.
use podio.Base.{ℕ, ◌+◌, ◌*◌, ◌/◌, ◌%◌, ◌^◌, ◌<◌, ◌≡◌, Bool, true, false, ite, dec_lt, arith}

pub record Version : Type 0 where
  pub major : ℕ
  pub minor : ℕ
  pub patch : ℕ

-- `operator<`, by the first number that differs
unfoldable pub version_lt : Version → Version → Bool
version_lt v o = ite (dec_lt v.major o.major) true (
    ite (dec_lt o.major v.major) false (
      ite (dec_lt v.minor o.minor) true
        (ite (dec_lt o.minor v.minor) false (ite (dec_lt v.patch o.patch) true false))))

-- `PODIO_VERSION`: the parts do not overlap if each has 16 bits.
unfoldable pub encode_version : Version → ℕ
encode_version v = v.major * 2 ^ 32 + v.minor * 2 ^ 16 + v.patch

-- `decode_version`: a mask of the lower bits, then a shift
unfoldable pub decode_version : ℕ → Version
decode_version version = record {
  major = version % 2 ^ 48 / 2 ^ 32 % 2 ^ 16;
  minor = version % 2 ^ 32 / 2 ^ 16 % 2 ^ 16;
  patch = version % 2 ^ 16 % 2 ^ 16;
}

decoded_parts :
    (a b c : ℕ)
    → a < 2 ^ 16
    → b < 2 ^ 16
    → c < 2 ^ 16
    → ((a * 2 ^ 32 + b * 2 ^ 16 + c) % 2 ^ 48 / 2 ^ 32 % 2 ^ 16 ≡ a)
      × ((a * 2 ^ 32 + b * 2 ^ 16 + c) % 2 ^ 32 / 2 ^ 16 % 2 ^ 16 ≡ b)
      × ((a * 2 ^ 32 + b * 2 ^ 16 + c) % 2 ^ 16 % 2 ^ 16 ≡ c)
decoded_parts a b c p q r = omega arith

ordered :
    (v o : Version)
    → v.minor < 2 ^ 16
    → v.patch < 2 ^ 16
    → o.minor < 2 ^ 16
    → o.patch < 2 ^ 16
    → version_lt v o ≡ ite (dec_lt (encode_version v) (encode_version o)) true false
unfolding encode_version version_lt
ordered v o b c e f = ground arith

-- A version whose three numbers have 16 bits is decoded from its encoding as it was, and versions
-- are ordered as their encodings are.
pub decode_version-encode_version :
    (v o : Version)
    → v.major < 2 ^ 16
    → v.minor < 2 ^ 16
    → v.patch < 2 ^ 16
    → o.major < 2 ^ 16
    → o.minor < 2 ^ 16
    → o.patch < 2 ^ 16
    → (decode_version (encode_version v) ≡ v)
      × (version_lt v o ≡ ite (dec_lt (encode_version v) (encode_version o)) true false)
unfolding decode_version encode_version version_lt
decode_version-encode_version v o a b c d e f =
    (ground (arith, decoded_parts v.major v.minor v.patch a b c), ordered v o b c e f)
