-- ===== src/Versions.antt =====
-- domain/versions.py: version references and the runtime manifest.
use sopara.Prelude.{
  ℕ, String, Bool, not, ◌&&◌, ◌||◌, List, length, all, any, codes, is_blank, is_empty, leb, ◌==◌,
  null,
}
use sopara.Prelude.Int.{ℤ, pos, ltb_ℤ}
use sopara.Errors.{Result, ok, raise_if, ◌>>◌}

-- `SHA256_PATTERN.fullmatch`: sixty-four lower-case hexadecimal digits.
abbrev pub is_hex_digit : ℕ → Bool
is_hex_digit c = (leb b'0' c && leb c b'9') || (leb b'a' c && leb c b'f')

unfoldable pub is_sha256 : String → Bool
is_sha256 s = length (codes s) == 64 && all is_hex_digit (codes s)

pub record VersionRef : Type 0 where
  pub component : String
  pub version : String
  pub sha256 : String

unfoldable pub check_version : VersionRef → Result VersionRef
check_version v = do
  raise_if (is_blank v.component || is_blank v.version) "component and version are required"
  raise_if (not (is_sha256 v.sha256)) "version digest must be a lowercase SHA-256"
  ok v

pub record RuntimeManifest : Type 0 where
  pub manifest_version : String
  pub dataset : VersionRef
  pub calendar : VersionRef
  pub feature : VersionRef
  pub strategy : VersionRef
  pub simulator : VersionRef
  pub cost_model : VersionRef
  pub risk_policy : VersionRef
  pub input_sha256 : List String
  pub seed : ℤ

unfoldable pub check_manifest : RuntimeManifest → Result RuntimeManifest
check_manifest m = do
  raise_if (is_empty m.manifest_version) "manifest version is required"
  raise_if (ltb_ℤ m.seed (pos 0)) "seed cannot be negative"
  raise_if (null m.input_sha256 || any (λ digest. not (is_sha256 digest)) m.input_sha256)
      "manifest inputs require lowercase SHA-256 digests"
  ok m
