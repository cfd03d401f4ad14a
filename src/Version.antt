-- ===== src/Version.antt =====
-- src/cymo_version.c and include/cymo_version.h: the version of the library as a number and as text.
use libcymo.Common.{
  ℕ, ◌+◌, ◌*◌, ◌/◌, ◌%◌, ◌^◌, ◌<◌, ◌≡◌, refl, arith, Bool, false, List, [], ◌∷◌, ◌++◌,
  if◌then◌else◌,
}

abbrev pub version_major : ℕ
version_major = 0

abbrev pub version_minor : ℕ
version_minor = 0

abbrev pub version_patch : ℕ
version_patch = 1

abbrev pub version_is_release : Bool
version_is_release = false

-- The text "dev".
abbrev pub version_suffix : List ℕ
version_suffix = b'd' ∷ b'e' ∷ b'v' ∷ []

-- The parts fit in their bits, so that `|` is `+`.
abbrev pub version_hex : ℕ → ℕ → ℕ → ℕ
version_hex major minor patch = major * 2 ^ 16 + minor * 2 ^ 8 + patch

-- A number of one digit as it stands in the source.
abbrev pub stringify : ℕ → List ℕ
stringify v = (b'0' + v) ∷ []

abbrev pub version_string_base : List ℕ
version_string_base =
    stringify version_major ++ b'.' ∷ (stringify version_minor ++ b'.' ∷ stringify version_patch)

unfoldable pub cm_version : ℕ
cm_version = version_hex version_major version_minor version_patch

unfoldable pub cm_version_string : List ℕ
cm_version_string =
    if version_is_release then version_string_base else version_string_base ++ b'-' ∷ version_suffix

-- The parts of a version come back from its number, for a minor version and a patch below 256.
pub version_hex-parts :
    (major minor patch : ℕ)
    → minor < 256
    → patch < 256
    → let v = version_hex major minor patch in
      (v / 2 ^ 16 ≡ major) × (v / 2 ^ 8 % 256 ≡ minor) × (v % 256 ≡ patch)
version_hex-parts major minor patch h k = (omega arith, omega arith, omega arith)

cm_version_parts : (cm_version / 2 ^ 16 ≡ version_major) × (cm_version % 256 ≡ version_patch)
unfolding cm_version
cm_version_parts = (refl, refl)

cm_version_string_lem :
    cm_version_string ≡ b'0' ∷ b'.' ∷ b'0' ∷ b'.' ∷ b'1' ∷ b'-' ∷ b'd' ∷ b'e' ∷ b'v' ∷ []
unfolding cm_version_string
cm_version_string_lem = refl
