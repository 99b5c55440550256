-- ===== src/Std/FilePath.antt =====
-- `std::path::Path` over texts.
use fips_shield.Base.{[], ◌∷◌, ◌==◌, if◌then◌else◌}
use fips_shield.Std.Text.{Text}

-- `Path::join` of a relative path
unfoldable pub join : Text → Text → Text
join [] name = name
join (c ∷ []) name = if c == b'/' then b'/' ∷ name else c ∷ b'/' ∷ name
join (c ∷ d ∷ dir) name = c ∷ join (d ∷ dir) name
