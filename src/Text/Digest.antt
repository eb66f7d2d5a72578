-- ===== src/Text/Digest.antt =====
-- `hmac.compare_digest` of two texts: it refuses texts that are not ASCII with a `TypeError`.
use n8n_production_systems.Text.{Text, text_eq, all_ascii}
use n8n_production_systems.Common.{Bool, ◌&&◌, if◌then◌else◌, Outcome, ok, raises, type_error}

unfoldable pub compare_digest : Text → Text → Outcome Bool
compare_digest provided expected =
    if all_ascii provided && all_ascii expected
    then ok (text_eq provided expected)
    else raises type_error
