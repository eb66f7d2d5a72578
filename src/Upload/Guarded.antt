-- ===== src/Upload/Guarded.antt =====
-- The upload behind the check of the token.
use n8n_production_systems.Text.{Text, CharDb}
use n8n_production_systems.Token.{require_internal_token}
use n8n_production_systems.Upload.{State, Response, UploadFile, upload_document}
use n8n_production_systems.Common.{ℕ, List, Bool, Option, Outcome, ok, raises}

after_check : Outcome Bool → Response × State → State → Outcome Response × State
after_check (raises e) answered s = (raises e, s)
after_check (ok b) answered s = (ok answered.0, answered.1)

module _ (chars : CharDb) (sha256 : List ℕ → Text) where
  unfoldable pub post_document :
      Text → Option Text → State → ℕ → Option UploadFile → Outcome Response × State
  unfolding after_check
  post_document token header s new_id file =
      after_check (require_internal_token token header) (upload_document chars sha256 s new_id file)
        s
