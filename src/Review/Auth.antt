-- ===== src/Review/Auth.antt =====
-- auth.py and signing.py: the credentials of a reviewer, and the signature of the body that is
-- posted. The handlers of App stand behind `require_basic`.
pub mod Laws
use n8n_production_systems.Text.{Text, CharDb, codes, is_empty}
use n8n_production_systems.Text.Digest.{compare_digest}
use n8n_production_systems.Review.App.{State, World, Request, Verb, handle}
use n8n_production_systems.Common.{
  ℕ, Bool, true, false, not, ◌&&◌, ◌||◌, ◌==◌, if◌then◌else◌, String, ◌++◌, length, Outcome, ok,
  raises, unauthorized, ◌>>=◌,
}

-- the fields of `Settings` that are read here
pub record Settings : Type 0 where
  pub review_ui_user : Text
  pub review_ui_password : Text
  pub review_ui_actor_id : String

pub record Credentials : Type 0 where
  pub username : Text
  pub password : Text

-- the actor, or an `HTTPException` with 401
unfoldable pub require_basic : Credentials → Settings → Outcome String
require_basic credentials settings = do
  user_ok ← compare_digest credentials.username settings.review_ui_user
  password_ok ← compare_digest credentials.password settings.review_ui_password
  (if user_ok && password_ok then ok settings.review_ui_actor_id else raises unauthorized)

-- the form of a decision
pub record Form : Type 0 where
  pub verb : Verb
  pub id : ℕ
  pub reason : Text

acted : CharDb → World → State → Form → Outcome String → Outcome String × State
acted chars w s form (raises e) = (raises e, s)
acted chars w s form (ok actor) =
    handle chars w s
      (record { verb = form.verb; id = form.id; actor = actor; reason = form.reason })

-- `reviews_approve` and `reviews_reject`, with their dependency on `_actor`
unfoldable pub submit :
    CharDb → Settings → World → State → Credentials → Form → Outcome String × State
unfolding acted
submit chars settings w s credentials form =
    acted chars w s form (require_basic credentials settings)

-- The HMAC is a function from a key and a body to a hexadecimal text.
module _ {Bytes : Type 0} (hexdigest : Text → Bytes → Text) where
  unfoldable pub sign_body : Text → Bytes → Text
  sign_body secret body = codes "sha256=" ++ hexdigest secret body

unfoldable pub signatures_match : Text → Text → Outcome Bool
signatures_match expected provided =
    if is_empty expected || is_empty provided
    then ok false
    else if not (length expected == length provided)
    then ok false
    else compare_digest expected provided
