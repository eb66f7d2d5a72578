-- ===== src/Llm/Laws.antt =====
-- The answers of the stand-in, by its mode.
use n8n_production_systems.Text.{Text, codes}
use n8n_production_systems.Text.Show.{show}
use n8n_production_systems.Llm.{
  AdminMode, invalid_json, timeout, rate_limited, server_error, normal, ServiceState,
  ChatCompletionRequest, openai_error, Response, Host, count_tokens, digest_of, completion_response,
  content_of, lookup_fixture, chat_completions, set_mode,
}
use n8n_production_systems.Common.{◌+◌, ◌*◌, ◌≤◌, ◌≡◌, refl, none, some, [], ◌∷◌, length, arith}

-- A text of n characters counts as n / 4 tokens, rounded up.
pub count_tokens_bounds :
    (s : Text) → (length s ≤ 4 * count_tokens s) × (4 * count_tokens s ≤ length s + 3)
unfolding count_tokens
count_tokens_bounds [] = (omega arith, omega arith)
count_tokens_bounds (c ∷ s) = (ground arith, ground arith)

-- The answer of a stand-in whose mode is set to `mode`.
abbrev answer_of : Host → AdminMode → ServiceState → ChatCompletionRequest → Response
answer_of host mode state body = chat_completions host (set_mode mode state) body

-- With the mode set, a request is answered with: an error 500; an error 429 that says when to try
-- again; a completion that is no JSON; or the completion of the normal mode, which in the mode
-- timeout comes only after the time that is set.
pub chat_completions-set_mode :
    (host : Host) (state : ServiceState) (body : ChatCompletionRequest)
    → (answer_of host server_error state body
        ≡ record { waits = 0; answer = openai_error 500 (codes "internal_error") none })
      × (answer_of host rate_limited state body ≡ record {
        waits = 0;
        answer = openai_error 429 (codes "rate_limit_exceeded") (some (show state.retry_after_s));
      })
      × (answer_of host invalid_json state body
          ≡ record { waits = 0; answer = completion_response host body (codes "not-json{") })
      × ((answer_of host timeout state body) ≡ record {
        waits = state.timeout_seconds;
        answer = (answer_of host normal state body).answer;
      })
      × ((answer_of host normal state body).answer
          ≡ completion_response host body (
              content_of host
                (lookup_fixture host (digest_of host body) state.fixtures_dir)
                body.schema))
unfolding chat_completions set_mode
chat_completions-set_mode host state body = (refl, refl, refl, refl, refl)
